-- ===== src/Tests/Web.antt =====
-- gRPC-Web at concrete inputs.
use pure_grpc_rs.Web.Misread.{poll_frame-misread}
use pure_grpc_rs.Base.{
  ok, pending, ready, List, [], ◌∷◌, none, some, ◌≡◌, refl, arith, All, ◌≤◌, ◌<◌, ◌^◌, length, map,
}
use pure_grpc_rs.Base.Text.{ascii}
use pure_grpc_rs.Base.Words.{same}
use pure_grpc_rs.Codec.Decode.{BodyEvent, waiting, data_frame, trailers_frame}
use pure_grpc_rs.Crates.{first_value}
use pure_grpc_rs.Crates.Model.{model_crates, Entries}
use pure_grpc_rs.Request.{HttpRequest, HttpResponse}
use pure_grpc_rs.Router.{starts_with}
use pure_grpc_rs.Web
use pure_grpc_rs.Web.{contains}
use pure_grpc_rs.Web.Body.{Encoding, binary, base64, GrpcWebCall, trailer_frame, response}
use pure_grpc_rs.Web.Body
use pure_grpc_rs.Web.Sent.{Sent, response-Sent}
use pure_grpc_rs.Web.Service.{call-translated, call-passed_through}
use pure_grpc_rs.Web.Trailers.{read_trailers, read_trailers-trailer_frame, entry_bytes}

abbrev ok_trailers : Entries
ok_trailers = ("grpc-status", b'0' ∷ []) ∷ []

abbrev a_body : List (BodyEvent Entries)
a_body =
    data_frame (0 ∷ 0 ∷ 0 ∷ [])
    ∷ waiting
    ∷ data_frame (0 ∷ 1 ∷ 7 ∷ [])
    ∷ trailers_frame ok_trailers
    ∷ []

abbrev text_request : HttpRequest Entries Unit (List (BodyEvent Entries))
text_request = record {
  method = "POST";
  uri = "/pkg.Service/Method";
  version = "HTTP/1.1";
  headers = ("content-type", ascii "application/grpc-web-text") ∷ [];
  extensions = tt;
  body = [];
}

abbrev native_request : HttpRequest Entries Unit (List (BodyEvent Entries))
native_request = record text_request { headers = ("content-type", ascii "application/grpc") ∷ [] }

abbrev answer :
    HttpRequest Entries Unit (GrpcWebCall Entries)
    → HttpResponse Entries Unit (List (BodyEvent Entries))
answer r = record {
  status = 200;
  version = "HTTP/2.0";
  headers = ("content-type", ascii "application/grpc") ∷ [];
  extensions = r.extensions;
  body = a_body;
}

trailers_IsBytes : All (λ b. b ≤ 255) (trailer_frame model_crates ok_trailers)
unfolding trailer_frame Body.trailer_lines
trailers_IsBytes = ground arith

few_bytes : length (Body.trailer_lines (model_crates.entries ok_trailers)) < 2 ^ 32
unfolding Body.trailer_lines
few_bytes = omega arith

read_trailers-trailer_frame_example :
    read_trailers (trailer_frame model_crates ok_trailers) ≡ some (map entry_bytes ok_trailers)
read_trailers-trailer_frame_example =
    read_trailers-trailer_frame model_crates ok_trailers ground arith few_bytes

response-Sent_example :
    Sent model_crates
      (response base64 a_body)
      base64
      (0 ∷ 0 ∷ 0 ∷ 0 ∷ 1 ∷ 7 ∷ trailer_frame model_crates ok_trailers)
response-Sent_example =
    response-Sent model_crates base64 a_body ok_trailers refl ground arith trailers_IsBytes

call-translated_example :
    Sent model_crates
      (Web.call model_crates answer text_request).body
      base64
      (0 ∷ 0 ∷ 0 ∷ 0 ∷ 1 ∷ 7 ∷ trailer_frame model_crates ok_trailers)
    × (model_crates.http.get "content-type" (Web.call model_crates answer text_request).headers
        ≡ some (ascii "application/grpc-web-text"))
    × (model_crates.http.get "content-length" (Web.call model_crates answer text_request).headers
        ≡ none)
    × (model_crates.http.get "content-type" (Web.to_grpc model_crates text_request.headers)
        ≡ some (ascii "application/grpc"))
    × (model_crates.http.get "te" (Web.to_grpc model_crates text_request.headers)
        ≡ some (ascii "trailers"))
unfolding Web.is_grpc_web Web.content_type_of Web.from_content_type same contains starts_with
    first_value
call-translated_example =
    call-translated model_crates answer text_request refl refl ground arith trailers_IsBytes

call-passed_through_example :
    Sent model_crates
      (Web.call model_crates answer native_request).body
      binary
      (0 ∷ 0 ∷ 0 ∷ 0 ∷ 1 ∷ 7 ∷ trailer_frame model_crates ok_trailers)
    × ((Web.call model_crates answer native_request).headers
        ≡ (answer (Web.wrapped_request model_crates binary native_request (λ m. m))).headers)
unfolding Web.is_grpc_web Web.content_type_of same first_value
call-passed_through_example =
    call-passed_through model_crates answer native_request refl refl ground arith trailers_IsBytes

poll_frame-misread_example :
    (c1 c2 c3 : GrpcWebCall Entries) × (Body.poll_frame model_crates (
        Body.request base64
          (data_frame (ascii "616") ∷ data_frame (ascii "2636") ∷ data_frame (ascii "4") ∷ []))
      ≡ (c1, pending))
    × (Body.poll_frame model_crates c1 ≡ (c2, ready (some (ok (Body.of_data (38 ∷ 54 ∷ []))))))
    × (Body.poll_frame model_crates c2 ≡ (c3, ready (some (ok (Body.of_data (97 ∷ 100 ∷ []))))))
    × (Body.poll_frame model_crates c3 ≡ (c3, ready none))
poll_frame-misread_example =
    poll_frame-misread model_crates (ascii "616") (ascii "2636") (ascii "4") (38 ∷ 54 ∷ [])
      (97 ∷ 100 ∷ []) refl refl refl refl refl refl
