-- ===== src/Tests/Deadline.antt =====
-- Calls whose time is up, at concrete inputs.
use pure_grpc_rs.Base.{Bool, true, List, [], ◌∷◌, some, ◌≡◌, refl, Result, err}
use pure_grpc_rs.Base.Text.{ascii}
use pure_grpc_rs.Base.Words.{Bytes}
use pure_grpc_rs.Call.{delivered_back}
use pure_grpc_rs.Client.Single.{unary}
use pure_grpc_rs.Client.{create_response}
use pure_grpc_rs.Code.{Code}
use pure_grpc_rs.Codec.Decode.{BodyEvent}
use pure_grpc_rs.Codec.Encode
use pure_grpc_rs.Crates.Model.{model_crates, Entries}
use pure_grpc_rs.Deadline.{
  deadline_exceeded, wrapped_call, h3_answer, channel_call, h3_channel_call, wrapped_call_late,
  unary_late,
}
use pure_grpc_rs.Request.{HttpRequest, HttpResponse, Duration}
use pure_grpc_rs.Status.{Status, ErrorNode, other_error}
use pure_grpc_rs.Tests.Codec.{display, byte_encoder, byte_decoder}
use pure_grpc_rs.Tests.Negotiation.{one_uri, caller, question}
use pure_grpc_rs.Tests.Unary.{limited, prepared, as_expected}

abbrev second : Duration
second = record { secs = 1; nanos = 0 }

abbrev slow : Duration → Bool
slow d = true

abbrev asked : HttpRequest Entries (Unit {0}) Bytes
asked = record {
  method = "POST";
  uri = "/a/b";
  version = "HTTP/2.0";
  headers = [];
  extensions = tt;
  body = 1 ∷ [];
}

abbrev answers : HttpRequest Entries (Unit {0}) Bytes → HttpResponse Entries (Unit {0}) (List Bytes)
answers req = record {
  status = 200;
  version = "HTTP/2.0";
  headers = [];
  extensions = req.extensions;
  body = req.body ∷ [];
}

wrapped_call_late_example :
    (f : Status Entries) × (create_response model_crates one_uri byte_decoder caller tt (
        delivered_back model_crates [] (
          wrapped_call model_crates tt [] slow answers
            (λ (c e : Unit {0}). c)
            (some tt)
            (some second)
            asked))
      ≡ err f)
    × (create_response model_crates one_uri byte_decoder caller tt (
          delivered_back model_crates []
            (h3_answer model_crates tt [] slow answers (some second) asked))
        ≡ err f)
    × (f.code ≡ Code.deadline_exceeded)
    × (f.message ≡ ascii "request timed out")
wrapped_call_late_example =
    wrapped_call_late model_crates one_uri byte_decoder caller tt [] tt [] slow answers
      (λ (c e : Unit {0}). c) (some tt) second asked refl refl

abbrev unreachable :
    HttpRequest Entries (Unit {0}) (Encode.Body model_crates display byte_encoder)
    → Result
        (ErrorNode Entries × List (ErrorNode Entries))
        (HttpResponse Entries (Unit {0}) (List (BodyEvent Entries)))
unreachable q = err (other_error [], [])

unary_late_example :
    (unary model_crates one_uri display Unit byte_encoder byte_decoder limited tt tt
        (λ q. channel_call model_crates (some second) slow (unreachable q))
        question
        (ascii "/a/b")
      ≡ some (err (deadline_exceeded model_crates (ascii "channel request timed out"))))
    × (unary model_crates one_uri display Unit byte_encoder byte_decoder limited tt tt
          (λ q. h3_channel_call model_crates (some second) slow (unreachable q))
          question
          (ascii "/a/b")
        ≡ some (err (deadline_exceeded model_crates (ascii "h3 channel request timed out"))))
unary_late_example =
    unary_late model_crates one_uri display Unit byte_encoder byte_decoder limited tt tt slow
      unreachable second question (ascii "/a/b") prepared as_expected refl
