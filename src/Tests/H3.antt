-- ===== src/Tests/H3.antt =====
-- Streams over HTTP/3 at concrete inputs, on a stream that keeps what is sent.
use pure_grpc_rs.Base.{
  List, [], ◌∷◌, ◌++◌, Option, none, some, ◌≡◌, refl, arith, ok, Bool, true, false,
}
use pure_grpc_rs.Base.Text.{ascii}
use pure_grpc_rs.Base.Words.{Bytes}
use pure_grpc_rs.Codec.Decode
use pure_grpc_rs.Codec.Decode.Deliver.{frame, Yields}
use pure_grpc_rs.Codec.Decode.Ending.{Ends}
use pure_grpc_rs.Codec.Decode.Stream.{Frames, none_left as no_frames, one_more as one_frame}
use pure_grpc_rs.Codec.Decode.{
  BodyEvent, waiting, data_frame, trailers_frame, failed, request, response, read_flag,
}
use pure_grpc_rs.Codec.Encode
use pure_grpc_rs.Codec.Encode.Sent.{Emits, ends, sends, concludes}
use pure_grpc_rs.Codec.Encode.{client, server, poll_frame, poll_next}
use pure_grpc_rs.Crates.Model.{model_crates, Entries}
use pure_grpc_rs.H3.Carried.{Accepts}
use pure_grpc_rs.H3.Cut.{request_cut, response_cut}
use pure_grpc_rs.H3.Exchange.{response_streamed, request_streamed, Brings}
use pure_grpc_rs.H3.Given.{Gives}
use pure_grpc_rs.H3.{
  DataEvent, data_waiting, data_arrived, TrailersEvent, trailers_waiting, trailers_arrived,
  SendStream, new, send_h3_response, send_request_body,
}
use pure_grpc_rs.Code.{to_header_value}
use pure_grpc_rs.Metadata.{extend_sanitized_into, insert_unless}
use pure_grpc_rs.Request.{HttpResponse}
use pure_grpc_rs.Status.Wire.{SameStatus}
use pure_grpc_rs.Status.{
  Status, to_header_map, add_header, add_message, insert_checked, encoding_set,
}
use pure_grpc_rs.Tests.Codec.{display, byte_encoder, byte_decoder, byte_codec, byte_reads, refusal}
use pure_grpc_rs.Tests.Exchange.{
  two, source_of_two, two_messages, ok_headers, ok_headers_written, failure_headers, bytes_of_empty,
}

abbrev keeping : SendStream Entries
keeping = record {
  Send = Bytes × Option Entries × Bool;
  send_response = λ status h s. (s, ok tt);
  send_data = λ b s. ((s.0 ++ b, s.1, s.2), ok tt);
  send_trailers = λ h s. ((s.0, some h, s.2), ok tt);
  finish = λ s. ((s.0, s.1, true), ok tt);
  written = λ s. s.0;
  trailers = λ s. s.1;
  is_finished = λ s. s.2;
  written-send_response = λ status h s. refl;
  trailers-send_response = λ status h s. refl;
  written-send_data = λ b s e. refl;
  trailers-send_data = λ b s. refl;
  written-send_trailers = λ h s. refl;
  trailers-send_trailers = λ h s e. refl;
  written-finish = λ s. refl;
  trailers-finish = λ s. refl;
  is_finished-send_response = λ status h s. refl;
  is_finished-send_data = λ b s. refl;
  is_finished-send_trailers = λ h s. refl;
  is_finished-finish = λ s e. refl;
}

abbrev always : Accepts keeping
always = record {
  response = λ status h s. refl;
  data_sent = λ b s. refl;
  trailers_sent = λ h s. refl;
  finished = λ s. refl;
}

-- The bytes of the two frames, cut inside of both.
abbrev cut : List DataEvent
cut =
    data_arrived (0 ∷ 0 ∷ 0 ∷ [])
    ∷ data_waiting
    ∷ data_arrived (0 ∷ 2 ∷ 1 ∷ 2 ∷ 0 ∷ 0 ∷ 0 ∷ [])
    ∷ data_arrived (0 ∷ 1 ∷ 3 ∷ [])
    ∷ []

abbrev late_trailers : Entries → List (TrailersEvent Entries)
late_trailers h = trailers_waiting ∷ trailers_arrived h ∷ []

abbrev frames_of_two : List (BodyEvent Entries) → List (BodyEvent Entries)
frames_of_two tail = data_frame (frame 0 (1 ∷ 2 ∷ [])) ∷ data_frame (frame 0 (3 ∷ [])) ∷ tail

abbrev answer :
    List (BodyEvent Entries) → HttpResponse Entries (Unit {0}) (List (BodyEvent Entries))
answer body = record {
  status = 200;
  version = "HTTP/3.0";
  headers = [];
  extensions = tt;
  body = body;
}

answer_emitted :
    Emits model_crates display byte_encoder
      (Encode.new model_crates display byte_encoder server tt (source_of_two []) none (some 100))
      (frames_of_two (trailers_frame ok_headers ∷ []))
unfolding poll_frame poll_next to_header_map add_header add_message extend_sanitized_into
    insert_unless to_header_value
answer_emitted = sends refl (sends refl (concludes refl))

request_emitted :
    Emits model_crates display byte_encoder
      (Encode.new model_crates display byte_encoder client tt (source_of_two []) none (some 100))
      (frames_of_two [])
unfolding poll_frame poll_next
request_emitted = sends refl (sends refl (ends refl))

readable :
    Frames model_crates byte_decoder 4194304 none tt two tt
      (frame 0 (1 ∷ 2 ∷ []) ++ (frame 0 (3 ∷ []) ++ []))
unfolding read_flag
readable =
    one_frame 0 (1 ∷ 2 ∷ []) (1 ∷ 2 ∷ []) none (frame 0 (3 ∷ []) ++ []) refl refl refl (omega arith)
      (omega arith) (byte_reads refl)
      (one_frame 0 (3 ∷ []) (3 ∷ []) none [] refl refl refl (omega arith) (omega arith)
        (byte_reads refl) (no_frames refl))

response_streamed_example :
    ((send_h3_response model_crates keeping
        (answer (frames_of_two (trailers_frame ok_headers ∷ [])))
        ([], none, false)).1
      ≡ ok tt)
    × (body : List (BodyEvent Entries)) × Gives model_crates
        (ascii "h3 client")
        (new (record { incoming = cut; trailing = late_trailers ok_headers }))
        body
    × (last : Decode.Stream model_crates byte_decoder) × Yields model_crates byte_decoder
        (Decode.new model_crates byte_decoder tt body (response 200) none none)
        two
        last
    × Ends model_crates byte_decoder last none (some ok_headers)
response_streamed_example =
    response_streamed model_crates keeping always ([], none, false) refl refl cut
      (late_trailers ok_headers) display byte_encoder byte_decoder byte_codec none (some 100) none
      (omega arith) tt (two_messages []) ok_headers
      (answer (frames_of_two (trailers_frame ok_headers ∷ []))) ok_headers_written refl
      answer_emitted (unfold send_h3_response in (λ _. (refl, refl)))

request_streamed_example :
    (body : List (BodyEvent Entries)) × Gives model_crates
      (ascii "h3")
      (new (record { incoming = cut; trailing = [] }))
      body
    × (last : Decode.Stream model_crates byte_decoder) × Yields model_crates byte_decoder
        (Decode.new model_crates byte_decoder tt body request none none)
        two
        last
    × Ends model_crates byte_decoder last none none
request_streamed_example =
    request_streamed model_crates keeping always ([], none, false) refl refl cut [] display
      byte_encoder byte_decoder byte_codec none (some 100) none (omega arith) tt (two_messages [])
      (frames_of_two []) request_emitted (unfold send_request_body in (λ _. (refl, refl)))

request_cut_example :
    (send_request_body model_crates keeping
        (frames_of_two [] ++ (failed refusal ∷ []))
        ([], none, false)
      ≡ send_request_body model_crates keeping (frames_of_two []) ([], none, false))
    × (keeping.is_finished (
          send_request_body model_crates keeping
            (frames_of_two [] ++ (failed refusal ∷ []))
            ([], none, false))
        ≡ true)
    × (body : List (BodyEvent Entries)) × Gives model_crates
        (ascii "h3")
        (new (record { incoming = cut; trailing = [] }))
        body
    × (last : Decode.Stream model_crates byte_decoder) × Yields model_crates byte_decoder
        (Decode.new model_crates byte_decoder tt body request none none)
        two
        last
    × Ends model_crates byte_decoder last none none
request_cut_example =
    request_cut model_crates keeping always ([], none, false) refl refl cut [] byte_decoder none
      none (frames_of_two []) [] refusal refl readable
      (unfold send_request_body in (λ _. (refl, refl)))

failure_brought :
    Brings model_crates keeping always
      ([], none, false)
      refl
      refl
      cut
      (late_trailers failure_headers)
      (send_h3_response model_crates keeping
        (answer (frames_of_two (failed refusal ∷ [])))
        ([], none, false)).0
unfolding send_h3_response add_header add_message extend_sanitized_into insert_unless
    to_header_value insert_checked encoding_set
failure_brought _ = (refl, refl)

response_cut_example :
    (body : List (BodyEvent Entries)) × Gives model_crates
      (ascii "h3 client")
      (new (record { incoming = cut; trailing = late_trailers failure_headers }))
      body
    × (last : Decode.Stream model_crates byte_decoder) × (f' : Status Entries) × Yields model_crates
        byte_decoder
        (Decode.new model_crates byte_decoder tt body (response 200) none none)
        two
        last
    × Ends model_crates byte_decoder last (some f') none
    × SameStatus model_crates refusal f'
response_cut_example =
    response_cut model_crates keeping always ([], none, false) refl refl cut
      (late_trailers failure_headers) byte_decoder none none (frames_of_two (failed refusal ∷ []))
      readable refusal [] refl (answer (frames_of_two (failed refusal ∷ []))) refl bytes_of_empty tt
      refl refl failure_brought
