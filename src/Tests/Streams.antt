-- ===== src/Tests/Streams.antt =====
-- Runs of the two halves of a stream.
use pure_grpc_rs.Base.{
  ℕ, List, [], ◌∷◌, ◌++◌, Option, none, some, ◌≡◌, refl, arith, ok, err, Poll, ready, true,
}
use pure_grpc_rs.Base.Text.{ascii}
use pure_grpc_rs.Base.Words.{Bytes}
use pure_grpc_rs.Code.{to_header_value}
use pure_grpc_rs.Codec.Decode
use pure_grpc_rs.Codec.Decode.Deliver.{frame, Yields}
use pure_grpc_rs.Codec.Decode.Ending.{Ends, outcome, left_over, response_received}
use pure_grpc_rs.Codec.Decode.Failures.{bad_flag_resumes, poll_next-failed_body}
use pure_grpc_rs.Codec.Decode.Message.{Arrives, decode_chunk-short_header}
use pure_grpc_rs.Codec.Decode.Stream.{Frames, none_left, one_more}
use pure_grpc_rs.Codec.Decode.Total.{poll_next-total}
use pure_grpc_rs.Codec.Decode.{
  BodyEvent, waiting, data_frame, trailers_frame, failed, request, response, read_flag, poll_next,
}
use pure_grpc_rs.Codec.Encode
use pure_grpc_rs.Codec.Encode.Emit.{body_at}
use pure_grpc_rs.Codec.Encode.Trailers.{Encodes, encode_error_trailers}
use pure_grpc_rs.Codec.Encode.Sent.{Emits}
use pure_grpc_rs.Codec.Encode.{server, message, encode_item, encoding_error, trailers_out}
use pure_grpc_rs.Crates.Model.{model_crates, Entries}
use pure_grpc_rs.Status.{
  Status, infer_grpc_status, to_header_map, add_header, add_message, insert_checked, encoding_set,
}
use pure_grpc_rs.Metadata.{extend_sanitized_into, insert_unless}
use pure_grpc_rs.Tests.Codec.{display, byte_encoder, byte_decoder, refusal}

abbrev Stream : Type 0
Stream = Decode.Stream model_crates byte_decoder

abbrev body : List (BodyEvent Entries) → List (BodyEvent Entries)
body tail = data_frame (0 ∷ 0 ∷ 0 ∷ 0 ∷ []) ∷ waiting ∷ data_frame (1 ∷ 7 ∷ []) ∷ tail

framed :
    (limit : ℕ)
    → 4194304 ≡ limit
    → Frames model_crates byte_decoder limit none tt ((7 ∷ []) ∷ []) tt (frame 0 (7 ∷ []) ++ [])
framed limit l =
    one_more 0 (7 ∷ []) (7 ∷ []) none [] refl (unfold read_flag in refl) refl (omega arith)
      (omega (arith, l)) (λ rest. refl) (none_left refl)

response_received_example :
    (last : Stream) × Yields model_crates byte_decoder
      (Decode.new model_crates byte_decoder tt
        (body (trailers_frame [] ∷ []))
        (response 503)
        none
        none)
      ((7 ∷ []) ∷ [])
      last
    × Ends model_crates byte_decoder last
        (outcome model_crates byte_decoder (infer_grpc_status model_crates (some []) 503))
        (left_over model_crates byte_decoder
          (outcome model_crates byte_decoder (infer_grpc_status model_crates (some []) 503))
          [])
response_received_example =
    response_received model_crates byte_decoder (body (trailers_frame [] ∷ [])) [] [] 503 none none
      (framed 4194304 refl) refl

abbrev at_start : List (BodyEvent Entries) → Bytes → Stream
at_start es buf =
    let s : Stream = Decode.new model_crates byte_decoder tt es (response 200) none none in
    record s { inner = record (s.inner) { buf = buf } }

poll_next-total_example :
    (s' : Stream) × (p : Poll (Decode.Item model_crates byte_decoder)) × (poll_next model_crates
        byte_decoder
        (at_start (body []) [])
      ≡ some (s', p))
poll_next-total_example = poll_next-total model_crates byte_decoder (at_start (body []) [])

bad_flag_resumes_example :
    (s' : Stream) × (e : Status Entries) × (poll_next model_crates byte_decoder
        (at_start [] (9 ∷ 0 ∷ 0 ∷ 0 ∷ 0 ∷ 1 ∷ 7 ∷ []))
      ≡ some (s', ready (some (err e))))
    × Arrives model_crates byte_decoder s' (7 ∷ []) tt []
bad_flag_resumes_example =
    bad_flag_resumes model_crates byte_decoder (at_start [] (9 ∷ 0 ∷ 0 ∷ 0 ∷ 0 ∷ 1 ∷ 7 ∷ [])) 9
      (7 ∷ []) [] (7 ∷ []) tt refl refl (omega arith) (omega arith) (omega arith) (omega arith)
      (λ rest. refl)

poll_next-failed_body_example :
    (s1 s2 : Stream) × (poll_next model_crates byte_decoder (at_start (failed refusal ∷ []) [])
      ≡ some (s1, ready (some (err refusal))))
    × (poll_next model_crates byte_decoder s1 ≡ some (s2, ready (some (err refusal))))
    × (poll_next model_crates byte_decoder s2 ≡ some (s2, ready none))
poll_next-failed_body_example =
    poll_next-failed_body model_crates byte_decoder (at_start (failed refusal ∷ []) []) refusal []
      200 tt
      (decode_chunk-short_header model_crates byte_decoder (at_start (failed refusal ∷ []) []) refl
        (omega arith))
      refl refl

abbrev sending : Bytes → Option ℕ → Encode.Source model_crates display byte_encoder
sending buf max =
    (body_at model_crates display byte_encoder server none max tt [] buf [] none).inner

abbrev refused_headers : Entries
refused_headers =
    ("grpc-message", ascii "Error%20encoding:%20empty") ∷ ("grpc-status", ascii "13") ∷ []

refused_headers_written :
    to_header_map model_crates (encoding_error model_crates display byte_encoder refusal)
    ≡ ok refused_headers
unfolding to_header_map add_header add_message insert_checked extend_sanitized_into insert_unless
    to_header_value encoding_set
refused_headers_written = refl

-- A message that goes into the buffer, and then one that is refused.
abbrev lost : Encode.Body model_crates display byte_encoder
lost =
    Encode.new model_crates display byte_encoder server tt
      (message (1 ∷ []) ∷ message [] ∷ message (2 ∷ []) ∷ []) none none

encode_error_trailers_example :
    (b' : Encode.Body model_crates display byte_encoder) × (Encode.poll_frame model_crates display
        byte_encoder lost
      ≡ (b', ready (some (ok (trailers_out refused_headers)))))
    × (b'.inner.buf ≡ frame 0 (1 ∷ []) ++ [])
    × (b'.state.is_end_stream ≡ true)
    × Emits model_crates display byte_encoder lost (trailers_frame refused_headers ∷ [])
encode_error_trailers_example =
    encode_error_trailers model_crates display byte_encoder (message (2 ∷ []) ∷ []) [] [] refusal
      refused_headers
      (Encodes.one_more (1 ∷ []) (1 ∷ []) refl refl (omega arith) (omega arith) Encodes.no_more)
      (omega arith) refl refused_headers_written

at_end :
    Encode.poll_next model_crates display byte_encoder (sending [] none)
    ≡ (sending [] none, ready none)
unfolding Encode.poll_next Encode.poll_source
at_end = refl
