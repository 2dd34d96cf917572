-- ===== src/Tests/Exchange.antt =====
-- Calls between the two ends of a stream.
use pure_grpc_rs.Base.{List, [], ◌∷◌, ◌++◌, none, some, ◌≡◌, refl, arith, ok, All, ◌≤◌}
use pure_grpc_rs.Base.Text.{ascii}
use pure_grpc_rs.Base.Words.{Bytes}
use pure_grpc_rs.Code.{Code, to_header_value}
use pure_grpc_rs.Codec.Decode
use pure_grpc_rs.Codec.Decode.Deliver.{frame, Yields}
use pure_grpc_rs.Codec.Decode.Ending.{Ends}
use pure_grpc_rs.Codec.Decode.{BodyEvent, waiting, data_frame, trailers_frame, request, response}
use pure_grpc_rs.Codec.Encode
use pure_grpc_rs.Codec.Encode.Sent.{Sends, none_left, idle, one_more, Sent}
use pure_grpc_rs.Codec.Encode.{SourceEvent, not_ready, message, broken, client, server}
use pure_grpc_rs.Crates.Model.{model_crates, Entries}
use pure_grpc_rs.Exchange.{client_to_server, server_to_client, server_to_client-failed}
use pure_grpc_rs.Status
use pure_grpc_rs.Status.Wire.{SameStatus}
use pure_grpc_rs.Status.{
  Status, to_header_map, add_header, add_message, insert_checked, encoding_set,
}
use pure_grpc_rs.Metadata.{extend_sanitized_into, insert_unless}
use pure_grpc_rs.Tests.Codec.{display, byte_encoder, byte_decoder, byte_codec, refusal}

abbrev pub two : List Bytes
two = (1 ∷ 2 ∷ []) ∷ (3 ∷ []) ∷ []

abbrev pub wire_of_two : Bytes
wire_of_two = frame 0 (1 ∷ 2 ∷ []) ++ (frame 0 (3 ∷ []) ++ [])

abbrev pub source_of_two : List (SourceEvent Entries Bytes) → List (SourceEvent Entries Bytes)
source_of_two rest = message (1 ∷ 2 ∷ []) ∷ not_ready ∷ message (3 ∷ []) ∷ rest

abbrev cut_body : List (BodyEvent Entries) → List (BodyEvent Entries)
cut_body tail =
    data_frame (0 ∷ 0 ∷ 0 ∷ [])
    ∷ waiting
    ∷ data_frame (0 ∷ 2 ∷ 1 ∷ 2 ∷ 0 ∷ 0 ∷ 0 ∷ [])
    ∷ data_frame (0 ∷ 1 ∷ 3 ∷ [])
    ∷ tail

pub two_messages :
    (rest : List (SourceEvent Entries Bytes))
    → Sends model_crates display byte_encoder none
        (some 100)
        rest
        tt
        (source_of_two rest)
        two
        tt
        wire_of_two
two_messages rest =
    one_more (1 ∷ 2 ∷ []) (1 ∷ 2 ∷ []) refl refl (omega arith) (omega arith)
      (idle (one_more (3 ∷ []) (3 ∷ []) refl refl (omega arith) (omega arith) none_left))

client_to_server_example :
    Sent model_crates display byte_encoder
      (Encode.new model_crates display byte_encoder client tt (source_of_two []) none (some 100))
      wire_of_two
      []
    × (last : Decode.Stream model_crates byte_decoder) × Yields model_crates byte_decoder
        (Decode.new model_crates byte_decoder tt (cut_body []) request none none)
        two
        last
    × Ends model_crates byte_decoder last none none
client_to_server_example =
    client_to_server model_crates display byte_encoder byte_decoder byte_codec none (some 100) none
      (omega arith) tt (cut_body []) refl (two_messages []) refl

abbrev pub ok_headers : Entries
ok_headers = ("grpc-status", ascii "0") ∷ []

pub ok_headers_written :
    to_header_map model_crates (Status.new model_crates Code.ok []) ≡ ok ok_headers
unfolding to_header_map add_header add_message extend_sanitized_into insert_unless to_header_value
ok_headers_written = refl

abbrev pub failure_headers : Entries
failure_headers = ("grpc-message", ascii "empty") ∷ ("grpc-status", ascii "3") ∷ []

failure_headers_written : to_header_map model_crates refusal ≡ ok failure_headers
unfolding to_header_map add_header add_message extend_sanitized_into insert_unless to_header_value
    insert_checked encoding_set
failure_headers_written = refl

server_to_client_example :
    Sent model_crates display byte_encoder
      (Encode.new model_crates display byte_encoder server tt (source_of_two []) none (some 100))
      wire_of_two
      (trailers_frame ok_headers ∷ [])
    × (last : Decode.Stream model_crates byte_decoder) × Yields model_crates byte_decoder
        (Decode.new model_crates byte_decoder tt
          (cut_body (trailers_frame ok_headers ∷ []))
          (response 200)
          none
          none)
        two
        last
    × Ends model_crates byte_decoder last none (some ok_headers)
server_to_client_example =
    server_to_client model_crates display byte_encoder byte_decoder byte_codec none (some 100) none
      (omega arith) tt (cut_body (trailers_frame ok_headers ∷ [])) refl ok_headers refl 200
      (two_messages []) ok_headers_written refl

pub bytes_of_empty : All (λ b. b ≤ 255) (ascii "empty")
bytes_of_empty = ground arith

server_to_client-failed_example :
    Sent model_crates display byte_encoder
      (Encode.new model_crates display byte_encoder server tt
        (source_of_two (broken refusal ∷ []))
        none
        (some 100))
      wire_of_two
      (trailers_frame failure_headers ∷ [])
    × (last : Decode.Stream model_crates byte_decoder) × (f' : Status Entries) × Yields model_crates
        byte_decoder
        (Decode.new model_crates byte_decoder tt
          (cut_body (trailers_frame failure_headers ∷ []))
          (response 200)
          none
          none)
        two
        last
    × Ends model_crates byte_decoder last (some f') none
    × SameStatus model_crates refusal f'
server_to_client-failed_example =
    server_to_client-failed model_crates display byte_encoder byte_decoder byte_codec none
      (some 100) none (omega arith) tt (cut_body (trailers_frame failure_headers ∷ [])) refl
      failure_headers refl 200 refusal (two_messages (broken refusal ∷ [])) failure_headers_written
      bytes_of_empty tt refl refl
