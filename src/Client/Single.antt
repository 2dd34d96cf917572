-- ===== src/Client/Single.antt =====
-- grpc-client/src/grpc.rs: the four patterns of calls. The transport, `self.inner.call`, is the
-- function that its awaited call is; its error is a chain of errors.
use pure_grpc_rs.Base.{List, [], ◌∷◌, Option, none, some, Result, ok, err}
use pure_grpc_rs.Base.Words.{Bytes}
use pure_grpc_rs.Base.Runs.{Run, ◌>>=◌, settled, ok_or_else, map_failure}
use pure_grpc_rs.Base.Text.{ascii}
use pure_grpc_rs.Client.{Uris, Grpc, prepare_request, create_response}
use pure_grpc_rs.Code.{Code}
use pure_grpc_rs.Codec.{Decoder, Encoder}
use pure_grpc_rs.Codec.Decode
use pure_grpc_rs.Codec.Decode.Futures.{message, trailers}
use pure_grpc_rs.Codec.Decode.{BodyEvent}
use pure_grpc_rs.Codec.Encode
use pure_grpc_rs.Codec.Encode.{SourceEvent, client}
use pure_grpc_rs.Crates.{Crates}
use pure_grpc_rs.Metadata.{MetadataMap, merge}
use pure_grpc_rs.Request.{HttpRequest, HttpResponse, Request, Response}
use pure_grpc_rs.Status
use pure_grpc_rs.Status.{Status, ErrorNode, from_error}

-- A stream of messages, none where it is not ready: `s.map(Ok)`.
abbrev pub all_ok : {H S : Type 0} → List (Option S) → List (SourceEvent H S)
all_ok [] = []
all_ok (none ∷ s) = Encode.SourceEvent.not_ready ∷ all_ok s
all_ok (some m ∷ s) = Encode.SourceEvent.message m ∷ all_ok s

module _ (x : Crates) where
  open x use {Headers, http}

  abbrev pub merge_status : MetadataMap Headers → Status Headers → Status Headers
  merge_status parts status = record status { metadata = merge http status.metadata parts }

  abbrev pub merge_found : MetadataMap Headers → Option (MetadataMap Headers) → MetadataMap Headers
  merge_found parts none = parts
  merge_found parts (some t) = merge http parts t

  abbrev pub missing_message : Status Headers
  missing_message = Status.new x Code.internal (ascii "Missing response message.")

module _ (x : Crates) (u : Uris) (display : Status x.Headers → Bytes) (E : Type 0) {S T : Type 0}
    (n : Encoder x.Headers S) (d : Decoder x.Headers T) where
  open x use {Headers, http}

  -- What the transport makes of a request: a response, or an error with its sources.
  abbrev pub Transport : Type 0
  Transport =
      HttpRequest Headers E (Encode.Body x display n)
      → Result (ErrorNode Headers × List (ErrorNode Headers))
          (HttpResponse Headers E (List (BodyEvent Headers)))

  abbrev pub encoded :
      Grpc u.Uri
      → n.State
      → Request Headers E (List (Option S))
      → Request Headers E (Encode.Body x display n)
  encoded g encoder r = record {
    metadata = r.metadata;
    message =
        Encode.new x display n client encoder (all_ok r.message) g.send_compression_encoding
          g.max_encoding_message_size;
    extensions = r.extensions;
  }

  unfoldable pub streaming :
      Grpc u.Uri
      → n.State
      → d.State
      → Transport
      → Request Headers E (List (Option S))
      → u.PathAndQuery
      → Result (Status Headers) (Response Headers E (Decode.Stream x d))
  streaming g encoder decoder call request path =
      elim (prepare_request x u g (encoded g encoder request) path) [
        | err status ↦ err status
        | ok req ↦ elim (call req) [
          | err (e, sources) ↦ err (from_error x e sources)
          | ok resp ↦ create_response x u d g decoder resp
        ]
      ]

  -- The one message of a response, and its trailers.
  unfoldable pub single :
      Response Headers E (Decode.Stream x d) → Run (Status Headers) (Response Headers E T)
  single r = do
    (body, received) ← map_failure (merge_status x r.metadata) (settled (message x d r.message))
    msg ← some (ok_or_else (missing_message x) received)
    (_, found) ← settled (trailers x d body)
    some (
        ok (record {
          metadata = merge_found x r.metadata found;
          message = msg;
          extensions = r.extensions;
        }))

  unfoldable pub client_streaming :
      Grpc u.Uri
      → n.State
      → d.State
      → Transport
      → Request Headers E (List (Option S))
      → u.PathAndQuery
      → Run (Status Headers) (Response Headers E T)
  client_streaming g encoder decoder call request path = do
    r ← some (streaming g encoder decoder call request path)
    single r

  abbrev pub once : Request Headers E S → Request Headers E (List (Option S))
  once r = record {
    metadata = r.metadata;
    message = some r.message ∷ [];
    extensions = r.extensions;
  }

  unfoldable pub unary :
      Grpc u.Uri
      → n.State
      → d.State
      → Transport
      → Request Headers E S
      → u.PathAndQuery
      → Run (Status Headers) (Response Headers E T)
  unary g encoder decoder call request path =
      client_streaming g encoder decoder call (once request) path

  unfoldable pub server_streaming :
      Grpc u.Uri
      → n.State
      → d.State
      → Transport
      → Request Headers E S
      → u.PathAndQuery
      → Result (Status Headers) (Response Headers E (Decode.Stream x d))
  server_streaming g encoder decoder call request path =
      streaming g encoder decoder call (once request) path
