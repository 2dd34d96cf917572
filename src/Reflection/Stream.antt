-- ===== src/Reflection/Stream.antt =====
-- The task behind a stream of reflection requests: `ReflectionInfoSvc::call` of
-- grpc-reflection/src/lib.rs. Its channel takes the answers of so many sends; then the client has
-- gone away.
use pure_grpc_rs.Base.{ℕ, zero, suc, List, [], ◌∷◌, Option, none, some, ok, err}
use pure_grpc_rs.Codec.{Decoder}
use pure_grpc_rs.Codec.Decode.{Stream}
use pure_grpc_rs.Codec.Decode.Futures.{message}
use pure_grpc_rs.Crates.{Crates}
use pure_grpc_rs.Reflection.{
  ReflectionState, ServerReflectionRequest, ServerReflectionResponse, handle_reflection_request,
}
use pure_grpc_rs.Status.{Status}

abbrev answered :
    ServerReflectionResponse
    → Option (List ServerReflectionResponse)
    → Option (List ServerReflectionResponse)
answered response none = none
answered response (some responses) = some (response ∷ responses)

module _ (x : Crates) (d : Decoder x.Headers ServerReflectionRequest)
    (state : ReflectionState) where
  open x use {Headers}

  -- What the stream of the response gives before it ends, as a success.
  unfoldable pub answer_requests : ℕ → Stream x d → Option (List ServerReflectionResponse)
  unfolding handle_reflection_request
  answer_requests zero input = elim (message x d input) [ none ↦ none | some _ ↦ some [] ]
  answer_requests (suc sends) input = elim (message x d input) [
    | none ↦ none
    | some (_, err _) ↦ some []
    | some (_, ok none) ↦ some []
    | some (input', ok (some req)) ↦
        answered (handle_reflection_request state req) (answer_requests sends input')
  ]
