-- ===== src/Codec/Decode/Futures.antt =====
-- `Streaming::message` and `Streaming::trailers` (grpc-core/src/codec/decode.rs), run to their end:
-- `pending` polls again. `try_next` of a stream is `message`.
use pure_grpc_rs.Base.{
  ℕ, zero, suc, ◌+◌, List, [], ◌∷◌, Option, none, some, Result, ok, err, pending, ready, length,
}
use pure_grpc_rs.Codec.{Decoder}
use pure_grpc_rs.Codec.Decode.{BodyEvent, data_frame, Stream, poll_next}
use pure_grpc_rs.Crates.{Crates}
use pure_grpc_rs.Metadata.{MetadataMap, from_headers}
use pure_grpc_rs.Status.{Status}

-- How many bytes the data frames of a body have.
abbrev pub bytes_ahead : {H : Type 0} → List (BodyEvent H) → ℕ
bytes_ahead [] = 0
bytes_ahead (data_frame b ∷ es) = length b + bytes_ahead es
bytes_ahead (_ ∷ es) = bytes_ahead es

module _ (x : Crates) {T : Type 0} (d : Decoder x.Headers T) where
  open x use {Headers, http}

  unfoldable pub message_polls :
      ℕ → Stream x d → Option (Stream x d × Result (Status Headers) (Option T))
  message_polls zero s = none
  message_polls (suc fuel) s = elim (poll_next x d s) [
    | none ↦ none
    | some (s', pending) ↦ message_polls fuel s'
    | some (s', ready (some (ok m))) ↦ some (s', ok (some m))
    | some (s', ready (some (err e))) ↦ some (s', err e)
    | some (s', ready none) ↦ some (s', ok none)
  ]

  -- A poll that is not ready takes an event of the body.
  unfoldable pub message : Stream x d → Option (Stream x d × Result (Status Headers) (Option T))
  unfolding message_polls
  message s = message_polls (suc (length s.inner.body)) s

  -- `while self.message().await?.is_some() {}`
  unfoldable pub drain : ℕ → Stream x d → Option (Stream x d × Result (Status Headers) (Unit {0}))
  unfolding message
  drain zero s = none
  drain (suc fuel) s = elim (message s) [
    | none ↦ none
    | some (s', err e) ↦ some (s', err e)
    | some (s', ok none) ↦ some (s', ok tt)
    | some (s', ok (some m)) ↦ drain fuel s'
  ]

  abbrev pub drain_fuel : Stream x d → ℕ
  drain_fuel s = suc (suc (length s.inner.buf + bytes_ahead s.inner.body))

  -- `self.inner.trailers.take()`
  unfoldable pub take_trailers : Stream x d → Stream x d × Option (MetadataMap Headers)
  take_trailers s = elim s.inner.trailers [
    | none ↦ (s, none)
    | some h ↦
        (record s { inner = record (s.inner) { trailers = none } }, some (from_headers http h))
  ]

  unfoldable pub trailers :
      Stream x d → Option (Stream x d × Result (Status Headers) (Option (MetadataMap Headers)))
  unfolding take_trailers drain
  trailers s =
      let (s', taken) = take_trailers s in
      elim taken [
        | some h ↦ some (s', ok (some h))
        | none ↦ elim (drain (drain_fuel s') s') [
          | none ↦ none
          | some (t, err e) ↦ some (t, err e)
          | some (t, ok _) ↦ let (t', h) = take_trailers t in some (t', ok h)
        ]
      ]
