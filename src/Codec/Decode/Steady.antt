-- ===== src/Codec/Decode/Steady.antt =====
-- A stream's trailers stay as they are until the stream ends (decode.rs).
use pure_grpc_rs.Base.{
  ℕ, zero, suc, Bool, true, false, List, [], ◌∷◌, none, some, ◌≡◌, refl, sym, ◌∙◌, arith, ok, err,
  Poll, pending, ready, length, inl, inr,
}
use pure_grpc_rs.Codec.{Decoder}
use pure_grpc_rs.Codec.Decode.Total.{Round-cases, decode_chunk-Keeps, poll_rounds-again}
use pure_grpc_rs.Codec.Decode.Drained.{message-pending, message-ready}
use pure_grpc_rs.Codec.Decode.Futures.{message}
use pure_grpc_rs.Codec.Decode.Deliver.{Yields, wait, item}
use pure_grpc_rs.Codec.Decode.{
  BodyEvent, State, error, Stream, Item, answer, again, ask_body, try_decode, round, poll_rounds,
  poll_next, decode_chunk, poll_frame, take_error, finish_response,
}
use pure_grpc_rs.Crates.{Crates}

module _ (x : Crates) {T : Type 0} (d : Decoder x.Headers T) where
  open x use {Headers}

  -- Whether a poll is not yet at the end.
  abbrev goes : Poll (Item x d) → Bool
  goes (ready none) = false
  goes (ready (some (err e))) = false
  goes _ = true

  abbrev is_error : State Headers → Bool
  is_error (error _) = true
  is_error _ = false

  ask_body-answer :
      (es : List (BodyEvent Headers)) (s s' : Stream x d) (p : Poll (Item x d))
      → s.inner.body ≡ es
      → ask_body x d s ≡ answer s' p
      → goes p ≡ true
      → s'.inner.trailers ≡ s.inner.trailers
  unfolding ask_body poll_frame finish_response
  ask_body-answer [] s s' p b e g = ground arith
  ask_body-answer (b ∷ es) s s' p h e g = ground arith

  ask_body-goes_on :
      (es : List (BodyEvent Headers)) (s s' : Stream x d)
      → s.inner.body ≡ es
      → ask_body x d s ≡ again s'
      → is_error s'.inner.state ≡ false
      → s'.inner.trailers ≡ s.inner.trailers
  unfolding ask_body poll_frame finish_response
  ask_body-goes_on [] s s' b e g = ground arith
  ask_body-goes_on (b ∷ es) s s' h e g = ground arith

  round-answer :
      (s s' : Stream x d) (p : Poll (Item x d))
      → round x d s ≡ answer s' p
      → goes p ≡ true
      → s'.inner.trailers ≡ s.inner.trailers
  unfolding round try_decode take_error
  round-answer s s' p e g =
      ground
        (arith, decode_chunk-Keeps x d s, ask_body-answer s.inner.body (decode_chunk x d s).0 s' p)

  round-goes_on :
      (s s' : Stream x d)
      → round x d s ≡ again s'
      → is_error s'.inner.state ≡ false
      → s'.inner.trailers ≡ s.inner.trailers
  unfolding round try_decode
  round-goes_on s s' e g =
      ground
        (arith, decode_chunk-Keeps x d s, ask_body-goes_on s.inner.body (decode_chunk x d s).0 s')

  round-ends :
      (s s' : Stream x d) (p : Poll (Item x d))
      → is_error s.inner.state ≡ true
      → round x d s ≡ answer s' p
      → goes p ≡ false
  unfolding round take_error
  round-ends s s' p e g = ground arith

  round-answers :
      (s s' : Stream x d) → is_error s.inner.state ≡ true → round x d s ≡ again s' → false ≡ true
  unfolding round
  round-answers s s' e g = ground arith

  poll_rounds-trailers :
      (fuel : ℕ) (s s' : Stream x d) (p : Poll (Item x d))
      → poll_rounds x d fuel s ≡ some (s', p)
      → goes p ≡ true
      → (s'.inner.trailers ≡ s.inner.trailers) × (is_error s.inner.state ≡ false)
  unfolding poll_rounds
  poll_rounds-trailers zero s s' p e g = absurd (cc e)
  poll_rounds-trailers (suc fuel) s s' p e g = elim (Round-cases x d (round x d s)) [
    | inl (t, q, r) ↦ ground (arith, round-answer s t q r, round-ends s t q, r, e, g)
    | inr (t, r) ↦
        let (same, well) =
          poll_rounds-trailers fuel t s' p (sym (poll_rounds-again x d fuel s t r) ∙ e) g in
        ground (arith, round-goes_on s t r well, same, round-answers s t, r)
  ]

  poll_next-trailers :
      (s s' : Stream x d) (p : Poll (Item x d))
      → poll_next x d s ≡ some (s', p)
      → goes p ≡ true
      → s'.inner.trailers ≡ s.inner.trailers
  unfolding poll_next
  poll_next-trailers s s' p e g =
      (poll_rounds-trailers (suc (suc (length s.inner.body))) s s' p e g).0

  pub message-Yields :
      {s t : Stream x d} {m : T} {ms : List T}
      → Yields x d s (m ∷ ms) t
      → (s' : Stream x d) × (message x d s ≡ some (s', ok (some m)))
        × Yields x d s' ms t
        × (s'.inner.trailers ≡ s.inner.trailers)
  message-Yields {s} (wait {s' = s'} p y) =
      let (u, e, z, n) = message-Yields y in
      (u, message-pending x d s s' p ∙ e, z, n ∙ poll_next-trailers s s' pending p refl)
  message-Yields {s} (item {s' = s'} {m = m} p y) = (
    s',
    message-ready x d s s' (some (ok m)) p,
    y,
    poll_next-trailers s s' (ready (some (ok m))) p refl,
  )
