-- ===== src/Codec/Decode/Drained.antt =====
-- The futures of a stream end, and what they give (decode.rs).
use pure_grpc_rs.Base.{
  ℕ, zero, suc, ◌+◌, ◌≤◌, ◌<◌, List, [], ◌∷◌, Option, none, some, ◌≡◌, refl, sym, ap, ◌∙◌, arith,
  Result, ok, err, Poll, pending, ready, length, ◌⊎◌, inl, inr,
}
use pure_grpc_rs.Codec.{Decoder}
use pure_grpc_rs.Codec.Decode.Deliver.{Yields, stay, wait}
use pure_grpc_rs.Codec.Decode.Ending.{Ends, finished, failed_with, wait_on}
use pure_grpc_rs.Codec.Decode.Futures.{
  bytes_ahead, message_polls, message, drain, drain_fuel, take_trailers, trailers,
}
use pure_grpc_rs.Codec.Decode.Total.{
  poll_rounds-again, Round-cases, decode_chunk-Keeps, poll_next-total,
}
use pure_grpc_rs.Codec.Decode.{
  BodyEvent, Stream, Item, Round, answer, again, ask_body, try_decode, round, poll_rounds,
  poll_next, decode_chunk, poll_frame, finish_response,
}
use pure_grpc_rs.Crates.{Crates}
use pure_grpc_rs.Metadata.{MetadataMap, from_headers}
use pure_grpc_rs.Status.{Status}

module _ (x : Crates) {T : Type 0} (d : Decoder x.Headers T) where
  open x use {Headers}

  -- The events that a round leaves of the body, and one more where it waits.
  abbrev left : Round x d → ℕ
  left (answer s pending) = suc (length s.inner.body)
  left (answer s (ready _)) = length s.inner.body
  left (again s) = length s.inner.body

  left-ask_body :
      (es : List (BodyEvent Headers)) (s : Stream x d)
      → s.inner.body ≡ es
      → left (ask_body x d s) ≤ length es
  unfolding ask_body poll_frame finish_response
  left-ask_body [] s e = ground arith
  left-ask_body (b ∷ es) s e = ground arith

  left-round : (s : Stream x d) → left (round x d s) ≤ length s.inner.body
  unfolding round try_decode
  left-round s =
      ground (arith, decode_chunk-Keeps x d s, left-ask_body s.inner.body (decode_chunk x d s).0)

  -- A poll that is not ready takes an event of the body.
  poll_rounds-pending :
      (fuel : ℕ) (s s' : Stream x d)
      → poll_rounds x d fuel s ≡ some (s', pending)
      → length s'.inner.body < length s.inner.body
  unfolding poll_rounds
  poll_rounds-pending zero s s' e = absurd (cc e)
  poll_rounds-pending (suc fuel) s s' e = elim (Round-cases x d (round x d s)) [
    | inl (t, p, q) ↦ ground (arith, left-round s, q, e)
    | inr (t, q) ↦ omega (
      arith,
      poll_rounds-pending fuel t s' (sym (poll_rounds-again x d fuel s t q) ∙ e),
      ap left q,
      left-round s,
    )
  ]

  poll_next-pending :
      (s s' : Stream x d)
      → poll_next x d s ≡ some (s', pending)
      → length s'.inner.body < length s.inner.body
  unfolding poll_next
  poll_next-pending s s' e = poll_rounds-pending (suc (suc (length s.inner.body))) s s' e

  pub message_polls-pending :
      (fuel : ℕ) (s s' : Stream x d)
      → poll_next x d s ≡ some (s', pending)
      → message_polls x d (suc fuel) s ≡ message_polls x d fuel s'
  unfolding message_polls
  message_polls-pending fuel s s' e = rw (e, message_polls) refl

  -- The answer of one poll that is ready.
  abbrev answered : Item x d → Stream x d → Stream x d × Result (Status Headers) (Option T)
  answered none s = (s, ok none)
  answered (some (ok m)) s = (s, ok (some m))
  answered (some (err e)) s = (s, err e)

  pub message_polls-ready :
      (fuel : ℕ) (s s' : Stream x d) (r : Item x d)
      → poll_next x d s ≡ some (s', ready r)
      → message_polls x d (suc fuel) s ≡ some (answered r s')
  unfolding message_polls
  message_polls-ready fuel s s' none e = rw (e, message_polls) refl
  message_polls-ready fuel s s' (some (ok m)) e = rw (e, message_polls) refl
  message_polls-ready fuel s s' (some (err f)) e = rw (e, message_polls) refl

  waits_or_not :
      (s s' : Stream x d) (p : Poll (Item x d))
      → poll_next x d s ≡ some (s', p)
      → ((s' : Stream x d) × (poll_next x d s ≡ some (s', pending)))
        ⊎ ((s' : Stream x d) × (i : Item x d) × (poll_next x d s ≡ some (s', ready i)))
  waits_or_not s s' pending e = inl (s', e)
  waits_or_not s s' (ready i) e = inr (s', i, e)

  pub polled :
      (s : Stream x d)
      → ((s' : Stream x d) × (poll_next x d s ≡ some (s', pending)))
        ⊎ ((s' : Stream x d) × (i : Item x d) × (poll_next x d s ≡ some (s', ready i)))
  polled s = let (s', p, e) = poll_next-total x d s in waits_or_not s s' p e

  -- More fuel than the body has events does not matter, and is enough.
  message_polls-enough :
      (fuel fuel' : ℕ) (s : Stream x d)
      → length s.inner.body < fuel
      → length s.inner.body < fuel'
      → (r : Stream x d × Result (Status Headers) (Option T)) × (message_polls x d fuel s ≡ some r)
        × (message_polls x d fuel' s ≡ some r)
  message_polls-enough zero fuel' s l l' = absurd (omega (arith, l))
  message_polls-enough (suc fuel) zero s l l' = absurd (omega (arith, l'))
  message_polls-enough (suc fuel) (suc fuel') s l l' = elim (polled s) [
    | inl (s', e) ↦
        let shorter = poll_next-pending s s' e in
        let (r, p, q) =
          message_polls-enough fuel fuel' s' (omega (arith, l, shorter))
            (omega (arith, l', shorter)) in
        (r, message_polls-pending fuel s s' e ∙ p, message_polls-pending fuel' s s' e ∙ q)
    | inr (s', i, e) ↦
        (answered i s', message_polls-ready fuel s s' i e, message_polls-ready fuel' s s' i e)
  ]

  pub message-total :
      (s : Stream x d)
      → (r : Stream x d × Result (Status Headers) (Option T)) × (message x d s ≡ some r)
  unfolding message
  message-total s =
      let fuel = suc (length s.inner.body) in
      let (r, p, q) = message_polls-enough fuel fuel s (omega arith) (omega arith) in (r, p)

  pub message-pending :
      (s s' : Stream x d) → poll_next x d s ≡ some (s', pending) → message x d s ≡ message x d s'
  unfolding message
  message-pending s s' e =
      let (r, p, q) =
        message_polls-enough (length s.inner.body) (suc (length s'.inner.body)) s'
          (poll_next-pending s s' e) (omega arith) in
      message_polls-pending (length s.inner.body) s s' e ∙ p ∙ sym q

  pub message-ready :
      (s s' : Stream x d) (r : Item x d)
      → poll_next x d s ≡ some (s', ready r)
      → message x d s ≡ some (answered r s')
  unfolding message
  message-ready s s' r e = message_polls-ready (length s.inner.body) s s' r e

  -- A stream ends as it does after waiting.
  pub Ends-Yields :
      {s t : Stream x d} {o : Option (Status Headers)} {h : Option Headers}
      → Yields x d s [] t
      → Ends x d t o h
      → Ends x d s o h
  Ends-Yields stay e = e
  Ends-Yields (wait p y) e = wait_on p (Ends-Yields y e)

  pub message-finished :
      {s : Stream x d} {h : Option Headers}
      → Ends x d s none h
      → (s' : Stream x d) × (message x d s ≡ some (s', ok none)) × (s'.inner.trailers ≡ h)
  message-finished {s} (finished {s' = s'} p q) = (s', message-ready s s' none p, q)
  message-finished {s} (wait_on {s' = s'} p e) =
      let (t, r, q) = message-finished e in (t, message-pending s s' p ∙ r, q)

  pub message-failed :
      {s : Stream x d} {f : Status Headers} {h : Option Headers}
      → Ends x d s (some f) h
      → (s' : Stream x d) × (message x d s ≡ some (s', err f)) × (s'.inner.trailers ≡ h)
  message-failed {s} (failed_with {s' = s'} p q) = (s', message-ready s s' _ p, q)
  message-failed {s} (wait_on {s' = s'} p e) =
      let (t, r, q) = message-failed e in (t, message-pending s s' p ∙ r, q)

  drain-finished :
      (fuel : ℕ) {s : Stream x d} {h : Option Headers}
      → Ends x d s none h
      → (s' : Stream x d) × (drain x d (suc fuel) s ≡ some (s', ok tt)) × (s'.inner.trailers ≡ h)
  unfolding drain
  drain-finished fuel {s} e = let (s', p, q) = message-finished e in (s', rw (p, drain) refl, q)

  abbrev pub metadata_of : Option Headers → Option (MetadataMap Headers)
  metadata_of none = none
  metadata_of (some h) = some (from_headers x.http h)

  trailers-drained :
      (s s' : Stream x d) (h : Option Headers)
      → s.inner.trailers ≡ none
      → drain x d (drain_fuel x d s) s ≡ some (s', ok tt)
      → s'.inner.trailers ≡ h
      → (t : Stream x d) × (trailers x d s ≡ some (t, ok (metadata_of h)))
  unfolding trailers take_trailers
  trailers-drained s s' none n p q = (s', ground (arith, n, p, q))
  trailers-drained s s' (some h) n p q =
      (record s' { inner = record (s'.inner) { trailers = none } }, ground (arith, n, p, q))

  -- At the end of a stream that ends well, the trailers are those it has then.
  pub trailers-finished :
      {s : Stream x d} {h : Option Headers}
      → s.inner.trailers ≡ none
      → Ends x d s none h
      → (t : Stream x d) × (trailers x d s ≡ some (t, ok (metadata_of h)))
  trailers-finished {s} {h} n e =
      let (s', p, q) = drain-finished (suc (length s.inner.buf + bytes_ahead s.inner.body)) e in
      trailers-drained s s' h n p q
