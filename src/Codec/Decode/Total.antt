-- ===== src/Codec/Decode/Total.antt =====
-- What decoding leaves alone, and that `poll_next` always gives an answer (decode.rs).
use pure_grpc_rs.Base.{
  ℕ, zero, suc, ◌+◌, ◌≤◌, ◌<◌, List, [], ◌∷◌, Option, some, ◌≡◌, refl, arith, Poll, length, ◌⊎◌,
  inl, inr, ap, ◌∙◌,
}
use pure_grpc_rs.Base.Words.{Bytes}
use pure_grpc_rs.Codec.{Decoder}
use pure_grpc_rs.Compression.{CompressionEncoding}
use pure_grpc_rs.Codec.Decode.{
  BodyEvent, State, read_header, error, StreamingInner, View, decode_header, take_body,
  after_header, inner_decode_chunk, Stream, Item, run_decoder, decode_chunk, Round, answer, again,
  ask_body, try_decode, round, poll_rounds, poll_next,
}
use pure_grpc_rs.Crates.{Crates}

-- The fields that decoding a buffer does not touch.
pub record Keeps {H : Type 0} (i j : StreamingInner H) : Type 0 where
  pub body : j.body ≡ i.body
  pub direction : j.direction ≡ i.direction
  pub trailers : j.trailers ≡ i.trailers
  pub encoding : j.encoding ≡ i.encoding
  pub max_message_size : j.max_message_size ≡ i.max_message_size

module _ (x : Crates) where
  open x use {Headers}

  decode_header-Keeps : (i : StreamingInner Headers) (b : Bytes) → Keeps i (decode_header x i b).0
  unfolding decode_header
  decode_header-Keeps i (_ ∷ (_ ∷ (_ ∷ (_ ∷ (_ ∷ _))))) = ground arith
  decode_header-Keeps i _ = ground arith

  take_body-Keeps :
      (c : Option CompressionEncoding) (len : ℕ) (i : StreamingInner Headers)
      → Keeps i (take_body x c len i).0
  unfolding take_body
  take_body-Keeps c len i = ground arith

  after_header-Keeps :
      (i : StreamingInner Headers) (b : Bytes) → Keeps i (after_header x (decode_header x i b)).0
  unfolding after_header
  after_header-Keeps i b = grind (arith, decode_header-Keeps i b, take_body-Keeps)

  pub inner_decode_chunk-Keeps : (i : StreamingInner Headers) → Keeps i (inner_decode_chunk x i).0
  unfolding inner_decode_chunk
  inner_decode_chunk-Keeps i = ground (arith, after_header-Keeps i i.buf)

module _ (x : Crates) {T : Type 0} (d : Decoder x.Headers T) where
  open x use {Headers}

  run_decoder-Keeps :
      (st : d.State) (i : StreamingInner Headers) (v : View)
      → Keeps i (run_decoder x d st i v).0.inner
  unfolding run_decoder
  run_decoder-Keeps st i v = ground arith

  -- Neither reading a header nor decoding a message touches the body, the direction, the trailers
  -- or the settings.
  pub decode_chunk-Keeps : (s : Stream x d) → Keeps s.inner (decode_chunk x d s).0.inner
  unfolding decode_chunk
  decode_chunk-Keeps s = grind (arith, inner_decode_chunk-Keeps x s.inner, run_decoder-Keeps)

  pub Round-cases :
      (r : Round x d)
      → ((s : Stream x d) × (p : Poll (Item x d)) × (r ≡ answer s p))
        ⊎ ((s : Stream x d) × (r ≡ again s))
  Round-cases (answer s p) = inl (s, p, refl)
  Round-cases (again s) = inr (s, refl)

  -- The rounds that are left: one where an error is stored.
  abbrev rounds_left : State Headers → List (BodyEvent Headers) → ℕ
  rounds_left (error _) es = 1
  rounds_left _ es = suc (suc (length es))

  rounds_left-le :
      (st : State Headers) (es : List (BodyEvent Headers)) → rounds_left st es ≤ length es + 2
  rounds_left-le read_header es = omega arith
  rounds_left-le _ es = omega arith

  rounds_left-pos : (st : State Headers) (es : List (BodyEvent Headers)) → 0 < rounds_left st es
  rounds_left-pos read_header es = omega arith
  rounds_left-pos _ es = omega arith

  ask_body-again :
      (es : List (BodyEvent Headers)) (s s' : Stream x d)
      → s.inner.body ≡ es
      → ask_body x d s ≡ again s'
      → rounds_left s'.inner.state s'.inner.body < length es + 2
  unfolding ask_body
  ask_body-again [] s s' b h = ground (arith, rounds_left-le s'.inner.state s'.inner.body)
  ask_body-again (e ∷ es) s s' b h = ground (arith, rounds_left-le s'.inner.state s'.inner.body)

  round-again :
      (s s' : Stream x d)
      → round x d s ≡ again s'
      → rounds_left s'.inner.state s'.inner.body < rounds_left s.inner.state s.inner.body
  unfolding round try_decode
  round-again s s' h =
      ground (arith, decode_chunk-Keeps s, ask_body-again s.inner.body (decode_chunk x d s).0 s')

  -- The loop answers within two rounds more than the body has events.
  poll_rounds-total :
      (fuel : ℕ) (s : Stream x d)
      → rounds_left s.inner.state s.inner.body ≤ fuel
      → (s' : Stream x d) × (p : Poll (Item x d)) × (poll_rounds x d fuel s ≡ some (s', p))
  unfolding poll_rounds
  poll_rounds-total zero s h = absurd (omega (arith, rounds_left-pos s.inner.state s.inner.body))
  poll_rounds-total (suc fuel) s h = elim (Round-cases (round x d s)) [
    | inl (s', p, e) ↦ (s', p, rw (e, poll_rounds))
    | inr (s', e) ↦
        rw (e, poll_rounds) (poll_rounds-total fuel s' (omega (arith, round-again s s' e)))
  ]

  -- The loop of `poll_next` ends: on every stream, each call gives an answer.
  pub poll_next-total :
      (s : Stream x d)
      → (s' : Stream x d) × (p : Poll (Item x d)) × (poll_next x d s ≡ some (s', p))
  unfolding poll_next
  poll_next-total s =
      poll_rounds-total (suc (suc (length s.inner.body))) s
        (omega (arith, rounds_left-le s.inner.state s.inner.body))

  -- A round that answers, and one that takes an event.
  pub poll_next-answer :
      (s s' : Stream x d) (p : Poll (Item x d))
      → round x d s ≡ answer s' p
      → poll_next x d s ≡ some (s', p)
  unfolding poll_next
  poll_next-answer s s' p e = rw (e, poll_rounds)

  pub poll_rounds-again :
      (fuel : ℕ) (s s' : Stream x d)
      → round x d s ≡ again s'
      → poll_rounds x d (suc fuel) s ≡ poll_rounds x d fuel s'
  unfolding poll_rounds
  poll_rounds-again fuel s s' e = rw (e, poll_rounds)

  pub poll_next-again :
      (s s' : Stream x d)
      → round x d s ≡ again s'
      → length s.inner.body ≡ suc (length s'.inner.body)
      → poll_next x d s ≡ poll_next x d s'
  unfolding poll_next
  poll_next-again s s' e l =
      poll_rounds-again (suc (length s.inner.body)) s s' e ∙ ap (λ n. poll_rounds x d (suc n) s') l
