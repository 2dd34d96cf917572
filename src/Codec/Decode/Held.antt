-- ===== src/Codec/Decode/Held.antt =====
-- How many bytes a stream holds: each message that it gives consumes some (decode.rs).
use pure_grpc_rs.Base.{
  ℕ, zero, suc, ◌+◌, ◌≤◌, List, [], ◌∷◌, Option, some, ◌≡◌, sym, ap, ◌∙◌, arith, Result, ok, Poll,
  ready, length, inl, inr, if◌then◌else◌, length-append, length-drop,
}
use pure_grpc_rs.Base.Words.{Bytes}
use pure_grpc_rs.Codec.Buffer.{DecodeBuf}
use pure_grpc_rs.Codec.{Decoder}
use pure_grpc_rs.Codec.Decode.Futures.{bytes_ahead}
use pure_grpc_rs.Codec.Decode.Total.{poll_rounds-again, Round-cases, decode_chunk-Keeps}
use pure_grpc_rs.Codec.Decode.{
  BodyEvent, waiting, data_frame, trailers_frame, unknown_frame, failed, State, read_header,
  read_body, error, StreamingInner, View, Stream, Item, Round, answer, again, ask_body, try_decode,
  round, poll_rounds, poll_next, decode_chunk, poll_frame, finish_response, decode_header,
  take_body, after_header, inner_decode_chunk, run_decoder,
}
use pure_grpc_rs.Compression.{CompressionEncoding}
use pure_grpc_rs.Crates.{Crates}
use pure_grpc_rs.Status.{Status}

-- One byte for a header that is read.
abbrev held_state : {H : Type 0} → State H → ℕ
held_state (read_body _ _) = 1
held_state _ = 0

abbrev held : {H : Type 0} → StreamingInner H → ℕ
held i = length i.buf + held_state i.state

module _ (x : Crates) where
  open x use {Headers}

  decode_header-held :
      (i : StreamingInner Headers) (b : Bytes)
      → i.buf ≡ b
      → i.state ≡ read_header
      → held (decode_header x i b).0 ≤ length b
  unfolding decode_header
  decode_header-held i (_ ∷ (_ ∷ (_ ∷ (_ ∷ (_ ∷ _))))) e s = ground arith
  decode_header-held i _ e s = ground arith

  take_body-held :
      (c : Option CompressionEncoding) (len : ℕ) (i : StreamingInner Headers)
      → held (take_body x c len i).0 ≤ held i
  unfolding take_body
  take_body-held c len i = ground (arith, length-drop len i.buf)

  after_header-held :
      (r : StreamingInner Headers × Result (Status Headers) (Option (Unit {0})))
      → held (after_header x r).0 ≤ held r.0
  unfolding after_header
  after_header-held r = grind (arith, take_body-held)

  inner_decode_chunk-held : (i : StreamingInner Headers) → held (inner_decode_chunk x i).0 ≤ held i
  unfolding inner_decode_chunk
  inner_decode_chunk-held i = grind (
    arith,
    take_body-held,
    decode_header-held i i.buf,
    after_header-held (decode_header x i i.buf),
  )

  take_body-state :
      (c : Option CompressionEncoding) (len : ℕ) (i : StreamingInner Headers)
      → held_state i.state ≡ 1
      → held_state (take_body x c len i).0.state ≡ 1
  unfolding take_body
  take_body-state c len i h = ground arith

  after_header-state :
      (r : StreamingInner Headers × Result (Status Headers) (Option (Unit {0}))) (v : View)
      → (after_header x r).1 ≡ ok (some v)
      → held_state (after_header x r).0.state ≡ 1
  unfolding after_header
  after_header-state r v h = grind (arith, take_body-state)

  inner_decode_chunk-state :
      (i : StreamingInner Headers) (v : View)
      → (inner_decode_chunk x i).1 ≡ ok (some v)
      → held_state (inner_decode_chunk x i).0.state ≡ 1
  unfolding inner_decode_chunk
  inner_decode_chunk-state i v h =
      grind (arith, take_body-state, after_header-state (decode_header x i i.buf) v)

module _ (x : Crates) {T : Type 0} (d : Decoder x.Headers T) where
  open x use {Headers}

  -- A decoder only takes bytes from its buffer.
  abbrev pub Consumes : Type 0
  Consumes = (st : d.State) (b : DecodeBuf) → length (d.decode st b).1.buf ≤ length b.buf

  -- The bytes a stream still has, and one more where it has decoded a message.
  abbrev got : Stream x d × Result (Status Headers) (Option T) → ℕ
  got (s, ok (some m)) = suc (held s.inner)
  got (s, _) = held s.inner

  -- The bytes that a stream has, with those of its body.
  abbrev pub rest : Stream x d → ℕ
  rest s = held s.inner + bytes_ahead s.inner.body

  abbrev pub polled : Stream x d → Poll (Item x d) → ℕ
  polled s (ready (some (ok m))) = suc (rest s)
  polled s _ = rest s

  pub held_state-le : (st : State Headers) → held_state st ≤ 1
  held_state-le read_header = omega arith
  held_state-le (read_body c n) = omega arith
  held_state-le (error e) = omega arith

  module _ (consumes : Consumes) where
    run_decoder-got :
        (st : d.State) (i : StreamingInner Headers) (v : View)
        → held_state i.state ≡ 1
        → got (run_decoder x d st i v) ≤ held i
    unfolding run_decoder
    run_decoder-got st i v h = ground (
      arith,
      consumes st
          (record { buf = if v.decompressed then i.decompress_buf else i.buf; len = v.len }),
    )

    decode_chunk-got : (s : Stream x d) → got (decode_chunk x d s) ≤ held s.inner
    unfolding decode_chunk
    decode_chunk-got s = grind (
      arith,
      inner_decode_chunk-held x s.inner,
      inner_decode_chunk-state x s.inner,
      run_decoder-got,
    )

    abbrev weigh : Round x d → ℕ
    weigh (answer s p) = polled s p
    weigh (again s) = rest s

    weigh-ask_body :
        (es : List (BodyEvent Headers)) (s : Stream x d)
        → s.inner.body ≡ es
        → weigh (ask_body x d s) ≤ held s.inner + bytes_ahead es
    unfolding ask_body poll_frame finish_response
    weigh-ask_body [] s e = ground arith
    weigh-ask_body (waiting ∷ es) s e = ground arith
    weigh-ask_body (data_frame b ∷ es) s e = ground (arith, length-append s.inner.buf b)
    weigh-ask_body (trailers_frame h ∷ es) s e = ground arith
    weigh-ask_body (unknown_frame ∷ es) s e = ground arith
    weigh-ask_body (failed f ∷ es) s e = ground arith

    weigh-round : (s : Stream x d) → weigh (round x d s) ≤ rest s
    unfolding round try_decode
    weigh-round s = ground (
      arith,
      decode_chunk-Keeps x d s,
      decode_chunk-got s,
      weigh-ask_body s.inner.body (decode_chunk x d s).0,
    )

    poll_rounds-polled :
        (fuel : ℕ) (s s' : Stream x d) (p : Poll (Item x d))
        → poll_rounds x d fuel s ≡ some (s', p)
        → polled s' p ≤ rest s
    unfolding poll_rounds
    poll_rounds-polled zero s s' p e = absurd (cc e)
    poll_rounds-polled (suc fuel) s s' p e = elim (Round-cases x d (round x d s)) [
      | inl (t, q, r) ↦ ground (arith, weigh-round s, r, e)
      | inr (t, r) ↦ omega (
        arith,
        poll_rounds-polled fuel t s' p (sym (poll_rounds-again x d fuel s t r) ∙ e),
        ap weigh r,
        weigh-round s,
      )
    ]

    pub poll_next-polled :
        (s s' : Stream x d) (p : Poll (Item x d))
        → poll_next x d s ≡ some (s', p)
        → polled s' p ≤ rest s
    unfolding poll_next
    poll_next-polled s s' p e = poll_rounds-polled (suc (suc (length s.inner.body))) s s' p e
