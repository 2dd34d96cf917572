-- ===== src/Codec/Decode/Message.antt =====
-- The rounds of `poll_next` over one message, whatever data frames bring it (decode.rs).
use pure_grpc_rs.Base.{
  ℕ, suc, ◌≤◌, ◌<◌, List, [], ◌∷◌, ◌++◌, Option, none, some, ◌≡◌, refl, sym, ap, ◌∙◌, inl, inr,
  arith, ok, pending, ready, length, ltb, ltb→lt, ltb→ge, lt→ltb, append_assoc, length-append,
  Bool-cases,
}
use pure_grpc_rs.Base.Words.{Bytes}
use pure_grpc_rs.Codec.{Decoder}
use pure_grpc_rs.Codec.Decode.Deliver.{
  data_of, after_data, split_off, Reads, Unpacks, Yields, stay, wait, item, Yields-poll, Between,
  Same, read_on, delivered, decode_chunk-body,
}
use pure_grpc_rs.Codec.Decode.Total.{poll_next-answer, poll_next-again}
use pure_grpc_rs.Codec.Decode.{
  BodyEvent, waiting, data_frame, State, read_header, read_body, error, StreamingInner,
  decode_header, Stream, decode_chunk, answer, again, ask_body, round, poll_next, poll_rounds,
}
use pure_grpc_rs.Compression.{CompressionEncoding}
use pure_grpc_rs.Crates.{Crates}

module _ (x : Crates) {T : Type 0} (d : Decoder x.Headers T) where
  open x use {Headers}

  pub poll_next-round :
      (s t : Stream x d)
      → round x d s ≡ round x d t
      → s.inner.body ≡ t.inner.body
      → poll_next x d s ≡ poll_next x d t
  unfolding poll_next
  poll_next-round s t e b =
      rw (e, poll_rounds) (ap (λ es. poll_rounds x d (suc (suc (length es))) t) b)

  -- No error is stored.
  abbrev pub IsReading : State Headers → Type 0
  IsReading (error _) = ⊥
  IsReading _ = Unit

  pub round-ask :
      (s : Stream x d)
      → IsReading s.inner.state
      → decode_chunk x d s ≡ (s, ok none)
      → round x d s ≡ ask_body x d s
  unfolding round
  round-ask s r e = ground arith

  pub ask_body-waiting :
      (s : Stream x d) (es : List (BodyEvent Headers))
      → s.inner.body ≡ waiting ∷ es
      → ask_body x d s ≡ answer (read_on x d s es s.inner.buf) pending
  unfolding ask_body
  ask_body-waiting s es b = ground arith

  pub ask_body-data_frame :
      (s : Stream x d) (b : Bytes) (es : List (BodyEvent Headers))
      → s.inner.body ≡ data_frame b ∷ es
      → ask_body x d s ≡ again (read_on x d s es (s.inner.buf ++ b))
  unfolding ask_body
  ask_body-data_frame s b es e = ground arith

  decode_chunk-short_body :
      (s : Stream x d) (c : Option CompressionEncoding) (len : ℕ)
      → s.inner.state ≡ read_body c len
      → length s.inner.buf < len
      → decode_chunk x d s ≡ (s, ok none)
  unfolding decode_chunk
  decode_chunk-short_body s c len e l = ground (arith, lt→ltb (length s.inner.buf) len l)

  round-body :
      (s : Stream x d) (c : Option CompressionEncoding) (len : ℕ) (s' : Stream x d) (m : T)
      → s.inner.state ≡ read_body c len
      → decode_chunk x d s ≡ (s', ok (some m))
      → round x d s ≡ answer s' (ready (some (ok m)))
  unfolding round
  round-body s c len s' m e h = ground arith

  decode_header-short :
      (i : StreamingInner Headers) (b : Bytes) → length b < 5 → decode_header x i b ≡ (i, ok none)
  unfolding decode_header
  decode_header-short i (_ ∷ (_ ∷ (_ ∷ (_ ∷ (_ ∷ b))))) l = absurd (omega arith)
  decode_header-short i _ l = refl

  pub decode_chunk-short_header :
      (s : Stream x d)
      → s.inner.state ≡ read_header
      → length s.inner.buf < 5
      → decode_chunk x d s ≡ (s, ok none)
  unfolding decode_chunk
  decode_chunk-short_header s e l = ground (arith, decode_header-short s.inner s.inner.buf l)

  -- The bytes that a stream has yet to read, and what is left of it when it has read them.
  pub record Arrives (s : Stream x d) (m : T) (st' : d.State) (rest : Bytes) : Type 0 where
    pub last : Stream x d
    pub yields : Yields x d s (m ∷ []) last
    pub between : Between x d last st' rest
    pub same : Same x d s last

  delivered-fields :
      (c : Option CompressionEncoding) (i : StreamingInner Headers) (r : Bytes)
      → ((delivered x d c i r).state ≡ read_header)
        × ((delivered x d c i r).buf ≡ r)
        × ((delivered x d c i r).body ≡ i.body)
        × ((delivered x d c i r).direction ≡ i.direction)
        × ((delivered x d c i r).trailers ≡ i.trailers)
        × ((delivered x d c i r).encoding ≡ i.encoding)
        × ((delivered x d c i r).max_message_size ≡ i.max_message_size)
  delivered-fields none i r = (refl, refl, refl, refl, refl, refl, refl)
  delivered-fields (some e) i r = (refl, refl, refl, refl, refl, refl, refl)

  module _ {m : T} {st' : d.State} {rest : Bytes} where
    -- Waiting, and then a data frame, come before the message.
    pub arrive_after_waiting :
        (s : Stream x d) (es : List (BodyEvent Headers))
        → s.inner.body ≡ waiting ∷ es
        → IsReading s.inner.state
        → decode_chunk x d s ≡ (s, ok none)
        → Arrives (read_on x d s es s.inner.buf) m st' rest
        → Arrives s m st' rest
    arrive_after_waiting s es b r e a = record {
      last = a.last;
      yields =
          wait (poll_next-answer x d s _ pending (round-ask s r e ∙ ask_body-waiting s es b))
            a.yields;
      between = a.between;
      same = record {
        direction = a.same.direction;
        trailers = a.same.trailers;
        encoding = a.same.encoding;
        max_message_size = a.same.max_message_size;
        tail = a.same.tail ∙ sym (ap after_data b);
      };
    }

    pub arrive_after_data :
        (s : Stream x d) (b : Bytes) (es : List (BodyEvent Headers))
        → s.inner.body ≡ data_frame b ∷ es
        → IsReading s.inner.state
        → decode_chunk x d s ≡ (s, ok none)
        → Arrives (read_on x d s es (s.inner.buf ++ b)) m st' rest
        → Arrives s m st' rest
    arrive_after_data s b es q r e a = record {
      last = a.last;
      yields =
          Yields-poll x d
            (poll_next-again x d s _ (round-ask s r e ∙ ask_body-data_frame s b es q) (ap length q))
            a.yields;
      between = a.between;
      same = record {
        direction = a.same.direction;
        trailers = a.same.trailers;
        encoding = a.same.encoding;
        max_message_size = a.same.max_message_size;
        tail = a.same.tail ∙ sym (ap after_data q);
      };
    }

  module _ (payload p rest : Bytes) (m : T) (st' : d.State) (c : Option CompressionEncoding)
      (unpacks : Unpacks x d c payload p) where
    pub record AtBody (s : Stream x d) (es : List (BodyEvent Headers)) : Type 0 where
      pub body : s.inner.body ≡ es
      pub state : s.inner.state ≡ read_body c (length payload)
      pub bytes : s.inner.buf ++ data_of es ≡ payload ++ rest
      pub reads : Reads x d s.decoder p m st'

    arrive_now :
        (s : Stream x d) (es : List (BodyEvent Headers)) (a : AtBody s es)
        → length payload ≤ length s.inner.buf
        → Arrives s m st' rest
    arrive_now s es a l =
        let (r, q, t) = split_off payload rest s.inner.buf (data_of es) a.bytes l in
        let s' : Stream x d = record { decoder = st'; inner = delivered x d c s.inner r } in
        let (state, buf, body, direction, trailers, encoding, max_message_size) =
          delivered-fields c s.inner r in
        record {
          last = s';
          yields =
              item
                (poll_next-answer x d s s' _ (
                  round-body s c (length payload) s' m a.state
                    (decode_chunk-body x d c payload p m st' s r unpacks a.state q a.reads)))
                stay;
          between = record {
            decoder = refl;
            state = state;
            bytes = ground (arith, buf, body, a.body, t);
          };
          same = record {
            direction = direction;
            trailers = trailers;
            encoding = encoding;
            max_message_size = max_message_size;
            tail = ap after_data body;
          };
        }

    short_body :
        {s : Stream x d} {es : List (BodyEvent Headers)}
        → AtBody s es
        → length s.inner.buf < length payload
        → (IsReading s.inner.state) × (decode_chunk x d s ≡ (s, ok none))
    short_body {s} a l = (rw (a.state) tt, decode_chunk-short_body s c (length payload) a.state l)

    pub arrive_body :
        (es : List (BodyEvent Headers)) (s : Stream x d) → AtBody s es → Arrives s m st' rest
    arrive_body (waiting ∷ es) s a = elim (Bool-cases (ltb (length s.inner.buf) (length payload))) [
      | inr big ↦ arrive_now s _ a (ltb→ge _ _ big)
      | inl small ↦
          let (r, e) = short_body a (ltb→lt _ _ small) in
          arrive_after_waiting s es a.body r e (
            arrive_body es _
              (record { body = refl; state = a.state; bytes = a.bytes; reads = a.reads }))
    ]
    arrive_body (data_frame b ∷ es) s a =
        elim (Bool-cases (ltb (length s.inner.buf) (length payload))) [
          | inr big ↦ arrive_now s _ a (ltb→ge _ _ big)
          | inl small ↦
              let (r, e) = short_body a (ltb→lt _ _ small) in
              arrive_after_data s b es a.body r e (
                arrive_body es _ (record {
                  body = refl;
                  state = a.state;
                  bytes = append_assoc s.inner.buf b (data_of es) ∙ a.bytes;
                  reads = a.reads;
                }))
        ]
    arrive_body es s a =
        arrive_now s _ a (
          omega
            (arith, ap length a.bytes, length-append s.inner.buf [], length-append payload rest))
