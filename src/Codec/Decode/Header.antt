-- ===== src/Codec/Decode/Header.antt =====
-- A whole frame, its header first, is delivered (decode.rs).
use pure_grpc_rs.Base.{
  ℕ, ◌≤◌, ◌<◌, List, [], ◌∷◌, ◌++◌, Option, ◌≡◌, refl, ap, ◌∙◌, inl, inr, arith, ok, length, ltb,
  ltb→lt, ltb→ge, ge→ltb, append_assoc, length-append, Bool-cases,
}
use pure_grpc_rs.Base.Words.{Bytes, be_bytes, be_word-be_bytes, u32_mod}
use pure_grpc_rs.Codec.{Decoder}
use pure_grpc_rs.Codec.Decode.Deliver.{frame, data_of, split_off, Reads, Unpacks, Yields-poll}
use pure_grpc_rs.Codec.Decode.Message.{
  poll_next-round, IsReading, decode_chunk-short_header, Arrives, arrive_after_waiting,
  arrive_after_data, arrive_body,
}
use pure_grpc_rs.Codec.Decode.{
  BodyEvent, waiting, data_frame, read_header, read_body, Stream, decode_chunk, round, recv_limit,
  read_flag,
}
use pure_grpc_rs.Compression.{CompressionEncoding}
use pure_grpc_rs.Crates.{Crates}

module _ (x : Crates) {T : Type 0} (d : Decoder x.Headers T) where
  open x use {Headers}

  round-decode_chunk :
      (s t : Stream x d)
      → IsReading x d s.inner.state
      → IsReading x d t.inner.state
      → decode_chunk x d s ≡ decode_chunk x d t
      → round x d s ≡ round x d t
  unfolding round
  round-decode_chunk s t p q e = ground arith

  module _ (flag : ℕ) (payload p rest : Bytes) (m : T) (st' : d.State)
      (c : Option CompressionEncoding) (unpacks : Unpacks x d c payload p)
      (word : length payload < u32_mod) where
    -- A frame lies ahead: in the buffer, or behind it in data frames.
    pub record AtHeader (s : Stream x d) (es : List (BodyEvent Headers)) : Type 0 where
      pub body : s.inner.body ≡ es
      pub state : s.inner.state ≡ read_header
      pub bytes : s.inner.buf ++ data_of es ≡ frame flag payload ++ rest
      pub flagged : read_flag x s.inner.encoding flag ≡ ok c
      pub small : length payload ≤ recv_limit x s.inner
      pub reads : Reads x d s.decoder p m st'

    abbrev header_read : Stream x d → Bytes → Stream x d
    header_read s r = record s {
      inner = record (s.inner) { buf = r; state = read_body c (length payload) };
    }

    decode_chunk-header_read :
        (s : Stream x d) (r : Bytes)
        → s.inner.state ≡ read_header
        → s.inner.buf ≡ flag ∷ (be_bytes (length payload) ++ r)
        → read_flag x s.inner.encoding flag ≡ ok c
        → length payload ≤ recv_limit x s.inner
        → decode_chunk x d s ≡ decode_chunk x d (header_read s r)
    unfolding decode_chunk
    decode_chunk-header_read s r e b f l = ground (
      arith,
      be_word-be_bytes (length payload) word,
      ge→ltb (recv_limit x s.inner) (length payload) l,
    )

    arrive_header_read :
        (s : Stream x d) (es : List (BodyEvent Headers))
        → AtHeader s es
        → 5 ≤ length s.inner.buf
        → Arrives x d s m st' rest
    arrive_header_read s es a l =
        let (r, q, t) =
          split_off (flag ∷ be_bytes (length payload)) (payload ++ rest) s.inner.buf (data_of es)
            a.bytes l in
        let t' : Stream x d = header_read s r in
        let e =
          poll_next-round x d s t'
            (round-decode_chunk s t' (rw (a.state) tt) tt
              (decode_chunk-header_read s r a.state q a.flagged a.small))
            refl in
        let b =
          arrive_body x d payload p rest m st' c unpacks es t'
            (record { body = a.body; state = refl; bytes = t; reads = a.reads }) in
        record {
          last = b.last;
          yields = Yields-poll x d e b.yields;
          between = b.between;
          same = record {
            direction = b.same.direction;
            trailers = b.same.trailers;
            encoding = b.same.encoding;
            max_message_size = b.same.max_message_size;
            tail = b.same.tail;
          };
        }

    pub arrive_header :
        (es : List (BodyEvent Headers)) (s : Stream x d) → AtHeader s es → Arrives x d s m st' rest
    arrive_header (waiting ∷ es) s a = elim (Bool-cases (ltb (length s.inner.buf) 5)) [
      | inr big ↦ arrive_header_read s _ a (ltb→ge _ _ big)
      | inl small ↦
          arrive_after_waiting x d s es a.body (rw (a.state) tt)
            (decode_chunk-short_header x d s a.state (ltb→lt _ _ small))
            (arrive_header es _ (record {
              body = refl;
              state = a.state;
              bytes = a.bytes;
              flagged = a.flagged;
              small = a.small;
              reads = a.reads;
            }))
    ]
    arrive_header (data_frame b ∷ es) s a = elim (Bool-cases (ltb (length s.inner.buf) 5)) [
      | inr big ↦ arrive_header_read s _ a (ltb→ge _ _ big)
      | inl small ↦
          arrive_after_data x d s b es a.body (rw (a.state) tt)
            (decode_chunk-short_header x d s a.state (ltb→lt _ _ small))
            (arrive_header es _ (record {
              body = refl;
              state = a.state;
              bytes = append_assoc s.inner.buf b (data_of es) ∙ a.bytes;
              flagged = a.flagged;
              small = a.small;
              reads = a.reads;
            }))
    ]
    arrive_header es s a =
        arrive_header_read s _ a (
          omega
            (arith, ap length a.bytes, length-append s.inner.buf [], length-append payload rest))
