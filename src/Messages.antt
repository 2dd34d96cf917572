-- ===== src/Messages.antt =====
-- The codecs of messages: grpc-core/src/codec/prost_codec.rs and grpc-codec-flatbuffers/src/lib.rs.
-- What a message type of prost or FlatBuffers brings is a parameter.
use pure_grpc_rs.Base.{
  ℕ, [], ◌++◌, Option, none, some, ◌≡◌, refl, sym, arith, Result, ok, err, ready, length, unwrap_or,
  Result-cases, inl, inr, ap, ◌∙◌,
}
use pure_grpc_rs.Base.Text.{ascii}
use pure_grpc_rs.Base.Words.{Bytes}
use pure_grpc_rs.Code.{Code}
use pure_grpc_rs.Codec.Buffer.{DecodeBuf, remaining, chunk, advance, chunk-append}
use pure_grpc_rs.Codec.Decode.Failures.{poll_next-stuck}
use pure_grpc_rs.Codec.Decode.{Stream, read_body, poll_next}
use pure_grpc_rs.Codec.{Decoder, Encoder, default_yield_threshold}
use pure_grpc_rs.Crates.{Crates}
use pure_grpc_rs.Exchange.{IsCodec}
use pure_grpc_rs.Status
use pure_grpc_rs.Status.{Status}

-- `prost::Message`: `encode` appends to a buffer, and `decode` consumes all of one, where it reads
-- a message.
pub record ProstMessage (M : Type 0) : Type 0 where
  pub encode : M → Result Bytes Bytes
  pub decode : DecodeBuf → DecodeBuf × Result Bytes M
  pub decode-encode :
      (m : M) {p : Bytes} (rest : Bytes)
      → encode m ≡ ok p
      → decode (record { buf = p ++ rest; len = length p }) ≡ (record { buf = rest; len = 0 }, ok m)

-- `FlatBufferGrpcMessage`
pub record FlatBufferMessage (M : Type 0) : Type 0 where
  pub encode_flatbuffer : M → Bytes
  pub decode_flatbuffer : Bytes → Result Bytes M
  pub decode_flatbuffer-encode_flatbuffer : (m : M) → decode_flatbuffer (encode_flatbuffer m) ≡ ok m

module _ (x : Crates) {M : Type 0} where
  open x use {Headers}

  module _ (p : ProstMessage M) where
    -- `ProstEncoder::encode`: without an error, what it appends.
    unfoldable pub prost_encode :
        Unit {0} → M → Unit {0} × Bytes × Result (Status Headers) (Unit {0})
    prost_encode u item = elim (p.encode item) [
      | ok bytes ↦ (u, bytes, ok tt)
      | err e ↦ (u, [], err (Status.new x Code.internal (ascii "prost encode error: " ++ e)))
    ]

    -- `ProstDecoder::decode`
    unfoldable pub prost_decode :
        Unit {0} → DecodeBuf → Unit {0} × DecodeBuf × Result (Status Headers) (Option M)
    prost_decode u buf =
        let (rest, decoded) = p.decode buf in
        elim decoded [
          | ok item ↦ (u, rest, ok (some item))
          | err e ↦ (u, rest, err (Status.new x Code.internal e))
        ]

    abbrev pub prost_encoder : Encoder Headers M
    prost_encoder = record {
      State = Unit;
      encode = prost_encode;
      yield_threshold = default_yield_threshold;
    }

    abbrev pub prost_decoder : Decoder Headers M
    prost_decoder = record { State = Unit; decode = prost_decode }

    prost_decoded :
        (v : Unit {0}) {b c : DecodeBuf} {m : M}
        → p.decode b ≡ (c, ok m)
        → prost_decode v b ≡ (v, c, ok (some m))
    unfolding prost_decode
    prost_decoded v e = ground (arith, e)

    pub prost_reads :
        {u w v : Unit {0}} {m : M} {bytes : Bytes}
        → prost_encode u m ≡ (w, bytes, ok tt)
        → (rest : Bytes)
        → prost_decode v (record { buf = bytes ++ rest; len = length bytes })
          ≡ (v, record { buf = rest; len = 0 }, ok (some m))
    unfolding prost_encode prost_decode
    prost_reads {v = v} {m} {bytes} e rest = elim (Result-cases (p.encode m)) [
      | inr (f, q) ↦ ground (arith, e, q)
      | inl (c, q) ↦
          let b : bytes ≡ c = ground (arith, e, q) in
          rw b (prost_decoded v (p.decode-encode m rest q))
    ]

    abbrev pub prost_codec : IsCodec x prost_encoder prost_decoder
    prost_codec = record { Agree = λ u w. Unit; reads = λ a e. (tt, prost_reads e, tt) }

  module _ (f : FlatBufferMessage M) where
    unfoldable pub flat_encode :
        Unit {0} → M → Unit {0} × Bytes × Result (Status Headers) (Unit {0})
    flat_encode u item = (u, f.encode_flatbuffer item, ok tt)

    -- The buffer as it is after `advance`, which does not panic where the view is in the buffer.
    abbrev advanced : ℕ → DecodeBuf → DecodeBuf
    advanced len buf = unwrap_or (advance len buf) buf

    unfoldable pub flat_decode :
        Unit {0} → DecodeBuf → Unit {0} × DecodeBuf × Result (Status Headers) (Option M)
    flat_decode u buf =
        let len = remaining buf in
        elim (f.decode_flatbuffer (chunk buf)) [
          | ok item ↦ (u, advanced len buf, ok (some item))
          | err e ↦
              (u, buf, err (Status.new x Code.internal (ascii "FlatBuffers decode error: " ++ e)))
        ]

    abbrev pub flat_encoder : Encoder Headers M
    flat_encoder = record {
      State = Unit;
      encode = flat_encode;
      yield_threshold = default_yield_threshold;
    }

    abbrev pub flat_decoder : Decoder Headers M
    flat_decoder = record { State = Unit; decode = flat_decode }

    -- The decoder of the FlatBuffers codec reads a message from the bytes that the encoder wrote,
    -- whatever stands behind them, and consumes just these bytes.
    pub flat_reads :
        {u w v : Unit {0}} {m : M} {bytes : Bytes}
        → flat_encode u m ≡ (w, bytes, ok tt)
        → (rest : Bytes)
        → flat_decode v (record { buf = bytes ++ rest; len = length bytes })
          ≡ (v, record { buf = rest; len = 0 }, ok (some m))
    unfolding flat_encode flat_decode
    flat_reads {m = m} {bytes} e rest =
        let (c, a) = chunk-append bytes rest in
        let b : f.encode_flatbuffer m ≡ bytes = ground (arith, e) in
        let d : f.decode_flatbuffer bytes ≡ ok m =
          ap f.decode_flatbuffer (sym b) ∙ f.decode_flatbuffer-encode_flatbuffer m in
        rw (c, flat_decode) (rw d (rw a refl))

    abbrev pub flat_codec : IsCodec x flat_encoder flat_decoder
    flat_codec = record { Agree = λ u w. Unit; reads = λ a e. (tt, flat_reads e, tt) }

    -- A stream of the FlatBuffers codec that has read the header of an uncompressed message, and
    -- whose buffer begins with the bytes of a message that cannot be decoded, gives the error and
    -- stays just as it was, so every further poll gives the same error.
    pub poll_next-undecodable :
        (s : Stream x flat_decoder) (payload rest e : Bytes)
        → s.inner.state ≡ read_body none (length payload)
        → s.inner.buf ≡ payload ++ rest
        → f.decode_flatbuffer payload ≡ err e
        → poll_next x flat_decoder s
          ≡ some (
            s,
            ready
                (some (err (Status.new x Code.internal (ascii "FlatBuffers decode error: " ++ e)))),
          )
    unfolding flat_decode
    poll_next-undecodable s payload rest e st b u =
        let (c, a) = chunk-append payload rest in
        poll_next-stuck x flat_decoder s payload rest
          (Status.new x Code.internal (ascii "FlatBuffers decode error: " ++ e)) st b
          (rw (c, flat_decode) (rw u refl))
