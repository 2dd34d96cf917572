-- ===== src/Codec/Encode/Items.antt =====
-- One message becomes one frame behind what the buffer holds, or leaves the buffer as it is
-- (encode.rs, `encode_item` and `finish_encoding`).
use pure_grpc_rs.Base.{
  ℕ, ◌≤◌, ◌<◌, [], ◌++◌, Option, none, some, ◌≡◌, refl, arith, ok, length, append_assoc,
  take-append, drop-append,
}
use pure_grpc_rs.Base.Words.{Bytes, u32_mod}
use pure_grpc_rs.Codec.{Encoder}
use pure_grpc_rs.Codec.Decode.Deliver.{frame}
use pure_grpc_rs.Codec.Encode.{
  flag_of, reserved_header, send_limit, finish_encoding, Source, encode_payload, encode_item,
}
use pure_grpc_rs.Compression.{CompressionEncoding, compress}
use pure_grpc_rs.Compression.Negotiation.{compress-append}
use pure_grpc_rs.Crates.{Crates}
use pure_grpc_rs.Status.{Status}

module _ (x : Crates) where
  open x use {Headers}

  -- The payload of a frame for the encoded message `p`.
  abbrev pub Packs : Option CompressionEncoding → Bytes → Bytes → Type 0
  Packs none p payload = payload ≡ p
  Packs (some e) p payload = compress x e p [] ≡ ok payload

  finish_encoding-payload :
      (c : Option CompressionEncoding) (max : Option ℕ) (payload : Bytes)
      → length payload ≤ send_limit x max
      → length payload < u32_mod
      → finish_encoding x c max (reserved_header ++ payload) ≡ ok (frame (flag_of c) payload)
  unfolding finish_encoding
  finish_encoding-payload c max payload l w = ground (arith, l, w)

module _ (x : Crates) (display : Status x.Headers → Bytes) {T : Type 0}
    (n : Encoder x.Headers T) where
  open x use {Headers}

  -- What is left in the temporary buffer.
  abbrev pub scratch : Option CompressionEncoding → Bytes → Bytes → Bytes
  scratch none p unc = unc
  scratch (some _) p unc = p

  pub encode_payload-ok :
      (c : Option CompressionEncoding) (st st' : n.State) (buf unc : Bytes) (m : T)
      (p payload : Bytes)
      → n.encode st m ≡ (st', p, ok tt)
      → Packs x c p payload
      → encode_payload x display n c st buf unc m ≡ (st', buf ++ payload, scratch c p unc, ok tt)
  unfolding encode_payload
  encode_payload-ok none st st' buf unc m p payload e q = rw (e, q) refl
  encode_payload-ok (some f) st st' buf unc m p payload e q =
      ground (arith, e, compress-append x f p buf q)

  -- A message that the encoder encodes, with a payload (compressed, if there is an encoding)
  -- within the send limit and below 2^32 bytes, is appended to the buffer as one frame: the
  -- compression flag, the length of the payload as a big-endian word, and the payload. Nothing
  -- else but the encoder's state and the temporary buffer changes.
  pub encode_item-frame :
      (s : Source x display n) (m : T) (st' : n.State) (p payload : Bytes)
      → n.encode s.encoder m ≡ (st', p, ok tt)
      → Packs x s.compression_encoding p payload
      → length payload ≤ send_limit x s.max_message_size
      → length payload < u32_mod
      → encode_item x display n s m ≡ (
        record s {
          encoder = st';
          uncompression_buf = scratch s.compression_encoding p s.uncompression_buf;
          buf = s.buf ++ frame (flag_of s.compression_encoding) payload;
        },
        ok tt,
      )
  unfolding encode_item
  encode_item-frame s m st' p payload e q l w =
      let c = s.compression_encoding in
      ground (
        arith,
        encode_payload-ok c s.encoder st' (s.buf ++ reserved_header) s.uncompression_buf m p payload
            e q,
        append_assoc s.buf reserved_header payload,
        drop-append s.buf (reserved_header ++ payload),
        take-append s.buf (reserved_header ++ payload),
        finish_encoding-payload x c s.max_message_size payload l w,
      )
