-- ===== src/Codec/Encode/Trailers.antt =====
-- Messages that cannot be sent, and the single trailers frame of a server (encode.rs).
use pure_grpc_rs.Base.{
  ℕ, ◌<◌, true, List, [], ◌∷◌, ◌++◌, Option, none, some, ◌≡◌, refl, sym, ap, ◌∙◌, arith, ◌≤◌, false,
  map, leb, length-append, ok, err, ready, length, append_assoc, append-nil, take-append,
  drop-append,
}
use pure_grpc_rs.Base.Text.{ascii, decimal}
use pure_grpc_rs.Base.Words.{Bytes, u32_mod}
use pure_grpc_rs.Code.{Code}
use pure_grpc_rs.Codec.{Encoder}
use pure_grpc_rs.Codec.Encode.{
  SourceEvent, message, server, trailers_out, reserved_header, send_limit, finish_encoding, Source,
  Body, new, flag_of, encoding_error, encode_payload, encode_item, poll_source, poll_next,
  poll_frame,
}
use pure_grpc_rs.Codec.Encode.Emit.{body_at, poll_message-more}
use pure_grpc_rs.Codec.Encode.Sent.{Emits, concludes}
use pure_grpc_rs.Codec.Decode.{trailers_frame}
use pure_grpc_rs.Codec.Decode.Deliver.{frame}
use mathlib.Core.Path.{subst}
use pure_grpc_rs.Codec.Encode.Finish.{error_trailers}
use pure_grpc_rs.Codec.Encode.Items.{Packs, scratch, encode_payload-ok}
use pure_grpc_rs.Compression.{CompressionEncoding}
use pure_grpc_rs.Crates.{Crates}
use pure_grpc_rs.Status
use pure_grpc_rs.Status.{Status, to_header_map}

module _ (x : Crates) (display : Status x.Headers → Bytes) {T : Type 0}
    (n : Encoder x.Headers T) where
  open x use {Headers}

  rejected_payload :
      (c : Option CompressionEncoding) (st st' : n.State) (buf unc out : Bytes) (m : T)
      (f : Status Headers)
      → n.encode st m ≡ (st', out, err f)
      → (part unc' : Bytes) × (encode_payload x display n c st buf unc m
          ≡ (st', buf ++ part, unc', err (encoding_error x display n f)))
  unfolding encode_payload
  rejected_payload none st st' buf unc out m f e = (out, unc, ground (arith, e))
  rejected_payload (some g) st st' buf unc out m f e = ([], out, ground (arith, e, append-nil buf))

  -- A message that the encoder refuses, after writing any part of it, gives the encoding error and
  -- leaves the buffer as it was; only the encoder's state and the temporary buffer may change.
  pub encode_item-rejected :
      (s : Source x display n) (m : T) (st' : n.State) (out : Bytes) (f : Status Headers)
      → n.encode s.encoder m ≡ (st', out, err f)
      → (unc' : Bytes) × (encode_item x display n s m ≡ (
        record s { encoder = st'; uncompression_buf = unc' },
        err (encoding_error x display n f),
      ))
  unfolding encode_item
  encode_item-rejected s m st' out f e =
      let (part, unc', q) =
        rejected_payload s.compression_encoding s.encoder st' (s.buf ++ reserved_header)
          s.uncompression_buf out m f e in
      (
        unc',
        ground (
          arith,
          q,
          append_assoc s.buf reserved_header part,
          take-append s.buf (reserved_header ++ part),
        ),
      )

  too_long :
      (c : Option CompressionEncoding) (max : Option ℕ) (payload : Bytes)
      → send_limit x max < length payload
      → (t : Bytes) × (finish_encoding x c max (reserved_header ++ payload)
          ≡ err (Status.new x Code.out_of_range t))
  unfolding finish_encoding
  too_long c max payload l = (
    ascii "Error, encoded message length too large: found "
        ++ decimal (length payload)
        ++ ascii " bytes, the limit is: "
        ++ decimal (send_limit x max)
        ++ ascii " bytes",
    ground (arith, l),
  )

  -- A message that the encoder encodes, but with a payload over the send limit, gives an error
  -- with the code OutOfRange and leaves the buffer as it was.
  pub encode_item-too_long :
      (s : Source x display n) (m : T) (st' : n.State) (p payload : Bytes)
      → n.encode s.encoder m ≡ (st', p, ok tt)
      → Packs x s.compression_encoding p payload
      → send_limit x s.max_message_size < length payload
      → (s' : Source x display n) × (t : Bytes) × (encode_item x display n s m
          ≡ (s', err (Status.new x Code.out_of_range t)))
        × (s'.buf ≡ s.buf)
  unfolding encode_item
  encode_item-too_long s m st' p payload e q l =
      let c = s.compression_encoding in
      let (t, g) = too_long c s.max_message_size payload l in
      let s' : Source x display n = record s {
        encoder = st';
        uncompression_buf = scratch x display n c p s.uncompression_buf;
      } in
      (
        s',
        t,
        ground (
          arith,
          encode_payload-ok x display n c s.encoder st' (s.buf ++ reserved_header)
              s.uncompression_buf m p payload e q,
          append_assoc s.buf reserved_header payload,
          drop-append s.buf (reserved_header ++ payload),
          take-append s.buf (reserved_header ++ payload),
          g,
        ),
        refl,
      )

  refused_poll :
      (c : Option CompressionEncoding) (max : Option ℕ) (st st' : n.State)
      (es : List (SourceEvent Headers T)) (buf unc out : Bytes) (m : T) (f : Status Headers)
      → n.encode st m ≡ (st', out, err f)
      → (unc' : Bytes) × (poll_next x display n
            ((body_at x display n server c max st (message m ∷ es) buf unc none).inner)
          ≡ (
            (body_at x display n server c max st' es buf unc' none).inner,
            ready (some (err (encoding_error x display n f))),
          ))
  unfolding poll_next poll_source
  refused_poll c max st st' es buf unc out m f e =
      let b = body_at x display n server c max st (message m ∷ es) buf unc none in
      let (unc', q) = encode_item-rejected b.inner m st' out f e in (unc', ground (arith, q))

  -- Messages that are encoded and packed within the limits one after the other, with the bytes of
  -- their frames.
  pub data Encodes (c : Option CompressionEncoding) (max : Option ℕ)
      : n.State → List T → n.State → Bytes → Type 0 where
    no_more : {st : n.State} → Encodes c max st [] st []
    one_more :
        {st st' last : n.State} {m : T} {ms : List T} {wire : Bytes} (p payload : Bytes)
        → n.encode st m ≡ (st', p, ok tt)
        → Packs x c p payload
        → length payload ≤ send_limit x max
        → length payload < u32_mod
        → Encodes c max st' ms last wire
        → Encodes c max st (m ∷ ms) last (frame (flag_of c) payload ++ wire)

  -- Frames that stay below the threshold are gathered in the buffer, and nothing is given yet.
  poll_gathers :
      {c : Option CompressionEncoding} {max : Option ℕ} {st st' : n.State} {ms : List T}
      {wire : Bytes} (es : List (SourceEvent Headers T)) (buf unc : Bytes)
      → Encodes c max st ms st' wire
      → length (buf ++ wire) < n.yield_threshold
      → (unc' : Bytes) × (poll_frame x display n
            (body_at x display n server c max st (map message ms ++ es) buf unc none)
          ≡ poll_frame x display n
              (body_at x display n server c max st' es (buf ++ wire) unc' none))
  poll_gathers {c} {max} {st} es buf unc no_more l = (
    unc,
    ap (λ b. poll_frame x display n (body_at x display n server c max st es b unc none))
        (sym (append-nil buf)),
  )
  poll_gathers {c} {max} {st' = last} es buf unc
        (one_more {st} {st'} {m = m} {ms = ms} {wire = wire} p payload e q k w s) l =
      let f = frame (flag_of c) payload in
      let small : length ((buf ++ f) ++ wire) < n.yield_threshold =
        subst (λ b. length b < n.yield_threshold) (sym (append_assoc buf f wire)) l in
      let more : leb n.yield_threshold (length (buf ++ f)) ≡ false =
        ground (arith, small, length-append (buf ++ f) wire) in
      let (unc', r) = poll_gathers es (buf ++ f) (scratch x display n c p unc) s small in
      (
        unc',
        poll_message-more x display n server c max st st' (map message ms ++ es) buf unc m p payload
              e q k w more
            ∙ r
            ∙ ap
                (λ b. poll_frame x display n (body_at x display n server c max last es b unc' none))
                (append_assoc buf f wire),
      )

  refused_trailers :
      (c : Option CompressionEncoding) (max : Option ℕ) (st st' : n.State)
      (es : List (SourceEvent Headers T)) (buf unc out : Bytes) (m : T) (f : Status Headers)
      (h : Headers)
      → n.encode st m ≡ (st', out, err f)
      → to_header_map x (encoding_error x display n f) ≡ ok h
      → (b' : Body x display n) × (poll_frame x display n
            (body_at x display n server c max st (message m ∷ es) buf unc none)
          ≡ (b', ready (some (ok (trailers_out h)))))
        × (b'.inner.buf ≡ buf)
        × (b'.state.is_end_stream ≡ true)
  refused_trailers c max st st' es buf unc out m f h e t =
      let (unc', q) = refused_poll c max st st' es buf unc out m f e in
      (_, error_trailers x display n _ _ _ h q t, refl, refl)

  -- Let the source of a new server's body give messages that are encoded within the limits, with
  -- fewer bytes of frames than the threshold, and then a message that the encoder refuses, and let
  -- the error be written to headers. Then the first frame of the body is the trailers with the
  -- encoding error, and the body is at its end, although the frames of the messages before it are
  -- in its buffer: polled to its end, the body gives nothing but these trailers.
  pub encode_error_trailers :
      {c : Option CompressionEncoding} {max : Option ℕ} {st st' last : n.State} {ms : List T}
      {wire : Bytes} (es : List (SourceEvent Headers T)) (out : Bytes) (m : T) (f : Status Headers)
      (h : Headers)
      → Encodes c max st ms st' wire
      → length wire < n.yield_threshold
      → n.encode st' m ≡ (last, out, err f)
      → to_header_map x (encoding_error x display n f) ≡ ok h
      → (b' : Body x display n) × (poll_frame x display n
            (new x display n server st (map message ms ++ (message m ∷ es)) c max)
          ≡ (b', ready (some (ok (trailers_out h)))))
        × (b'.inner.buf ≡ wire)
        × (b'.state.is_end_stream ≡ true)
        × Emits x display n
            (new x display n server st (map message ms ++ (message m ∷ es)) c max)
            (trailers_frame h ∷ [])
  encode_error_trailers {c} {max} {st} {st'} {last} {wire = wire} es out m f h s l e t =
      let (unc, q) = poll_gathers (message m ∷ es) [] [] s l in
      let (b', p, kept, ended) = refused_trailers c max st' last es wire unc out m f h e t in
      (b', q ∙ p, kept, ended, concludes (q ∙ p))
