-- ===== src/Codec/Encode/Emit.antt =====
-- A whole body is sent: the frames of the messages in their order, behind what the buffer holds
-- (encode.rs).
use pure_grpc_rs.Base.{
  ℕ, ◌≤◌, ◌<◌, true, false, List, [], ◌∷◌, ◌++◌, Option, none, some, ◌≡◌, refl, sym, ap, ◌∙◌, inl,
  inr, arith, ok, pending, ready, length, leb, append_assoc, append-nil, Bool-cases,
}
use pure_grpc_rs.Base.Words.{Bytes, u32_mod}
use pure_grpc_rs.Codec.{Encoder}
use pure_grpc_rs.Codec.Decode.{BodyEvent, waiting}
use pure_grpc_rs.Codec.Decode.Deliver.{frame}
use pure_grpc_rs.Codec.Encode.{
  SourceEvent, not_ready, message, Role, data_out, flag_of, send_limit, Body, poll_source,
  poll_next, poll_frame, frame_of,
}
use pure_grpc_rs.Codec.Encode.Items.{Packs, scratch, encode_item-frame}
use pure_grpc_rs.Compression.{CompressionEncoding}
use pure_grpc_rs.Crates.{Crates}
use pure_grpc_rs.Status.{Status}
use pure_grpc_rs.Codec.Encode.Sent.{
  waits, Sends, none_left, idle, one_more, Sent, Sent-poll, Sent-flush, Sent-bytes,
}

module _ (x : Crates) (display : Status x.Headers → Bytes) {T : Type 0}
    (n : Encoder x.Headers T) where
  open x use {Headers}

  module _ (role : Role) (c : Option CompressionEncoding) (max : Option ℕ) where
    -- A body before its end, with frames in its buffer.
    abbrev pub body_at :
        n.State
        → List (SourceEvent Headers T)
        → Bytes
        → Bytes
        → Option (Status Headers)
        → Body x display n
    body_at st es buf unc e = record {
      inner = record {
        source = es;
        encoder = st;
        compression_encoding = c;
        max_message_size = max;
        buf = buf;
        uncompression_buf = unc;
        error = e;
      };
      state = record { error = none; role = role; is_end_stream = false };
    }

    poll_idle-empty :
        (st : n.State) (es : List (SourceEvent Headers T)) (unc : Bytes)
        → poll_frame x display n (body_at st (not_ready ∷ es) [] unc none)
          ≡ (body_at st es [] unc none, pending)
    unfolding poll_frame poll_next poll_source
    poll_idle-empty st es unc = refl

    poll_idle-full :
        (st : n.State) (es : List (SourceEvent Headers T)) (b : ℕ) (buf unc : Bytes)
        → poll_frame x display n (body_at st (not_ready ∷ es) (b ∷ buf) unc none)
          ≡ (body_at st es [] unc none, ready (some (ok (data_out (b ∷ buf)))))
    unfolding poll_frame poll_next poll_source
    poll_idle-full st es b buf unc = refl

    poll_message :
        (st st' : n.State) (es : List (SourceEvent Headers T)) (buf unc : Bytes) (m : T)
        (p payload : Bytes)
        → n.encode st m ≡ (st', p, ok tt)
        → Packs x c p payload
        → length payload ≤ send_limit x max
        → length payload < u32_mod
        → poll_next x display n ((body_at st (message m ∷ es) buf unc none).inner) ≡ (
            let buf' = buf ++ frame (flag_of c) payload in
            elim (leb n.yield_threshold (length buf')) [
              | true ↦ (
                (body_at st' es [] (scratch x display n c p unc) none).inner,
                ready (some (ok buf')),
              )
              | false ↦
                  poll_source x display n es
                    ((body_at st' es buf' (scratch x display n c p unc) none).inner)
            ])
    unfolding poll_next poll_source
    poll_message st st' es buf unc m p payload e q l w = ground (
      arith,
      encode_item-frame x display n ((body_at st (message m ∷ es) buf unc none).inner) m st' p
          payload e q l w,
    )

    module _ (st st' : n.State) (es : List (SourceEvent Headers T)) (buf unc : Bytes) (m : T)
        (p payload : Bytes) (encodes : n.encode st m ≡ (st', p, ok tt))
        (packs : Packs x c p payload) (limited : length payload ≤ send_limit x max)
        (small : length payload < u32_mod) where
      poll_message-full :
          leb n.yield_threshold (length (buf ++ frame (flag_of c) payload)) ≡ true
          → poll_frame x display n (body_at st (message m ∷ es) buf unc none) ≡ (
            body_at st' es [] (scratch x display n c p unc) none,
            ready (some (ok (data_out (buf ++ frame (flag_of c) payload)))),
          )
      unfolding poll_frame
      poll_message-full h =
          ground (arith, h, poll_message st st' es buf unc m p payload encodes packs limited small)

      pub poll_message-more :
          leb n.yield_threshold (length (buf ++ frame (flag_of c) payload)) ≡ false
          → poll_frame x display n (body_at st (message m ∷ es) buf unc none)
            ≡ poll_frame x display n (
                body_at st' es
                  (buf ++ frame (flag_of c) payload)
                  (scratch x display n c p unc)
                  none)
      unfolding poll_frame poll_next
      poll_message-more h =
          let b = body_at st (message m ∷ es) buf unc none in
          let b' =
            body_at st' es (buf ++ frame (flag_of c) payload) (scratch x display n c p unc) none in
          let q : poll_next x display n b.inner ≡ poll_next x display n b'.inner =
            poll_message st st' es buf unc m p payload encodes packs limited small ∙ rw h refl in
          ap (frame_of x display n b.state) q

    -- The frames of the messages go out behind what the buffer holds; then the rest takes over.
    pub emit :
        {rest es : List (SourceEvent Headers T)} {st st' : n.State} {ms : List T} {wire : Bytes}
        {tail : List (BodyEvent Headers)} (buf unc : Bytes)
        → Sends x display n c max rest st es ms st' wire
        → ((buf unc : Bytes) → Sent x display n (body_at st' rest buf unc none) buf tail)
        → Sent x display n (body_at st es buf unc none) (buf ++ wire) tail
    emit buf unc none_left fin = Sent-bytes x display n (sym (append-nil buf)) (fin buf unc)
    emit [] unc (idle s) fin =
        let r = emit [] unc s fin in
        record {
          events = waiting ∷ r.events;
          emits = waits (poll_idle-empty _ _ unc) r.emits;
          carried = r.carried;
          ending = r.ending;
        }
    emit (b ∷ buf) unc (idle s) fin =
        Sent-flush x display n (poll_idle-full _ _ b buf unc) (emit [] unc s fin)
    emit buf unc (one_more {st} {st'} {es = es} {m = m} {wire = wire} p payload e q l w s) fin =
        let f = frame (flag_of c) payload in
        let unc' = scratch x display n c p unc in
        Sent-bytes x display n (append_assoc buf f wire)
          (elim (Bool-cases (leb n.yield_threshold (length (buf ++ f)))) [
            | inl h ↦
                Sent-flush x display n (poll_message-full st st' es buf unc m p payload e q l w h)
                  (emit [] unc' s fin)
            | inr h ↦
                Sent-poll x display n (poll_message-more st st' es buf unc m p payload e q l w h)
                  (emit (buf ++ f) unc' s fin)
          ])
