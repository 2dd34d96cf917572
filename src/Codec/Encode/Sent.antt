-- ===== src/Codec/Encode/Sent.antt =====
-- The events that a body gives when it is polled to its end, and those that its source gives
-- (encode.rs).
use pure_grpc_rs.Base.{
  ℕ, ◌≤◌, ◌<◌, List, [], ◌∷◌, ◌++◌, Option, none, some, ◌≡◌, ap, ◌∙◌, ok, err, pending, ready,
  length,
}
use pure_grpc_rs.Base.Words.{Bytes, u32_mod}
use pure_grpc_rs.Codec.{Encoder}
use pure_grpc_rs.Codec.Decode.{BodyEvent, waiting, data_frame, trailers_frame, failed}
use pure_grpc_rs.Codec.Decode.Deliver.{frame, data_of, after_data}
use pure_grpc_rs.Codec.Encode.{
  SourceEvent, not_ready, message, data_out, trailers_out, flag_of, send_limit, Body, poll_frame,
}
use pure_grpc_rs.Codec.Encode.Items.{Packs}
use pure_grpc_rs.Compression.{CompressionEncoding}
use pure_grpc_rs.Crates.{Crates}
use pure_grpc_rs.Status.{Status}

module _ (x : Crates) (display : Status x.Headers → Bytes) {T : Type 0}
    (n : Encoder x.Headers T) where
  open x use {Headers}

  -- Polled again and again until its end, its trailers or its error, a body gives these events.
  pub data Emits : Body x display n → List (BodyEvent Headers) → Type 0 where
    ends : {b b' : Body x display n} → poll_frame x display n b ≡ (b', ready none) → Emits b []
    waits :
        {b b' : Body x display n} {es : List (BodyEvent Headers)}
        → poll_frame x display n b ≡ (b', pending)
        → Emits b' es
        → Emits b (waiting ∷ es)
    sends :
        {b b' : Body x display n} {bytes : Bytes} {es : List (BodyEvent Headers)}
        → poll_frame x display n b ≡ (b', ready (some (ok (data_out bytes))))
        → Emits b' es
        → Emits b (data_frame bytes ∷ es)
    concludes :
        {b b' : Body x display n} {h : Headers}
        → poll_frame x display n b ≡ (b', ready (some (ok (trailers_out h))))
        → Emits b (trailers_frame h ∷ [])
    breaks :
        {b b' : Body x display n} {e : Status Headers}
        → poll_frame x display n b ≡ (b', ready (some (err e)))
        → Emits b (failed e ∷ [])

  pub Emits-poll :
      {b c : Body x display n} {es : List (BodyEvent Headers)}
      → poll_frame x display n b ≡ poll_frame x display n c
      → Emits c es
      → Emits b es
  Emits-poll q (ends p) = ends (q ∙ p)
  Emits-poll q (waits p e) = waits (q ∙ p) e
  Emits-poll q (sends p e) = sends (q ∙ p) e
  Emits-poll q (concludes p) = concludes (q ∙ p)
  Emits-poll q (breaks p) = breaks (q ∙ p)

  -- The events of a source whose messages are encoded and packed within the limits, up to `rest`,
  -- with the messages and the bytes of their frames.
  pub data Sends (c : Option CompressionEncoding) (max : Option ℕ)
      (rest : List (SourceEvent Headers T))
      : n.State → List (SourceEvent Headers T) → List T → n.State → Bytes → Type 0 where
    none_left : {st : n.State} → Sends c max rest st rest [] st []
    idle :
        {st st' : n.State} {es : List (SourceEvent Headers T)} {ms : List T} {wire : Bytes}
        → Sends c max rest st es ms st' wire
        → Sends c max rest st (not_ready ∷ es) ms st' wire
    one_more :
        {st st' last : n.State} {es : List (SourceEvent Headers T)} {m : T} {ms : List T}
        {wire : Bytes} (p payload : Bytes)
        → n.encode st m ≡ (st', p, ok tt)
        → Packs x c p payload
        → length payload ≤ send_limit x max
        → length payload < u32_mod
        → Sends c max rest st' es ms last wire
        → Sends c max rest st (message m ∷ es) (m ∷ ms) last (frame (flag_of c) payload ++ wire)

  pub record Sent (b : Body x display n) (bytes : Bytes) (tail : List (BodyEvent Headers))
      : Type 0 where
    pub events : List (BodyEvent Headers)
    pub emits : Emits b events
    pub carried : data_of events ≡ bytes
    pub ending : after_data events ≡ tail

  pub Sent-poll :
      {b c : Body x display n} {bytes : Bytes} {tail : List (BodyEvent Headers)}
      → poll_frame x display n b ≡ poll_frame x display n c
      → Sent c bytes tail
      → Sent b bytes tail
  Sent-poll q s = record {
    events = s.events;
    emits = Emits-poll q s.emits;
    carried = s.carried;
    ending = s.ending;
  }

  pub Sent-flush :
      {b b' : Body x display n} {buf bytes : Bytes} {tail : List (BodyEvent Headers)}
      → poll_frame x display n b ≡ (b', ready (some (ok (data_out buf))))
      → Sent b' bytes tail
      → Sent b (buf ++ bytes) tail
  Sent-flush {buf = buf} q s = record {
    events = data_frame buf ∷ s.events;
    emits = sends q s.emits;
    carried = ap (λ w. buf ++ w) s.carried;
    ending = s.ending;
  }

  pub Sent-bytes :
      {b : Body x display n} {bytes bytes' : Bytes} {tail : List (BodyEvent Headers)}
      → bytes ≡ bytes'
      → Sent b bytes tail
      → Sent b bytes' tail
  Sent-bytes q s = record {
    events = s.events;
    emits = s.emits;
    carried = s.carried ∙ q;
    ending = s.ending;
  }
