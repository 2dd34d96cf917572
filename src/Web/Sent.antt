-- ===== src/Web/Sent.antt =====
-- What a gRPC-Web body gives, polled again and again (grpc-web/src/call.rs).
use pure_grpc_rs.Base.{
  ◌≤◌, Bool, true, false, List, [], ◌∷◌, ◌++◌, Option, none, some, ◌≡◌, refl, ap, ◌∙◌, ok, pending,
  ready, All, append-nil, append_assoc,
}
use pure_grpc_rs.Base.Words.{Bytes}
use pure_grpc_rs.Codec.Decode.{
  BodyEvent, waiting, data_frame, trailers_frame, unknown_frame, failed,
}
use pure_grpc_rs.Codec.Decode.Deliver.{data_of, after_data}
use pure_grpc_rs.Crates.{Crates}
use pure_grpc_rs.Web.Body
use pure_grpc_rs.Web.Body.{
  Encoding, binary, base64, GrpcWebCall, Frame, of_data, Call, poll_frame, poll_encode,
  encode_inner, encode_data, encode_trailers, trailer_frame, trailer_lines, response,
}

module _ (x : Crates) where
  open x use {Headers, http}

  pub data Emits : Call x → List (BodyEvent Headers) → Type 0 where
    ends : {c c' : Call x} → poll_frame x c ≡ (c', ready none) → Emits c []
    waits :
        {c c' : Call x} {es : List (BodyEvent Headers)}
        → poll_frame x c ≡ (c', pending)
        → Emits c' es
        → Emits c (waiting ∷ es)
    sends :
        {c c' : Call x} {bytes : Bytes} {es : List (BodyEvent Headers)}
        → poll_frame x c ≡ (c', ready (some (ok (of_data bytes))))
        → Emits c' es
        → Emits c (data_frame bytes ∷ es)

  -- The bytes that a gRPC-Web client reads from the data frames, each encoded by itself.
  abbrev pub join : Option Bytes → Option Bytes → Option Bytes
  join (some a) (some b) = some (a ++ b)
  join _ _ = none

  abbrev pub decoded : Encoding → Bytes → Option Bytes
  decoded binary bytes = some bytes
  decoded base64 bytes = x.decode_padded bytes

  abbrev pub read_web : Encoding → List (BodyEvent Headers) → Option Bytes
  read_web e [] = some []
  read_web e (waiting ∷ es) = read_web e es
  read_web e (data_frame bytes ∷ es) = join (decoded e bytes) (read_web e es)
  read_web e _ = none

  -- Each data frame of the inner body holds bytes.
  abbrev pub AreBytes : List (BodyEvent Headers) → Type 0
  AreBytes (data_frame bytes ∷ es) = All (λ b. b ≤ 255) bytes × AreBytes es
  AreBytes (waiting ∷ es) = AreBytes es
  AreBytes _ = Unit

  decoded-encode_data :
      (e : Encoding) (bytes : Bytes)
      → All (λ b. b ≤ 255) bytes
      → decoded e (encode_data x e bytes) ≡ some bytes
  unfolding encode_data
  decoded-encode_data binary bytes h = refl
  decoded-encode_data base64 bytes h = x.decode_padded-encode_padded bytes h

  pub record Sent (c : Call x) (e : Encoding) (bytes : Bytes) : Type 0 where
    pub events : List (BodyEvent Headers)
    pub emits : Emits c events
    pub carried : read_web e events ≡ some bytes
    pub ending : after_data events ≡ []

  abbrev at : Encoding → List (BodyEvent Headers) → Option Headers → Bool → Call x
  at e es trailers sent = record {
    inner = es;
    encoding = e;
    direction = Body.Direction.encode;
    buf = [];
    trailers = trailers;
    trailers_sent = sent;
  }

  sent_all : (e : Encoding) (es : List (BodyEvent Headers)) → Emits (at e es none true) []
  unfolding poll_frame poll_encode
  sent_all e es = ends refl

  send_trailers :
      (e : Encoding) (es : List (BodyEvent Headers)) (h : Headers)
      → All (λ b. b ≤ 255) (trailer_frame x h)
      → Sent (at e es (some h) false) e (trailer_frame x h)
  unfolding poll_frame poll_encode encode_trailers
  send_trailers e es h b = record {
    events = data_frame (encode_trailers x h e) ∷ [];
    emits = sends refl (sent_all e es);
    carried =
        ap (λ o. join o (some [])) (decoded-encode_data e (trailer_frame x h) b)
        ∙ ap some (append-nil (trailer_frame x h));
    ending = refl;
  }

  Sent-wait :
      {c c' : Call x} {e : Encoding} {bytes : Bytes}
      → poll_frame x c ≡ (c', pending)
      → Sent c' e bytes
      → Sent c e bytes
  Sent-wait p s = record {
    events = waiting ∷ s.events;
    emits = waits p s.emits;
    carried = s.carried;
    ending = s.ending;
  }

  Sent-data :
      {c c' : Call x} {e : Encoding} (first : Bytes) {bytes : Bytes}
      → All (λ b. b ≤ 255) first
      → poll_frame x c ≡ (c', ready (some (ok (of_data (encode_data x e first)))))
      → Sent c' e bytes
      → Sent c e (first ++ bytes)
  Sent-data {e = e} first b p s = record {
    events = data_frame (encode_data x e first) ∷ s.events;
    emits = sends p s.emits;
    carried = rw (decoded-encode_data e first b, s.carried) refl;
    ending = s.ending;
  }

  head_trailers :
      {k h : Headers} {es more : List (BodyEvent Headers)}
      → trailers_frame k ∷ es ≡ trailers_frame h ∷ more
      → k ≡ h
  head_trailers t = cc t

  send_inner :
      (e : Encoding) (es : List (BodyEvent Headers)) (h : Headers) (more : List (BodyEvent Headers))
      → after_data es ≡ trailers_frame h ∷ more
      → AreBytes es
      → All (λ b. b ≤ 255) (trailer_frame x h)
      → Sent (at e es none false) e (data_of es ++ trailer_frame x h)
  unfolding poll_frame poll_encode encode_inner
  send_inner e (waiting ∷ es) h more t b q = Sent-wait refl (send_inner e es h more t b q)
  send_inner e (data_frame bytes ∷ es) h more t b q =
      rw (append_assoc bytes (data_of es) (trailer_frame x h))
        (Sent-data bytes b.0 refl (send_inner e es h more t b.1 q))
  send_inner e (trailers_frame k ∷ es) h more t b q =
      Sent-wait refl (rw (head_trailers t) (send_trailers e es h q))
  send_inner e [] h more t b q = absurd (cc t)
  send_inner e (unknown_frame ∷ es) h more t b q = absurd (cc t)
  send_inner e (failed f ∷ es) h more t b q = absurd (cc t)

  -- The body of a gRPC-Web response, over an inner body whose data frames hold bytes and whose
  -- data is followed by trailers of which the frame is bytes, gives data frames, each in the
  -- encoding of the response, from which a client reads the inner body's data and then the frame
  -- of the trailers. Then the body ends, with no HTTP trailers.
  pub response-Sent :
      (e : Encoding) (es : List (BodyEvent Headers)) (h : Headers) {more : List (BodyEvent Headers)}
      → after_data es ≡ trailers_frame h ∷ more
      → AreBytes es
      → All (λ b. b ≤ 255) (trailer_frame x h)
      → Sent (response e es) e (data_of es ++ trailer_frame x h)
  response-Sent e es h {more} t b q = send_inner e es h more t b q
