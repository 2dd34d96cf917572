-- ===== src/Codec/Encode/Unique.antt =====
-- The events of a body are those of its polls, and no others (encode.rs).
use mathlib.Core.Path.{subst}
use pure_grpc_rs.Base.{List, [], ◌∷◌, none, some, ◌≡◌, refl, sym, ap, ◌∙◌, ok, err, pending, ready}
use pure_grpc_rs.Base.Words.{Bytes}
use pure_grpc_rs.Codec.{Encoder}
use pure_grpc_rs.Codec.Decode.{BodyEvent, waiting, data_frame, trailers_frame, failed}
use pure_grpc_rs.Codec.Decode.Deliver.{data_of, after_data}
use pure_grpc_rs.Codec.Encode
use pure_grpc_rs.Codec.Encode.{
  SourceEvent, Body, data_out, trailers_out, client, server, send_limit, poll_frame,
}
use pure_grpc_rs.Codec.Encode.Sent.{Emits, ends, waits, sends, concludes, breaks, Sent}
use pure_grpc_rs.Crates.{Crates}
use pure_grpc_rs.Status.{Status}

module _ (x : Crates) (display : Status x.Headers → Bytes) {T : Type 0}
    (n : Encoder x.Headers T) where
  open x use {Headers}

  -- What a poll says of the events of a body.
  Next : Body x display n × Encode.Polled x display n → List (BodyEvent Headers) → Type 0
  Next (b, pending) es =
      (more : List (BodyEvent Headers)) × (es ≡ waiting ∷ more) × Emits x display n b more
  Next (b, ready none) es = es ≡ []
  Next (b, ready (some (err e))) es = es ≡ failed e ∷ []
  Next (b, ready (some (ok (data_out bytes)))) es =
      (more : List (BodyEvent Headers)) × (es ≡ data_frame bytes ∷ more) × Emits x display n b more
  Next (b, ready (some (ok (trailers_out h)))) es = es ≡ trailers_frame h ∷ []

  poll_frame-Next :
      {b : Body x display n} {es : List (BodyEvent Headers)}
      → Emits x display n b es
      → Next (poll_frame x display n b) es
  unfolding Next
  poll_frame-Next {es = es} (ends p) = subst (λ q. Next q []) (sym p) refl
  poll_frame-Next (waits {es = es} p e) = subst (λ q. Next q (waiting ∷ es)) (sym p) (es, refl, e)
  poll_frame-Next (sends {bytes = bytes} {es = es} p e) =
      subst (λ q. Next q (data_frame bytes ∷ es)) (sym p) (es, refl, e)
  poll_frame-Next (concludes {h = h} p) = subst (λ q. Next q (trailers_frame h ∷ [])) (sym p) refl
  poll_frame-Next (breaks {e = e} p) = subst (λ q. Next q (failed e ∷ [])) (sym p) refl

  Emits-unique :
      {b : Body x display n} {es fs : List (BodyEvent Headers)}
      → Emits x display n b es
      → Emits x display n b fs
      → es ≡ fs
  unfolding Next
  Emits-unique {fs = fs} (ends p) z = sym (subst (λ q. Next q fs) p (poll_frame-Next z))
  Emits-unique {fs = fs} (waits p e) z =
      let (more, q, r) = subst (λ q. Next q fs) p (poll_frame-Next z) in
      ap (λ v. waiting ∷ v) (Emits-unique e r) ∙ sym q
  Emits-unique {fs = fs} (sends {bytes = bytes} p e) z =
      let (more, q, r) = subst (λ q. Next q fs) p (poll_frame-Next z) in
      ap (λ v. data_frame bytes ∷ v) (Emits-unique e r) ∙ sym q
  Emits-unique {fs = fs} (concludes p) z = sym (subst (λ q. Next q fs) p (poll_frame-Next z))
  Emits-unique {fs = fs} (breaks p) z = sym (subst (λ q. Next q fs) p (poll_frame-Next z))

  pub emitted :
      {b : Body x display n} {wire : Bytes} {tail es : List (BodyEvent Headers)}
      → Sent x display n b wire tail
      → Emits x display n b es
      → (data_of es ≡ wire) × (after_data es ≡ tail)
  emitted s e =
      let q = Emits-unique e s.emits in (ap data_of q ∙ s.carried, ap after_data q ∙ s.ending)
