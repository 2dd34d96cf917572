-- ===== src/H3/Given.antt =====
-- What the receiving half of a stream gives as a body: `H3RecvBody` (h3_server.rs) and
-- `H3ClientRecvBody` (h3_channel.rs).
use pure_grpc_rs.Base.{
  true, false, List, [], ◌∷◌, ◌++◌, Option, none, some, ◌≡◌, refl, ap, ◌∙◌, arith, ok, err,
  Option-cases, inl, inr, pending, ready,
}
use pure_grpc_rs.Base.Words.{Bytes}
use pure_grpc_rs.Codec.Decode.{BodyEvent, waiting, data_frame, trailers_frame, failed}
use pure_grpc_rs.Codec.Decode.Deliver.{data_of, after_data}
use pure_grpc_rs.Crates.{Crates}
use pure_grpc_rs.H3.{
  DataEvent, data_waiting, data_arrived, data_failed, TrailersEvent, trailers_waiting,
  trailers_arrived, trailers_failed, RecvBody, new, poll_recv, recv_error, trailers_error,
}
use pure_grpc_rs.Status.{Status}

module _ (x : Crates) (side : Bytes) where
  open x use {Headers}

  -- Polled again and again until its end, a received body gives these events.
  pub data Gives : RecvBody Headers → List (BodyEvent Headers) → Type 0 where
    over : {b b' : RecvBody Headers} → poll_recv x side b ≡ (b', ready none) → Gives b []
    waits :
        {b b' : RecvBody Headers} {es : List (BodyEvent Headers)}
        → poll_recv x side b ≡ (b', pending)
        → Gives b' es
        → Gives b (waiting ∷ es)
    gives :
        {b b' : RecvBody Headers} {e : BodyEvent Headers} {es : List (BodyEvent Headers)}
        → poll_recv x side b ≡ (b', ready (some (ok e)))
        → Gives b' es
        → Gives b (e ∷ es)
    breaks :
        {b b' : RecvBody Headers} {f : Status Headers} {es : List (BodyEvent Headers)}
        → poll_recv x side b ≡ (b', ready (some (err f)))
        → Gives b' es
        → Gives b (failed f ∷ es)

  abbrev pub trailers_given : List (TrailersEvent Headers) → List (BodyEvent Headers)
  trailers_given [] = []
  trailers_given (trailers_waiting ∷ ts) = waiting ∷ trailers_given ts
  trailers_given (trailers_arrived h ∷ ts) = trailers_frame h ∷ []
  trailers_given (trailers_failed e ∷ ts) = failed (trailers_error x side e) ∷ []

  -- The poll that finds the end of the data is not ready.
  abbrev pub events_given : List DataEvent → List (TrailersEvent Headers) → List (BodyEvent Headers)
  events_given [] ts = waiting ∷ trailers_given ts
  events_given (data_waiting ∷ ds) ts = waiting ∷ events_given ds ts
  events_given (data_arrived b ∷ ds) ts = data_frame b ∷ events_given ds ts
  events_given (data_failed e ∷ ds) ts = failed (recv_error x side e) ∷ events_given ds ts

  Gives-trailers :
      (ts : List (TrailersEvent Headers))
      → Gives
          (record {
            recv = record { incoming = []; trailing = ts };
            data_done = true;
            trailers_done = false;
          })
          (trailers_given ts)
  unfolding poll_recv
  Gives-trailers [] = over refl
  Gives-trailers (trailers_waiting ∷ ts) = waits refl (Gives-trailers ts)
  Gives-trailers (trailers_arrived h ∷ ts) = gives refl (over refl)
  Gives-trailers (trailers_failed e ∷ ts) = breaks refl (over refl)

  -- A received body gives what the stream brings, in order: the data frames, its errors, one poll
  -- that is not ready, and then the trailers or the end.
  pub poll_recv-Gives :
      (ds : List DataEvent) (ts : List (TrailersEvent Headers))
      → Gives (new (record { incoming = ds; trailing = ts })) (events_given ds ts)
  unfolding poll_recv
  poll_recv-Gives [] ts = waits refl (Gives-trailers ts)
  poll_recv-Gives (data_waiting ∷ ds) ts = waits refl (poll_recv-Gives ds ts)
  poll_recv-Gives (data_arrived b ∷ ds) ts = gives refl (poll_recv-Gives ds ts)
  poll_recv-Gives (data_failed e ∷ ds) ts = breaks refl (poll_recv-Gives ds ts)

-- The bytes of a stream that loses none of them, and what comes of its trailers.
abbrev pub bytes_in : List DataEvent → Option Bytes
bytes_in [] = some []
bytes_in (data_waiting ∷ ds) = bytes_in ds
bytes_in (data_arrived b ∷ ds) = elim (bytes_in ds) [ none ↦ none | some w ↦ some (b ++ w) ]
bytes_in (data_failed e ∷ ds) = none

abbrev pub trailers_in : {H : Type 0} → List (TrailersEvent H) → Option (Option H)
trailers_in [] = some none
trailers_in (trailers_waiting ∷ ts) = trailers_in ts
trailers_in (trailers_arrived h ∷ ts) = some (some h)
trailers_in (trailers_failed e ∷ ts) = none

abbrev pub tail_of : {H : Type 0} → Option H → List (BodyEvent H)
tail_of none = []
tail_of (some h) = trailers_frame h ∷ []

module _ (x : Crates) where
  open x use {Headers}

  module _ (side : Bytes) where
    trailers_given_intact :
        (ts : List (TrailersEvent Headers)) (t : Option Headers)
        → trailers_in ts ≡ some t
        → (data_of (trailers_given x side ts) ≡ [])
          × (after_data (trailers_given x side ts) ≡ tail_of t)
    trailers_given_intact [] t e = ground (arith, e)
    trailers_given_intact (trailers_waiting ∷ ts) t e = trailers_given_intact ts t e
    trailers_given_intact (trailers_arrived h ∷ ts) t e = ground (arith, e)
    trailers_given_intact (trailers_failed f ∷ ts) t e = cc

    pub events_given_intact :
        (ds : List DataEvent) (ts : List (TrailersEvent Headers)) (wire : Bytes)
        (t : Option Headers)
        → bytes_in ds ≡ some wire
        → trailers_in ts ≡ some t
        → (data_of (events_given x side ds ts) ≡ wire)
          × (after_data (events_given x side ds ts) ≡ tail_of t)
    events_given_intact [] ts wire t b e =
        let (p, q) = trailers_given_intact ts t e in (ground (arith, p, b), q)
    events_given_intact (data_waiting ∷ ds) ts wire t b e = events_given_intact ds ts wire t b e
    events_given_intact (data_arrived c ∷ ds) ts wire t b e = elim (Option-cases (bytes_in ds)) [
      | inl n ↦ cc (n, b)
      | inr (w, n) ↦
          let (p, q) = events_given_intact ds ts w t n e in
          (ap (λ v. c ++ v) p ∙ ground (arith, n, b), q)
    ]
    events_given_intact (data_failed f ∷ ds) ts wire t b e = cc
