-- ===== src/Codec/Decode/Consumed.antt =====
-- Each message of a stream consumes bytes, so the loop of `Streaming::trailers` ends (decode.rs).
use pure_grpc_rs.Base.{
  ℕ, zero, suc, ◌≤◌, ◌<◌, Option, none, some, ◌≡◌, refl, sym, ◌∙◌, arith, Result, ok, err, pending,
  ready, length, inl, inr,
}
use pure_grpc_rs.Codec.{Decoder}
use pure_grpc_rs.Codec.Decode.Futures.{
  message_polls, message, drain, take_trailers, trailers, drain_fuel,
}
use pure_grpc_rs.Metadata.{MetadataMap}
use pure_grpc_rs.Codec.Decode.Drained.{
  message-total, message_polls-pending, message_polls-ready, polled as polled_or_not,
}
use pure_grpc_rs.Codec.Decode.{Stream}
use pure_grpc_rs.Crates.{Crates}
use pure_grpc_rs.Status.{Status}
use pure_grpc_rs.Codec.Decode.Held.{Consumes, rest, poll_next-polled, held_state-le}

module _ (x : Crates) {T : Type 0} (d : Decoder x.Headers T) where
  open x use {Headers}

  module _ (consumes : Consumes x d) where
    abbrev given : Stream x d × Result (Status Headers) (Option T) → ℕ
    given (s, ok (some m)) = suc (rest x d s)
    given (s, _) = rest x d s

    message_polls-given :
        (fuel : ℕ) (s : Stream x d) (r : Stream x d × Result (Status Headers) (Option T))
        → message_polls x d fuel s ≡ some r
        → given r ≤ rest x d s
    unfolding message_polls
    message_polls-given zero s r e = absurd (cc e)
    message_polls-given (suc fuel) s r e = elim (polled_or_not x d s) [
      | inl (s', q) ↦ omega (
        arith,
        message_polls-given fuel s' r (sym (message_polls-pending x d fuel s s' q) ∙ e),
        poll_next-polled x d consumes s s' pending q,
      )
      | inr (s', none, q) ↦ ground (
        arith,
        message_polls-ready x d fuel s s' none q,
        poll_next-polled x d consumes s s' (ready none) q,
        e,
      )
      | inr (s', some (ok m), q) ↦ ground (
        arith,
        message_polls-ready x d fuel s s' (some (ok m)) q,
        poll_next-polled x d consumes s s' (ready (some (ok m))) q,
        e,
      )
      | inr (s', some (err f), q) ↦ ground (
        arith,
        message_polls-ready x d fuel s s' (some (err f)) q,
        poll_next-polled x d consumes s s' (ready (some (err f))) q,
        e,
      )
    ]

    message-given :
        (s : Stream x d) (r : Stream x d × Result (Status Headers) (Option T))
        → message x d s ≡ some r
        → given r ≤ rest x d s
    unfolding message
    message-given s r e = message_polls-given (suc (length s.inner.body)) s r e

    -- Whether a message is among the results.
    drain-step :
        (fuel : ℕ) (s : Stream x d) (r : Stream x d × Result (Status Headers) (Option T))
        → message x d s ≡ some r
        → ((s' : Stream x d)
            → suc (rest x d s') ≤ rest x d s
            → (t : Stream x d) × (u : Result (Status Headers) (Unit {0})) × (drain x d fuel s'
                ≡ some (t, u)))
        → (t : Stream x d) × (u : Result (Status Headers) (Unit {0})) × (drain x d (suc fuel) s
            ≡ some (t, u))
    unfolding drain
    drain-step fuel s (s', err f) e k = (s', err f, rw (e, drain) refl)
    drain-step fuel s (s', ok none) e k = (s', ok tt, rw (e, drain) refl)
    drain-step fuel s (s', ok (some m)) e k =
        let (t, u, q) = k s' (message-given s (s', ok (some m)) e) in (t, u, rw (e, drain) q)

    drain-total :
        (fuel : ℕ) (s : Stream x d)
        → rest x d s < fuel
        → (t : Stream x d) × (u : Result (Status Headers) (Unit {0})) × (drain x d fuel s
            ≡ some (t, u))
    drain-total zero s l = absurd (omega (arith, l))
    drain-total (suc fuel) s l =
        let (r, e) = message-total x d s in
        drain-step fuel s r e (λ s' m. drain-total fuel s' (omega (arith, l, m)))

    trailers_after :
        (s t : Stream x d) (u : Result (Status Headers) (Unit {0}))
        → s.inner.trailers ≡ none
        → drain x d (drain_fuel x d s) s ≡ some (t, u)
        → (t' : Stream x d) × (r : Result (Status Headers) (Option (MetadataMap Headers)))
          × (trailers x d s ≡ some (t', r))
    unfolding trailers take_trailers
    trailers_after s t (err f) n e = (t, err f, ground (arith, n, e))
    trailers_after s t (ok _) n e =
        ((take_trailers x d t).0, ok (take_trailers x d t).1, ground (arith, n, e))

    trailers_of :
        (s : Stream x d) (o : Option Headers)
        → s.inner.trailers ≡ o
        → (t : Stream x d) × (r : Result (Status Headers) (Option (MetadataMap Headers)))
          × (trailers x d s ≡ some (t, r))
    unfolding trailers take_trailers
    trailers_of s (some h) e =
        ((take_trailers x d s).0, ok (take_trailers x d s).1, ground (arith, e))
    trailers_of s none e =
        let (t, u, q) =
          drain-total (drain_fuel x d s) s (omega (arith, held_state-le x d s.inner.state)) in
        trailers_after s t u e q

    -- With a decoder that only takes bytes from its buffer, the future `trailers` of every stream
    -- ends, also where messages are left to drain.
    pub trailers-total :
        (s : Stream x d)
        → (t : Stream x d) × (r : Result (Status Headers) (Option (MetadataMap Headers)))
          × (trailers x d s ≡ some (t, r))
    trailers-total s = trailers_of s s.inner.trailers refl
