-- ===== src/Listener/Served.antt =====
-- A connection that an accept loop has accepted comes to be served (server.rs, h3_server.rs).
use mathlib.Core.Path.{subst}
use pure_grpc_rs.Base.{
  ℕ, suc, zero, ◌<◌, Bool, List, [], ◌∷◌, ◌++◌, some, ◌≡◌, refl, sym, ap, ◌∙◌, arith, Result, ok,
  length, length-append, Option-cases, inl, inr,
}
use pure_grpc_rs.Base.Words.{Bytes}
use pure_grpc_rs.Listener.{
  Semaphore, Task, holding, Listener, spawn, nodelay, admit, accepted, incoming, Step, accepts,
  takes, shuts_down, acquires, closes, Reach,
}
use pure_grpc_rs.Listener.Limit.{zero_or_suc, IsBalanced, Step-IsBalanced, Reach-IsBalanced}

module _ (m : Semaphore) {C : Type 0} (limit : ℕ) (tcp_nodelay : Bool)
    (set_nodelay : C → Result Bytes (Unit {0})) where
  abbrev Steps : Listener m C → Listener m C → Type 0
  Steps l l' = Step m tcp_nodelay set_nodelay l l'

  -- However a loop goes on, it serves a connection within so many events, and until then there is
  -- always an event that can happen.
  pub data WillServe (c : C) : ℕ → Listener m C → Type 0 where
    served :
        {n : ℕ} (l : Listener m C) (p : m.Permit) (s' : m.Sem) → WillServe c n (spawn m c p s' l)
    goes_on :
        {n : ℕ} {l next : Listener m C}
        → Step m tcp_nodelay set_nodelay l next
        → ((l' : Listener m C) → Step m tcp_nodelay set_nodelay l l' → WillServe c n l')
        → WillServe c (suc n) l

  record Waits (c : C) (n : ℕ) (l : Listener m C) : Type 0 where
    balanced : IsBalanced m limit tcp_nodelay set_nodelay l
    held : l.phase ≡ holding c
    running : length l.connections ≡ n

  closes_first :
      (ts : List (Task m C)) (l : Listener m C)
      → l.connections ≡ ts
      → 0 < length ts
      → (l' : Listener m C) × Steps l l'
  closes_first [] l e p = absurd (omega (arith, p))
  closes_first (t ∷ ts) l e p = (_, closes [] ts t e)

  -- A loop that holds a connection is never stuck.
  Waits-next :
      {c : C} {n : ℕ} {l : Listener m C}
      → 0 < limit
      → Waits c n l
      → (l' : Listener m C) × Steps l l'
  Waits-next {c} {n} {l} k w = elim (zero_or_suc (m.available_permits l.sem)) [
    | inr (a, e) ↦
        let (p, s', q, left) = m.try_acquire-some l.sem (omega (arith, e)) in
        (_, acquires c p s' w.held q)
    | inl e ↦ closes_first l.connections l refl (omega (arith, e, k, w.balanced.permits))
  ]

  Waits-step :
      {c : C} {n : ℕ} {l l' : Listener m C}
      → Waits c n l
      → ((k : ℕ) → n ≡ suc k → Waits c k l' → WillServe c n l')
      → Steps l l'
      → WillServe c n l'
  Waits-step w f (accepts result q) = absurd (cc (w.held, q))
  Waits-step w f (takes o q) = absurd (cc (w.held, q))
  Waits-step w f (shuts_down q) = absurd (cc (w.held, q))
  Waits-step {c} {n} {l} w f (acquires c' p s' q e) =
      let same : c' ≡ c = cc (w.held, q) in
      subst (λ v. WillServe c n (spawn m v p s' l)) (sym same) (served l p s')
  Waits-step {c} {n} {l} w f (closes before after t q) =
      f (length (before ++ after))
        (sym w.running
          ∙ ap length q
          ∙ omega (arith, length-append before (t ∷ after), length-append before after))
        (record {
          balanced =
              Step-IsBalanced m limit tcp_nodelay set_nodelay (closes before after t q) w.balanced;
          held = w.held;
          running = refl;
        })

  Waits-WillServe :
      {c : C} (n : ℕ) {l : Listener m C} → 0 < limit → Waits c n l → WillServe c (suc n) l
  Waits-WillServe zero k w =
      goes_on (Waits-next k w).1 (λ l' s. Waits-step w (λ j e v. absurd (cc e)) s)
  Waits-WillServe {c} (suc n) k w = goes_on (Waits-next k w).1 (λ l' s.
      Waits-step w
        (λ j e v.
          let same : n ≡ j = cc e in Waits-WillServe n k (subst (λ i. Waits c i l') (sym same) v))
        s)

  admitted :
      (c : C) (l : Listener m C)
      → 0 < limit
      → IsBalanced m limit tcp_nodelay set_nodelay l
      → WillServe c (suc (length l.connections)) (admit m c l)
  unfolding admit
  admitted c l k b = elim (Option-cases (m.try_acquire l.sem)) [
    | inl n ↦
        rw (n, admit)
          (Waits-WillServe (length l.connections) k
            (record { balanced = record { permits = b.permits }; held = refl; running = refl }))
    | inr ((p, s'), e) ↦ rw (e, admit) (served l p s')
  ]

  -- If an accept loop with a limit above 0 accepts a connection in a state that it has reached,
  -- over TCP, where setting its options succeeds, or over QUIC, then this connection comes to be
  -- served: at once, or within as many further events as there are connections served, and one
  -- more. Until then there is always an event that can happen.
  pub accepted-WillServe :
      {l : Listener m C} (c : C)
      → 0 < limit
      → Reach m limit tcp_nodelay set_nodelay l
      → nodelay m tcp_nodelay set_nodelay c ≡ ok tt
      → WillServe c (suc (length l.connections)) (accepted m tcp_nodelay set_nodelay (ok c) l)
        × WillServe c (suc (length l.connections)) (incoming m (some c) l)
  unfolding accepted incoming
  accepted-WillServe {l} c k r e =
      let a = admitted c l k (Reach-IsBalanced m limit tcp_nodelay set_nodelay r) in
      (rw (e, accepted) a, a)
