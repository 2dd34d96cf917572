-- ===== src/Listener/Limit.antt =====
-- How many connections are served at a time, and what a shutdown waits for (server.rs,
-- h3_server.rs).
use pure_grpc_rs.Base.{
  ℕ, suc, zero, ◌+◌, ◌≤◌, Bool, [], ◌∷◌, none, some, ◌≡◌, refl, ap, ◌∙◌, arith, Result, ok, err,
  length, length-append, Option-cases, Result-cases, inl, inr, ◌⊎◌,
}
use pure_grpc_rs.Base.Words.{Bytes}
use pure_grpc_rs.Listener.{
  Semaphore, holding, Listener, spawn, nodelay, admit, accepted, incoming, Step, accepts, takes,
  shuts_down, acquires, closes, Reach, started, later,
}

pub zero_or_suc : (n : ℕ) → (n ≡ 0) ⊎ ((k : ℕ) × (n ≡ suc k))
zero_or_suc zero = inl refl
zero_or_suc (suc k) = inr (k, refl)

module _ (m : Semaphore) {C : Type 0} (limit : ℕ) (tcp_nodelay : Bool)
    (set_nodelay : C → Result Bytes (Unit {0})) where
  -- Every permit is free or with a connection; a connection is held only where there was none.
  pub record IsBalanced (l : Listener m C) : Type 0 where
    pub permits : m.available_permits l.sem + length l.connections ≡ limit

  permits_left :
      (s s' : m.Sem) (p : m.Permit)
      → m.try_acquire s ≡ some (p, s')
      → m.available_permits s ≡ suc (m.available_permits s')
  permits_left s s' p e = elim (zero_or_suc (m.available_permits s)) [
    | inl z ↦ cc (m.try_acquire-none s z, e)
    | inr (k, z) ↦
        let (p1, s1, q, left) = m.try_acquire-some s (omega arith) in
        let same : s1 ≡ s' = cc in left ∙ ap (λ v. suc (m.available_permits v)) same
  ]

  spawn-IsBalanced :
      (c : C) (p : m.Permit) (s' : m.Sem) (l : Listener m C)
      → m.try_acquire l.sem ≡ some (p, s')
      → IsBalanced l
      → IsBalanced (spawn m c p s' l)
  spawn-IsBalanced c p s' l e b = record {
    permits = omega (
      arith,
      b.permits,
      permits_left l.sem s' p e,
      length-append l.connections (record { connection = c; permit = p } ∷ []),
    );
  }

  admit-IsBalanced : (c : C) (l : Listener m C) → IsBalanced l → IsBalanced (admit m c l)
  unfolding admit
  admit-IsBalanced c l b = elim (Option-cases (m.try_acquire l.sem)) [
    | inl n ↦ rw (n, admit) (record { permits = b.permits })
    | inr ((p, s'), e) ↦ rw (e, admit) (spawn-IsBalanced c p s' l e b)
  ]

  pub Step-IsBalanced :
      {l l' : Listener m C} → Step m tcp_nodelay set_nodelay l l' → IsBalanced l → IsBalanced l'
  unfolding accepted incoming
  Step-IsBalanced (accepts (err e) p) b = record { permits = b.permits }
  Step-IsBalanced {l} (accepts (ok c) p) b =
      elim (Result-cases (nodelay m tcp_nodelay set_nodelay c)) [
        | inl (_, e) ↦ rw (e, accepted) (admit-IsBalanced c l b)
        | inr (f, e) ↦ rw (e, accepted) (record { permits = b.permits })
      ]
  Step-IsBalanced (takes none p) b = record { permits = b.permits }
  Step-IsBalanced {l} (takes (some c) p) b = admit-IsBalanced c l b
  Step-IsBalanced (shuts_down p) b = record { permits = b.permits }
  Step-IsBalanced {l} (acquires c p s' q e) b = spawn-IsBalanced c p s' l e b
  Step-IsBalanced {l} (closes before after t p) b = record {
    permits = omega (
      arith,
      b.permits,
      m.available_permits-drop_permit t.permit l.sem,
      ap length p,
      length-append before (t ∷ after),
      length-append before after,
    );
  }

  pub Reach-IsBalanced : {l : Listener m C} → Reach m limit tcp_nodelay set_nodelay l → IsBalanced l
  Reach-IsBalanced started = record {
    permits = ap (λ v. v + 0) (m.available_permits-new limit) ∙ omega arith;
  }
  Reach-IsBalanced (later r s) = Step-IsBalanced s (Reach-IsBalanced r)

  -- In every state that an accept loop reaches, in whatever order connections come and close and a
  -- shutdown is signalled, at most as many connections are served as the concurrency limit allows.
  pub Reach-le :
      {l : Listener m C} → Reach m limit tcp_nodelay set_nodelay l → length l.connections ≤ limit
  Reach-le r = let b = Reach-IsBalanced r in omega (arith, b.permits)

  -- If an accept loop that runs with some limit has accepted a connection that waits for a permit,
  -- and as many connections are served as the limit allows, then after the next event it still
  -- holds the connection, and one connection less is served: the loop neither serves one more, nor
  -- accepts another, nor stops for a signal.
  pub Step-holding :
      {l l' : Listener m C} (c : C)
      → Reach m limit tcp_nodelay set_nodelay l
      → l.phase ≡ holding c
      → length l.connections ≡ limit
      → Step m tcp_nodelay set_nodelay l l'
      → (l'.phase ≡ holding c) × (suc (length l'.connections) ≡ limit)
  Step-holding c r p n (accepts result q) = cc (p, q)
  Step-holding c r p n (takes c' q) = cc (p, q)
  Step-holding c r p n (shuts_down q) = cc (p, q)
  Step-holding {l} c r p n (acquires c' g s' q e) =
      let b = Reach-IsBalanced r in absurd (omega (arith, b.permits, n, permits_left l.sem s' g e))
  Step-holding c r p n (closes before after c' q) = (
    p,
    omega (arith, n, ap length q, length-append before (c' ∷ after), length-append before after),
  )
