-- ===== src/Router/Dispatch.antt =====
-- Which service a request gets (router.rs).
use pure_grpc_rs.Base.{
  Bool, false, ◌&&◌, List, [], ◌∷◌, ◌++◌, Option, some, ◌≡◌, ◌≢◌, refl, sym, ap, ◌∙◌, inl, inr,
  arith, if◌then◌else◌, All, length, drop, Bool-cases,
}
use pure_grpc_rs.Base.Words.{Bytes, same, same_iff}
use pure_grpc_rs.Crates.{Crates}
use pure_grpc_rs.Router.{starts_with, Service, Router, insert_route, add_service, find_route, route}

-- A name without a slash, as the names of services are.
abbrev pub IsName : Bytes → Type 0
IsName = All (λ b. b ≢ b'/')

-- The path of a method: `/{service_name}/{method_name}`.
abbrev pub method_path : Bytes → Bytes → Bytes
method_path name method = b'/' ∷ (name ++ (b'/' ∷ method))

abbrev matches : Bytes → Bytes → Bool
matches key path = starts_with path key && starts_with (drop (length key) path) (b'/' ∷ [])

matches-name :
    (n m method : Bytes) → IsName n → IsName m → matches n (m ++ (b'/' ∷ method)) ≡ same n m
unfolding starts_with same
matches-name [] [] method p q = refl
matches-name [] (b ∷ m) method p q = ground (arith, q.0)
matches-name (a ∷ n) [] method p q = ground (arith, p.0)
matches-name (a ∷ n) (b ∷ m) method p q = ground (arith, matches-name n m method p.1 q.1)

matches-path :
    (n m method : Bytes)
    → IsName n
    → IsName m
    → matches (b'/' ∷ n) (method_path m method) ≡ same n m
unfolding starts_with
matches-path n m method p q = matches-name n m method p q

module _ (x : Crates) (Req Resp : Type 0) where
  abbrev Routes : Type 0
  Routes = List (Bytes × Service x Req Resp)

  -- Every key is a name behind a slash, as `add_service` makes it of names.
  abbrev pub IsWellFormed : Routes → Type 0
  IsWellFormed = All (λ e. (n : Bytes) × (e.0 ≡ b'/' ∷ n) × IsName n)

  module _ (m method : Bytes) (q : IsName m) where
    abbrev found : Routes → Option (Service x Req Resp)
    found es = find_route x Req Resp (method_path m method) es

    found-cons :
        (n : Bytes) (svc : Service x Req Resp) (es : Routes)
        → IsName n
        → found ((b'/' ∷ n, svc) ∷ es) ≡ (if same n m then some svc else found es)
    unfolding find_route
    found-cons n svc es p = rw (matches-path n m method p q) refl

    replaced :
        (b c : Bool) (u v w : Option (Service x Req Resp))
        → c ≡ b
        → (if b then u else w) ≡ (if b then u else if c then v else w)
    replaced b c u v w h = ground (arith, h)

    kept :
        (n k : Bytes) (u v w : Option (Service x Req Resp))
        → same (b'/' ∷ k) (b'/' ∷ n) ≡ false
        → (if same k m then v else if same n m then u else w)
          ≡ (if same n m then u else if same k m then v else w)
    kept n k u v w h = elim (Bool-cases (same n m)) [
      | inr f ↦ ground (arith, f)
      | inl e ↦ elim (Bool-cases (same k m)) [
        | inr f ↦ ground (arith, f)
        | inl g ↦
            let t : b'/' ∷ k ≡ b'/' ∷ n =
              ap (λ w. b'/' ∷ w) ((same_iff k m).0 g ∙ sym ((same_iff n m).0 e)) in
            ground (arith, h, (same_iff (b'/' ∷ k) (b'/' ∷ n)).1 t)
      ]
    ]

    found-insert_route :
        (n : Bytes) (svc : Service x Req Resp) (es : Routes)
        → IsName n
        → IsWellFormed es
        → found (insert_route x Req Resp (b'/' ∷ n) svc es)
          ≡ (if same n m then some svc else found es)
    unfolding insert_route
    found-insert_route n svc [] p w = found-cons n svc [] p
    found-insert_route n svc ((j, s) ∷ es) p w =
        let (k, e, r) = w.0 in
        let ih = found-insert_route n svc es p w.1 in
        let back = ap (λ v. if same n m then some svc else v) (sym (found-cons k s es r)) in
        elim (Bool-cases (same (b'/' ∷ k) (b'/' ∷ n))) [
          | inl h ↦
              let t : same k m ≡ same n m = ap (λ b. same (drop 1 b) m) ((same_iff _ _).0 h) in
              rw (e, h) (found-cons n svc es p ∙ replaced (same n m) (same k m) _ _ _ t ∙ back)
          | inr h ↦
              rw (e, h)
                (found-cons k s _ r
                  ∙ ap (λ v. if same k m then some s else v) ih
                  ∙ kept n k (some svc) (some s) (found es) h
                  ∙ back)
        ]

    swapped :
        (j k : Bytes) (s t : Service x Req Resp) (es : Routes)
        → IsName j
        → IsName k
        → same (b'/' ∷ j) (b'/' ∷ k) ≡ false
        → found ((b'/' ∷ j, s) ∷ (b'/' ∷ k, t) ∷ es) ≡ found ((b'/' ∷ k, t) ∷ (b'/' ∷ j, s) ∷ es)
    swapped j k s t es p r h =
        found-cons j s _ p
        ∙ ap (λ v. if same j m then some s else v) (found-cons k t es r)
        ∙ kept k j (some t) (some s) (found es) h
        ∙ ap (λ v. if same k m then some t else v) (sym (found-cons j s es p))
        ∙ sym (found-cons k t _ r)

  insert_route-IsWellFormed :
      (n : Bytes) (svc : Service x Req Resp) (es : Routes)
      → IsName n
      → IsWellFormed es
      → IsWellFormed (insert_route x Req Resp (b'/' ∷ n) svc es)
  unfolding insert_route
  insert_route-IsWellFormed n svc [] p w = ((n, refl, p), tt)
  insert_route-IsWellFormed n svc ((j, s) ∷ es) p w = elim (Bool-cases (same j (b'/' ∷ n))) [
    | inl h ↦ rw h ((n, refl, p), w.1)
    | inr h ↦ rw h (w.0, insert_route-IsWellFormed n svc es p w.1)
  ]

  -- In a router whose keys are names behind a slash, after adding a service under a name without a
  -- slash, a method of a service of that name goes to the added service, and a method of a service
  -- of any other name without a slash, also one that has the name as its beginning, goes where it
  -- went before; the keys are still names behind a slash.
  pub route-add_service :
      (n m method : Bytes) (svc : Service x Req Resp) (r : Router x Req Resp)
      → IsName n
      → IsName m
      → IsWellFormed r.routes
      → (route x Req Resp (method_path m method) (add_service x Req Resp n svc r)
          ≡ (if same n m then some svc else route x Req Resp (method_path m method) r))
        × IsWellFormed (add_service x Req Resp n svc r).routes
  unfolding route add_service
  route-add_service n m method svc r p q w = (
    found-insert_route m method q n svc r.routes p w,
    insert_route-IsWellFormed n svc r.routes p w,
  )

  -- The order in which the map of routes iterates has no effect: where two neighbouring entries,
  -- whose keys differ, change places among entries whose keys are names behind a slash, the method
  -- of a service whose name has no slash finds the same service.
  pub find_route-swap :
      (m method : Bytes) (es fs : Routes) (j k : Bytes) (s t : Service x Req Resp)
      → IsName m
      → IsWellFormed (es ++ ((j, s) ∷ (k, t) ∷ fs))
      → same j k ≡ false
      → find_route x Req Resp (method_path m method) (es ++ ((j, s) ∷ (k, t) ∷ fs))
        ≡ find_route x Req Resp (method_path m method) (es ++ ((k, t) ∷ (j, s) ∷ fs))
  unfolding find_route
  find_route-swap m method [] fs j k s t q w h =
      let (j', e, p) = w.0 in
      let (k', g, r) = w.1.0 in
      let h' : same (b'/' ∷ j') (b'/' ∷ k') ≡ false =
        ap (λ v. same v (b'/' ∷ k')) (sym e) ∙ ap (same j) (sym g) ∙ h in
      rw (e, g) (swapped m method q j' k' s t fs p r h')
  find_route-swap m method ((i, u) ∷ es) fs j k s t q w h =
      ap (λ v. if matches i (method_path m method) then some u else v)
        (find_route-swap m method es fs j k s t q w.1 h)
