-- ===== src/Codegen/Flat/Reached.antt =====
-- The messages that the calls of a schema need are those that its fields lead to (flatbuffers.rs).
use mathlib.Core.Path.{subst}
use pure_grpc_rs.Base.{
  ℕ, zero, suc, ◌+◌, ◌≤◌, ◌<◌, true, false, List, [], ◌∷◌, ◌++◌, some, ◌≡◌, ◌≢◌, ◌⊎◌, inl, inr,
  refl, sym, ap, ◌∙◌, arith, if◌then◌else◌, length, length-append, Bool-cases,
}
use pure_grpc_rs.Base.Words.{Bytes, same, same_iff}
use pure_grpc_rs.Codegen.Flat.{SchemaDef, contains, expand, walk, pushes}
use pure_grpc_rs.Codegen.Flat.Pushed.{contains-append, references, expand-append}

pub contains-cons :
    (x q : Bytes) (xs : List Bytes) → contains (x ∷ xs) q ≡ true → (x ≡ q) ⊎ (contains xs q ≡ true)
unfolding contains
contains-cons x q xs h = elim (Bool-cases (same x q)) [
  | inl t ↦ inl ((same_iff x q).0 t)
  | inr f ↦ inr (ground (arith, f, h))
]

pub contains_later :
    (x q : Bytes) (xs : List Bytes) → contains xs q ≡ true → contains (x ∷ xs) q ≡ true
unfolding contains
contains_later x q xs h = ground (arith, h)

pub contains_head : (x : Bytes) (xs : List Bytes) → contains (x ∷ xs) x ≡ true
unfolding contains
contains_head x xs = ground (arith, (same_iff x x).1 refl)

pub not_empty : (q : Bytes) → contains [] q ≢ true
unfolding contains
not_empty q h = cc

module _ (schema : SchemaDef) where
  -- What the messages of some names can still push, behind those that are done.
  pub budget : List Bytes → List Bytes → ℕ
  budget [] out = 0
  budget (u ∷ us) out = (if contains out u then 0 else length (references schema u)) + budget us out

  pub budget_all : (us : List Bytes) → budget us [] ≡ pushes schema us
  unfolding budget pushes contains
  budget_all [] = refl
  budget_all (u ∷ us) = omega (arith, budget_all us)

  budget_mono : (us out : List Bytes) (q : Bytes) → budget us (q ∷ out) ≤ budget us out
  unfolding budget contains
  budget_mono [] out q = omega arith
  budget_mono (u ∷ us) out q = ground (arith, budget_mono us out q)

  budget_spent :
      (us out : List Bytes) (q : Bytes)
      → contains us q ≡ true
      → contains out q ≡ false
      → budget us (q ∷ out) + length (references schema q) ≤ budget us out
  unfolding budget contains
  budget_spent [] out q h n = cc
  budget_spent (u ∷ us) out q h n = elim (contains-cons u q us h) [
    | inl e ↦ rw e (ground (arith, contains_head q out, n, budget_mono us out q))
    | inr t ↦ ground (arith, contains_later q u out, budget_spent us out q t n)
  ]

  expanded :
      (qn q : Bytes) (frontier : List Bytes)
      → contains (expand schema qn frontier) q ≡ true
      → (contains (references schema qn) q ≡ true) ⊎ (contains frontier q ≡ true)
  expanded qn q frontier h =
      let e : contains (references schema qn ++ frontier) q ≡ true =
        ap (λ v. contains v q) (sym (expand-append schema qn frontier)) ∙ h in
      elim (Bool-cases (contains (references schema qn) q)) [
        | inl t ↦ inl t
        | inr f ↦ inr (ground (arith, f, e, contains-append (references schema qn) frontier q))
      ]

  expanded_new :
      (qn q : Bytes) (frontier : List Bytes)
      → contains (references schema qn) q ≡ true
      → contains (expand schema qn frontier) q ≡ true
  expanded_new qn q frontier h =
      ap (λ v. contains v q) (expand-append schema qn frontier)
      ∙ ground (arith, h, contains-append (references schema qn) frontier q)

  expanded_old :
      (qn q : Bytes) (frontier : List Bytes)
      → contains frontier q ≡ true
      → contains (expand schema qn frontier) q ≡ true
  expanded_old qn q frontier h =
      ap (λ v. contains v q) (expand-append schema qn frontier)
      ∙ ground (arith, h, contains-append (references schema qn) frontier q)

  module _ (us : List Bytes)
      (closed : (qn q : Bytes)
        → contains (references schema qn) q ≡ true
        → contains us q ≡ true) where
    pushed_closed :
        (qn q : Bytes) (frontier : List Bytes)
        → ((r : Bytes) → contains frontier r ≡ true → contains us r ≡ true)
        → contains (expand schema qn frontier) q ≡ true
        → contains us q ≡ true
    pushed_closed qn q frontier k h = elim (expanded qn q frontier h) [
      | inl t ↦ closed qn q t
      | inr t ↦ k q t
    ]

    -- The loop ends: a round takes a name off the frontier, and what a new name pushes is paid by
    -- the budget.
    pub walk_total :
        (fuel : ℕ) (out frontier : List Bytes)
        → ((r : Bytes) → contains frontier r ≡ true → contains us r ≡ true)
        → length frontier + budget us out < fuel
        → (r : List Bytes) × (walk schema fuel out frontier ≡ some r)
    unfolding walk
    walk_total zero out frontier k l = absurd (omega arith)
    walk_total (suc fuel) out [] k l = (out, refl)
    walk_total (suc fuel) out (qn ∷ frontier) k l = elim (Bool-cases (contains out qn)) [
      | inl t ↦
          let (r, e) =
            walk_total fuel out frontier (λ q h. k q (contains_later qn q frontier h))
              (omega arith) in
          (r, rw (t, walk) e)
      | inr f ↦
          let (r, e) =
            walk_total fuel (qn ∷ out) (expand schema qn frontier)
              (λ q h. pushed_closed qn q frontier (λ q h. k q (contains_later qn q frontier h)) h)
              (omega (
                arith,
                budget_spent us out qn (k qn (contains_head qn frontier)) f,
                ap length (expand-append schema qn frontier),
                length-append (references schema qn) frontier,
              )) in
          (r, rw (f, walk) e)
    ]

  -- What is needed: what the loop starts from, and what its messages lead to.
  module _ (P : Bytes → Type 0)
      (step : (qn q : Bytes) → P qn → contains (references schema qn) q ≡ true → P q) where
    pub walk_sound :
        (fuel : ℕ) (out frontier r : List Bytes)
        → ((q : Bytes) → contains out q ≡ true → P q)
        → ((q : Bytes) → contains frontier q ≡ true → P q)
        → walk schema fuel out frontier ≡ some r
        → (q : Bytes) → contains r q ≡ true
        → P q
    unfolding walk
    walk_sound zero out frontier r o k e q h = cc
    walk_sound (suc fuel) out [] r o k e q h =
        let s : out ≡ r = cc in o q (ap (λ v. contains v q) s ∙ h)
    walk_sound (suc fuel) out (qn ∷ frontier) r o k e q h = elim (Bool-cases (contains out qn)) [
      | inl t ↦
          walk_sound fuel out frontier r o (λ q h. k q (contains_later qn q frontier h))
            (rw (t, walk) at e) q h
      | inr f ↦
          walk_sound fuel (qn ∷ out) (expand schema qn frontier) r
            (λ q h. elim (contains-cons qn q out h) [
              | inl s ↦ subst P s (k qn (contains_head qn frontier))
              | inr t ↦ o q t
            ])
            (λ q h. elim (expanded qn q frontier h) [
              | inl t ↦ step qn q (k qn (contains_head qn frontier)) t
              | inr t ↦ k q (contains_later qn q frontier t)
            ])
            (rw (f, walk) at e) q h
    ]

  -- What a run has done and what it has still to do covers what the done messages lead to.
  unfoldable pub Covers : List Bytes → List Bytes → Type 0
  Covers out frontier =
      (qn q : Bytes)
      → contains out qn ≡ true
      → contains (references schema qn) q ≡ true
      → (contains out q ≡ true) ⊎ (contains frontier q ≡ true)

  pub record IsClosed (out frontier r : List Bytes) : Type 0 where
    pub done : (q : Bytes) → contains out q ≡ true → contains r q ≡ true
    pub waiting : (q : Bytes) → contains frontier q ≡ true → contains r q ≡ true
    pub leads :
        (qn q : Bytes)
        → contains r qn ≡ true
        → contains (references schema qn) q ≡ true
        → contains r q ≡ true

  pub walk_complete :
      (fuel : ℕ) (out frontier r : List Bytes)
      → Covers out frontier
      → walk schema fuel out frontier ≡ some r
      → IsClosed out frontier r
  unfolding walk Covers
  walk_complete zero out frontier r v e = cc
  walk_complete (suc fuel) out [] r v e =
      let s : out ≡ r = cc in
      subst (λ r. IsClosed out [] r) s
        (record {
          done = λ q h. h;
          waiting = λ q h. absurd (not_empty q h);
          leads = λ qn q h t. elim (v qn q h t) [ inl d ↦ d | inr w ↦ absurd (not_empty q w) ];
        })
  walk_complete (suc fuel) out (qn ∷ frontier) r v e = elim (Bool-cases (contains out qn)) [
    | inl t ↦
        let c =
          walk_complete fuel out frontier r
            (λ a q h k. elim (v a q h k) [
              | inl d ↦ inl d
              | inr w ↦ elim (contains-cons qn q frontier w) [
                | inl s ↦ inl (subst (λ z. contains out z ≡ true) s t)
                | inr l ↦ inr l
              ]
            ])
            (rw (t, walk) at e) in
        record {
          done = c.done;
          waiting = λ q w. elim (contains-cons qn q frontier w) [
            | inl s ↦ c.done q (subst (λ z. contains out z ≡ true) s t)
            | inr l ↦ c.waiting q l
          ];
          leads = c.leads;
        }
    | inr f ↦
        let c =
          walk_complete fuel (qn ∷ out) (expand schema qn frontier) r
            (λ a q h k. elim (contains-cons qn a out h) [
              | inl s ↦ inr (
                  expanded_new qn q frontier
                    (subst (λ z. contains (references schema z) q ≡ true) (sym s) k))
              | inr d ↦ elim (v a q d k) [
                | inl b ↦ inl (contains_later qn q out b)
                | inr w ↦ elim (contains-cons qn q frontier w) [
                  | inl s ↦ inl (subst (λ z. contains (qn ∷ out) z ≡ true) s (contains_head qn out))
                  | inr l ↦ inr (expanded_old qn q frontier l)
                ]
              ]
            ])
            (rw (f, walk) at e) in
        record {
          done = λ q d. c.done q (contains_later qn q out d);
          waiting = λ q w. elim (contains-cons qn q frontier w) [
            | inl s ↦ c.done q (subst (λ z. contains (qn ∷ out) z ≡ true) s (contains_head qn out))
            | inr l ↦ c.waiting q (expanded_old qn q frontier l)
          ];
          leads = c.leads;
        }
  ]
