-- ===== src/Codegen/Flat/Pushed.antt =====
-- What a message pushes on the frontier: names of messages of the schema (flatbuffers.rs).
use pure_grpc_rs.Base.{
  Bool, true, ◌||◌, List, [], ◌∷◌, ◌++◌, Option, none, some, ◌≡◌, inl, inr, refl, sym, ap, ◌∙◌,
  arith, map, append_assoc, Bool-cases, Option-cases,
}
use pure_grpc_rs.Base.Words.{Bytes, same_iff}
use pure_grpc_rs.Codegen.Flat.{
  FieldType, scalar, enum, foreign_key, message, vector, optional, map_of, one_of, Variants,
  no_variants, variant, MessageDef, SchemaDef, contains, qualified, find, find_message, push_found,
  collect_referenced_messages, collect_variants, collect_fields, expand, split_qualified,
}

pub contains-append :
    (xs ys : List Bytes) (q : Bytes) → contains (xs ++ ys) q ≡ (contains xs q || contains ys q)
unfolding contains
contains-append [] ys q = refl
contains-append (x ∷ xs) ys q = ground (arith, contains-append xs ys q)

module _ (schema : SchemaDef) where
  push_found-append :
      (m : Option MessageDef) (fs : List Bytes) → push_found m fs ≡ push_found m [] ++ fs
  push_found-append none fs = refl
  push_found-append (some m) fs = refl

  -- What is collected goes on top of the frontier, whatever is there.
  mutual
    unfolding collect_referenced_messages

    pub types-append :
        (ty : FieldType) (fs : List Bytes)
        → collect_referenced_messages schema ty fs ≡ collect_referenced_messages schema ty [] ++ fs
    types-append scalar fs = refl
    types-append enum fs = refl
    types-append foreign_key fs = refl
    types-append (message name ns) fs = push_found-append (find_message schema ns name) fs
    types-append (vector ty) fs = types-append ty fs
    types-append (optional ty) fs = types-append ty fs
    types-append (map_of key value) fs =
        types-append value (collect_referenced_messages schema key fs)
        ∙ ap (λ v. collect_referenced_messages schema value [] ++ v) (types-append key fs)
        ∙ sym (append_assoc _ (collect_referenced_messages schema key []) fs)
        ∙ ap (λ v. v ++ fs) (sym (types-append value (collect_referenced_messages schema key [])))
    types-append (one_of vs) fs = variants-append vs fs

    pub variants-append :
        (vs : Variants) (fs : List Bytes)
        → collect_variants schema vs fs ≡ collect_variants schema vs [] ++ fs
    variants-append no_variants fs = refl
    variants-append (variant ty vs) fs =
        variants-append vs (collect_referenced_messages schema ty fs)
        ∙ ap (λ v. collect_variants schema vs [] ++ v) (types-append ty fs)
        ∙ sym (append_assoc _ (collect_referenced_messages schema ty []) fs)
        ∙ ap (λ v. v ++ fs) (sym (variants-append vs (collect_referenced_messages schema ty [])))

  pub fields-append :
      (tys : List FieldType) (fs : List Bytes)
      → collect_fields schema tys fs ≡ collect_fields schema tys [] ++ fs
  unfolding collect_fields
  fields-append [] fs = refl
  fields-append (ty ∷ tys) fs =
      fields-append tys (collect_referenced_messages schema ty fs)
      ∙ ap (λ v. collect_fields schema tys [] ++ v) (types-append ty fs)
      ∙ sym (append_assoc _ (collect_referenced_messages schema ty []) fs)
      ∙ ap (λ v. v ++ fs) (sym (fields-append tys (collect_referenced_messages schema ty [])))

  abbrev pub references : Bytes → List Bytes
  references qn = expand schema qn []

  pub expand-append : (qn : Bytes) (fs : List Bytes) → expand schema qn fs ≡ references qn ++ fs
  unfolding expand
  expand-append qn fs =
      elim (Option-cases (find_message schema (split_qualified qn).0 (split_qualified qn).1)) [
        | inl n ↦ rw (n, expand) refl
        | inr (m, n) ↦ rw (n, expand) (fields-append m.fields fs)
      ]

pub find-IsKnown :
    (test : MessageDef → Bool) (ms : List MessageDef) (m : MessageDef)
    → find test ms ≡ some m
    → contains (map qualified ms) (qualified m) ≡ true
unfolding find contains
find-IsKnown test [] m e = cc
find-IsKnown test (k ∷ ms) m e = elim (Bool-cases (test k)) [
  | inl t ↦
      let q : k ≡ m = ground (arith, t, e) in
      ground (arith, (same_iff (qualified k) (qualified m)).1 (ap qualified q))
  | inr f ↦ let h = find-IsKnown test ms m (ground (arith, f, e)) in ground (arith, h)
]

module _ (schema : SchemaDef) where
  -- The names that the messages of the schema have.
  abbrev pub IsKnown : Bytes → Type 0
  IsKnown q = contains (map qualified schema.messages) q ≡ true

  absurd_contains : (q : Bytes) → contains [] q ≡ true → IsKnown q
  unfolding contains
  absurd_contains q h = cc

  found-IsKnown :
      (ns : Option Bytes) (name : Bytes) (m : MessageDef)
      → find_message schema ns name ≡ some m
      → IsKnown (qualified m)
  unfolding find_message
  found-IsKnown ns name m e = find-IsKnown _ schema.messages m e

  pushed-IsKnown :
      (o : Option MessageDef) (q : Bytes)
      → ((m : MessageDef) → o ≡ some m → IsKnown (qualified m))
      → contains (push_found o []) q ≡ true
      → IsKnown q
  unfolding contains
  pushed-IsKnown none q k h = cc
  pushed-IsKnown (some m) q k h =
      let e : qualified m ≡ q = (same_iff (qualified m) q).0 (ground (arith, h)) in
      ap (contains (map qualified schema.messages)) (sym e) ∙ k m refl

  either-IsKnown :
      (xs ys : List Bytes) (q : Bytes)
      → (contains xs q ≡ true → IsKnown q)
      → (contains ys q ≡ true → IsKnown q)
      → contains (xs ++ ys) q ≡ true
      → IsKnown q
  either-IsKnown xs ys q f g h = elim (Bool-cases (contains xs q)) [
    | inl t ↦ f t
    | inr n ↦ g (ground (arith, n, h, contains-append xs ys q))
  ]

  mutual
    unfolding collect_referenced_messages

    types-IsKnown :
        (ty : FieldType) (q : Bytes)
        → contains (collect_referenced_messages schema ty []) q ≡ true
        → IsKnown q
    types-IsKnown scalar q h = absurd_contains q h
    types-IsKnown enum q h = absurd_contains q h
    types-IsKnown foreign_key q h = absurd_contains q h
    types-IsKnown (message name ns) q h =
        pushed-IsKnown (find_message schema ns name) q (λ m e. found-IsKnown ns name m e) h
    types-IsKnown (vector ty) q h = types-IsKnown ty q h
    types-IsKnown (optional ty) q h = types-IsKnown ty q h
    types-IsKnown (map_of key value) q h =
        either-IsKnown _ _ q (types-IsKnown value q) (types-IsKnown key q) (
          ap (λ v. contains v q)
            (sym (types-append schema value (collect_referenced_messages schema key [])))
          ∙ h)
    types-IsKnown (one_of vs) q h = variants-IsKnown vs q h

    variants-IsKnown :
        (vs : Variants) (q : Bytes) → contains (collect_variants schema vs []) q ≡ true → IsKnown q
    variants-IsKnown no_variants q h = absurd_contains q h
    variants-IsKnown (variant ty vs) q h =
        either-IsKnown _ _ q (variants-IsKnown vs q) (types-IsKnown ty q) (
          ap (λ v. contains v q)
            (sym (variants-append schema vs (collect_referenced_messages schema ty [])))
          ∙ h)

  fields-IsKnown :
      (tys : List FieldType) (q : Bytes)
      → contains (collect_fields schema tys []) q ≡ true
      → IsKnown q
  unfolding collect_fields
  fields-IsKnown [] q h = absurd_contains q h
  fields-IsKnown (ty ∷ tys) q h = either-IsKnown _ _ q (fields-IsKnown tys q) (types-IsKnown ty q) (
      ap (λ v. contains v q)
        (sym (fields-append schema tys (collect_referenced_messages schema ty [])))
      ∙ h)

  pub references-IsKnown : (qn q : Bytes) → contains (references schema qn) q ≡ true → IsKnown q
  unfolding expand
  references-IsKnown qn q h =
      elim (Option-cases (find_message schema (split_qualified qn).0 (split_qualified qn).1)) [
        | inl n ↦ absurd_contains q (rw (n, expand) at h)
        | inr (m, n) ↦ fields-IsKnown m.fields q (rw (n, expand) at h)
      ]
