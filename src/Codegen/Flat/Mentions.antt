-- ===== src/Codegen/Flat/Mentions.antt =====
-- What a type, the fields of a message and the calls of a schema name (flatbuffers.rs).
use mathlib.Core.Path.{subst}
use pure_grpc_rs.Base.{
  true, List, [], ◌∷◌, ◌++◌, Option, none, some, ◌≡◌, ◌⊎◌, inl, inr, refl, sym, ap, ◌∙◌, arith,
  Bool-cases,
}
use pure_grpc_rs.Base.Words.{Bytes}
use pure_grpc_rs.Codegen.Flat.{
  FieldType, scalar, enum, foreign_key, message, vector, optional, map_of, one_of, Variants,
  no_variants, variant, MessageDef, SchemaDef, contains, qualified, find_message, push_found,
  collect_referenced_messages, collect_variants,
}
use pure_grpc_rs.Codegen.Flat.Pushed.{contains-append, types-append, variants-append}
use pure_grpc_rs.Codegen.Flat.Reached.{contains-cons, contains_head, not_empty}

abbrev pub Among : {A : Type 0} → A → List A → Type 0
Among a [] = ⊥
Among a (x ∷ xs) = (x ≡ a) ⊎ Among a xs

mutual
  -- A type that names a message, with the package that it gives.
  pub data Mentions (name : Bytes) (package_name : Option Bytes) : FieldType → Type 0 where
    itself : Mentions name package_name (message name package_name)
    in_vector :
        {ty : FieldType} → Mentions name package_name ty → Mentions name package_name (vector ty)
    in_optional :
        {ty : FieldType} → Mentions name package_name ty → Mentions name package_name (optional ty)
    in_key :
        {key value : FieldType}
        → Mentions name package_name key
        → Mentions name package_name (map_of key value)
    in_value :
        {key value : FieldType}
        → Mentions name package_name value
        → Mentions name package_name (map_of key value)
    in_variant :
        {vs : Variants} → MentionsAny name package_name vs → Mentions name package_name (one_of vs)

  pub data MentionsAny (name : Bytes) (package_name : Option Bytes) : Variants → Type 0 where
    first :
        {ty : FieldType} {vs : Variants}
        → Mentions name package_name ty
        → MentionsAny name package_name (variant ty vs)
    other :
        {ty : FieldType} {vs : Variants}
        → MentionsAny name package_name vs
        → MentionsAny name package_name (variant ty vs)

module _ (schema : SchemaDef) where
  -- The message that a name stands for.
  pub record Names (name : Bytes) (package_name : Option Bytes) (q : Bytes) : Type 0 where
    pub found : MessageDef
    pub by_name : find_message schema package_name name ≡ some found
    pub is_q : qualified found ≡ q

  pub record LeadsTo (ty : FieldType) (q : Bytes) : Type 0 where
    pub name : Bytes
    pub package_name : Option Bytes
    pub mentions : Mentions name package_name ty
    pub names : Names name package_name q

  LeadsTo-lift :
      (ty ty' : FieldType) (q : Bytes)
      → ((n : Bytes) (p : Option Bytes) → Mentions n p ty → Mentions n p ty')
      → LeadsTo ty q
      → LeadsTo ty' q
  LeadsTo-lift ty ty' q f l = record {
    name = l.name;
    package_name = l.package_name;
    mentions = f l.name l.package_name l.mentions;
    names = l.names;
  }

  record LeadsAny (vs : Variants) (q : Bytes) : Type 0 where
    name : Bytes
    package_name : Option Bytes
    mentions : MentionsAny name package_name vs
    names : Names name package_name q

  pub contains_split :
      (xs ys : List Bytes) (q : Bytes)
      → contains (xs ++ ys) q ≡ true
      → (contains xs q ≡ true) ⊎ (contains ys q ≡ true)
  contains_split xs ys q h = elim (Bool-cases (contains xs q)) [
    | inl t ↦ inl t
    | inr f ↦ inr (ground (arith, f, h, contains-append xs ys q))
  ]

  pub contains_joined :
      (xs ys : List Bytes) (q : Bytes)
      → (contains xs q ≡ true) ⊎ (contains ys q ≡ true)
      → contains (xs ++ ys) q ≡ true
  contains_joined xs ys q (inl t) = ground (arith, t, contains-append xs ys q)
  contains_joined xs ys q (inr t) = ground (arith, t, contains-append xs ys q)

  map_split :
      (key value : FieldType) (q : Bytes)
      → contains (collect_referenced_messages schema (map_of key value) []) q ≡ true
      → (contains (collect_referenced_messages schema value []) q ≡ true)
        ⊎ (contains (collect_referenced_messages schema key []) q ≡ true)
  unfolding collect_referenced_messages
  map_split key value q h = contains_split _ _ q (
      ap (λ v. contains v q)
        (sym (types-append schema value (collect_referenced_messages schema key [])))
      ∙ h)

  map_joined :
      (key value : FieldType) (q : Bytes)
      → (contains (collect_referenced_messages schema value []) q ≡ true)
        ⊎ (contains (collect_referenced_messages schema key []) q ≡ true)
      → contains (collect_referenced_messages schema (map_of key value) []) q ≡ true
  unfolding collect_referenced_messages
  map_joined key value q h =
      ap (λ v. contains v q) (types-append schema value (collect_referenced_messages schema key []))
      ∙ contains_joined _ _ q h

  variants_split :
      (ty : FieldType) (vs : Variants) (q : Bytes)
      → contains (collect_variants schema (variant ty vs) []) q ≡ true
      → (contains (collect_variants schema vs []) q ≡ true)
        ⊎ (contains (collect_referenced_messages schema ty []) q ≡ true)
  unfolding collect_referenced_messages
  variants_split ty vs q h = contains_split _ _ q (
      ap (λ v. contains v q)
        (sym (variants-append schema vs (collect_referenced_messages schema ty [])))
      ∙ h)

  variants_joined :
      (ty : FieldType) (vs : Variants) (q : Bytes)
      → (contains (collect_variants schema vs []) q ≡ true)
        ⊎ (contains (collect_referenced_messages schema ty []) q ≡ true)
      → contains (collect_variants schema (variant ty vs) []) q ≡ true
  unfolding collect_referenced_messages
  variants_joined ty vs q h =
      ap (λ v. contains v q) (variants-append schema vs (collect_referenced_messages schema ty []))
      ∙ contains_joined _ _ q h

  pushed_named :
      (name : Bytes) (p : Option Bytes) (q : Bytes) (o : Option MessageDef)
      → find_message schema p name ≡ o
      → contains (push_found o []) q ≡ true
      → Names name p q
  pushed_named name p q none e h = absurd (not_empty q h)
  pushed_named name p q (some m) e h = elim (contains-cons (qualified m) q [] h) [
    | inl s ↦ record { found = m; by_name = e; is_q = s }
    | inr l ↦ absurd (not_empty q l)
  ]

  named_pushed :
      (name : Bytes) (p : Option Bytes) (q : Bytes)
      → Names name p q
      → contains (push_found (find_message schema p name) []) q ≡ true
  named_pushed name p q n =
      ap (λ o. contains (push_found o []) q) n.by_name
      ∙ subst (λ z. contains (qualified n.found ∷ []) z ≡ true) n.is_q
          (contains_head (qualified n.found) [])

  mutual
    unfolding collect_referenced_messages

    pub contains-LeadsTo :
        (ty : FieldType) (q : Bytes)
        → contains (collect_referenced_messages schema ty []) q ≡ true
        → LeadsTo ty q
    contains-LeadsTo scalar q h = absurd (not_empty q h)
    contains-LeadsTo enum q h = absurd (not_empty q h)
    contains-LeadsTo foreign_key q h = absurd (not_empty q h)
    contains-LeadsTo (message name p) q h = record {
      name = name;
      package_name = p;
      mentions = itself;
      names = pushed_named name p q _ refl h;
    }
    contains-LeadsTo (vector ty) q h =
        LeadsTo-lift ty (vector ty) q (λ n p m. in_vector m) (contains-LeadsTo ty q h)
    contains-LeadsTo (optional ty) q h =
        LeadsTo-lift ty (optional ty) q (λ n p m. in_optional m) (contains-LeadsTo ty q h)
    contains-LeadsTo (map_of key value) q h = elim (map_split key value q h) [
      | inl t ↦
          LeadsTo-lift value (map_of key value) q (λ n p m. in_value m) (contains-LeadsTo value q t)
      | inr t ↦ LeadsTo-lift key (map_of key value) q (λ n p m. in_key m) (contains-LeadsTo key q t)
    ]
    contains-LeadsTo (one_of vs) q h =
        let l = contains-LeadsAny vs q h in
        record {
          name = l.name;
          package_name = l.package_name;
          mentions = in_variant l.mentions;
          names = l.names;
        }

    contains-LeadsAny :
        (vs : Variants) (q : Bytes)
        → contains (collect_variants schema vs []) q ≡ true
        → LeadsAny vs q
    contains-LeadsAny no_variants q h = absurd (not_empty q h)
    contains-LeadsAny (variant ty vs) q h = elim (variants_split ty vs q h) [
      | inl t ↦
          let l = contains-LeadsAny vs q t in
          record {
            name = l.name;
            package_name = l.package_name;
            mentions = other l.mentions;
            names = l.names;
          }
      | inr t ↦
          let l = contains-LeadsTo ty q t in
          record {
            name = l.name;
            package_name = l.package_name;
            mentions = first l.mentions;
            names = l.names;
          }
    ]

  mutual
    unfolding collect_referenced_messages

    pub Mentions-contains :
        {name : Bytes} {p : Option Bytes} {ty : FieldType} (q : Bytes)
        → Names name p q
        → Mentions name p ty
        → contains (collect_referenced_messages schema ty []) q ≡ true
    Mentions-contains {name} {p} q n itself = named_pushed name p q n
    Mentions-contains q n (in_vector m) = Mentions-contains q n m
    Mentions-contains q n (in_optional m) = Mentions-contains q n m
    Mentions-contains q n (in_key {key} {value} m) =
        map_joined key value q (inr (Mentions-contains q n m))
    Mentions-contains q n (in_value {key} {value} m) =
        map_joined key value q (inl (Mentions-contains q n m))
    Mentions-contains q n (in_variant m) = MentionsAny-contains q n m

    MentionsAny-contains :
        {name : Bytes} {p : Option Bytes} {vs : Variants} (q : Bytes)
        → Names name p q
        → MentionsAny name p vs
        → contains (collect_variants schema vs []) q ≡ true
    MentionsAny-contains q n (first {ty} {vs} m) =
        variants_joined ty vs q (inr (Mentions-contains q n m))
    MentionsAny-contains q n (other {ty} {vs} m) =
        variants_joined ty vs q (inl (MentionsAny-contains q n m))
