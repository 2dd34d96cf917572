-- ===== src/Codegen/Flat/Lookup.antt =====
-- Which message the walk finds under the name of a message (flatbuffers.rs).
use pure_grpc_rs.Base.{
  ℕ, Bool, true, false, ◌&&◌, List, [], ◌∷◌, ◌++◌, Option, none, some, ◌≡◌, ◌≢◌, refl, ap, ◌∙◌,
  arith, All,
}
use pure_grpc_rs.Base.Words.{Bytes, same, same_iff}
use pure_grpc_rs.Codegen.Flat.{
  MessageDef, SchemaDef, qualified_name, qualified, split_qualified, find, find_message,
}

pub split_qualified_of_name :
    (name : Bytes) → All (λ b. b ≢ b'.') name → split_qualified name ≡ (none, name)
unfolding split_qualified
split_qualified_of_name [] p = refl
split_qualified_of_name (b ∷ name) p = ground (arith, p.0, split_qualified_of_name name p.1)

-- A name without a dot, behind the namespace that stands in front of it.
pub split_qualified-qualified_name :
    (b : ℕ) (namespace name : Bytes)
    → All (λ b. b ≢ b'.') name
    → split_qualified (qualified_name (some (b ∷ namespace)) name) ≡ (some (b ∷ namespace), name)
unfolding qualified_name split_qualified
split_qualified-qualified_name b [] name p = ground (arith, split_qualified_of_name name p)
split_qualified-qualified_name b (c ∷ namespace) name p =
    ground (arith, split_qualified-qualified_name c namespace name p)

pub find_first :
    (test : MessageDef → Bool) (before after : List MessageDef) (m : MessageDef)
    → All (λ k. test k ≡ false) before
    → test m ≡ true
    → find test (before ++ (m ∷ after)) ≡ some m
unfolding find
find_first test [] after m f t = rw t refl
find_first test (k ∷ before) after m f t = rw f.0 (find_first test before after m f.1 t)

-- The lookup of the walk, which takes the name apart again.
abbrev pub found_under : SchemaDef → Bytes → Option MessageDef
found_under schema qn = let (ns, name) = split_qualified qn in find_message schema ns name

module _ (schema : SchemaDef) (before after : List MessageDef) (m : MessageDef)
    (listed : schema.messages ≡ before ++ (m ∷ after)) (dotless : All (λ b. b ≢ b'.') m.name) where
  root_name : split_qualified (qualified_name none m.name) ≡ (none, m.name)
  unfolding qualified_name
  root_name = split_qualified_of_name m.name dotless

  pub found_under_shadowed :
      (k : MessageDef) (more : List MessageDef)
      → before ≡ k ∷ more
      → k.name ≡ m.name
      → m.namespace ≡ none
      → found_under schema (qualified m) ≡ some k
  unfolding find_message find
  found_under_shadowed k more e s n =
      let q : split_qualified (qualified m) ≡ (none, m.name) =
        ap (λ o. split_qualified (qualified_name o m.name)) n ∙ root_name in
      ap (λ p. find_message schema p.0 p.1) q
      ∙ ap (find (λ j. same j.name m.name && true)) (listed ∙ ap (λ v. v ++ (m ∷ after)) e)
      ∙ find_first (λ j. same j.name m.name && true) [] (more ++ (m ∷ after)) k tt
          (ground (arith, (same_iff k.name m.name).1 s))
