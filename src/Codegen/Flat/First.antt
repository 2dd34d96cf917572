-- ===== src/Codegen/Flat/First.antt =====
-- The first message of a list that fits a name, and lists in which no message hides another
-- (flatbuffers.rs).
use mathlib.Core.Path.{subst}
use pure_grpc_rs.Base.{
  Bool, true, false, ◌&&◌, List, [], ◌∷◌, ◌++◌, Option, none, some, ◌≡◌, ◌≢◌, ◌↔◌, inl, inr, ap,
  ◌∙◌, arith, All, Bool-cases, Option-cases,
}
use pure_grpc_rs.Base.Words.{Bytes, same, same_iff}
use pure_grpc_rs.Codegen.Flat.{MessageDef, find, in_namespace}
use pure_grpc_rs.Codegen.Flat.Lookup.{find_first}

-- The package of a reference says nothing of a namespace, or which one it is.
abbrev pub IsIn : Option Bytes → MessageDef → Type 0
IsIn none m = Unit {0}
IsIn (some []) m = Unit {0}
IsIn (some (b ∷ package_name)) m = m.namespace ≡ some (b ∷ package_name)

abbrev pub Fits : Option Bytes → Bytes → MessageDef → Type 0
Fits package_name name m = (m.name ≡ name) × IsIn package_name m

-- The first message of a list that has a property.
pub record IsFirst (P : MessageDef → Type 0) (messages : List MessageDef) (m : MessageDef)
    : Type 0 where
  pub before : List MessageDef
  pub after : List MessageDef
  pub listed : messages ≡ before ++ (m ∷ after)
  pub earlier : All (λ k. ¬ P k) before
  pub holds : P m

pub Fits-iff :
    (p : Option Bytes) (name : Bytes) (k : MessageDef)
    → ((same k.name name && in_namespace p k.namespace) ≡ true) ↔ Fits p name k
Fits-iff none name k = ground (arith, same_iff k.name name)
Fits-iff (some []) name k = ground (arith, same_iff k.name name)
Fits-iff (some (b ∷ ns)) name k = elim (Option-cases k.namespace) [
  | inl n ↦ (rw n (ground (arith, same_iff k.name name)))
  | inr (have, n) ↦ rw n (ground (arith, same_iff k.name name, same_iff (b ∷ ns) have))
]

module _ (P : MessageDef → Type 0) (test : MessageDef → Bool)
    (decides : (k : MessageDef) → (test k ≡ true) ↔ P k) where
  All-false : (ms : List MessageDef) → All (λ k. ¬ P k) ms → All (λ k. test k ≡ false) ms
  All-false [] a = tt
  All-false (k ∷ ms) (n, a) = (
    elim (Bool-cases (test k)) [ inl t ↦ absurd (n ((decides k).0 t)) | inr f ↦ f ],
    All-false ms a,
  )

  pub find-IsFirst :
      (ms : List MessageDef) (m : MessageDef) → IsFirst P ms m → find test ms ≡ some m
  find-IsFirst ms m f =
      ap (find test) f.listed
      ∙ find_first test f.before f.after m (All-false f.before f.earlier) ((decides m).1 f.holds)

  pub IsFirst-find :
      (ms : List MessageDef) (m : MessageDef) → find test ms ≡ some m → IsFirst P ms m
  unfolding find
  IsFirst-find [] m e = absurd (cc e)
  IsFirst-find (k ∷ ms) m e = elim (Bool-cases (test k)) [
    | inl t ↦
        let s : some k ≡ some m = rw t at e in
        let q : k ≡ m = cc s in
        record {
          before = [];
          after = ms;
          listed = ap (λ v. v ∷ ms) q;
          earlier = tt;
          holds = subst P q ((decides k).0 t);
        }
    | inr f ↦
        let r = IsFirst-find ms m (rw f at e) in
        record {
          before = k ∷ r.before;
          after = r.after;
          listed = ap (λ v. k ∷ v) r.listed;
          earlier = (λ y. cc (f, (decides k).1 y), r.earlier);
          holds = r.holds;
        }
  ]

-- A message goes by the name of a later one: it has the same name and is in the same namespace, or
-- in any, where the later one is of the root namespace.
abbrev pub Shadows : MessageDef → MessageDef → Type 0
Shadows k m = (k.name ≡ m.name) × IsIn m.namespace k

-- No message shadows a later one, and no name has a dot.
abbrev pub IsClear : List MessageDef → Type 0
IsClear [] = Unit {0}
IsClear (k ∷ ms) = All (λ b. b ≢ b'.') k.name × All (λ m. ¬ Shadows k m) ms × IsClear ms

all_at :
    (P : MessageDef → Type 0) (before after : List MessageDef) (m : MessageDef)
    → All P (before ++ (m ∷ after))
    → P m
all_at P [] after m a = a.0
all_at P (k ∷ before) after m a = all_at P before after m a.1

pub unshadowed :
    (before after : List MessageDef) (m : MessageDef)
    → IsClear (before ++ (m ∷ after))
    → All (λ b. b ≢ b'.') m.name × All (λ k. ¬ Shadows k m) before
unshadowed [] after m c = (c.0, tt)
unshadowed (k ∷ before) after m (d, a, c) =
    let (dotless, rest) = unshadowed before after m c in
    (dotless, (all_at (λ m. ¬ Shadows k m) before after m a, rest))
