-- ===== src/Code/Laws.antt =====
-- The code table read in both directions (grpc-core/src/status.rs, `define_codes!`).
use pure_grpc_rs.Base.{
  Bool, true, List, [], ◌∷◌, ◌≡◌, ◌≢◌, ◌↔◌, ◌⊎◌, inl, inr, refl, sym, ap, ◌∙◌, Bool-cases, ◌==◌,
  ==_iff,
}
use pure_grpc_rs.Base.Int.{ℤ, pos, negsuc}
use pure_grpc_rs.Base.Words.{Bytes, same, same_iff}
use pure_grpc_rs.Code.{
  Code, unknown, num, str_val, code_to_i32, variants, match_rows, from_i32, from_bytes,
  to_header_value,
}

match_rows-passes :
    (test : Code → Bool) (cs : List Code)
    → (match_rows test cs ≡ unknown) ⊎ (test (match_rows test cs) ≡ true)
unfolding match_rows
match_rows-passes test [] = inl refl
match_rows-passes test (c ∷ cs) = elim (Bool-cases (test c)) [
  | inl e ↦ inr (rw e e)
  | inr e ↦ rw e (match_rows-passes test cs)
]

str_val-to_header_value : (c : Code) → str_val c ≡ to_header_value c
unfolding to_header_value
str_val-to_header_value Code.ok = refl
str_val-to_header_value _ = refl

pub from_bytes-to_header_value : (c : Code) → from_bytes (to_header_value c) ≡ c
unfolding from_bytes to_header_value
from_bytes-to_header_value Code.ok = refl
from_bytes-to_header_value _ = refl

pub from_i32-code_to_i32 : (c : Code) → from_i32 (code_to_i32 c) ≡ c
unfolding from_i32
from_i32-code_to_i32 Code.ok = refl
from_i32-code_to_i32 _ = refl

from_bytes_sound : (b : Bytes) → from_bytes b ≢ unknown → b ≡ to_header_value (from_bytes b)
unfolding from_bytes
from_bytes_sound b h = elim (match_rows-passes (λ c. same b (str_val c)) variants) [
  | inl e ↦ absurd (h e)
  | inr e ↦ (same_iff b _).0 e ∙ str_val-to_header_value _
]

-- Bytes are read as a code other than Unknown just when they are the header value that is written
-- for this code.
pub from_bytes_iff :
    (b : Bytes) (c : Code) → c ≢ unknown → (from_bytes b ≡ c) ↔ (b ≡ to_header_value c)
from_bytes_iff b c h = (
  λ e. from_bytes_sound b (λ u. h (sym e ∙ u)) ∙ ap to_header_value e,
  λ e. ap from_bytes e ∙ from_bytes-to_header_value c,
)

from_i32_sound : (i : ℤ) → from_i32 i ≢ unknown → i ≡ code_to_i32 (from_i32 i)
unfolding from_i32
from_i32_sound (pos n) h = elim (match_rows-passes (λ c. n == num c) variants) [
  | inl e ↦ absurd (h e)
  | inr e ↦ ap pos ((==_iff n _).0 e)
]
from_i32_sound (negsuc n) h = absurd (h refl)

-- An integer is read as a code other than Unknown just when it is the number of this code.
pub from_i32_iff : (i : ℤ) (c : Code) → c ≢ unknown → (from_i32 i ≡ c) ↔ (i ≡ code_to_i32 c)
from_i32_iff i c h = (
  λ e. from_i32_sound i (λ u. h (sym e ∙ u)) ∙ ap code_to_i32 e,
  λ e. ap from_i32 e ∙ from_i32-code_to_i32 c,
)
