-- ===== src/Crates/Model.antt =====
-- One implementation of the interfaces, for the tests. Header maps are lists of entries; the percent
-- encoding escapes every byte of the set and every byte from 127 on; two hexadecimal digits a byte
-- stand for base64, and the compressors store the bytes as they are.
use pure_grpc_rs.Base.{
  ℕ, ◌+◌, ◌-◌, ◌*◌, ◌/◌, ◌%◌, ◌≤◌, ◌<◌, Bool, true, false, ◌||◌, List, [], ◌∷◌, ◌++◌, Option, none,
  some, String, ◌≡◌, refl, sym, ap, ◌∙◌, inl, inr, arith, if◌then◌else◌, or_else, All, ok, ltb,
  ◌==◌ as same_byte, Bool-cases,
}
use pure_grpc_rs.Base.Words.{Bytes}
use pure_grpc_rs.Crates.Defs.{
  first_value, IsSingle, IsVisible, Http, PercentEncoding, Base64, Flate, Crates,
}
use mathlib.Core.Bool.{true≢false}
use text.Mathlib.Text.{◌==◌}
use text.Mathlib.TextEquality.{eq_iff}

abbrev pub Entries : Type 0
Entries = List (String × Bytes)

abbrev pub cons_unless : Bool → String × Bytes → Entries → Entries
cons_unless true e m = m
cons_unless false e m = e ∷ m

abbrev pub remove_key : String → Entries → Entries
remove_key k [] = []
remove_key k ((j, v) ∷ m) = cons_unless (j == k) (j, v) (remove_key k m)

pub removed_twice :
    (b c : Bool) (u w : Option Bytes)
    → c ≡ b
    → (if b then none else w) ≡ (if b then none else if c then u else w)
removed_twice b c u w h = ground arith

pub kept :
    (k i j : String) (v : Bytes) (m : Entries)
    → (i == k) ≡ false
    → first_value j (remove_key k m) ≡ (if k == j then none else first_value j m)
    → (if i == j then some v else first_value j (remove_key k m))
      ≡ (if k == j then none else if i == j then some v else first_value j m)
kept k i j v m e h = elim (Bool-cases (k == j)) [
  | inr n ↦ ground (arith, h, n)
  | inl y ↦ elim (Bool-cases (i == j)) [
    | inr n ↦ ground (arith, h, n, y)
    | inl z ↦
        absurd (true≢false (sym ((eq_iff i k).1 ((eq_iff i j).0 z ∙ sym ((eq_iff k j).0 y))) ∙ e))
  ]
]

pub first_value-remove_key :
    (k j : String) (m : Entries)
    → first_value j (remove_key k m) ≡ (if k == j then none else first_value j m)
unfolding first_value
first_value-remove_key k j [] = ground arith
first_value-remove_key k j ((i, v) ∷ m) = elim (Bool-cases (i == k)) [
  | inl e ↦
      let p = (eq_iff i k).0 e in
      rw e (
        first_value-remove_key k j m
        ∙ removed_twice (k == j) (i == j) (some v) _ (ap (λ s. s == j) p))
  | inr e ↦ rw e (kept k i j v m e (first_value-remove_key k j m))
]

pub first_value-append :
    (k : String) (n m : Entries)
    → first_value k (n ++ m) ≡ or_else (first_value k n) (first_value k m)
unfolding first_value
first_value-append k [] m = refl
first_value-append k ((j, v) ∷ n) m = ground (arith, first_value-append k n m)

pub remove_key-IsSingle : (k j : String) (m : Entries) → IsSingle j m → IsSingle j (remove_key k m)
remove_key-IsSingle k j [] s = tt
remove_key-IsSingle k j ((i, v) ∷ m) s = elim (Bool-cases (i == k)) [
  | inl e ↦ rw e (remove_key-IsSingle k j m s.1)
  | inr e ↦
      rw e (λ h. ground (arith, first_value-remove_key k j m, s.0 h), remove_key-IsSingle k j m s.1)
]

pub insert_entry-IsSingle :
    (k j : String) (v : Bytes) (m : Entries) → IsSingle j m → IsSingle j ((k, v) ∷ remove_key k m)
insert_entry-IsSingle k j v m s =
    (λ e. first_value-remove_key k j m ∙ rw e refl, remove_key-IsSingle k j m s)

pub first_value-insert_entry :
    (k j : String) (v : Bytes) (m : Entries)
    → first_value j ((k, v) ∷ remove_key k m) ≡ (if k == j then some v else first_value j m)
unfolding first_value
first_value-insert_entry k j v m = ground (arith, first_value-remove_key k j m)

pub first_value-nil : (k : String) → first_value k [] ≡ none
unfolding first_value
first_value-nil k = refl

abbrev pub model_http : Http
model_http = record {
  Headers = Entries;
  empty = [];
  get = first_value;
  insert = λ k v m. (k, v) ∷ remove_key k m;
  remove = remove_key;
  extend = λ m n. n ++ m;
  entries = λ m. m;
  get-empty = first_value-nil;
  get-insert = first_value-insert_entry;
  get-remove = first_value-remove_key;
  get-extend = λ j m n. first_value-append j n m;
  get-entries = λ k m. refl;
  entries-empty = refl;
  entries-insert_single = insert_entry-IsSingle;
  to_str = some;
  to_str-visible = λ v h. refl;
  accepts = λ v. true;
  accepts-visible = λ v h. refl;
}

abbrev pub digit : ℕ → ℕ
digit n = if ltb n 10 then 48 + n else 55 + n

abbrev pub digit_value : ℕ → ℕ
digit_value c = if ltb c 58 then c - 48 else c - 55

pub digit_value-digit : (n : ℕ) → n < 16 → digit_value (digit n) ≡ n
digit_value-digit n h = ground arith

pub digit-IsVisible : (n : ℕ) → n < 16 → IsVisible (digit n)
digit-IsVisible n h = ground arith

abbrev pub hexadecimal : Bytes → Bytes
hexadecimal [] = []
hexadecimal (b ∷ bs) = digit (b / 16) ∷ digit (b % 16) ∷ hexadecimal bs

abbrev pub add_byte : ℕ → ℕ → Option Bytes → Option Bytes
add_byte a b none = none
add_byte a b (some bs) = some ((digit_value a * 16 + digit_value b) ∷ bs)

abbrev pub from_hexadecimal : Bytes → Option Bytes
from_hexadecimal (a ∷ b ∷ bs) = add_byte a b (from_hexadecimal bs)
from_hexadecimal (a ∷ []) = none
from_hexadecimal [] = some []

pub byte-digits :
    (b : ℕ) → b ≤ 255 → digit_value (digit (b / 16)) * 16 + digit_value (digit (b % 16)) ≡ b
byte-digits b h =
    rw (digit_value-digit (b / 16) (omega arith), digit_value-digit (b % 16) (omega arith))
      (omega arith)

pub from_hexadecimal-hexadecimal :
    (bs : Bytes) → All (λ b. b ≤ 255) bs → from_hexadecimal (hexadecimal bs) ≡ some bs
from_hexadecimal-hexadecimal [] h = refl
from_hexadecimal-hexadecimal (b ∷ bs) h =
    rw (from_hexadecimal-hexadecimal bs h.1, byte-digits b h.0) refl

pub hexadecimal-IsVisible : (bs : Bytes) → All (λ b. b ≤ 255) bs → All IsVisible (hexadecimal bs)
hexadecimal-IsVisible [] h = tt
hexadecimal-IsVisible (b ∷ bs) h = (
  digit-IsVisible (b / 16) (omega (arith, h.0)),
  (digit-IsVisible (b % 16) (omega arith), hexadecimal-IsVisible bs h.1),
)

pub data Escape : Type 0 where
  outside after_percent : Escape
  after_digit : ℕ → Escape

abbrev pub unescape : Escape → Bytes → Bytes
unescape _ [] = []
unescape outside (c ∷ cs) = elim (same_byte c 37) [
  | true ↦ unescape after_percent cs
  | false ↦ c ∷ unescape outside cs
]
unescape after_percent (c ∷ cs) = unescape (after_digit c) cs
unescape (after_digit a) (c ∷ cs) = (digit_value a * 16 + digit_value c) ∷ unescape outside cs

abbrev pub escapes : (ℕ → Bool) → ℕ → Bool
escapes s b = s b || ltb 126 b

abbrev pub escape_if : Bool → ℕ → Bytes → Bytes
escape_if true b bs = 37 ∷ digit (b / 16) ∷ digit (b % 16) ∷ bs
escape_if false b bs = b ∷ bs

abbrev pub escape : (ℕ → Bool) → Bytes → Bytes
escape s [] = []
escape s (b ∷ bs) = escape_if (escapes s b) b (escape s bs)

pub plain_byte : (s : ℕ → Bool) (b : ℕ) → s 37 ≡ true → escapes s b ≡ false → same_byte b 37 ≡ false
plain_byte s b p h = ground arith

pub unescape-escape :
    (s : ℕ → Bool) (bs : Bytes)
    → s 37 ≡ true
    → All (λ b. b ≤ 255) bs
    → unescape outside (escape s bs) ≡ bs
unescape-escape s [] p h = refl
unescape-escape s (b ∷ bs) p h = elim (Bool-cases (escapes s b)) [
  | inl e ↦ rw (e, unescape-escape s bs p h.1, byte-digits b h.0) refl
  | inr e ↦ rw (e, unescape, plain_byte s b p e, unescape-escape s bs p h.1) refl
]

abbrev pub control_bytes : ℕ → Bool
control_bytes b = ltb b 32 || same_byte b 127

pub escape-IsVisible :
    (s : ℕ → Bool) (bs : Bytes)
    → ((b : ℕ) → control_bytes b ≡ true → s b ≡ true)
    → All (λ b. b ≤ 255) bs
    → All IsVisible (escape s bs)
escape-IsVisible s [] c h = tt
escape-IsVisible s (b ∷ bs) c h = elim (Bool-cases (escapes s b)) [
  | inl e ↦ rw e (
    (omega arith, omega arith),
    (
      digit-IsVisible (b / 16) (omega (arith, h.0)),
      (digit-IsVisible (b % 16) (omega arith), escape-IsVisible s bs c h.1),
    ),
  )
  | inr e ↦ rw e (ground (arith, c b), escape-IsVisible s bs c h.1)
]

abbrev pub model_percent : PercentEncoding
model_percent = record {
  AsciiSet = ℕ → Bool;
  controls = control_bytes;
  add = λ s b c. same_byte b c || s c;
  contains = λ s c. s c;
  contains-add = λ s b c. refl;
  percent_encode = escape;
  percent_decode = unescape outside;
  percent_decode-percent_encode = λ s bs p h. unescape-escape s bs p h;
  percent_encode-visible = λ s bs c h. escape-IsVisible s bs c h;
  decode_utf8 = ok;
}

abbrev pub model_base64 : Base64
model_base64 = record {
  encode_no_pad = hexadecimal;
  encode_padded = hexadecimal;
  decode = from_hexadecimal;
  decode_padded = from_hexadecimal;
  decode-encode_no_pad = from_hexadecimal-hexadecimal;
  decode_padded-encode_padded = from_hexadecimal-hexadecimal;
  encode_no_pad-visible = hexadecimal-IsVisible;
}

abbrev pub model_flate : Flate
model_flate = record {
  gz_encode = ok;
  gz_decode = ok;
  deflate_encode = ok;
  deflate_decode = ok;
  zstd_encode_all = ok;
  zstd_decode_all = ok;
  gz_decode-gz_encode = λ src {c} e. sym e;
  deflate_decode-deflate_encode = λ src {c} e. sym e;
  zstd_decode_all-zstd_encode_all = λ src {c} e. sym e;
}

abbrev pub model_crates : Crates
model_crates = record {
  http = model_http;
  percent = model_percent;
  base64 = model_base64;
  flate = model_flate;
}
