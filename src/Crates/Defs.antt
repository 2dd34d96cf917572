-- ===== src/Crates/Defs.antt =====
-- The interfaces of the crates `http`, `percent-encoding`, `base64`, `flate2` and `zstd`.
use pure_grpc_rs.Base.{
  ℕ, ◌≤◌, Bool, true, ◌||◌, List, [], ◌∷◌, Option, none, some, String, ◌≡◌, if◌then◌else◌, or_else,
  All, Result, ok, ◌==◌ as same_byte,
}
use pure_grpc_rs.Base.Words.{Bytes}
use text.Mathlib.Text.{◌==◌}

-- The first value of a key among entries.
unfoldable pub first_value : String → List (String × Bytes) → Option Bytes
first_value k [] = none
first_value k ((j, v) ∷ m) = if j == k then some v else first_value k m

-- The key stands at most once among the entries.
abbrev pub IsSingle : String → List (String × Bytes) → Type 0
IsSingle k [] = Unit
IsSingle k ((j, v) ∷ m) = ((j == k) ≡ true → first_value k m ≡ none) × IsSingle k m

-- A visible ASCII character, or the space.
abbrev pub IsVisible : ℕ → Type 0
IsVisible b = (32 ≤ b) × (b ≤ 126)

-- `http::HeaderMap` and `http::HeaderValue`. `insert` replaces all values of the key; `get` is the
-- first value; `extend` by another map replaces the values of the keys that the other map has;
-- `entries` is what `iter` yields, the values of one key in their order.
pub record Http : Type 1 where
  pub Headers : Type 0
  pub empty : Headers
  pub get : String → Headers → Option Bytes
  pub insert : String → Bytes → Headers → Headers
  pub remove : String → Headers → Headers
  pub extend : Headers → Headers → Headers
  pub entries : Headers → List (String × Bytes)
  pub get-empty : (k : String) → get k empty ≡ none
  pub get-insert :
      (k j : String) (v : Bytes) (m : Headers)
      → get j (insert k v m) ≡ (if k == j then some v else get j m)
  pub get-remove :
      (k j : String) (m : Headers) → get j (remove k m) ≡ (if k == j then none else get j m)
  pub get-extend : (j : String) (m n : Headers) → get j (extend m n) ≡ or_else (get j n) (get j m)
  pub get-entries : (k : String) (m : Headers) → get k m ≡ first_value k (entries m)
  pub entries-empty : entries empty ≡ []
  pub entries-insert_single :
      (k j : String) (v : Bytes) (m : Headers)
      → IsSingle j (entries m)
      → IsSingle j (entries (insert k v m))
  -- `HeaderValue::to_str`: the text of a value of visible characters.
  pub to_str : Bytes → Option Bytes
  pub to_str-visible : (v : Bytes) → All IsVisible v → to_str v ≡ some v
  -- Whether `HeaderValue::from_maybe_shared` takes the bytes.
  pub accepts : Bytes → Bool
  pub accepts-visible : (v : Bytes) → All IsVisible v → accepts v ≡ true

-- `percent_encoding`: sets of ASCII bytes, and the two conversions. `decode_utf8` reads the decoded
-- bytes as a text, which is kept as its bytes, or gives the text of an error.
pub record PercentEncoding : Type 1 where
  pub AsciiSet : Type 0
  pub controls : AsciiSet
  pub add : AsciiSet → ℕ → AsciiSet
  pub contains : AsciiSet → ℕ → Bool
  pub contains-add :
      (s : AsciiSet) (b c : ℕ) → contains (add s b) c ≡ (same_byte b c || contains s c)
  pub percent_encode : AsciiSet → Bytes → Bytes
  pub percent_decode : Bytes → Bytes
  pub percent_decode-percent_encode :
      (s : AsciiSet) (bs : Bytes)
      → contains s b'%' ≡ true
      → All (λ b. b ≤ 255) bs
      → percent_decode (percent_encode s bs) ≡ bs
  pub percent_encode-visible :
      (s : AsciiSet) (bs : Bytes)
      → ((b : ℕ) → contains controls b ≡ true → contains s b ≡ true)
      → All (λ b. b ≤ 255) bs
      → All IsVisible (percent_encode s bs)
  pub decode_utf8 : Bytes → Result Bytes Bytes

-- `base64`, the standard alphabet: encoding with and without padding, and decoding with the
-- padding mode `Indifferent` (`decode`) or `RequireCanonical` (`decode_padded`).
pub record Base64 : Type 0 where
  pub encode_no_pad : Bytes → Bytes
  pub encode_padded : Bytes → Bytes
  pub decode : Bytes → Option Bytes
  pub decode_padded : Bytes → Option Bytes
  pub decode-encode_no_pad :
      (bs : Bytes) → All (λ b. b ≤ 255) bs → decode (encode_no_pad bs) ≡ some bs
  pub decode_padded-encode_padded :
      (bs : Bytes) → All (λ b. b ≤ 255) bs → decode_padded (encode_padded bs) ≡ some bs
  pub encode_no_pad-visible :
      (bs : Bytes) → All (λ b. b ≤ 255) bs → All IsVisible (encode_no_pad bs)

-- `flate2` (gzip and raw deflate, at the default level) and `zstd`. An error is its text.
pub record Flate : Type 0 where
  pub gz_encode : Bytes → Result Bytes Bytes
  pub gz_decode : Bytes → Result Bytes Bytes
  pub deflate_encode : Bytes → Result Bytes Bytes
  pub deflate_decode : Bytes → Result Bytes Bytes
  pub zstd_encode_all : Bytes → Result Bytes Bytes
  pub zstd_decode_all : Bytes → Result Bytes Bytes
  pub gz_decode-gz_encode : (src : Bytes) {c : Bytes} → gz_encode src ≡ ok c → gz_decode c ≡ ok src
  pub deflate_decode-deflate_encode :
      (src : Bytes) {c : Bytes} → deflate_encode src ≡ ok c → deflate_decode c ≡ ok src
  pub zstd_decode_all-zstd_encode_all :
      (src : Bytes) {c : Bytes} → zstd_encode_all src ≡ ok c → zstd_decode_all c ≡ ok src

-- All of them, as one parameter.
pub record Crates : Type 1 where
  pub http : Http
  pub open http use *
  pub percent : PercentEncoding
  pub open percent use *
  pub base64 : Base64
  pub open base64 use *
  pub flate : Flate
  pub open flate use *
