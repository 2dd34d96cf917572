-- ===== src/Web/Trailers.antt =====
-- The trailers that a gRPC-Web response carries in its body (grpc-web/src/call.rs), and how a client
-- reads them.
use pure_grpc_rs.Base.{
  ℕ, zero, suc, ◌≤◌, ◌<◌, false, List, [], ◌∷◌, ◌++◌, map, Option, none, some, String, ◌≡◌, refl,
  ◌∙◌, arith, if◌then◌else◌, All, length, length-append, ◌&&◌, ◌==◌,
}
use pure_grpc_rs.Base.Options.{◌>>=◌}
use pure_grpc_rs.Base.Text.{ascii}
use pure_grpc_rs.Base.Words.{Bytes, be_word, be_word-be_bytes, u32_mod}
use pure_grpc_rs.Crates.{Crates}
use pure_grpc_rs.Web.Body.{trailer_lines, trailer_frame}

-- The bytes before the first `b`, and those behind it.
unfoldable pub split_at : ℕ → Bytes → Option (Bytes × Bytes)
split_at b [] = none
split_at b (c ∷ text) =
    if c == b
    then some ([], text)
    else elim (split_at b text) [ some (before, behind) ↦ some (c ∷ before, behind) | none ↦ none ]

pub split_at-first :
    (b : ℕ) (before behind : Bytes)
    → All (λ c. (c == b) ≡ false) before
    → split_at b (before ++ (b ∷ behind)) ≡ some (before, behind)
unfolding split_at
split_at-first b [] behind h = ground arith
split_at-first b (c ∷ before) behind (n, h) = rw (n, split_at-first b before behind h) refl

-- One line: a key, a colon, a value, a carriage return and a line feed.
-- A line feed, and what stands behind it.
unfoldable pub line_feed : Bytes → Option Bytes
line_feed [] = none
line_feed (c ∷ rest) = if c == 10 then some rest else none

-- One line: a key, a colon, a value, a carriage return and a line feed.
unfoldable pub read_line : Bytes → Option ((Bytes × Bytes) × Bytes)
read_line text = do
  (key, behind) ← split_at b':' text
  (value, more) ← split_at 13 behind
  rest ← line_feed more
  some ((key, value), rest)

-- As many lines as the fuel allows: more than the text has bytes is enough.
unfoldable pub read_lines : ℕ → Bytes → Option (List (Bytes × Bytes))
read_lines fuel [] = some []
read_lines zero (b ∷ text) = none
read_lines (suc fuel) (b ∷ text) = do
  (line, rest) ← read_line (b ∷ text)
  lines ← read_lines fuel rest
  some (line ∷ lines)

-- What a client reads of a trailer frame: the lines, if the frame's length is that of the text.
unfoldable pub read_trailers : Bytes → Option (List (Bytes × Bytes))
unfolding read_lines
read_trailers (flag ∷ (a ∷ (b ∷ (c ∷ (d ∷ text))))) =
    if flag == 0x80 && be_word a b c d == length text then read_lines (length text) text else none
read_trailers _ = none

-- No key has a colon, and no value a carriage return.
abbrev pub IsPlain : String × Bytes → Type 0
IsPlain (key, value) =
    All (λ c. (c == b':') ≡ false) (ascii key) × All (λ c. (c == 13) ≡ false) value

abbrev pub entry_bytes : String × Bytes → Bytes × Bytes
entry_bytes (key, value) = (ascii key, value)

read_line-trailer_lines :
    (key value rest : Bytes)
    → All (λ c. (c == b':') ≡ false) key
    → All (λ c. (c == 13) ≡ false) value
    → read_line (key ++ (b':' ∷ (value ++ (13 ∷ 10 ∷ rest)))) ≡ some ((key, value), rest)
unfolding read_line line_feed
read_line-trailer_lines key value rest k v =
    rw (split_at-first b':' key (value ++ (13 ∷ 10 ∷ rest)) k)
      (rw (split_at-first 13 value (10 ∷ rest) v) refl)

-- A text with a colon in it is not empty.
read_lines-step :
    (fuel : ℕ) (key rest : Bytes) {line : Bytes × Bytes} {left : Bytes}
    → read_line (key ++ (b':' ∷ rest)) ≡ some (line, left)
    → read_lines (suc fuel) (key ++ (b':' ∷ rest))
      ≡ (do lines ← read_lines fuel left; some (line ∷ lines))
unfolding read_lines
read_lines-step fuel [] rest e = rw e refl
read_lines-step fuel (c ∷ key) rest e = rw e refl

read_lines-trailer_lines :
    (fuel : ℕ) (entries : List (String × Bytes))
    → length entries ≤ fuel
    → All IsPlain entries
    → read_lines fuel (trailer_lines entries) ≡ some (map entry_bytes entries)
unfolding read_lines trailer_lines
read_lines-trailer_lines zero [] l p = refl
read_lines-trailer_lines (suc fuel) [] l p = refl
read_lines-trailer_lines zero (entry ∷ entries) l p = absurd (omega (arith, l))
read_lines-trailer_lines (suc fuel) ((key, value) ∷ entries) l ((k, v), p) =
    read_lines-step fuel (ascii key) (value ++ (13 ∷ 10 ∷ trailer_lines entries))
      (read_line-trailer_lines (ascii key) value (trailer_lines entries) k v)
    ∙ rw (read_lines-trailer_lines fuel entries (omega (arith, l)) p) refl

length-trailer_lines :
    (entries : List (String × Bytes)) → length entries ≤ length (trailer_lines entries)
unfolding trailer_lines
length-trailer_lines [] = omega arith
length-trailer_lines ((key, value) ∷ entries) = omega (
  arith,
  length-trailer_lines entries,
  length-append (ascii key) (b':' ∷ (value ++ (13 ∷ 10 ∷ trailer_lines entries))),
  length-append value (13 ∷ 10 ∷ trailer_lines entries),
)

-- From the frame of trailers whose names have no colon and whose values have no carriage return,
-- and whose lines are below 2^32 bytes, a client that reads line by line gets the names and values
-- of the trailers, in order.
pub read_trailers-trailer_frame :
    (x : Crates) (h : x.Headers)
    → All IsPlain (x.http.entries h)
    → length (trailer_lines (x.http.entries h)) < u32_mod
    → read_trailers (trailer_frame x h) ≡ some (map entry_bytes (x.http.entries h))
unfolding read_trailers trailer_frame
read_trailers-trailer_frame x h p l =
    let text = trailer_lines (x.http.entries h) in
    let whole = be_word-be_bytes (length text) l in
    let lines =
      read_lines-trailer_lines (length text) (x.http.entries h)
        (length-trailer_lines (x.http.entries h)) p in
    ground (arith, whole, lines)
