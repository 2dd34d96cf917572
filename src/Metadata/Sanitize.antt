-- ===== src/Metadata/Sanitize.antt =====
-- What sanitizing and merging do to the value of each header name (metadata.rs).
use pure_grpc_rs.Base.{
  Bool, true, false, List, [], ◌∷◌, Option, none, some, String, ◌≡◌, refl, inl, inr, arith,
  if◌then◌else◌, or_else, Bool-cases, ◌∙◌,
}
use pure_grpc_rs.Base.Words.{Bytes}
use pure_grpc_rs.Crates.{Http, first_value, IsSingle}
use pure_grpc_rs.Metadata.{
  MetadataMap, contains, is_reserved, grpc_reserved_headers, remove_all, into_sanitized_headers,
  insert_unless, extend_sanitized_into, get,
}
use text.Mathlib.Text.{◌==◌}
use text.Mathlib.TextEquality.{eq_iff}

-- The last value of a key among entries, the given one if there is none.
abbrev pub last_value : String → List (String × Bytes) → Option Bytes → Option Bytes
last_value k [] d = d
last_value k ((j, v) ∷ m) d = last_value k m (if j == k then some v else d)

last_value-none :
    (k : String) (es : List (String × Bytes)) (d : Option Bytes)
    → first_value k es ≡ none
    → last_value k es d ≡ d
unfolding first_value
last_value-none k [] d h = refl
last_value-none k ((j, w) ∷ es) d h =
    ground (arith, last_value-none k es (if j == k then some w else d))

pub last_value-first_value :
    (k : String) (es : List (String × Bytes)) (d : Option Bytes)
    → IsSingle k es
    → last_value k es d ≡ or_else (first_value k es) d
last_value-first_value k [] d h = unfold first_value in refl
last_value-first_value k ((j, v) ∷ es) d h = elim (Bool-cases (j == k)) [
  | inl e ↦ rw (e) (last_value-none k es (some v) (h.0 e) ∙ unfold first_value in rw e)
  | inr e ↦ rw (e) (last_value-first_value k es d h.1 ∙ unfold first_value in rw e)
]

module _ (http : Http) where
  open http use {Headers}

  pub get-remove_all :
      (names : List String) (k : String) (h : Headers)
      → http.get k (remove_all http names h) ≡ (if contains names k then none else http.get k h)
  unfolding remove_all
  get-remove_all [] k h = refl
  get-remove_all (n ∷ ns) k h =
      ground (arith, get-remove_all ns k (http.remove n h), http.get-remove n k h)

  -- Sanitized headers have no value of a reserved name, and the values of the metadata for every
  -- other name.
  pub get-into_sanitized_headers :
      (m : MetadataMap Headers) (k : String)
      → http.get k (into_sanitized_headers http m) ≡ (if is_reserved k then none else get http k m)
  unfolding into_sanitized_headers get is_reserved
  get-into_sanitized_headers m k = get-remove_all grpc_reserved_headers k m.headers

  get-insert_step :
      (skip : String → Bool) (j k : String) (v : Bytes) (t : Headers)
      → http.get k (if skip j then t else http.insert j v t)
        ≡ (if skip k then http.get k t else if j == k then some v else http.get k t)
  get-insert_step skip j k v t = ground (arith, http.get-insert j k v t, eq_iff j k)

  pub get-insert_unless :
      (skip : String → Bool) (es : List (String × Bytes)) (k : String) (t : Headers)
      → http.get k (insert_unless http skip es t)
        ≡ (if skip k then http.get k t else last_value k es (http.get k t))
  unfolding insert_unless
  get-insert_unless skip [] k t = elim (Bool-cases (skip k)) [ inl e ↦ rw e | inr e ↦ rw e ]
  get-insert_unless skip ((j, v) ∷ es) k t = ground (
    arith,
    get-insert_unless skip es k (if skip j then t else http.insert j v t),
    get-insert_step skip j k v t,
  )

  -- After copying metadata into a map, a reserved name has the value that it had in the map, and
  -- any other name has the last of its values in the metadata, or what the map had if the metadata
  -- has none.
  pub get-extend_sanitized_into :
      (m : MetadataMap Headers) (t : Headers) (k : String)
      → http.get k (extend_sanitized_into http m t) ≡ (
          if is_reserved k
          then http.get k t
          else last_value k (http.entries m.headers) (http.get k t))
  unfolding extend_sanitized_into
  get-extend_sanitized_into m t k = get-insert_unless is_reserved (http.entries m.headers) k t

  -- On a name with one value at most, nothing is lost.
  pub get-extend_sanitized_into_single :
      (m : MetadataMap Headers) (t : Headers) (k : String)
      → IsSingle k (http.entries m.headers)
      → http.get k (extend_sanitized_into http m t)
        ≡ (if is_reserved k then http.get k t else or_else (http.get k m.headers) (http.get k t))
  get-extend_sanitized_into_single m t k h = rw (
    get-extend_sanitized_into m t k,
    http.get-entries k m.headers,
    last_value-first_value k (http.entries m.headers) (http.get k t) h,
  )

  -- Copying entries leaves each name of the target at most once, if it stood so before.
  pub insert_unless-IsSingle :
      (skip : String → Bool) (es : List (String × Bytes)) (k : String) (t : Headers)
      → IsSingle k (http.entries t)
      → IsSingle k (http.entries (insert_unless http skip es t))
  unfolding insert_unless
  insert_unless-IsSingle skip [] k t h = h
  insert_unless-IsSingle skip ((j, v) ∷ es) k t h =
      insert_unless-IsSingle skip es k _ (step (skip j))
    where
      step : (b : Bool) → IsSingle k (http.entries (if b then t else http.insert j v t))
      step true = h
      step false = http.entries-insert_single j k v t h
