-- ===== src/Status/Written.antt =====
-- What `Status::add_header` writes for each header name (grpc-core/src/status.rs).
use pure_grpc_rs.Base.{
  ℕ, ◌≤◌, true, false, List, [], ◌∷◌, Option, none, some, String, ◌≡◌, refl, inl, inr, arith,
  if◌then◌else◌, ok, All, Bool-cases, or_else,
}
use pure_grpc_rs.Base.Words.{Bytes}
use pure_grpc_rs.Code.{to_header_value}
use pure_grpc_rs.Crates.{Crates, IsSingle}
use pure_grpc_rs.Metadata
use pure_grpc_rs.Metadata.{MetadataMap, is_reserved}
use pure_grpc_rs.Metadata.Sanitize.{get-extend_sanitized_into, last_value, insert_unless-IsSingle}
use pure_grpc_rs.Status.{
  Status, add_all, encoded_bytes, is_status_header, encoding_set, add_message, add_details,
  add_header, grpc_status, grpc_message, grpc_status_details,
}
use text.Mathlib.Text.{◌==◌}
use text.Mathlib.TextEquality.{eq_iff}

module _ (x : Crates) where
  open x use {Headers, http}

  contains-add_all :
      (bs : List ℕ) (s : x.AsciiSet) (c : ℕ)
      → x.contains s c ≡ true
      → x.contains (add_all x bs s) c ≡ true
  unfolding add_all
  contains-add_all [] s c h = h
  contains-add_all (b ∷ bs) s c h =
      contains-add_all bs (x.add s b) c (ground (arith, x.contains-add s b c))

  controls-in-encoding_set :
      (c : ℕ) → x.contains x.controls c ≡ true → x.contains (encoding_set x) c ≡ true
  unfolding encoding_set
  controls-in-encoding_set c h = contains-add_all encoded_bytes x.controls c h

  pub percent-in-encoding_set : x.contains (encoding_set x) b'%' ≡ true
  unfolding encoding_set add_all
  percent-in-encoding_set = simp x.contains-add

  pub message_ok :
      (m : Bytes) → All (λ b. b ≤ 255) m → x.accepts (x.percent_encode (encoding_set x) m) ≡ true
  message_ok m h =
      x.accepts-visible _ (x.percent_encode-visible (encoding_set x) m controls-in-encoding_set h)

  details_ok : (d : Bytes) → All (λ b. b ≤ 255) d → x.accepts (x.encode_no_pad d) ≡ true
  details_ok d h = x.accepts-visible _ (x.encode_no_pad-visible d h)

  -- A header that is written only for a value that is not empty.
  abbrev pub field : (Bytes → Bytes) → Bytes → Option Bytes
  field enc [] = none
  field enc (b ∷ bs) = some (enc (b ∷ bs))

  abbrev pub with_field : String → (Bytes → Bytes) → Bytes → Headers → Headers
  with_field key enc [] h = h
  with_field key enc (b ∷ bs) h = http.insert key (enc (b ∷ bs)) h

  get-with_field :
      (k key : String) (enc : Bytes → Bytes) (v : Bytes) (h : Headers)
      → http.get k (with_field key enc v h)
        ≡ (if key == k then or_else (field enc v) (http.get k h) else http.get k h)
  get-with_field k key enc [] h = elim (Bool-cases (key == k)) [ inl e ↦ rw e | inr e ↦ rw e ]
  get-with_field k key enc (b ∷ bs) h = http.get-insert key k (enc (b ∷ bs)) h

  with_field-IsSingle :
      (j key : String) (enc : Bytes → Bytes) (v : Bytes) (h : Headers)
      → IsSingle j (http.entries h)
      → IsSingle j (http.entries (with_field key enc v h))
  with_field-IsSingle j key enc [] h s = s
  with_field-IsSingle j key enc (b ∷ bs) h s = http.entries-insert_single key j _ h s

  unfoldable pub encoded_message : Bytes → Bytes
  encoded_message = x.percent_encode (encoding_set x)

  add_message-ok :
      (m : Bytes) (h : Headers)
      → All (λ b. b ≤ 255) m
      → add_message x m h ≡ (with_field grpc_message encoded_message m h, ok tt)
  unfolding add_message encoded_message
  add_message-ok [] h a = refl
  add_message-ok (b ∷ bs) h a = rw (message_ok (b ∷ bs) a)

  add_details-ok :
      (d : Bytes) (h : Headers)
      → All (λ b. b ≤ 255) d
      → add_details x d h ≡ (with_field grpc_status_details x.encode_no_pad d h, ok tt)
  unfolding add_details
  add_details-ok [] h a = refl
  add_details-ok (b ∷ bs) h a = rw (details_ok (b ∷ bs) a)

  -- The headers that `add_header` leaves.
  pub written : Status Headers → Headers → Headers
  written s t = with_field grpc_status_details x.encode_no_pad s.details (
      with_field grpc_message encoded_message s.message (
        http.insert grpc_status (to_header_value s.code)
          (Metadata.extend_sanitized_into http s.metadata t)))

  pub add_header-ok :
      (s : Status Headers) (t : Headers)
      → All (λ b. b ≤ 255) s.message
      → All (λ b. b ≤ 255) s.details
      → add_header x s t ≡ (written s t, ok tt)
  unfolding add_header written
  add_header-ok s t m d =
      let h =
        http.insert grpc_status (to_header_value s.code)
          (Metadata.extend_sanitized_into http s.metadata t) in
      ground (
        arith,
        add_message-ok s.message h m,
        add_details-ok s.details (with_field grpc_message encoded_message s.message h) d,
      )

  pub get-written_status :
      (s : Status Headers) (t : Headers)
      → http.get grpc_status (written s t) ≡ some (to_header_value s.code)
  unfolding written
  get-written_status s t = rw (
    get-with_field grpc_status grpc_status_details,
    get-with_field grpc_status grpc_message,
    http.get-insert,
  )

  pub get-written_message :
      (s : Status Headers) (t : Headers)
      → http.get grpc_message (written s t)
        ≡ or_else (field encoded_message s.message) (http.get grpc_message t)
  unfolding written is_reserved
  get-written_message s t = rw (
    get-with_field grpc_message grpc_status_details,
    get-with_field grpc_message grpc_message,
    http.get-insert,
    get-extend_sanitized_into,
  )

  pub get-written_details :
      (s : Status Headers) (t : Headers)
      → http.get grpc_status_details (written s t)
        ≡ or_else (field x.encode_no_pad s.details) (http.get grpc_status_details t)
  unfolding written is_reserved
  get-written_details s t = rw (
    get-with_field grpc_status_details grpc_status_details,
    get-with_field grpc_status_details grpc_message,
    http.get-insert,
    get-extend_sanitized_into,
  )

  pub get-written_other :
      (s : Status Headers) (t : Headers) (k : String)
      → is_status_header x k ≡ false
      → http.get k (written s t) ≡ (
          if is_reserved k
          then http.get k t
          else last_value k (http.entries s.metadata.headers) (http.get k t))
  unfolding written is_status_header
  get-written_other s t k h =
      rw
        (
          get-with_field k grpc_status_details,
          get-with_field k grpc_message,
          http.get-insert,
          get-extend_sanitized_into,
        )
        (ground (
          arith,
          eq_iff k grpc_status,
          eq_iff grpc_status k,
          eq_iff k grpc_message,
          eq_iff grpc_message k,
          eq_iff k grpc_status_details,
          eq_iff grpc_status_details k,
        ))

  pub written-IsSingle :
      (s : Status Headers) (k : String) → IsSingle k (http.entries (written s http.empty))
  unfolding written Metadata.extend_sanitized_into
  written-IsSingle s k = with_field-IsSingle k grpc_status_details x.encode_no_pad s.details _ (
      with_field-IsSingle k grpc_message encoded_message s.message _ (
        http.entries-insert_single grpc_status k (to_header_value s.code) _ (
          insert_unless-IsSingle http is_reserved (http.entries s.metadata.headers) k http.empty
            (rw http.entries-empty tt))))
