-- ===== src/Compression/Negotiation.antt =====
-- Which encoding two sides agree on, and that a compressed message comes back.
use pure_grpc_rs.Base.{
  Bool, true, false, ◌&&◌, List, [], ◌∷◌, ◌++◌, Option, none, some, ◌≡◌, refl, arith, if◌then◌else◌,
  ok, err, Option-cases, Result-cases, inl, inr, ap, ◌∙◌,
}
use pure_grpc_rs.Base.Words.{Bytes, same, same_iff}
use pure_grpc_rs.Code.{Code}
use pure_grpc_rs.Crates.{Crates}
use pure_grpc_rs.Status.{Status}
use pure_grpc_rs.Compression.{
  parse, encoding_of, not_supported, encode_with, decode_with, CompressionEncoding, gzip, deflate,
  zstd, EnabledCompressionEncodings, is_enabled, into_accept_encoding_header_value,
  accept_encoding_header, encoding_header, encodings, as_str, from_accept_encoding_header,
  from_encoding_header, first_enabled, split_from, compress, decompress,
}

-- The first encoding that both sides have enabled.
abbrev pub first_common :
    EnabledCompressionEncodings
    → EnabledCompressionEncodings
    → List CompressionEncoding
    → Option CompressionEncoding
first_common a b [] = none
first_common a b (e ∷ es) = if is_enabled a e && is_enabled b e then some e else first_common a b es

abbrev flags : Bool → Bool → Bool → EnabledCompressionEncodings
flags g d z = record { has_gzip = g; has_deflate = d; has_zstd = z }

module _ (x : Crates) where
  open x use {Headers, http}

  -- What reading the header value of the set `a` against the set `s` gives.
  abbrev Agrees : EnabledCompressionEncodings → EnabledCompressionEncodings → Option Bytes → Type 0
  Agrees a s none = first_common a s encodings ≡ none
  Agrees a s (some v) =
      (x.to_str v ≡ some v) × (first_enabled s (split_from b',' [] v) ≡ first_common a s encodings)

  flags-Agrees :
      (g d z : Bool) (s : EnabledCompressionEncodings)
      → Agrees (flags g d z) s (into_accept_encoding_header_value (flags g d z))
  unfolding into_accept_encoding_header_value first_enabled split_from same
  flags-Agrees false false false s = refl
  flags-Agrees false false true s = (x.to_str-visible _ (omega arith), ground arith)
  flags-Agrees false true false s = (x.to_str-visible _ (omega arith), ground arith)
  flags-Agrees false true true s = (x.to_str-visible _ (omega arith), ground arith)
  flags-Agrees true false false s = (x.to_str-visible _ (omega arith), ground arith)
  flags-Agrees true false true s = (x.to_str-visible _ (omega arith), ground arith)
  flags-Agrees true true false s = (x.to_str-visible _ (omega arith), ground arith)
  flags-Agrees true true true s = (x.to_str-visible _ (omega arith), ground arith)

  -- If one side announces the encodings that it accepts in the header `grpc-accept-encoding`, the
  -- other side chooses the first encoding, in the order of the program's list, that both sides
  -- have enabled, and none if there is no such encoding.
  pub from_accept_encoding_header-into :
      (a s : EnabledCompressionEncodings) (h : Headers)
      → http.get accept_encoding_header h ≡ into_accept_encoding_header_value a
      → from_accept_encoding_header x h s ≡ first_common a s encodings
  unfolding from_accept_encoding_header
  from_accept_encoding_header-into a s h e =
      rw (e, from_accept_encoding_header)
        (read (into_accept_encoding_header_value a)
          (flags-Agrees a.has_gzip a.has_deflate a.has_zstd s))
    where
      read :
          (o : Option Bytes)
          → Agrees a s o
          → elim o as (λ _. Option CompressionEncoding) [
            | none ↦ none
            | some val ↦ elim (x.to_str val) [
              | none ↦ none
              | some accept ↦ first_enabled s (split_from b',' [] accept)
            ]
          ]
            ≡ first_common a s encodings
      read none g = ground arith
      read (some v) g = ground arith

  as_str-visible : (e : CompressionEncoding) → x.to_str (as_str e) ≡ some (as_str e)
  as_str-visible gzip = x.to_str-visible _ (omega arith)
  as_str-visible _ = x.to_str-visible _ (omega arith)

  encoding_of-as_str :
      (e : CompressionEncoding) (accepted : EnabledCompressionEncodings)
      → encoding_of x accepted (as_str e)
        ≡ (if is_enabled accepted e then ok (some e) else err (not_supported x e))
  unfolding encoding_of same parse
  encoding_of-as_str gzip accepted = refl
  encoding_of-as_str _ accepted = refl

  parse_sound : (s : Bytes) {e : CompressionEncoding} → parse s ≡ some e → s ≡ as_str e
  unfolding parse
  parse_sound s h =
      ground
        (arith, same_iff s (as_str gzip), same_iff s (as_str deflate), same_iff s (as_str zstd))

  encoding_of_sound :
      (s : Bytes) (accepted : EnabledCompressionEncodings) {e : CompressionEncoding}
      → encoding_of x accepted s ≡ ok (some e)
      → (is_enabled accepted e ≡ true) × (s ≡ as_str e)
  unfolding encoding_of
  encoding_of_sound s accepted h = elim (Option-cases (parse s)) [
    | inl n ↦ ground (arith, n)
    | inr (e', q) ↦ ground (arith, q, parse_sound s q)
  ]

  -- The name of an encoding in the header `grpc-encoding` is read back as this encoding, if it is
  -- enabled.
  pub from_encoding_header-as_str :
      (e : CompressionEncoding) (accepted : EnabledCompressionEncodings) (h : Headers)
      → http.get encoding_header h ≡ some (as_str e)
      → is_enabled accepted e ≡ true
      → from_encoding_header x h accepted ≡ ok (some e)
  unfolding from_encoding_header
  from_encoding_header-as_str e accepted h g t =
      ground (arith, as_str-visible e, encoding_of-as_str e accepted)

  -- The name of an encoding that is not enabled, in the header `grpc-encoding`, is an error with
  -- the code Unimplemented.
  pub from_encoding_header_refused :
      (e : CompressionEncoding) (accepted : EnabledCompressionEncodings) (h : Headers)
      → http.get encoding_header h ≡ some (as_str e)
      → is_enabled accepted e ≡ false
      → (s : Status Headers) × (from_encoding_header x h accepted ≡ err s)
        × (s.code ≡ Code.unimplemented)
  unfolding from_encoding_header
  from_encoding_header_refused e accepted h g f =
      (not_supported x e, ground (arith, as_str-visible e, encoding_of-as_str e accepted), refl)

  -- An encoding that is taken from the header `grpc-encoding` is enabled, and the header's text is
  -- its name.
  pub from_encoding_header_sound :
      (e : CompressionEncoding) (accepted : EnabledCompressionEncodings) (h : Headers)
      → from_encoding_header x h accepted ≡ ok (some e)
      → (is_enabled accepted e ≡ true)
        × ((v : Bytes) × (http.get encoding_header h ≡ some v) × (x.to_str v ≡ some (as_str e)))
  unfolding from_encoding_header
  from_encoding_header_sound e accepted h g = elim (Option-cases (http.get encoding_header h)) [
    | inl n ↦ ground (arith, n)
    | inr (v, p) ↦ elim (Option-cases (x.to_str v)) [
      | inl n ↦ ground (arith, n, p)
      | inr (s, q) ↦
          let (enabled, named) = encoding_of_sound s accepted (ground (arith, p, q, g)) in
          (enabled, (v, p, q ∙ ap some named))
    ]
  ]

  decode_with-encode_with :
      (e : CompressionEncoding) (src : Bytes) {w : Bytes}
      → encode_with x e src ≡ ok w
      → decode_with x e w ≡ ok src
  unfolding encode_with decode_with
  decode_with-encode_with gzip src h = x.gz_decode-gz_encode src h
  decode_with-encode_with deflate src h = x.deflate_decode-deflate_encode src h
  decode_with-encode_with zstd src h = x.zstd_decode_all-zstd_encode_all src h

  -- What `compress` appends to a buffer, whatever the buffer holds, decompresses to the source,
  -- appended to whatever the other buffer holds.
  pub decompress-compress :
      (e : CompressionEncoding) (src dst out : Bytes) {c : Bytes}
      → compress x e src dst ≡ ok c
      → (wire : Bytes) × (c ≡ dst ++ wire) × (decompress x e wire out ≡ ok (out ++ src))
  unfolding compress decompress
  decompress-compress e src dst out h = elim (Result-cases (encode_with x e src)) [
    | inl (w, p) ↦ (w, ground (arith, p), ground (arith, decode_with-encode_with e src p))
    | inr (_, p) ↦ ground (arith, p)
  ]

  -- Compressing appends the same bytes to whatever the buffer holds.
  pub compress-append :
      (e : CompressionEncoding) (p dst : Bytes) {c : Bytes}
      → compress x e p [] ≡ ok c
      → compress x e p dst ≡ ok (dst ++ c)
  unfolding compress
  compress-append e p dst h = elim (Result-cases (encode_with x e p)) [
    | inl (c, q) ↦ ground (arith, h, q)
    | inr (f, q) ↦ ground (arith, h, q)
  ]
