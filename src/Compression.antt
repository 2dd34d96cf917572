-- ===== src/Compression.antt =====
-- grpc-core/src/codec/compression.rs, with the features `gzip`, `deflate` and `zstd` on: the
-- encodings, the sets of enabled encodings, their headers, and the two conversions.
pub mod Negotiation
use pure_grpc_rs.Base.{
  ℕ, Bool, true, false, ◌||◌, ◌&&◌, List, [], ◌∷◌, ◌++◌, Option, none, some, String, if◌then◌else◌,
  Result, ok, err, ◌>>=◌, leb, ◌==◌,
}
use pure_grpc_rs.Base.Text.{ascii}
use pure_grpc_rs.Base.Words.{Bytes, same}
use pure_grpc_rs.Code.{Code}
use pure_grpc_rs.Crates.{Crates}
use pure_grpc_rs.Status
use pure_grpc_rs.Status.{Status}

pub data CompressionEncoding : Type 0 where
  gzip deflate zstd : CompressionEncoding

abbrev pub encodings : List CompressionEncoding
encodings = gzip ∷ deflate ∷ zstd ∷ []

abbrev pub as_str : CompressionEncoding → Bytes
as_str gzip = ascii "gzip"
as_str deflate = ascii "deflate"
as_str zstd = ascii "zstd"

unfoldable pub parse : Bytes → Option CompressionEncoding
parse s =
    if same s (ascii "gzip")
    then some gzip
    else if same s (ascii "deflate")
    then some deflate
    else if same s (ascii "zstd")
    then some zstd
    else none

pub record EnabledCompressionEncodings : Type 0 where
  pub has_gzip : Bool
  pub has_deflate : Bool
  pub has_zstd : Bool

-- `Default`
abbrev pub none_enabled : EnabledCompressionEncodings
none_enabled = record { has_gzip = false; has_deflate = false; has_zstd = false }

unfoldable pub enable :
    EnabledCompressionEncodings → CompressionEncoding → EnabledCompressionEncodings
enable s gzip = record s { has_gzip = true }
enable s deflate = record s { has_deflate = true }
enable s zstd = record s { has_zstd = true }

abbrev pub is_enabled : EnabledCompressionEncodings → CompressionEncoding → Bool
is_enabled s gzip = s.has_gzip
is_enabled s deflate = s.has_deflate
is_enabled s zstd = s.has_zstd

-- The loop of `into_accept_encoding_header_value`.
enabled_names : EnabledCompressionEncodings → List CompressionEncoding → List Bytes
enabled_names s [] = []
enabled_names s (e ∷ es) =
    if is_enabled s e then as_str e ∷ enabled_names s es else enabled_names s es

-- `[&str]::join`
join : Bytes → List Bytes → Bytes
join sep [] = []
join sep (p ∷ []) = p
join sep (p ∷ (q ∷ ps)) = p ++ (sep ++ join sep (q ∷ ps))

join_names : List Bytes → Option Bytes
unfolding join
join_names [] = none
join_names (p ∷ ps) = some (join (ascii ",") (p ∷ ps))

unfoldable pub into_accept_encoding_header_value : EnabledCompressionEncodings → Option Bytes
unfolding enabled_names join_names
into_accept_encoding_header_value s = join_names (enabled_names s encodings)

abbrev pub encoding_header : String
encoding_header = "grpc-encoding"

abbrev pub accept_encoding_header : String
accept_encoding_header = "grpc-accept-encoding"

-- `str::split` at one byte; `cur` is the piece read so far.
split_from : ℕ → Bytes → Bytes → List Bytes
split_from sep cur [] = cur ∷ []
split_from sep cur (c ∷ cs) = elim (c == sep) [
  | true ↦ cur ∷ split_from sep [] cs
  | false ↦ split_from sep (cur ++ c ∷ []) cs
]

abbrev is_space : ℕ → Bool
is_space c = c == 32 || (leb 9 c && leb c 13)

trim_start : Bytes → Bytes
trim_start [] = []
trim_start (c ∷ cs) = if is_space c then trim_start cs else c ∷ cs

trim_end : Bytes → Bytes
trim_end [] = []
trim_end (c ∷ cs) = keep (trim_end cs)
  where
    keep : Bytes → Bytes
    keep [] = if is_space c then [] else c ∷ []
    keep (d ∷ ds) = c ∷ d ∷ ds

-- `str::trim` on ASCII.
unfoldable pub trim : Bytes → Bytes
unfolding trim_start trim_end
trim s = trim_end (trim_start s)

first_enabled : EnabledCompressionEncodings → List Bytes → Option CompressionEncoding
unfolding parse trim
first_enabled send [] = none
first_enabled send (part ∷ parts) = elim (parse (trim part)) [
  | none ↦ first_enabled send parts
  | some e ↦ elim (is_enabled send e) [ true ↦ some e | false ↦ first_enabled send parts ]
]

module _ (x : Crates) where
  open x use {Headers, http}

  abbrev not_supported : CompressionEncoding → Status Headers
  not_supported e =
      Status.new x Code.unimplemented
        (ascii "compression `" ++ as_str e ++ ascii "` is not supported")

  encoding_of :
      EnabledCompressionEncodings → Bytes → Result (Status Headers) (Option CompressionEncoding)
  encoding_of accepted name = if same name (ascii "identity") then ok none else elim (parse name) [
    | none ↦ err (
        Status.new x Code.unimplemented
          (ascii "unknown compression encoding `" ++ name ++ ascii "`"))
    | some e ↦ if is_enabled accepted e then ok (some e) else err (not_supported e)
  ]

  unfoldable pub from_encoding_header :
      Headers → EnabledCompressionEncodings → Result (Status Headers) (Option CompressionEncoding)
  unfolding encoding_of
  from_encoding_header headers accepted = elim (http.get encoding_header headers) [
    | none ↦ ok none
    | some val ↦ elim (x.to_str val) [
      | none ↦ err (Status.new x Code.internal (ascii "grpc-encoding header is not valid UTF-8"))
      | some name ↦ encoding_of accepted name
    ]
  ]

  unfoldable pub from_accept_encoding_header :
      Headers → EnabledCompressionEncodings → Option CompressionEncoding
  unfolding first_enabled split_from
  from_accept_encoding_header headers send = elim (http.get accept_encoding_header headers) [
    | none ↦ none
    | some val ↦ elim (x.to_str val) [
      | none ↦ none
      | some accept ↦ first_enabled send (split_from b',' [] accept)
    ]
  ]

  encode_with : CompressionEncoding → Bytes → Result Bytes Bytes
  encode_with gzip src = x.gz_encode src
  encode_with deflate src = x.deflate_encode src
  encode_with zstd src = x.zstd_encode_all src

  decode_with : CompressionEncoding → Bytes → Result Bytes Bytes
  decode_with gzip src = x.gz_decode src
  decode_with deflate src = x.deflate_decode src
  decode_with zstd src = x.zstd_decode_all src

  -- Appends to `dst`; an error leaves `dst` as it is.
  unfoldable pub compress : CompressionEncoding → Bytes → Bytes → Result Bytes Bytes
  unfolding encode_with
  compress encoding src dst = do compressed ← encode_with encoding src; ok (dst ++ compressed)

  unfoldable pub decompress : CompressionEncoding → Bytes → Bytes → Result Bytes Bytes
  unfolding decode_with
  decompress encoding src dst = do decompressed ← decode_with encoding src; ok (dst ++ decompressed)
