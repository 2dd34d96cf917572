-- ===== src/Codec/Buffer.antt =====
-- grpc-core/src/codec/buffer.rs: the view that a decoder reads from.
use pure_grpc_rs.Base.{
  ℕ, zero, suc, ◌-◌, ◌≤◌, List, [], ◌∷◌, ◌++◌, Option, none, some, ◌≡◌, refl, ap, arith,
  if◌then◌else◌, leb, length, take, drop, take-append, drop-append, length-append,
}
use pure_grpc_rs.Base.Words.{Bytes}

-- A view of the first `len` bytes of a buffer. The operations that take more than `len` bytes
-- panic: `none`.
pub record DecodeBuf : Type 0 where
  pub buf : Bytes
  pub len : ℕ

abbrev pub remaining : DecodeBuf → ℕ
remaining b = b.len

-- `BytesMut::chunk` is the whole buffer.
unfoldable pub chunk : DecodeBuf → Bytes
chunk b = if leb (length b.buf) b.len then b.buf else take b.len b.buf

unfoldable pub advance : ℕ → DecodeBuf → Option DecodeBuf
advance cnt b =
    if leb cnt b.len
    then (if leb cnt (length b.buf)
        then some (record { buf = drop cnt b.buf; len = b.len - cnt })
        else none)
    else none

unfoldable pub copy_to_bytes : ℕ → DecodeBuf → Option (Bytes × DecodeBuf)
copy_to_bytes n b =
    if leb n b.len
    then (if leb n (length b.buf)
        then some (take n b.buf, record { buf = drop n b.buf; len = b.len - n })
        else none)
    else none

take-all {ℓ} : {A : Type ℓ} (n : ℕ) (xs : List A) → length xs ≤ n → take n xs ≡ xs
take-all zero [] h = refl
take-all zero (x ∷ xs) h = elim h [ ]
take-all (suc n) [] h = refl
take-all (suc n) (x ∷ xs) h = ap (◌∷◌ x) (take-all n xs (omega arith))

-- If a decoding buffer holds the bytes that it limits the decoder to, then taking all of them
-- gives its chunk, and leaves the same buffer as advancing over them.
pub copy_to_bytes-chunk :
    (b : DecodeBuf)
    → b.len ≤ length b.buf
    → (copy_to_bytes b.len b ≡ some (chunk b, record { buf = drop b.len b.buf; len = 0 }))
      × (advance b.len b ≡ some (record { buf = drop b.len b.buf; len = 0 }))
unfolding copy_to_bytes chunk advance
copy_to_bytes-chunk b h = (ground (arith, take-all b.len b.buf), ground arith)

-- The chunk of a view that holds just `p`, and advancing over it.
pub chunk-append :
    (p rest : Bytes)
    → (chunk (record { buf = p ++ rest; len = length p }) ≡ p)
      × (advance (length p) (record { buf = p ++ rest; len = length p })
          ≡ some (record { buf = rest; len = 0 }))
unfolding chunk advance
chunk-append p rest = (
  ground (arith, take-all (length p) (p ++ rest), take-append p rest),
  ground (arith, drop-append p rest, length-append p rest),
)
