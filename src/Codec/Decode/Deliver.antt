-- ===== src/Codec/Decode/Deliver.antt =====
-- One framed message is delivered, however the body cuts its bytes into data frames (decode.rs).
use pure_grpc_rs.Base.{
  ℕ, ◌≤◌, false, List, [], ◌∷◌, ◌++◌, Option, none, some, ◌≡◌, refl, ap, ◌∙◌, arith, ok, pending,
  ready, length, ltb, ge→ltb, take-append, drop-append, append-nil, length-append,
}
use pure_grpc_rs.Base.Words.{Bytes, be_bytes}
use pure_grpc_rs.Codec.{Decoder}
use pure_grpc_rs.Codec.Decode.{
  BodyEvent, waiting, data_frame, read_header, read_body, StreamingInner, Stream, decode_chunk,
  poll_next,
}
use pure_grpc_rs.Compression.{CompressionEncoding, decompress}
use pure_grpc_rs.Crates.{Crates}

-- A message as it travels: the flag byte, its length as a big-endian word, and its bytes.
abbrev pub frame : ℕ → Bytes → Bytes
frame flag payload = flag ∷ (be_bytes (length payload) ++ payload)

-- The bytes of the data frames up to the first event of another kind, and what comes then.
abbrev pub data_of : {H : Type 0} → List (BodyEvent H) → Bytes
data_of (data_frame b ∷ es) = b ++ data_of es
data_of (waiting ∷ es) = data_of es
data_of _ = []

abbrev pub after_data : {H : Type 0} → List (BodyEvent H) → List (BodyEvent H)
after_data (data_frame b ∷ es) = after_data es
after_data (waiting ∷ es) = after_data es
after_data es = es

-- A buffer that holds a first part of `p ++ rest` holds all of `p`, if it is long enough.
pub split_off :
    (p rest buf more : Bytes)
    → buf ++ more ≡ p ++ rest
    → length p ≤ length buf
    → (r : Bytes) × (buf ≡ p ++ r) × (r ++ more ≡ rest)
split_off [] rest buf more e l = (buf, refl, e)
split_off (b ∷ p) rest [] more e l = elim l [ ]
split_off (b ∷ p) rest (c ∷ buf) more e l =
    let (r, q, t) = split_off p rest buf more (ground (arith, e)) (omega arith) in
    (r, ground (arith, q, e), t)

module _ (x : Crates) {T : Type 0} (d : Decoder x.Headers T) where
  open x use {Headers}

  -- The decoder reads `m` from just the bytes `p`, whatever stands behind them.
  abbrev pub Reads : d.State → Bytes → T → d.State → Type 0
  Reads st p m st' =
      (rest : Bytes)
      → d.decode st (record { buf = p ++ rest; len = length p })
        ≡ (st', record { buf = rest; len = 0 }, ok (some m))

  -- A payload stands for `p`: `p` itself, or a compressed form of it.
  abbrev pub Unpacks : Option CompressionEncoding → Bytes → Bytes → Type 0
  Unpacks none payload p = payload ≡ p
  Unpacks (some e) payload p = decompress x e payload [] ≡ ok p

  -- Polled again and again, a stream gives these messages, waiting in between.
  pub data Yields : Stream x d → List T → Stream x d → Type 0 where
    stay : {s : Stream x d} → Yields s [] s
    wait :
        {s s' s'' : Stream x d} {ms : List T}
        → poll_next x d s ≡ some (s', pending)
        → Yields s' ms s''
        → Yields s ms s''
    item :
        {s s' s'' : Stream x d} {m : T} {ms : List T}
        → poll_next x d s ≡ some (s', ready (some (ok m)))
        → Yields s' ms s''
        → Yields s (m ∷ ms) s''

  -- Streams that answer alike yield alike.
  pub Yields-poll :
      {s t u : Stream x d} {m : T} {ms : List T}
      → poll_next x d s ≡ poll_next x d t
      → Yields t (m ∷ ms) u
      → Yields s (m ∷ ms) u
  Yields-poll e (wait p y) = wait (e ∙ p) y
  Yields-poll e (item p y) = item (e ∙ p) y

  -- Between two messages, with the bytes `rest` still to come.
  pub record Between (s : Stream x d) (st : d.State) (rest : Bytes) : Type 0 where
    pub decoder : s.decoder ≡ st
    pub state : s.inner.state ≡ read_header
    pub bytes : s.inner.buf ++ data_of s.inner.body ≡ rest

  -- What reading data leaves of a stream: its settings, and the events behind the data.
  pub record Same (s t : Stream x d) : Type 0 where
    pub direction : t.inner.direction ≡ s.inner.direction
    pub trailers : t.inner.trailers ≡ s.inner.trailers
    pub encoding : t.inner.encoding ≡ s.inner.encoding
    pub max_message_size : t.inner.max_message_size ≡ s.inner.max_message_size
    pub tail : after_data t.inner.body ≡ after_data s.inner.body

  abbrev pub read_on : Stream x d → List (BodyEvent Headers) → Bytes → Stream x d
  read_on s es b = record s { inner = record (s.inner) { body = es; buf = b } }

  abbrev pub delivered :
      Option CompressionEncoding → StreamingInner Headers → Bytes → StreamingInner Headers
  delivered none i r = record i { buf = r; state = read_header }
  delivered (some e) i r = record i { decompress_buf = []; buf = r; state = read_header }

  pub fits :
      (buf payload r : Bytes) → buf ≡ payload ++ r → ltb (length buf) (length payload) ≡ false
  fits buf payload r b =
      ge→ltb (length buf) (length payload) (omega (arith, ap length b, length-append payload r))

  -- A whole message in the buffer is decoded.
  pub decode_chunk-body :
      (c : Option CompressionEncoding) (payload p : Bytes) (m : T) (st' : d.State) (s : Stream x d)
      (r : Bytes)
      → Unpacks c payload p
      → s.inner.state ≡ read_body c (length payload)
      → s.inner.buf ≡ payload ++ r
      → Reads s.decoder p m st'
      → decode_chunk x d s ≡ (record { decoder = st'; inner = delivered c s.inner r }, ok (some m))
  unfolding decode_chunk
  decode_chunk-body none payload p m st' s r u e b h =
      ground (arith, h r, fits s.inner.buf payload r b)
  decode_chunk-body (some f) payload p m st' s r u e b h = ground (
    arith,
    h [],
    append-nil p,
    fits s.inner.buf payload r b,
    take-append payload r,
    drop-append payload r,
  )
