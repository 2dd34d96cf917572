-- ===== src/Web/Body.antt =====
-- grpc-web/src/call.rs: the body that translates between gRPC and gRPC-Web. A request is decoded
-- from base64, and a response carries its trailers as a last frame of the body. The inner body is
-- the list of what its `poll_frame` will give.
use pure_grpc_rs.Base.{
  ◌*◌, ◌/◌, ◌%◌, Bool, true, false, List, [], ◌∷◌, ◌++◌, Option, none, some, String, if◌then◌else◌,
  ltb, Result, ok, err, Poll, pending, ready, length, take, drop,
}
use pure_grpc_rs.Base.Text.{ascii}
use pure_grpc_rs.Base.Words.{Bytes, be_bytes, u32_mod}
use pure_grpc_rs.Codec.Decode.{
  BodyEvent, waiting, data_frame, trailers_frame, unknown_frame, failed,
}
use pure_grpc_rs.Crates.{Crates}
use pure_grpc_rs.Status.{Status}

pub data Encoding : Type 0 where
  binary base64 : Encoding

pub data Direction : Type 0 where
  decode encode : Direction

pub record GrpcWebCall (H : Type 0) : Type 0 where
  pub inner : List (BodyEvent H)
  pub encoding : Encoding
  pub direction : Direction
  pub buf : Bytes
  pub trailers : Option H
  pub trailers_sent : Bool

-- `http_body::Frame`
pub data Frame (H : Type 0) : Type 0 where
  of_data : Bytes → Frame H
  of_trailers : H → Frame H
  of_unknown : Frame H

abbrev pub request : {H : Type 0} → Encoding → List (BodyEvent H) → GrpcWebCall H
request encoding inner = record {
  inner = inner;
  encoding = encoding;
  direction = decode;
  buf = [];
  trailers = none;
  trailers_sent = false;
}

abbrev pub response : {H : Type 0} → Encoding → List (BodyEvent H) → GrpcWebCall H
response encoding inner = record {
  inner = inner;
  encoding = encoding;
  direction = encode;
  buf = [];
  trailers = none;
  trailers_sent = false;
}

-- The lines of the trailers: `key:value\r\n`.
unfoldable pub trailer_lines : List (String × Bytes) → Bytes
trailer_lines [] = []
trailer_lines ((key, value) ∷ entries) =
    ascii key ++ (b':' ∷ (value ++ (13 ∷ 10 ∷ trailer_lines entries)))

module _ (x : Crates) where
  open x use {Headers, http}

  abbrev pub Call : Type 0
  Call = GrpcWebCall Headers

  abbrev pub Polled : Type 0
  Polled = Poll (Option (Result (Status Headers) (Frame Headers)))

  abbrev give : Frame Headers → Polled
  give f = ready (some (ok f))

  -- The bytes that are no base64 by themselves go behind those of the buffer.
  unfoldable pub decode_buffered : Call → Bytes → Call × Polled
  decode_buffered c bytes =
      let all = c.buf ++ bytes in
      let aligned_len = length all / 4 * 4 in
      if ltb 0 aligned_len
      then (
        record c { buf = drop aligned_len all },
        elim (x.decode_padded (take aligned_len all)) [
          | some decoded ↦ give (of_data decoded)
          | none ↦ give (of_data (take aligned_len all))
        ],
      )
      else (record c { buf = all }, pending)

  -- The conversion of one data frame of a request.
  unfoldable pub decode_data : Call → Bytes → Call × Polled
  unfolding decode_buffered
  decode_data c bytes = elim c.encoding [
    | binary ↦ (c, give (of_data bytes))
    | base64 ↦ elim (x.decode_padded bytes) [
      | some decoded ↦ (c, give (of_data decoded))
      | none ↦ decode_buffered c bytes
    ]
  ]

  unfoldable pub poll_decode : Call → Call × Polled
  unfolding decode_data
  poll_decode c = elim c.inner [
    | [] ↦ (c, ready none)
    | waiting ∷ es ↦ (record c { inner = es }, pending)
    | data_frame bytes ∷ es ↦ decode_data (record c { inner = es }) bytes
    | trailers_frame h ∷ es ↦ (record c { inner = es }, give (of_trailers h))
    | unknown_frame ∷ es ↦ (record c { inner = es }, give of_unknown)
    | failed e ∷ es ↦ (record c { inner = es }, ready (some (err e)))
  ]

  unfoldable pub trailer_frame : Headers → Bytes
  unfolding trailer_lines
  trailer_frame trailers =
      let trailer_buf = trailer_lines (http.entries trailers) in
      0x80 ∷ (be_bytes (length trailer_buf % u32_mod) ++ trailer_buf)

  unfoldable pub encode_data : Encoding → Bytes → Bytes
  encode_data binary bytes = bytes
  encode_data base64 bytes = x.encode_padded bytes

  unfoldable pub encode_trailers : Headers → Encoding → Bytes
  unfolding trailer_frame encode_data
  encode_trailers trailers encoding = encode_data encoding (trailer_frame trailers)

  abbrev is_empty : Bytes → Bool
  is_empty [] = true
  is_empty (_ ∷ _) = false

  -- Without trailers at hand, and before any have been sent.
  unfoldable pub encode_inner : Call → Call × Polled
  unfolding encode_trailers encode_data
  encode_inner c = elim c.inner [
    | data_frame bytes ∷ es ↦
        (record c { inner = es }, give (of_data (encode_data c.encoding bytes)))
    | trailers_frame h ∷ es ↦ (record c { inner = es; trailers = some h }, pending)
    | unknown_frame ∷ es ↦ (record c { inner = es }, give of_unknown)
    | failed e ∷ es ↦ (record c { inner = es }, ready (some (err e)))
    | waiting ∷ es ↦ (record c { inner = es }, pending)
    | [] ↦
        let encoded = encode_trailers http.empty c.encoding in
        (
          record c { trailers_sent = true },
          if is_empty encoded then ready none else give (of_data encoded),
        )
  ]

  unfoldable pub poll_encode : Call → Call × Polled
  unfolding encode_inner encode_trailers
  poll_encode c = elim c.trailers [
    | some trailer_map ↦ (
      record c { trailers = none; trailers_sent = true },
      give (of_data (encode_trailers trailer_map c.encoding)),
    )
    | none ↦ if c.trailers_sent then (c, ready none) else encode_inner c
  ]

  unfoldable pub poll_frame : Call → Call × Polled
  unfolding poll_decode poll_encode
  poll_frame c = elim c.direction [ decode ↦ poll_decode c | encode ↦ poll_encode c ]
