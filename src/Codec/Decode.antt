-- ===== src/Codec/Decode.antt =====
-- grpc-core/src/codec/decode.rs: `Streaming`, which reads length-prefixed messages from a body. The
-- body is the list of what its `poll_frame` will give; behind the last event it gives the end of
-- the body, again and again. Errors of the body are statuses already (`Status::map_error`).
pub mod Total
pub mod Deliver
pub mod Message
pub mod Header
pub mod Stream
pub mod Ending
pub mod Failures
pub mod Futures
pub mod Drained
pub mod Held
pub mod Consumed
pub mod Steady
use pure_grpc_rs.Base.{
  ℕ, zero, suc, ◌+◌, Bool, true, false, ◌&&◌, List, [], ◌∷◌, ◌++◌, Option, none, some,
  if◌then◌else◌, Result, ok, err, Poll, pending, ready, ltb, ◌==◌, unwrap_or, length, take, drop,
}
use pure_grpc_rs.Base.Text.{ascii, decimal}
use pure_grpc_rs.Base.Words.{Bytes, be_word}
use pure_grpc_rs.Code.{Code}
use pure_grpc_rs.Codec.Buffer.{DecodeBuf}
use pure_grpc_rs.Codec.{Decoder, default_max_recv_message_size}
use pure_grpc_rs.Compression.{CompressionEncoding, decompress}
use pure_grpc_rs.Crates.{Crates}
use pure_grpc_rs.Status
use pure_grpc_rs.Status.{Status, infer_grpc_status}

-- What one `poll_frame` of a body gives.
pub data BodyEvent (H : Type 0) : Type 0 where
  waiting : BodyEvent H
  data_frame : Bytes → BodyEvent H
  trailers_frame : H → BodyEvent H
  unknown_frame : BodyEvent H
  failed : Status H → BodyEvent H

pub data State (H : Type 0) : Type 0 where
  read_header : State H
  read_body : Option CompressionEncoding → ℕ → State H
  error : Option (Status H) → State H

pub data Direction : Type 0 where
  request : Direction
  response : ℕ → Direction
  empty_response : Direction

pub record StreamingInner (H : Type 0) : Type 0 where
  pub body : List (BodyEvent H)
  pub state : State H
  pub direction : Direction
  pub buf : Bytes
  pub trailers : Option H
  pub decompress_buf : Bytes
  pub encoding : Option CompressionEncoding
  pub max_message_size : Option ℕ

pub record Streaming (S H : Type 0) : Type 0 where
  pub decoder : S
  pub inner : StreamingInner H

-- The bytes that a decoder is given: the first `len` of `buf`, or of `decompress_buf`.
pub record View : Type 0 where
  pub decompressed : Bool
  pub len : ℕ

abbrev is_request : Direction → Bool
is_request request = true
is_request _ = false

abbrev is_cancelled : Code → Bool
is_cancelled Code.cancelled = true
is_cancelled _ = false

abbrev is_empty : Bytes → Bool
is_empty [] = true
is_empty (_ ∷ _) = false

module _ (x : Crates) where
  open x use {Headers, http}

  abbrev internal : Bytes → Status Headers
  internal message = Status.new x Code.internal message

  abbrev pub recv_limit : StreamingInner Headers → ℕ
  recv_limit i = unwrap_or i.max_message_size default_max_recv_message_size

  unfoldable pub read_flag :
      Option CompressionEncoding → ℕ → Result (Status Headers) (Option CompressionEncoding)
  read_flag encoding flag =
      if flag == 0
      then ok none
      else if flag == 1
      then elim encoding [
        | some e ↦ ok (some e)
        | none ↦
            err (internal (ascii "compressed message received but no grpc-encoding was specified"))
      ]
      else err (
          internal (ascii "invalid compression flag: " ++ decimal flag ++ ascii " (valid: 0 or 1)"))

  too_large : ℕ → ℕ → Status Headers
  too_large len limit = Status.new x Code.out_of_range (
      ascii "Error, decoded message length too large: found "
      ++ decimal len
      ++ ascii " bytes, the limit is: "
      ++ decimal limit
      ++ ascii " bytes")

  -- The `ReadHeader` part of `decode_chunk`, on the bytes of the buffer: `get_u8` has consumed the
  -- flag, and `get_u32` the length, before they are looked at.
  decode_header :
      StreamingInner Headers
      → Bytes
      → StreamingInner Headers × Result (Status Headers) (Option (Unit {0}))
  unfolding read_flag too_large
  decode_header i (flag ∷ a ∷ b ∷ c ∷ d ∷ rest) = elim (read_flag i.encoding flag) [
    | err e ↦ (record i { buf = a ∷ b ∷ c ∷ d ∷ rest }, err e)
    | ok compression ↦
        let len = be_word a b c d in
        if ltb (recv_limit i) len
        then (record i { buf = rest }, err (too_large len (recv_limit i)))
        else (record i { buf = rest; state = read_body compression len }, ok (some tt))
  ]
  decode_header i _ = (i, ok none)

  -- The `ReadBody` part.
  take_body :
      Option CompressionEncoding
      → ℕ
      → StreamingInner Headers
      → StreamingInner Headers × Result (Status Headers) (Option View)
  take_body compression len i = if ltb (length i.buf) len then (i, ok none) else elim compression [
    | none ↦ (i, ok (some (record { decompressed = false; len = len })))
    | some e ↦ elim (decompress x e (take len i.buf) []) [
      | err t ↦
          (record i { decompress_buf = [] }, err (internal (ascii "decompression error: " ++ t)))
      | ok out ↦ (
        record i { decompress_buf = out; buf = drop len i.buf },
        ok (some (record { decompressed = true; len = length out })),
      )
    ]
  ]

  -- A second part of `decode_chunk` that runs on the state that the first part leaves.
  after_header :
      StreamingInner Headers × Result (Status Headers) (Option (Unit {0}))
      → StreamingInner Headers × Result (Status Headers) (Option View)
  unfolding take_body
  after_header (i, err e) = (i, err e)
  after_header (i, ok none) = (i, ok none)
  after_header (i, ok (some _)) = elim i.state [
    | read_body compression len ↦ take_body compression len i
    | _ ↦ (i, ok none)
  ]

  unfoldable pub inner_decode_chunk :
      StreamingInner Headers → StreamingInner Headers × Result (Status Headers) (Option View)
  unfolding decode_header after_header
  inner_decode_chunk i = elim i.state [
    | read_header ↦ after_header (decode_header i i.buf)
    | read_body compression len ↦ take_body compression len i
    | error _ ↦ (i, ok none)
  ]

  -- `Poll::Ready(Ok(Some(())))` asks for another round.
  unfoldable pub poll_frame :
      StreamingInner Headers
      → StreamingInner Headers × Poll (Result (Status Headers) (Option (Unit {0})))
  poll_frame i = elim i.body [
    | [] ↦ (
      i,
      ready (
          if is_empty i.buf
          then ok none
          else err (internal (ascii "Unexpected EOF decoding stream."))),
    )
    | waiting ∷ es ↦ (record i { body = es }, pending)
    | data_frame b ∷ es ↦ (record i { body = es; buf = i.buf ++ b }, ready (ok (some tt)))
    | trailers_frame h ∷ es ↦ (
      record i {
        body = es;
        trailers = some (elim i.trailers [ none ↦ h | some t ↦ http.extend t h ]);
      },
      ready (ok none),
    )
    | unknown_frame ∷ es ↦ (record i { body = es }, ready (ok none))
    | failed s ∷ es ↦
        if is_request i.direction && is_cancelled s.code
        then (record i { body = es }, ready (ok none))
        else (record i { body = es; state = error (some s) }, ready (err s))
  ]

  unfoldable pub finish_response :
      StreamingInner Headers → StreamingInner Headers × Result (Status Headers) (Unit {0})
  finish_response i = elim i.direction [
    | response status ↦ elim (infer_grpc_status x i.trailers status) [
      | ok _ ↦ (i, ok tt)
      | err none ↦ (i, ok tt)
      | err (some e) ↦ (record i { trailers = none }, err e)
    ]
    | _ ↦ (i, ok tt)
  ]

module _ (x : Crates) {T : Type 0} (d : Decoder x.Headers T) where
  open x use {Headers, http}

  abbrev pub Stream : Type 0
  Stream = Streaming d.State Headers

  abbrev pub Item : Type 0
  Item = Option (Result (Status Headers) T)

  abbrev pub new :
      d.State
      → List (BodyEvent Headers)
      → Direction
      → Option CompressionEncoding
      → Option ℕ
      → Stream
  new decoder body direction encoding max_message_size = record {
    decoder = decoder;
    inner = record {
      body = body;
      state = read_header;
      direction = direction;
      buf = [];
      trailers = none;
      decompress_buf = [];
      encoding = encoding;
      max_message_size = max_message_size;
    };
  }

  -- The buffer of the view, after the decoder has read from it, goes back to where it came from.
  put_back : StreamingInner Headers → View → Bytes → StreamingInner Headers
  put_back i view b =
      if view.decompressed then record i { decompress_buf = b } else record i { buf = b }

  run_decoder :
      d.State → StreamingInner Headers → View → Stream × Result (Status Headers) (Option T)
  unfolding put_back
  run_decoder decoder i view =
      let (decoder', b, result) =
        d.decode decoder (record {
          buf = if view.decompressed then i.decompress_buf else i.buf;
          len = view.len;
        }) in
      let i' = put_back i view b.buf in
      elim result [
        | err e ↦ (record { decoder = decoder'; inner = i' }, err e)
        | ok none ↦ (record { decoder = decoder'; inner = i' }, ok none)
        | ok (some msg) ↦ (
          record { decoder = decoder'; inner = record i' { state = read_header } },
          ok (some msg),
        )
      ]

  unfoldable pub decode_chunk : Stream → Stream × Result (Status Headers) (Option T)
  unfolding inner_decode_chunk run_decoder
  decode_chunk s =
      let (i, chunk) = inner_decode_chunk x s.inner in
      elim chunk [
        | err e ↦ (record s { inner = i }, err e)
        | ok none ↦ (record s { inner = i }, ok none)
        | ok (some view) ↦ run_decoder s.decoder i view
      ]

  -- One round of the loop of `poll_next`: an answer, or the state of the next round.
  pub data Round : Type 0 where
    answer : Stream → Poll Item → Round
    again : Stream → Round

  pub ask_body : Stream → Round
  unfolding poll_frame finish_response
  ask_body s =
      let (i, polled) = poll_frame x s.inner in
      elim polled [
        | pending ↦ answer (record s { inner = i }) pending
        | ready (err e) ↦ answer (record s { inner = i }) (ready (some (err e)))
        | ready (ok (some _)) ↦ again (record s { inner = i })
        | ready (ok none) ↦
            let (i', ended) = finish_response x i in
            elim ended [
              | ok _ ↦ answer (record s { inner = i' }) (ready none)
              | err e ↦ again (record s { inner = record i' { state = error (some e) } })
            ]
      ]

  try_decode : Stream → Round
  unfolding ask_body
  try_decode s =
      let (s', decoded) = decode_chunk s in
      elim decoded [
        | err e ↦ answer s' (ready (some (err e)))
        | ok (some item) ↦ answer s' (ready (some (ok item)))
        | ok none ↦ ask_body s'
      ]

  pub take_error : Option (Status Headers) → Item
  take_error none = none
  take_error (some e) = some (err e)

  unfoldable pub round : Stream → Round
  unfolding try_decode take_error
  round s = elim s.inner.state [
    | error status ↦
        answer (record s { inner = record (s.inner) { state = error none } })
          (ready (take_error status))
    | _ ↦ try_decode s
  ]

  -- The loop, on fuel.
  unfoldable pub poll_rounds : ℕ → Stream → Option (Stream × Poll Item)
  poll_rounds zero s = none
  poll_rounds (suc fuel) s = elim (round s) [
    | answer s' p ↦ some (s', p)
    | again s' ↦ poll_rounds fuel s'
  ]

  -- Each round but two takes an event of the body.
  unfoldable pub poll_next : Stream → Option (Stream × Poll Item)
  unfolding poll_rounds
  poll_next s = poll_rounds (suc (suc (length s.inner.body))) s
