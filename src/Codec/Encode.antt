-- ===== src/Codec/Encode.antt =====
-- grpc-core/src/codec/encode.rs: messages to frames (`EncodedBytes`), and frames to a body with
-- trailers (`EncodeBody`). The source is the list of what its `poll_next` will give, and ends for
-- good behind it (`Fuse`). The five bytes that a header reserves are zeros until they are written.
-- `display` is the text that `{err}` prints of a status.
pub mod Items
pub mod Sent
pub mod Emit
pub mod Finish
pub mod Trailers
pub mod Unique
use pure_grpc_rs.Base.{
  ℕ, ◌+◌, ◌-◌, ◌%◌, Bool, true, false, List, [], ◌∷◌, ◌++◌, Option, none, some, if◌then◌else◌,
  Result, ok, err, map_err, Poll, pending, ready, ltb, leb, unwrap_or, is_some, length, take, drop,
}
use pure_grpc_rs.Base.Text.{ascii, decimal}
use pure_grpc_rs.Base.Words.{Bytes, be_bytes, u32_mod}
use pure_grpc_rs.Code.{Code}
use pure_grpc_rs.Codec.{Encoder, header_size, default_max_send_message_size}
use pure_grpc_rs.Compression.{CompressionEncoding, compress}
use pure_grpc_rs.Crates.{Crates}
use pure_grpc_rs.Status
use pure_grpc_rs.Status.{Status, to_header_map}

-- What one `poll_next` of the source gives.
pub data SourceEvent (H T : Type 0) : Type 0 where
  not_ready : SourceEvent H T
  message : T → SourceEvent H T
  broken : Status H → SourceEvent H T

pub record EncodedBytes (S H T : Type 0) : Type 0 where
  pub source : List (SourceEvent H T)
  pub encoder : S
  pub compression_encoding : Option CompressionEncoding
  pub max_message_size : Option ℕ
  pub buf : Bytes
  pub uncompression_buf : Bytes
  pub error : Option (Status H)

pub data Role : Type 0 where
  client server : Role

pub record EncodeState (H : Type 0) : Type 0 where
  pub error : Option (Status H)
  pub role : Role
  pub is_end_stream : Bool

pub record EncodeBody (S H T : Type 0) : Type 0 where
  pub inner : EncodedBytes S H T
  pub state : EncodeState H

-- `http_body::Frame`, of the two kinds that are made here.
pub data Frame (H : Type 0) : Type 0 where
  data_out : Bytes → Frame H
  trailers_out : H → Frame H

abbrev pub is_empty : Bytes → Bool
is_empty [] = true
is_empty (_ ∷ _) = false

abbrev pub flag_of : Option CompressionEncoding → ℕ
flag_of none = 0
flag_of (some _) = 1

abbrev pub reserved_header : Bytes
reserved_header = 0 ∷ 0 ∷ 0 ∷ 0 ∷ 0 ∷ []

module _ (x : Crates) where
  open x use {Headers, http}

  abbrev pub send_limit : Option ℕ → ℕ
  send_limit max = unwrap_or max default_max_send_message_size

  -- On the bytes of one frame, with the header still to be written.
  unfoldable pub finish_encoding :
      Option CompressionEncoding → Option ℕ → Bytes → Result (Status Headers) Bytes
  finish_encoding compression_encoding max_message_size slice =
      let len = length slice - header_size in
      let limit = send_limit max_message_size in
      if ltb limit len
      then err (
          Status.new x Code.out_of_range (
            ascii "Error, encoded message length too large: found "
            ++ decimal len
            ++ ascii " bytes, the limit is: "
            ++ decimal limit
            ++ ascii " bytes"))
      else if ltb (u32_mod - 1) len
      then err (
          Status.new x Code.resource_exhausted (
            ascii "Cannot return body with more than 4GB of data but got "
            ++ decimal len
            ++ ascii " bytes"))
      else ok (flag_of compression_encoding ∷ (be_bytes (len % u32_mod) ++ drop header_size slice))

module _ (x : Crates) (display : Status x.Headers → Bytes) {T : Type 0}
    (n : Encoder x.Headers T) where
  open x use {Headers, http}

  abbrev pub Source : Type 0
  Source = EncodedBytes n.State Headers T

  abbrev pub encoding_error : Status Headers → Status Headers
  encoding_error e = Status.new x Code.internal (ascii "Error encoding: " ++ display e)

  -- The new encoder, the frame buffer behind the reserved header, the temporary buffer, and whether
  -- it went well.
  unfoldable pub encode_payload :
      Option CompressionEncoding
      → n.State
      → Bytes
      → Bytes
      → T
      → n.State × Bytes × Bytes × Result (Status Headers) (Unit {0})
  encode_payload none st buf unc item =
      let (st', out, result) = n.encode st item in
      (st', buf ++ out, unc, map_err encoding_error result)
  encode_payload (some e) st buf unc item =
      let (st', out, result) = n.encode st item in
      elim result [
        | err f ↦ (st', buf, out, err (encoding_error f))
        | ok _ ↦ elim (compress x e out buf) [
          | err t ↦
              (st', buf, out, err (Status.new x Code.internal (ascii "Error compressing: " ++ t)))
          | ok buf' ↦ (st', buf', out, ok tt)
        ]
      ]

  unfoldable pub encode_item : Source → T → Source × Result (Status Headers) (Unit {0})
  unfolding encode_payload finish_encoding
  encode_item s item =
      let offset = length s.buf in
      let (st', buf', unc', encoded) =
        encode_payload s.compression_encoding s.encoder (s.buf ++ reserved_header)
          s.uncompression_buf item in
      let s' = record s { encoder = st'; uncompression_buf = unc' } in
      elim encoded [
        | err e ↦ (record s' { buf = take offset buf' }, err e)
        | ok _ ↦
            elim (finish_encoding x s.compression_encoding s.max_message_size (drop offset buf')) [
              | err e ↦ (record s' { buf = take offset buf' }, err e)
              | ok slice ↦ (record s' { buf = take offset buf' ++ slice }, ok tt)
            ]
      ]

  -- `buf.split_to(buf.len())`
  abbrev pub flush : Source → Source × Poll (Option (Result (Status Headers) Bytes))
  flush s = (record s { buf = [] }, ready (some (ok s.buf)))

  -- The loop of `poll_next`, on the events of the source.
  unfoldable pub poll_source :
      List (SourceEvent Headers T) → Source → Source × Poll (Option (Result (Status Headers) Bytes))
  unfolding encode_item
  poll_source [] s =
      if is_empty s.buf
      then (record s { source = [] }, ready none)
      else flush (record s { source = [] })
  poll_source (not_ready ∷ es) s =
      if is_empty s.buf
      then (record s { source = es }, pending)
      else flush (record s { source = es })
  poll_source (broken e ∷ es) s =
      if is_empty s.buf
      then (record s { source = es }, ready (some (err e)))
      else flush (record s { source = es; error = some e })
  poll_source (message item ∷ es) s =
      let (s', encoded) = encode_item s item in
      elim encoded [
        | err e ↦ (record s' { source = es }, ready (some (err e)))
        | ok _ ↦ elim (leb n.yield_threshold (length s'.buf)) [
          | true ↦ flush (record s' { source = es })
          | false ↦ poll_source es (record s' { source = es })
        ]
      ]

  unfoldable pub poll_next : Source → Source × Poll (Option (Result (Status Headers) Bytes))
  unfolding poll_source
  poll_next s = elim s.error [
    | some status ↦ (record s { error = none }, ready (some (err status)))
    | none ↦ poll_source s.source s
  ]

  abbrev pub Body : Type 0
  Body = EncodeBody n.State Headers T

  abbrev pub new :
      Role → n.State → List (SourceEvent Headers T) → Option CompressionEncoding → Option ℕ → Body
  new role encoder source compression_encoding max_message_size = record {
    inner = record {
      source = source;
      encoder = encoder;
      compression_encoding = compression_encoding;
      max_message_size = max_message_size;
      buf = [];
      uncompression_buf = [];
      error = none;
    };
    state = record { error = none; role = role; is_end_stream = false };
  }

  abbrev unwrap_headers : Result (Status Headers) Headers → Headers
  unwrap_headers (ok h) = h
  unwrap_headers (err _) = http.empty

  abbrev trailers_of : Result (Status Headers) Headers → Result (Status Headers) (Frame Headers)
  trailers_of (ok h) = ok (trailers_out h)
  trailers_of (err e) = err e

  -- `EncodeState::trailers`
  unfoldable pub trailers :
      EncodeState Headers → EncodeState Headers × Option (Result (Status Headers) Headers)
  trailers st = elim st.role [
    | client ↦ (st, none)
    | server ↦ if st.is_end_stream then (st, none) else (
      record st { is_end_stream = true; error = none },
      some (to_header_map x (unwrap_or st.error (Status.new x Code.ok []))),
    )
  ]

  abbrev pub Polled : Type 0
  Polled = Poll (Option (Result (Status Headers) (Frame Headers)))

  -- What `poll_frame` makes of the answer of the inner stream.
  unfoldable pub frame_of :
      EncodeState Headers → Source × Poll (Option (Result (Status Headers) Bytes)) → Body × Polled
  unfolding trailers
  frame_of state (inner', polled) = elim polled [
    | pending ↦ (record { inner = inner'; state = state }, pending)
    | ready (some (ok bytes)) ↦
        (record { inner = inner'; state = state }, ready (some (ok (data_out bytes))))
    | ready (some (err status)) ↦ elim state.role [
      | client ↦ (record { inner = inner'; state = state }, ready (some (err status)))
      | server ↦ (
        record { inner = inner'; state = record state { is_end_stream = true } },
        ready (some (ok (trailers_out (unwrap_headers (to_header_map x status))))),
      )
    ]
    | ready none ↦
        let (state', t) = trailers state in
        (
          record { inner = inner'; state = state' },
          ready (elim t [ none ↦ none | some r ↦ some (trailers_of r) ]),
        )
  ]

  unfoldable pub poll_frame : Body → Body × Polled
  unfolding frame_of
  poll_frame b = frame_of b.state (poll_next b.inner)
