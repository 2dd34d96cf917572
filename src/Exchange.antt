-- ===== src/Exchange.antt =====
-- Both ends of a stream together: what `EncodeBody` sends (grpc-core/src/codec/encode.rs) is what
-- `Streaming` receives (grpc-core/src/codec/decode.rs), with the status of the trailers
-- (grpc-core/src/status.rs).
use mathlib.Core.Path.{subst}
use pure_grpc_rs.Base.{
  ℕ, ◌≤◌, true, false, List, [], ◌∷◌, Option, none, some, ◌≡◌, refl, sym, arith, All, ok, unwrap_or,
}
use pure_grpc_rs.Base.Words.{Bytes}
use pure_grpc_rs.Code.{Code}
use pure_grpc_rs.Codec.{Decoder, Encoder, default_max_recv_message_size}
use pure_grpc_rs.Codec.Decode
use pure_grpc_rs.Codec.Decode.{BodyEvent, trailers_frame, request, response, read_flag}
use pure_grpc_rs.Codec.Decode.Deliver.{Reads, Unpacks, Yields, data_of, after_data}
use pure_grpc_rs.Codec.Decode.Ending.{Ends, outcome, left_over, response_received, request_received}
use pure_grpc_rs.Codec.Decode.Stream.{Frames, none_left, one_more}
use pure_grpc_rs.Codec.Encode
use pure_grpc_rs.Codec.Encode.{SourceEvent, broken, client, server, flag_of, send_limit}
use pure_grpc_rs.Codec.Encode.Emit.{emit}
use pure_grpc_rs.Codec.Encode.Finish.{finish_client, finish_server, break_server}
use pure_grpc_rs.Codec.Encode.Sent.{Sends, none_left as sent_all, idle, one_more as send_more, Sent}
use pure_grpc_rs.Codec.Encode.Items.{Packs}
use pure_grpc_rs.Compression.{CompressionEncoding}
use pure_grpc_rs.Compression.Negotiation.{decompress-compress}
use pure_grpc_rs.Crates.{Crates}
use pure_grpc_rs.Status
use pure_grpc_rs.Status.{Status, is_ok, to_header_map, infer_grpc_status}
use pure_grpc_rs.Status.Infer.{infer_grpc_status-to_header_map}
use pure_grpc_rs.Status.Wire.{SameStatus}

-- The two sides of a codec: as long as they agree, the decoder reads what the encoder wrote.
pub record IsCodec (x : Crates) {T : Type 0} (n : Encoder x.Headers T) (d : Decoder x.Headers T)
    : Type 1 where
  pub Agree : n.State → d.State → Type 0
  pub reads :
      {st st' : n.State} {ds : d.State} {m : T} {p : Bytes}
      → Agree st ds
      → n.encode st m ≡ (st', p, ok tt)
      → (ds' : d.State) × Reads x d ds p m ds' × Agree st' ds'

module _ (x : Crates) (display : Status x.Headers → Bytes) {T : Type 0} (n : Encoder x.Headers T)
    (d : Decoder x.Headers T) (codec : IsCodec x n d) where
  open x use {Headers}

  Packs-Unpacks :
      (c : Option CompressionEncoding) (p payload : Bytes)
      → Packs x c p payload
      → Unpacks x d c payload p
  Packs-Unpacks none p payload q = q
  Packs-Unpacks (some e) p payload q =
      let (wire, w, u) = decompress-compress x e p [] [] q in rw w u

  read_flag-flag_of : (c : Option CompressionEncoding) → read_flag x c (flag_of c) ≡ ok c
  unfolding read_flag
  read_flag-flag_of none = refl
  read_flag-flag_of (some e) = refl

  -- What goes out as frames comes in as frames.
  Sends-Frames :
      {c : Option CompressionEncoding} {max : Option ℕ} {rest es : List (SourceEvent Headers T)}
      {st st' : n.State} {ds : d.State} {ms : List T} {wire : Bytes} (limit : ℕ)
      → send_limit x max ≤ limit
      → Sends x display n c max rest st es ms st' wire
      → codec.Agree st ds
      → (ds' : d.State) × Frames x d limit c ds ms ds' wire
  Sends-Frames limit l sent_all a = (_, none_left refl)
  Sends-Frames limit l (idle s) a = Sends-Frames limit l s a
  Sends-Frames {c} limit l (send_more {wire = wire} p payload e q b w s) a =
      let (ds, r, a') = codec.reads a e in
      let (ds', f) = Sends-Frames limit l s a' in
      (
        ds',
        one_more (flag_of c) payload p c wire refl (read_flag-flag_of c)
            (Packs-Unpacks c p payload q) w (omega arith) r f,
      )

  -- What a client gets at the end, when the server's status is `f`.
  record Outcome (f : Status Headers) (o : Option (Status Headers)) : Type 0 where
    pub success : is_ok f.code ≡ true → o ≡ none
    pub failure : is_ok f.code ≡ false → (f' : Status Headers) × (o ≡ some f') × SameStatus x f f'

  trailers_outcome :
      (f : Status Headers) (h : Headers) (status : ℕ)
      → All (λ b. b ≤ 255) f.message
      → All (λ b. b ≤ 255) f.details
      → x.decode_utf8 f.message ≡ ok f.message
      → to_header_map x f ≡ ok h
      → Outcome f (outcome x d (infer_grpc_status x (some h) status))
  trailers_outcome f h status m b u e =
      let (h', f', e', s, i) = infer_grpc_status-to_header_map x f status m b u in
      let q : h' ≡ h = ground (arith, e, e') in
      record {
        success = λ t. ground (arith, q, i, t);
        failure = λ t. (f', ground (arith, q, i, t), s);
      }

  -- The settings of one direction of a call, and what the two sides must have in common: the
  -- encoding of the messages, and a limit of the receiver that the sender keeps.
  module _ (c : Option CompressionEncoding) (max_send max_recv : Option ℕ)
      (limits : send_limit x max_send ≤ unwrap_or max_recv default_max_recv_message_size)
      {st st' : n.State} {ds : d.State} (agree : codec.Agree st ds) {ms : List T} {wire : Bytes}
      (body : List (BodyEvent Headers)) (carried : data_of body ≡ wire) where
    carried_ahead :
        {es rest : List (SourceEvent Headers T)}
        → Sends x display n c max_send rest st es ms st' wire
        → (ds' : d.State) × Frames x d
            (unwrap_or max_recv default_max_recv_message_size)
            c
            ds
            ms
            ds'
            (data_of body)
    carried_ahead s =
        let (ds', f) = Sends-Frames _ limits s agree in
        (
          ds',
          subst (λ w. Frames x d (unwrap_or max_recv default_max_recv_message_size) c ds ms ds' w)
              (sym carried) f,
        )

    -- A client whose source gives messages that are encoded within the sender's limit, and then
    -- ends, sends data frames with the frames of the messages and no trailers. A server with the
    -- same encoding, a limit that covers the sender's and a decoder that reads what the encoder
    -- wrote gets just the messages, in order, and then the end, however the bytes are cut into
    -- data frames and wherever the body waits.
    pub client_to_server :
        {es : List (SourceEvent Headers T)}
        → Sends x display n c max_send [] st es ms st' wire
        → after_data body ≡ []
        → Sent x display n (Encode.new x display n client st es c max_send) wire []
          × (last : Decode.Stream x d) × Yields x d
              (Decode.new x d ds body request c max_recv)
              ms
              last
          × Ends x d last none none
    client_to_server s t =
        let (ds', f) = carried_ahead s in
        let (last, y, end) = request_received x d body c max_recv f t in
        (
          emit x display n client c max_send [] [] s (finish_client x display n c max_send st'),
          last,
          y,
          end,
        )

    module _ (h : Headers) (tail : after_data body ≡ trailers_frame h ∷ []) (status : ℕ) where
      -- Take a server whose source gives messages, waiting now and then, that the encoder encodes
      -- into payloads within the sender's limit, and ends; an encoding in common with the client;
      -- a sender's limit that the receiver's limit covers; a codec whose decoder reads what its
      -- encoder wrote. Then the server's body gives data frames whose bytes are the frames of the
      -- messages in order, and then the trailers of the status OK. A client that receives these
      -- bytes, however they are cut into data frames and wherever the body waits, and these
      -- trailers, gets just the messages, in order, and then the end, whatever the HTTP status of
      -- the response.
      pub server_to_client :
          {es : List (SourceEvent Headers T)}
          → Sends x display n c max_send [] st es ms st' wire
          → to_header_map x (Status.new x Code.ok []) ≡ ok h
          → x.decode_utf8 [] ≡ ok []
          → Sent x display n
              (Encode.new x display n server st es c max_send)
              wire
              (trailers_frame h ∷ [])
            × (last : Decode.Stream x d) × Yields x d
                (Decode.new x d ds body (response status) c max_recv)
                ms
                last
            × Ends x d last none (some h)
      server_to_client s e u =
          let (ds', f) = carried_ahead s in
          let (last, y, end) = response_received x d body h [] status c max_recv f tail in
          let o = trailers_outcome (Status.new x Code.ok []) h status tt tt u e in
          (
            emit x display n server c max_send [] [] s
                (finish_server x display n c max_send h e st'),
            last,
            y,
            subst (λ r. Ends x d last r (left_over x d r h)) (o.success refl) end,
          )

      -- If the server's source fails with a status other than OK, whose message is text and whose
      -- details are bytes, behind messages as in `server_to_client`, then the server's body gives
      -- the frames of these messages and then trailers, and a client that receives them gets the
      -- messages, in order, and then one error with the code, message and details of that status
      -- and the last value of each name of its metadata that is not reserved.
      pub server_to_client-failed :
          {es more : List (SourceEvent Headers T)} (f : Status Headers)
          → Sends x display n c max_send (broken f ∷ more) st es ms st' wire
          → to_header_map x f ≡ ok h
          → All (λ b. b ≤ 255) f.message
          → All (λ b. b ≤ 255) f.details
          → x.decode_utf8 f.message ≡ ok f.message
          → is_ok f.code ≡ false
          → Sent x display n
              (Encode.new x display n server st es c max_send)
              wire
              (trailers_frame h ∷ [])
            × (last : Decode.Stream x d) × (f' : Status Headers) × Yields x d
                (Decode.new x d ds body (response status) c max_recv)
                ms
                last
            × Ends x d last (some f') none
            × SameStatus x f f'
      server_to_client-failed {more = more} f s e m b u n' =
          let (ds', fs) = carried_ahead s in
          let (last, y, end) = response_received x d body h [] status c max_recv fs tail in
          let (f', o, same) = (trailers_outcome f h status m b u e).failure n' in
          (
            emit x display n server c max_send [] [] s
                (break_server x display n c max_send f h more e st'),
            last,
            f',
            y,
            subst (λ r. Ends x d last r (left_over x d r h)) o end,
            same,
          )
