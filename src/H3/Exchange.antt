-- ===== src/H3/Exchange.antt =====
-- Both ends of a stream of messages over HTTP/3: the bodies of encode.rs, sent and received by
-- h3_server.rs and h3_channel.rs, and read by decode.rs.

use pure_grpc_rs.Base.{
  ℕ, ◌≤◌, List, [], ◌++◌, Option, none, some, ◌≡◌, true, refl, ap, ◌∙◌, ok, unwrap_or,
}
use pure_grpc_rs.Base.Text.{ascii}
use pure_grpc_rs.Base.Words.{Bytes}
use pure_grpc_rs.Code.{Code}
use pure_grpc_rs.Codec.{Decoder, Encoder, default_max_recv_message_size}
use pure_grpc_rs.Codec.Decode
use pure_grpc_rs.Codec.Decode.{
  BodyEvent, waiting, data_frame, trailers_frame, failed, request, response,
}
use pure_grpc_rs.Codec.Decode.Deliver.{Yields, data_of, after_data}
use pure_grpc_rs.Codec.Decode.Ending.{Ends}
use pure_grpc_rs.Codec.Encode
use pure_grpc_rs.Codec.Encode.{
  SourceEvent, Body, data_out, trailers_out, client, server, send_limit, poll_frame,
}
use pure_grpc_rs.Codec.Encode.Emit.{emit}
use pure_grpc_rs.Codec.Encode.Finish.{finish_client, finish_server}
use pure_grpc_rs.Codec.Encode.Sent.{Emits, Sends}
use pure_grpc_rs.Codec.Encode.Unique.{emitted}
use pure_grpc_rs.Compression.{CompressionEncoding}
use pure_grpc_rs.Crates.{Crates}
use pure_grpc_rs.Exchange
use pure_grpc_rs.Exchange.{IsCodec}
use pure_grpc_rs.H3.{DataEvent, TrailersEvent, SendStream, new, send_h3_response, send_request_body}
use pure_grpc_rs.H3.Carried.{
  Accepts, by_trailers, send_h3_response-Closes, send_request_body-Closes,
}
use pure_grpc_rs.H3.Given.{
  Gives, poll_recv-Gives, bytes_in, trailers_in, events_given_intact, events_given, tail_of,
}
use pure_grpc_rs.Request.{HttpResponse}
use pure_grpc_rs.Status
use pure_grpc_rs.Status.{Status, to_header_map, add_header, infer_grpc_status, is_ok}

module _ (x : Crates) (w : SendStream x.Headers) (a : Accepts w) (s : w.Send)
    (fresh : w.written s ≡ []) (unmarked : w.trailers s ≡ none) (ds : List DataEvent)
    (ts : List (TrailersEvent x.Headers)) where
  open x use {Headers}

  -- If the sender has finished the stream, then what arrives is what was sent, and its end; of a
  -- stream that is not finished nothing is known.
  abbrev pub Brings : w.Send → Type 0
  Brings s' =
      w.is_finished s' ≡ true
      → (bytes_in ds ≡ some (w.written s')) × (trailers_in ts ≡ some (w.trailers s'))

  pub carried :
      (side : Bytes) (s1 s2 : w.Send) (wire : Bytes) (t : Option Headers)
      → s1 ≡ s2
      → Brings s1
      → w.is_finished s2 ≡ true
      → w.written s2 ≡ wire
      → w.trailers s2 ≡ t
      → (data_of (events_given x side ds ts) ≡ wire)
        × (after_data (events_given x side ds ts) ≡ tail_of t)
  carried side s1 s2 wire t q brings f p m =
      let (b, e) = brings (ap w.is_finished q ∙ f) in
      events_given_intact x side ds ts wire t (b ∙ ap (λ v. some (w.written v)) q ∙ ap some p)
        (e ∙ ap (λ v. some (w.trailers v)) q ∙ ap some m)

  module _ (display : Status Headers → Bytes) {T : Type 0} (n : Encoder Headers T)
      (d : Decoder Headers T) (codec : IsCodec x n d) (c : Option CompressionEncoding)
      (max_send max_recv : Option ℕ)
      (limits : send_limit x max_send ≤ unwrap_or max_recv default_max_recv_message_size)
      {st st' : n.State} {dst : d.State} (agree : codec.Agree st dst) {ms : List T} {wire : Bytes}
      {es : List (SourceEvent Headers T)}
      (sent : Sends x display n c max_send [] st es ms st' wire) where
    -- Let a server's encoding body send its messages over HTTP/3, with an encoder and a decoder
    -- that fit together and a receive limit that covers the send limit. If the sending half is
    -- fresh and its calls succeed, the client's receiving half brings just the bytes and the
    -- trailers that were sent on a finished stream, the status OK is written as some headers, and
    -- the empty text is text, with the bytes in pieces of any size and waits between them, then
    -- `send_h3_response` succeeds, and over the frames that the client's body gives, `Streaming`
    -- gives the messages in order and then ends, with the headers of the status OK as its
    -- trailers.
    pub response_streamed :
        {E : Type 0} (h : Headers) (r : HttpResponse Headers E (List (BodyEvent Headers)))
        → to_header_map x (Status.new x Code.ok []) ≡ ok h
        → x.decode_utf8 [] ≡ ok []
        → Emits x display n (Encode.new x display n server st es c max_send) r.body
        → Brings (send_h3_response x w r s).0
        → ((send_h3_response x w r s).1 ≡ ok tt)
          × (body : List (BodyEvent Headers)) × Gives x
              (ascii "h3 client")
              (new (record { incoming = ds; trailing = ts }))
              body
          × (last : Decode.Stream x d) × Yields x d
              (Decode.new x d dst body (response r.status) c max_recv)
              ms
              last
          × Ends x d last none (some h)
    response_streamed h r e u emits brings =
        let at_server =
          emit x display n server c max_send [] [] sent
            (finish_server x display n c max_send h e st') in
        let (bytes, tail) = emitted x display n at_server emits in
        let (s', q, closes) = send_h3_response-Closes x w a r s tail (by_trailers h) unmarked in
        let (bytes', tail') =
          carried (ascii "h3 client") _ _ wire (some h) (ap (λ v. v.0) q) brings closes.finished
            (closes.written ∙ ap (λ v. v ++ data_of r.body) fresh ∙ bytes) closes.trailers in
        let (out, last, y, end) =
          Exchange.server_to_client x display n d codec c max_send max_recv limits agree
            (events_given x (ascii "h3 client") ds ts) bytes' h tail' r.status sent e u in
        (
          ap (λ v. v.1) q,
          events_given x (ascii "h3 client") ds ts,
          poll_recv-Gives x (ascii "h3 client") ds ts,
          last,
          y,
          end,
        )

    -- Let a client's encoding body send its messages over HTTP/3, with an encoder and a decoder
    -- that fit together and a receive limit that covers the send limit. If the sending half is
    -- fresh and its calls succeed, and the server's receiving half brings just the bytes that were
    -- sent on a finished stream, and no trailers, in pieces of any size and with waits between
    -- them, then over the frames that the server's body gives, `Streaming` gives the messages in
    -- order and then ends without an error.
    pub request_streamed :
        (frames : List (BodyEvent Headers))
        → Emits x display n (Encode.new x display n client st es c max_send) frames
        → Brings (send_request_body x w frames s)
        → (body : List (BodyEvent Headers)) × Gives x
            (ascii "h3")
            (new (record { incoming = ds; trailing = ts }))
            body
          × (last : Decode.Stream x d) × Yields x d
              (Decode.new x d dst body request c max_recv)
              ms
              last
          × Ends x d last none none
    request_streamed frames emits brings =
        let at_client =
          emit x display n client c max_send [] [] sent
            (finish_client x display n c max_send st') in
        let (bytes, tail) = emitted x display n at_client emits in
        let closes = send_request_body-Closes x w a frames s tail unmarked in
        let (bytes', tail') =
          carried (ascii "h3") _ _ wire none refl brings closes.finished
            (closes.written ∙ ap (λ v. v ++ data_of frames) fresh ∙ bytes) closes.trailers in
        let (out, last, y, end) =
          Exchange.client_to_server x display n d codec c max_send max_recv limits agree
            (events_given x (ascii "h3") ds ts) bytes' sent tail' in
        (events_given x (ascii "h3") ds ts, poll_recv-Gives x (ascii "h3") ds ts, last, y, end)
