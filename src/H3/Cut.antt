-- ===== src/H3/Cut.antt =====
-- A body that fails on its way over HTTP/3: what the other side sees (h3_server.rs, h3_channel.rs).
use mathlib.Core.Path.{subst}
use pure_grpc_rs.Base.{
  ℕ, ◌≤◌, List, [], ◌∷◌, ◌++◌, Option, none, some, ◌≡◌, sym, ap, ◌∙◌, ok, unwrap_or, All, false,
  true, arith,
}
use pure_grpc_rs.Base.Text.{ascii}
use pure_grpc_rs.Codec.{Decoder, default_max_recv_message_size}
use pure_grpc_rs.Codec.Decode
use pure_grpc_rs.Codec.Decode.{
  BodyEvent, waiting, data_frame, trailers_frame, failed, request, response,
}
use pure_grpc_rs.Codec.Decode.Deliver.{Yields, data_of, after_data}
use pure_grpc_rs.Codec.Decode.Ending.{Ends, request_received, response_received, outcome, left_over}
use pure_grpc_rs.Codec.Decode.Stream.{Frames}
use pure_grpc_rs.Compression.{CompressionEncoding}
use pure_grpc_rs.Crates.{Crates}
use pure_grpc_rs.H3.{DataEvent, TrailersEvent, SendStream, new, send_h3_response, send_request_body}
use pure_grpc_rs.H3.Carried
use pure_grpc_rs.H3.Carried.{
  Accepts, by_trailers, send_h3_response-Closes, send_request_body-Closes, send_request_body-append,
}
use pure_grpc_rs.H3.Exchange.{Brings, carried}
use pure_grpc_rs.H3.Given.{Gives, poll_recv-Gives, events_given}
use pure_grpc_rs.Request.{HttpResponse}
use pure_grpc_rs.Status.Infer.{infer_grpc_status-to_header_map}
use pure_grpc_rs.Status.Wire.{SameStatus}
use pure_grpc_rs.Status.{Status, to_header_map, add_header, infer_grpc_status, is_ok}

module _ (x : Crates) (w : SendStream x.Headers) (a : Accepts w) (s : w.Send)
    (fresh : w.written s ≡ []) (unmarked : w.trailers s ≡ none) (ds : List DataEvent)
    (ts : List (TrailersEvent x.Headers)) where
  open x use {Headers}

  module _ {T : Type 0} (d : Decoder Headers T) (c : Option CompressionEncoding)
      (max_recv : Option ℕ) {dst dst' : d.State} {ms : List T} (frames : List (BodyEvent Headers))
      (readable : Frames x d
        (unwrap_or max_recv default_max_recv_message_size)
        c
        dst
        ms
        dst'
        (data_of frames))
      (f : Status Headers) (more : List (BodyEvent Headers))
      (cut : after_data frames ≡ failed f ∷ more) where
    written_headers :
        (f : Status Headers) (h : Headers)
        → to_header_map x f ≡ ok h
        → (add_header x f x.http.empty).0 ≡ h
    unfolding to_header_map
    written_headers f h e = ground (arith, e)

    -- If the body of a response over HTTP/3 fails behind the frames of some messages within the
    -- receive limit, with a status other than OK whose message is text and whose details are
    -- bytes, the sending half is fresh and its calls succeed, and the client's receiving half
    -- brings everything that was sent on a finished stream, then the client's `Streaming` gives
    -- these messages and ends with an error of the code, the message and the details of this
    -- status.
    pub response_cut :
        {E : Type 0} (r : HttpResponse Headers E (List (BodyEvent Headers)))
        → r.body ≡ frames
        → All (λ b. b ≤ 255) f.message
        → All (λ b. b ≤ 255) f.details
        → x.decode_utf8 f.message ≡ ok f.message
        → is_ok f.code ≡ false
        → Brings x w a s fresh unmarked ds ts (send_h3_response x w r s).0
        → (body : List (BodyEvent Headers)) × Gives x
            (ascii "h3 client")
            (new (record { incoming = ds; trailing = ts }))
            body
          × (last : Decode.Stream x d) × (f' : Status Headers) × Yields x d
              (Decode.new x d dst body (response r.status) c max_recv)
              ms
              last
          × Ends x d last (some f') none
          × SameStatus x f f'
    response_cut r same m b u k brings =
        let (h, f', written, status, inferred) =
          infer_grpc_status-to_header_map x f r.status m b u in
        let (s', q, closes) =
          send_h3_response-Closes x w a r s (ap after_data same ∙ cut) (Carried.by_error f more)
            unmarked in
        let (bytes, tail) =
          carried x w a s fresh unmarked ds ts (ascii "h3 client") _ _ (data_of frames) (some h)
            (ap (λ v. v.0) q) brings closes.finished
            (closes.written ∙ ap (λ v. v ++ data_of r.body) fresh ∙ ap data_of same)
            (closes.trailers ∙ ap some (written_headers f h written)) in
        let (last, y, end) =
          response_received x d (events_given x (ascii "h3 client") ds ts) h [] r.status c max_recv
            (subst
              (λ v. Frames x d (unwrap_or max_recv default_max_recv_message_size) c dst ms dst' v)
              (sym bytes) readable)
            tail in
        let out : outcome x d (infer_grpc_status x (some h) r.status) ≡ some f' =
          ground (arith, inferred, k) in
        (
          events_given x (ascii "h3 client") ds ts,
          poll_recv-Gives x (ascii "h3 client") ds ts,
          last,
          f',
          y,
          subst (λ o. Ends x d last o (left_over x d o h)) out end,
          status,
        )

  module _ {T : Type 0} (d : Decoder Headers T) (c : Option CompressionEncoding)
      (max_recv : Option ℕ) {dst dst' : d.State} {ms : List T} where
    -- Let the body of a request over HTTP/3 fail behind data frames that hold the frames of some
    -- messages within the receive limit, and let the sending half be fresh and its calls succeed.
    -- Then the client's task leaves the stream just as for the body that ends where this one
    -- fails, and finished. If the server's receiving half brings what was sent on a finished
    -- stream, then its `Streaming` gives these messages and ends without an error, like the stream
    -- of a request that is complete.
    pub request_cut :
        (ahead more : List (BodyEvent Headers)) (f : Status Headers)
        → after_data ahead ≡ []
        → Frames x d
            (unwrap_or max_recv default_max_recv_message_size)
            c
            dst
            ms
            dst'
            (data_of ahead)
        → Brings x w a s fresh unmarked ds ts (send_request_body x w (ahead ++ (failed f ∷ more)) s)
        → (send_request_body x w (ahead ++ (failed f ∷ more)) s ≡ send_request_body x w ahead s)
          × (w.is_finished (send_request_body x w (ahead ++ (failed f ∷ more)) s) ≡ true)
          × (body : List (BodyEvent Headers)) × Gives x
              (ascii "h3")
              (new (record { incoming = ds; trailing = ts }))
              body
          × (last : Decode.Stream x d) × Yields x d
              (Decode.new x d dst body request c max_recv)
              ms
              last
          × Ends x d last none none
    request_cut ahead more f tail readable brings =
        let same = send_request_body-append x w ahead more f s in
        let closes = send_request_body-Closes x w a ahead s tail unmarked in
        let (bytes, tail') =
          carried x w a s fresh unmarked ds ts (ascii "h3") _ _ (data_of ahead) none same brings
            closes.finished (closes.written ∙ ap (λ v. v ++ data_of ahead) fresh) closes.trailers in
        let (last, y, end) =
          request_received x d (events_given x (ascii "h3") ds ts) c max_recv
            (subst
              (λ v. Frames x d (unwrap_or max_recv default_max_recv_message_size) c dst ms dst' v)
              (sym bytes) readable)
            tail' in
        (
          same,
          ap w.is_finished same ∙ closes.finished,
          events_given x (ascii "h3") ds ts,
          poll_recv-Gives x (ascii "h3") ds ts,
          last,
          y,
          end,
        )
