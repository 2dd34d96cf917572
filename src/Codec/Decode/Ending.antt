-- ===== src/Codec/Decode/Ending.antt =====
-- The end of a body, and the whole of a response: its messages, and then the outcome (decode.rs).
use pure_grpc_rs.Base.{
  ℕ, List, [], ◌∷◌, ◌++◌, Option, none, some, ◌≡◌, refl, sym, ap, ◌∙◌, arith, Result, ok, err,
  pending, ready, length, append_assoc, append-nil, length-append, unwrap_or,
}
use pure_grpc_rs.Base.Words.{Bytes}
use pure_grpc_rs.Codec.{Decoder, default_max_recv_message_size}
use pure_grpc_rs.Codec.Decode.Deliver.{data_of, after_data, Yields, Between, read_on}
use pure_grpc_rs.Codec.Decode.Message.{
  round-ask, ask_body-waiting, ask_body-data_frame, decode_chunk-short_header,
}
use pure_grpc_rs.Codec.Decode.Stream.{Frames, delivered_all}
use pure_grpc_rs.Codec.Decode.Total.{poll_next-answer, poll_next-again}
use pure_grpc_rs.Codec.Decode.{
  BodyEvent, waiting, data_frame, trailers_frame, read_header, error, request, response, new,
  Stream, answer, again, ask_body, take_error, round, poll_next,
}
use pure_grpc_rs.Compression.{CompressionEncoding}
use pure_grpc_rs.Crates.{Crates}
use pure_grpc_rs.Status.{Status, infer_grpc_status}

module _ (x : Crates) {T : Type 0} (d : Decoder x.Headers T) where
  open x use {Headers}

  -- Polled again and again with nothing left to decode, a stream comes to its end: well, or with
  -- an error. Then it has trailers, or none.
  pub data Ends : Stream x d → Option (Status Headers) → Option Headers → Type 0 where
    finished :
        {s s' : Stream x d} {h : Option Headers}
        → poll_next x d s ≡ some (s', ready none)
        → s'.inner.trailers ≡ h
        → Ends s none h
    failed_with :
        {s s' : Stream x d} {e : Status Headers} {h : Option Headers}
        → poll_next x d s ≡ some (s', ready (some (err e)))
        → s'.inner.trailers ≡ h
        → Ends s (some e) h
    wait_on :
        {s s' : Stream x d} {o : Option (Status Headers)} {h : Option Headers}
        → poll_next x d s ≡ some (s', pending)
        → Ends s' o h
        → Ends s o h

  Ends-poll :
      {s t : Stream x d} {o : Option (Status Headers)} {h : Option Headers}
      → poll_next x d s ≡ poll_next x d t
      → Ends t o h
      → Ends s o h
  Ends-poll e (finished p q) = finished (e ∙ p) q
  Ends-poll e (failed_with p q) = failed_with (e ∙ p) q
  Ends-poll e (wait_on p q) = wait_on (e ∙ p) q

  abbrev pub outcome : Result (Option (Status Headers)) (Unit {0}) → Option (Status Headers)
  outcome (ok _) = none
  outcome (err o) = o

  -- The trailers that a response has at its end: an error takes them.
  abbrev pub left_over : Option (Status Headers) → Headers → Option Headers
  left_over none h = some h
  left_over (some _) h = none

  end_round :
      (s : Stream x d) (o : Option (Status Headers))
      → s.inner.state ≡ error o
      → (s' : Stream x d) × (round x d s ≡ answer s' (ready (take_error x d o)))
        × (s'.inner.trailers ≡ s.inner.trailers)
  unfolding round
  end_round s o e =
      (record s { inner = record (s.inner) { state = error none } }, ground arith, refl)

  abbrev with_trailers : Stream x d → Headers → List (BodyEvent Headers) → Stream x d
  with_trailers s h es = record s { inner = record (s.inner) { body = es; trailers = some h } }

  abbrev with_error : Stream x d → Status Headers → List (BodyEvent Headers) → Stream x d
  with_error s f es = record s {
    inner = record (s.inner) { body = es; state = error (some f); trailers = none };
  }

  module _ (s : Stream x d) (h : Headers) (es : List (BodyEvent Headers)) (code : ℕ)
      (body : s.inner.body ≡ trailers_frame h ∷ es) (trailers : s.inner.trailers ≡ none)
      (direction : s.inner.direction ≡ response code) where
    ask_body-well :
        (r : Result (Option (Status Headers)) (Unit {0}))
        → infer_grpc_status x (some h) code ≡ r
        → outcome r ≡ none
        → ask_body x d s ≡ answer (with_trailers s h es) (ready none)
    unfolding ask_body
    ask_body-well (ok _) e n = ground arith
    ask_body-well (err none) e n = ground arith
    ask_body-well (err (some f)) e n = ground arith

    ask_body-failed :
        (f : Status Headers)
        → infer_grpc_status x (some h) code ≡ err (some f)
        → ask_body x d s ≡ again (with_error s f es)
    unfolding ask_body
    ask_body-failed f e = ground arith

    trailers_end :
        (r : Result (Option (Status Headers)) (Unit {0}))
        → infer_grpc_status x (some h) code ≡ r
        → round x d s ≡ ask_body x d s
        → Ends s (outcome r) (left_over (outcome r) h)
    unfolding take_error
    trailers_end (ok u) e a =
        finished (poll_next-answer x d s _ _ (a ∙ ask_body-well (ok u) e refl)) refl
    trailers_end (err none) e a =
        finished (poll_next-answer x d s _ _ (a ∙ ask_body-well (err none) e refl)) refl
    trailers_end (err (some f)) e a =
        let t : Stream x d = with_error s f es in
        let (t', r, q) = end_round t (some f) refl in
        Ends-poll (poll_next-again x d s t (a ∙ ask_body-failed f e) (ap length body))
          (failed_with (poll_next-answer x d t t' _ r) q)

  ask_empty :
      (s : Stream x d) (rest : Bytes)
      → s.inner.state ≡ read_header
      → s.inner.buf ++ rest ≡ []
      → round x d s ≡ ask_body x d s
  ask_empty s rest st bytes = round-ask x d s (rw st tt) (
      decode_chunk-short_header x d s st
        (omega (arith, ap length bytes, length-append s.inner.buf rest)))

  -- A stream that has reached the event behind its data, with nothing left to decode.
  record AtTail (s t : Stream x d) (tail : List (BodyEvent Headers)) : Type 0 where
    pub body : t.inner.body ≡ tail
    pub state : t.inner.state ≡ read_header
    pub buf : t.inner.buf ≡ []
    pub trailers : t.inner.trailers ≡ s.inner.trailers
    pub direction : t.inner.direction ≡ s.inner.direction

  -- Waiting and empty data frames before that event change nothing.
  skip_to_tail :
      (es : List (BodyEvent Headers)) (s : Stream x d) (o : Option (Status Headers))
      (h : Option Headers)
      → s.inner.body ≡ es
      → s.inner.state ≡ read_header
      → s.inner.buf ++ data_of es ≡ []
      → ((t : Stream x d) → AtTail s t (after_data es) → Ends t o h)
      → Ends s o h
  skip_to_tail (waiting ∷ es) s o h b st bytes k =
      wait_on
        (poll_next-answer x d s _ _
          (ask_empty s (data_of es) st bytes ∙ ask_body-waiting x d s es b))
        (skip_to_tail es (read_on x d s es s.inner.buf) o h refl st bytes (λ t a. k t (record {
          body = a.body;
          state = a.state;
          buf = a.buf;
          trailers = a.trailers;
          direction = a.direction;
        })))
  skip_to_tail (data_frame e ∷ es) s o h b st bytes k =
      Ends-poll
        (poll_next-again x d s _
          (ask_empty s (e ++ data_of es) st bytes ∙ ask_body-data_frame x d s e es b) (ap length b))
        (skip_to_tail es (read_on x d s es (s.inner.buf ++ e)) o h refl st
          (append_assoc s.inner.buf e (data_of es) ∙ bytes)
          (λ t a. k t (record {
            body = a.body;
            state = a.state;
            buf = a.buf;
            trailers = a.trailers;
            direction = a.direction;
          })))
  skip_to_tail _ s o h b st bytes k = k s (record {
    body = b;
    state = st;
    buf = sym (append-nil s.inner.buf) ∙ bytes;
    trailers = refl;
    direction = refl;
  })

  -- With no message left, the trailers of a response decide how it ends.
  pub response_end :
      (s : Stream x d) (st : d.State) (h : Headers) (more : List (BodyEvent Headers)) (code : ℕ)
      → Between x d s st []
      → after_data s.inner.body ≡ trailers_frame h ∷ more
      → s.inner.trailers ≡ none
      → s.inner.direction ≡ response code
      → Ends s
          (outcome (infer_grpc_status x (some h) code))
          (left_over (outcome (infer_grpc_status x (some h) code)) h)
  response_end s st h more code b t n dr =
      skip_to_tail s.inner.body s _ _ refl b.state b.bytes λ u a.
        trailers_end u h more code (a.body ∙ t) (a.trailers ∙ n) (a.direction ∙ dr) _ refl
          (ask_empty u [] a.state (ap (λ w. w ++ []) a.buf))

  ask_body-end :
      (s : Stream x d)
      → s.inner.body ≡ []
      → s.inner.buf ≡ []
      → s.inner.direction ≡ request
      → ask_body x d s ≡ answer s (ready none)
  unfolding ask_body
  ask_body-end s b e dr = ground arith

  -- A request ends well with its body.
  pub request_end :
      (s : Stream x d) (st : d.State)
      → Between x d s st []
      → after_data s.inner.body ≡ []
      → s.inner.trailers ≡ none
      → s.inner.direction ≡ request
      → Ends s none none
  request_end s st b t n dr = skip_to_tail s.inner.body s none none refl b.state b.bytes λ u a.
      finished
        (poll_next-answer x d u _ _ (
          ask_empty u [] a.state (ap (λ w. w ++ []) a.buf)
          ∙ ask_body-end u (a.body ∙ t) a.buf (a.direction ∙ dr)))
        (a.trailers ∙ n)

  -- A client that reads a response of HTTP status `code` gets the messages whose frames the data
  -- frames of the body carry, in order, however the bytes are cut and wherever the body waits, if
  -- the frames are within the limit, their flags are accepted and the decoder reads the messages
  -- from their payloads. Then it gets the outcome that the trailers say: the end, or the error
  -- that `infer_grpc_status` infers.
  pub response_received :
      {st st' : d.State} {ms : List T} (body : List (BodyEvent Headers)) (h : Headers)
      (more : List (BodyEvent Headers)) (code : ℕ) (encoding : Option CompressionEncoding)
      (max : Option ℕ)
      → Frames x d (unwrap_or max default_max_recv_message_size) encoding st ms st' (data_of body)
      → after_data body ≡ trailers_frame h ∷ more
      → (last : Stream x d) × Yields x d (new x d st body (response code) encoding max) ms last
        × Ends last
            (outcome (infer_grpc_status x (some h) code))
            (left_over (outcome (infer_grpc_status x (some h) code)) h)
  response_received {st} {st'} body h more code encoding max f t =
      let s : Stream x d = new x d st body (response code) encoding max in
      let r =
        delivered_all x d s [] f refl refl
          (record { decoder = refl; state = refl; bytes = sym (append-nil (data_of body)) }) in
      (
        r.last,
        r.yields,
        response_end r.last st' h more code r.between (r.same.tail ∙ t) r.same.trailers
            r.same.direction,
      )

  -- A server that reads a request gets the messages whose frames the data frames of the body
  -- carry, in order, however the bytes are cut and wherever the body waits, if the frames are
  -- within the limit, their flags are accepted, the decoder reads the messages from their payloads
  -- and nothing stands behind the data. Then it gets the end.
  pub request_received :
      {st st' : d.State} {ms : List T} (body : List (BodyEvent Headers))
      (encoding : Option CompressionEncoding) (max : Option ℕ)
      → Frames x d (unwrap_or max default_max_recv_message_size) encoding st ms st' (data_of body)
      → after_data body ≡ []
      → (last : Stream x d) × Yields x d (new x d st body request encoding max) ms last
        × Ends last none none
  request_received {st} {st'} body encoding max f t =
      let s : Stream x d = new x d st body request encoding max in
      let r =
        delivered_all x d s [] f refl refl
          (record { decoder = refl; state = refl; bytes = sym (append-nil (data_of body)) }) in
      (
        r.last,
        r.yields,
        request_end r.last st' r.between (r.same.tail ∙ t) r.same.trailers r.same.direction,
      )
