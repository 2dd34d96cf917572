-- ===== src/H3/Carried.antt =====
-- What a body leaves on the sending half of a stream (h3_server.rs, h3_channel.rs).
use pure_grpc_rs.Base.{
  ℕ, true, List, [], ◌∷◌, ◌++◌, Option, none, some, ◌≡◌, refl, sym, ap, ◌∙◌, arith, ok,
  append_assoc, append-nil,
}
use pure_grpc_rs.Base.Words.{Bytes}
use pure_grpc_rs.Codec.Decode.{
  BodyEvent, waiting, data_frame, trailers_frame, unknown_frame, failed,
}
use pure_grpc_rs.Codec.Decode.Deliver.{data_of, after_data}
use pure_grpc_rs.Crates.{Crates}
use pure_grpc_rs.H3.{
  SendStream, send_found, send_frames, send_h3_response, send_request_frames, send_request_body,
}
use pure_grpc_rs.Request.{HttpResponse}
use pure_grpc_rs.Status.{Status, add_header}

-- A stream on which every call succeeds.
pub record Accepts {H : Type 0} (w : SendStream H) : Type 0 where
  pub response : (status : ℕ) (h : H) (s : w.Send) → (w.send_response status h s).1 ≡ ok tt
  pub data_sent : (b : Bytes) (s : w.Send) → (w.send_data b s).1 ≡ ok tt
  pub trailers_sent : (h : H) (s : w.Send) → (w.send_trailers h s).1 ≡ ok tt
  pub finished : (s : w.Send) → (w.finish s).1 ≡ ok tt

module _ (x : Crates) (w : SendStream x.Headers) (a : Accepts w) where
  open x use {Headers, http}
  open w use {Send}

  -- A state of the stream that has these bytes and trailers more than another.
  pub record Adds (s : Send) (bytes : Bytes) (s' : Send) : Type 0 where
    pub written : w.written s' ≡ w.written s ++ bytes
    pub trailers : w.trailers s' ≡ w.trailers s

  Adds-refl : (s : Send) → Adds s [] s
  Adds-refl s = record { written = sym (append-nil (w.written s)); trailers = refl }

  Adds-send_data :
      (b bytes : Bytes) (s s' : Send) → Adds (w.send_data b s).0 bytes s' → Adds s (b ++ bytes) s'
  Adds-send_data b bytes s s' m = record {
    written =
        m.written
        ∙ ap (λ v. v ++ bytes) (w.written-send_data b s (a.data_sent b s))
        ∙ append_assoc (w.written s) b bytes;
    trailers = m.trailers ∙ w.trailers-send_data b s;
  }

  -- The data ahead of the rest of a body is sent, and then the loop goes on with that rest.
  send_frames_ahead :
      (es : List (BodyEvent Headers)) (t : Option Headers) (s : Send)
      → (s' : Send) × (send_frames x w es t s ≡ send_frames x w (after_data es) t s')
        × Adds s (data_of es) s'
  unfolding send_frames
  send_frames_ahead (data_frame b ∷ es) t s =
      let (s', e, m) = send_frames_ahead es t (w.send_data b s).0 in
      (s', ground (arith, a.data_sent b s, e), Adds-send_data b (data_of es) s s' m)
  send_frames_ahead (waiting ∷ es) t s = send_frames_ahead es t s
  send_frames_ahead [] t s = (s, refl, Adds-refl s)
  send_frames_ahead (trailers_frame h ∷ es) t s = (s, refl, Adds-refl s)
  send_frames_ahead (unknown_frame ∷ es) t s = (s, refl, Adds-refl s)
  send_frames_ahead (failed f ∷ es) t s = (s, refl, Adds-refl s)

  send_request_frames_ahead :
      (es : List (BodyEvent Headers)) (s : Send)
      → (s' : Send) × (send_request_frames x w es s ≡ send_request_frames x w (after_data es) s')
        × Adds s (data_of es) s'
  unfolding send_request_frames
  send_request_frames_ahead (data_frame b ∷ es) s =
      let (s', e, m) = send_request_frames_ahead es (w.send_data b s).0 in
      (s', ground (arith, a.data_sent b s, e), Adds-send_data b (data_of es) s s' m)
  send_request_frames_ahead (waiting ∷ es) s = send_request_frames_ahead es s
  send_request_frames_ahead [] s = (s, refl, Adds-refl s)
  send_request_frames_ahead (trailers_frame h ∷ es) s = (s, refl, Adds-refl s)
  send_request_frames_ahead (unknown_frame ∷ es) s = (s, refl, Adds-refl s)
  send_request_frames_ahead (failed f ∷ es) s = (s, refl, Adds-refl s)

  -- What is on the stream in the end.
  pub record Closes (s : Send) (bytes : Bytes) (t : Option Headers) (s' : Send) : Type 0 where
    pub written : w.written s' ≡ w.written s ++ bytes
    pub trailers : w.trailers s' ≡ t
    pub finished : w.is_finished s' ≡ true

  -- A response whose body ends with trailers, with its end, or with an error.
  pub data Ends : List (BodyEvent Headers) → Option Headers → Type 0 where
    by_trailers : (h : Headers) → Ends (trailers_frame h ∷ []) (some h)
    by_end : Ends [] none
    by_error :
        (f : Status Headers) (es : List (BodyEvent Headers))
        → Ends (failed f ∷ es) (some (add_header x f http.empty).0)

  loop_end :
      {tail : List (BodyEvent Headers)} {t : Option Headers} (s : Send)
      → Ends tail t
      → send_frames x w tail none s ≡ (s, ok t)
  unfolding send_frames
  loop_end s (by_trailers h) = refl
  loop_end s by_end = refl
  loop_end s (by_error f es) = refl

  abbrev pub closed : Option Headers → Send → Send
  closed t s = (w.finish (send_found x w t s).0).0

  closed_lem : (t : Option Headers) (s : Send) → w.trailers s ≡ none → Closes s [] t (closed t s)
  closed_lem none s n = record {
    written = w.written-finish s ∙ sym (append-nil (w.written s));
    trailers = w.trailers-finish s ∙ n;
    finished = w.is_finished-finish s (a.finished s);
  }
  closed_lem (some h) s n = record {
    written = w.written-finish _ ∙ w.written-send_trailers h s ∙ sym (append-nil (w.written s));
    trailers = w.trailers-finish _ ∙ w.trailers-send_trailers h s (a.trailers_sent h s);
    finished = w.is_finished-finish _ (a.finished _);
  }

  send_h3_response-closed :
      {E : Type 0} (r : HttpResponse Headers E (List (BodyEvent Headers))) (t : Option Headers)
      (s s' : Send)
      → send_frames x w r.body none (w.send_response r.status r.headers s).0 ≡ (s', ok t)
      → send_h3_response x w r s ≡ (closed t s', ok tt)
  unfolding send_h3_response
  send_h3_response-closed r none s s' e =
      ground (arith, a.response r.status r.headers s, e, a.finished s')
  send_h3_response-closed r (some h) s s' e = ground (
    arith,
    a.response r.status r.headers s,
    e,
    a.trailers_sent h s',
    a.finished (w.send_trailers h s').0,
  )

  pub send_h3_response-Closes :
      {E : Type 0} {tail : List (BodyEvent Headers)} {t : Option Headers}
      (r : HttpResponse Headers E (List (BodyEvent Headers))) (s : Send)
      → after_data r.body ≡ tail
      → Ends tail t
      → w.trailers s ≡ none
      → (s' : Send) × (send_h3_response x w r s ≡ (s', ok tt)) × Closes s (data_of r.body) t s'
  send_h3_response-Closes {t = t} r s e end n =
      let s1 = (w.send_response r.status r.headers s).0 in
      let (s2, q, m) = send_frames_ahead r.body none s1 in
      let c = closed_lem t s2 (m.trailers ∙ w.trailers-send_response r.status r.headers s ∙ n) in
      (
        closed t s2,
        send_h3_response-closed r t s s2
            (q ∙ ap (λ es. send_frames x w es none s2) e ∙ loop_end s2 end),
        record {
          written =
              c.written
              ∙ append-nil (w.written s2)
              ∙ m.written
              ∙ ap (λ v. v ++ data_of r.body) (w.written-send_response r.status r.headers s);
          trailers = c.trailers;
          finished = c.finished;
        },
      )

  pub send_request_body-Closes :
      (body : List (BodyEvent Headers)) (s : Send)
      → after_data body ≡ []
      → w.trailers s ≡ none
      → Closes s (data_of body) none (send_request_body x w body s)
  unfolding send_request_body send_request_frames
  send_request_body-Closes body s e n =
      let (s', q, m) = send_request_frames_ahead body s in
      let c = closed_lem none s' (m.trailers ∙ n) in
      let p = ap (λ v. (w.finish v).0) (q ∙ ap (λ es. send_request_frames x w es s') e) in
      record {
        written = ap w.written p ∙ c.written ∙ append-nil (w.written s') ∙ m.written;
        trailers = ap w.trailers p ∙ c.trailers;
        finished = ap w.is_finished p ∙ c.finished;
      }

module _ (x : Crates) (w : SendStream x.Headers) where
  open x use {Headers}
  open w use {Send}

  send_request_frames-append :
      (ahead more : List (BodyEvent Headers)) (f : Status Headers) (s : Send)
      → send_request_frames x w (ahead ++ (failed f ∷ more)) s ≡ send_request_frames x w ahead s
  unfolding send_request_frames
  send_request_frames-append [] more f s = refl
  send_request_frames-append (waiting ∷ es) more f s = send_request_frames-append es more f s
  send_request_frames-append (data_frame b ∷ es) more f s =
      ground (arith, send_request_frames-append es more f (w.send_data b s).0)
  send_request_frames-append (trailers_frame h ∷ es) more f s = refl
  send_request_frames-append (unknown_frame ∷ es) more f s = send_request_frames-append es more f s
  send_request_frames-append (failed g ∷ es) more f s = refl

  -- A body that fails leaves the stream just as the body that ends there.
  pub send_request_body-append :
      (ahead more : List (BodyEvent Headers)) (f : Status Headers) (s : Send)
      → send_request_body x w (ahead ++ (failed f ∷ more)) s ≡ send_request_body x w ahead s
  unfolding send_request_body
  send_request_body-append ahead more f s =
      ap (λ v. (w.finish v).0) (send_request_frames-append ahead more f s)
