-- ===== src/Codec/Decode/Failures.antt =====
-- Frames that a stream refuses, and bodies that fail (decode.rs).
use pure_grpc_rs.Base.{
  ℕ, ◌≤◌, ◌<◌, List, ◌∷◌, ◌++◌, Option, none, some, ◌≡◌, refl, ap, ◌∙◌, arith, ok, err, ready,
  length, take, drop,
}
use pure_grpc_rs.Base.Words.{Bytes, u32_mod}
use pure_grpc_rs.Base.Text.{ascii, decimal}
use pure_grpc_rs.Code.{Code}
use pure_grpc_rs.Codec.{Decoder}
use pure_grpc_rs.Codec.Decode.Deliver.{fits}
use pure_grpc_rs.Codec.Decode.{read_body, inner_decode_chunk, take_body, run_decoder, put_back}
use pure_grpc_rs.Codec.Decode.{
  BodyEvent, failed, read_header, error, response, decode_header, after_header, inner_decode_chunk,
  poll_frame, Stream, answer, decode_chunk, ask_body, try_decode, take_error, round, poll_next,
  recv_limit, read_flag,
}
use pure_grpc_rs.Codec.Decode.Total.{poll_next-answer}
use pure_grpc_rs.Codec.Decode.Deliver.{frame, data_of, Reads, split_off}
use pure_grpc_rs.Codec.Decode.Header.{arrive_header}
use pure_grpc_rs.Codec.Decode.Message.{Arrives, IsReading, round-ask}
use pure_grpc_rs.Crates.{Crates}
use pure_grpc_rs.Status
use pure_grpc_rs.Status.{Status}

module _ (x : Crates) {T : Type 0} (d : Decoder x.Headers T) where
  open x use {Headers}

  -- What the stream reads next, after it has refused the flag of a header.
  abbrev pub past_flag : Stream x d → Bytes → Stream x d
  past_flag s bytes = record s { inner = record (s.inner) { buf = bytes } }

  refused_chunk :
      (s : Stream x d) (bytes : Bytes) (e : Status Headers)
      → s.inner.state ≡ read_header
      → decode_header x s.inner s.inner.buf ≡ (record (s.inner) { buf = bytes }, err e)
      → decode_chunk x d s ≡ (past_flag s bytes, err e)
  unfolding decode_chunk inner_decode_chunk after_header
  refused_chunk s bytes e st h = ground (arith, st, h)

  refused_round :
      (s : Stream x d) (bytes : Bytes) (e : Status Headers)
      → s.inner.state ≡ read_header
      → decode_header x s.inner s.inner.buf ≡ (record (s.inner) { buf = bytes }, err e)
      → round x d s ≡ answer (past_flag s bytes) (ready (some (err e)))
  unfolding round try_decode
  refused_round s bytes e st h = ground (arith, st, refused_chunk s bytes e st h)

  refused_flag :
      (s : Stream x d) (flag a b c g : ℕ) (rest : Bytes) (e : Status Headers)
      → s.inner.buf ≡ flag ∷ a ∷ b ∷ c ∷ g ∷ rest
      → read_flag x s.inner.encoding flag ≡ err e
      → decode_header x s.inner s.inner.buf
        ≡ (record (s.inner) { buf = a ∷ b ∷ c ∷ g ∷ rest }, err e)
  unfolding decode_header
  refused_flag s flag a b c g rest e q f = ground (arith, q, f)

  bad_flag :
      (flag : ℕ) (s : Stream x d)
      → 2 ≤ flag
      → (e : Status Headers) × (read_flag x s.inner.encoding flag ≡ err e)
        × (e.code ≡ Code.internal)
  unfolding read_flag
  bad_flag flag s h = (
    Status.new x Code.internal
        (ascii "invalid compression flag: " ++ decimal flag ++ ascii " (valid: 0 or 1)"),
    ground (arith, h),
    refl,
  )

  -- A header with a flag other than 0 and 1, whole in the buffer, gives an error with the code
  -- Internal; just the flag is consumed, and the stream expects a header in the bytes behind it.
  pub poll_next-bad_flag :
      (s : Stream x d) (flag a b c g : ℕ) (rest : Bytes)
      → s.inner.state ≡ read_header
      → s.inner.buf ≡ flag ∷ a ∷ b ∷ c ∷ g ∷ rest
      → 2 ≤ flag
      → (e : Status Headers) × (poll_next x d s
          ≡ some (past_flag s (a ∷ b ∷ c ∷ g ∷ rest), ready (some (err e))))
        × (e.code ≡ Code.internal)
  poll_next-bad_flag s flag a b c g rest st q h =
      let (e, f, k) = bad_flag flag s h in
      (
        e,
        poll_next-answer x d s _ _
            (refused_round s (a ∷ b ∷ c ∷ g ∷ rest) e st (refused_flag s flag a b c g rest e q f)),
        k,
      )

  -- A stream whose bytes are a flag other than 0 and 1 and then the frame of a message within the
  -- limit, with at least five of them in the buffer, gives an error for the flag, and is then not
  -- at its end: polled again, it gives the message.
  pub bad_flag_resumes :
      (s : Stream x d) (flag : ℕ) (payload rest : Bytes) (m : T) (st' : d.State)
      → s.inner.state ≡ read_header
      → s.inner.buf ++ data_of s.inner.body ≡ (flag ∷ frame 0 payload) ++ rest
      → 5 ≤ length s.inner.buf
      → 2 ≤ flag
      → length payload < u32_mod
      → length payload ≤ recv_limit x s.inner
      → Reads x d s.decoder payload m st'
      → (s' : Stream x d) × (e : Status Headers) × (poll_next x d s
          ≡ some (s', ready (some (err e))))
        × Arrives x d s' m st' rest
  bad_flag_resumes s flag payload rest m st' st bytes long h w l r =
      let (more, q, t) =
        split_off (flag ∷ take 4 (frame 0 payload)) (drop 4 (frame 0 payload) ++ rest) s.inner.buf
          (data_of s.inner.body) bytes (omega arith) in
      let (e, p, k) = poll_next-bad_flag s flag _ _ _ _ more st q h in
      let s' : Stream x d = past_flag s (take 4 (frame 0 payload) ++ more) in
      (
        s',
        e,
        p,
        arrive_header x d 0 payload payload rest _ _ none refl w s'.inner.body s' (record {
          body = refl;
          state = st;
          bytes = ap (λ v. take 4 (frame 0 payload) ++ v) t;
          flagged = unfold read_flag in refl;
          small = l;
          reads = r;
        }),
      )

  abbrev state_after : Stream x d → List (BodyEvent Headers) → Option (Status Headers) → Stream x d
  state_after s es o = record s { inner = record (s.inner) { body = es; state = error o } }

  ask_body-failed_body :
      (s : Stream x d) (e : Status Headers) (es : List (BodyEvent Headers)) (code : ℕ)
      → s.inner.body ≡ failed e ∷ es
      → s.inner.direction ≡ response code
      → ask_body x d s ≡ answer (state_after s es (some e)) (ready (some (err e)))
  unfolding ask_body poll_frame
  ask_body-failed_body s e es code b r = ground (arith, b, r)

  error_round :
      (s : Stream x d) (o : Option (Status Headers))
      → s.inner.state ≡ error o
      → round x d s
        ≡ answer
            (record s { inner = record (s.inner) { state = error none } })
            (ready (take_error x d o))
  unfolding round
  error_round s o e = ground (arith, e)

  -- When the body of a response fails where nothing is left to decode, the error is given twice,
  -- and then the stream is at its end.
  pub poll_next-failed_body :
      (s : Stream x d) (e : Status Headers) (es : List (BodyEvent Headers)) (code : ℕ)
      → IsReading x d s.inner.state
      → decode_chunk x d s ≡ (s, ok none)
      → s.inner.body ≡ failed e ∷ es
      → s.inner.direction ≡ response code
      → (s1 s2 : Stream x d) × (poll_next x d s ≡ some (s1, ready (some (err e))))
        × (poll_next x d s1 ≡ some (s2, ready (some (err e))))
        × (poll_next x d s2 ≡ some (s2, ready none))
  unfolding take_error
  poll_next-failed_body s e es code r c b dr =
      let s1 : Stream x d = state_after s es (some e) in
      let s2 : Stream x d = state_after s es none in
      (
        s1,
        s2,
        poll_next-answer x d s s1 _ (round-ask x d s r c ∙ ask_body-failed_body s e es code b dr),
        poll_next-answer x d s1 s2 _ (error_round s1 (some e) refl),
        poll_next-answer x d s2 s2 _ (error_round s2 none refl),
      )

  -- A decoder that fails on a whole message and consumes nothing leaves the stream as it was.
  pub poll_next-stuck :
      (s : Stream x d) (payload rest : Bytes) (e : Status Headers)
      → s.inner.state ≡ read_body none (length payload)
      → s.inner.buf ≡ payload ++ rest
      → d.decode s.decoder (record { buf = payload ++ rest; len = length payload })
        ≡ (s.decoder, record { buf = payload ++ rest; len = length payload }, err e)
      → poll_next x d s ≡ some (s, ready (some (err e)))
  unfolding round try_decode decode_chunk inner_decode_chunk take_body run_decoder put_back
  poll_next-stuck s payload rest e st b u =
      poll_next-answer x d s s _ (ground (arith, st, b, u, fits x d s.inner.buf payload rest b))
