-- ===== src/Codec/Encode/Finish.antt =====
-- The end of a body: its source ends or fails, with frames in the buffer or without (encode.rs).
use pure_grpc_rs.Base.{
  ℕ, true, false, List, [], ◌∷◌, Option, none, some, ◌≡◌, refl, arith, ok, err, ready, append-nil,
}
use pure_grpc_rs.Base.Words.{Bytes}
use pure_grpc_rs.Code.{Code}
use pure_grpc_rs.Codec.{Encoder}
use pure_grpc_rs.Codec.Decode.{data_frame, trailers_frame}
use pure_grpc_rs.Codec.Encode.{
  SourceEvent, broken, client, server, trailers_out, Source, poll_source, poll_next, trailers,
  poll_frame,
}
use pure_grpc_rs.Compression.{CompressionEncoding}
use pure_grpc_rs.Crates.{Crates}
use pure_grpc_rs.Status
use pure_grpc_rs.Status.{Status, to_header_map}
use pure_grpc_rs.Codec.Encode.Emit.{body_at}
use pure_grpc_rs.Codec.Encode.Sent.{ends, sends, concludes, Sent, Sent-flush, Sent-bytes}

module _ (x : Crates) (display : Status x.Headers → Bytes) {T : Type 0}
    (n : Encoder x.Headers T) where
  open x use {Headers}

  finish_client_empty :
      (c : Option CompressionEncoding) (max : Option ℕ) (st : n.State) (unc : Bytes)
      → Sent x display n (body_at x display n client c max st [] [] unc none) [] []
  unfolding poll_frame poll_next poll_source
  finish_client_empty c max st unc = record {
    events = [];
    emits = ends refl;
    carried = refl;
    ending = refl;
  }

  -- With no message left, the end of the source is flushed, and then ends the body.
  pub finish_client :
      (c : Option CompressionEncoding) (max : Option ℕ) (st : n.State) (buf unc : Bytes)
      → Sent x display n (body_at x display n client c max st [] buf unc none) buf []
  unfolding poll_frame poll_next poll_source
  finish_client c max st [] unc = finish_client_empty c max st unc
  finish_client c max st (b ∷ buf) unc =
      Sent-bytes x display n (append-nil (b ∷ buf))
        (Sent-flush x display n refl (finish_client_empty c max st unc))

  -- The server's last frame, at the end of the source and at an error.
  pub end_trailers :
      (i i' : Source x display n) (h : Headers)
      → poll_next x display n i ≡ (i', ready none)
      → to_header_map x (Status.new x Code.ok []) ≡ ok h
      → poll_frame x display n (record {
        inner = i;
        state = record { error = none; role = server; is_end_stream = false };
      })
        ≡ (
          record {
            inner = i';
            state = record { error = none; role = server; is_end_stream = true };
          },
          ready (some (ok (trailers_out h))),
        )
  unfolding poll_frame trailers
  end_trailers i i' h p e = ground (arith, p, e)

  pub error_trailers :
      (i i' : Source x display n) (f : Status Headers) (h : Headers)
      → poll_next x display n i ≡ (i', ready (some (err f)))
      → to_header_map x f ≡ ok h
      → poll_frame x display n (record {
        inner = i;
        state = record { error = none; role = server; is_end_stream = false };
      })
        ≡ (
          record {
            inner = i';
            state = record { error = none; role = server; is_end_stream = true };
          },
          ready (some (ok (trailers_out h))),
        )
  unfolding poll_frame
  error_trailers i i' f h p e = ground (arith, p, e)

  finish_server_empty :
      (c : Option CompressionEncoding) (max : Option ℕ) (h : Headers)
      → to_header_map x (Status.new x Code.ok []) ≡ ok h
      → (st : n.State) (unc : Bytes)
      → Sent x display n
          (body_at x display n server c max st [] [] unc none)
          []
          (trailers_frame h ∷ [])
  unfolding poll_next poll_source
  finish_server_empty c max h e st unc = record {
    events = trailers_frame h ∷ [];
    emits =
        concludes
          (end_trailers ((body_at x display n server c max st [] [] unc none).inner) _ h refl e);
    carried = refl;
    ending = refl;
  }

  pub finish_server :
      (c : Option CompressionEncoding) (max : Option ℕ) (h : Headers)
      → to_header_map x (Status.new x Code.ok []) ≡ ok h
      → (st : n.State) (buf unc : Bytes)
      → Sent x display n
          (body_at x display n server c max st [] buf unc none)
          buf
          (trailers_frame h ∷ [])
  unfolding poll_frame poll_next poll_source
  finish_server c max h e st [] unc = finish_server_empty c max h e st unc
  finish_server c max h e st (b ∷ buf) unc =
      Sent-bytes x display n (append-nil (b ∷ buf))
        (Sent-flush x display n refl (finish_server_empty c max h e st unc))

  -- An error of the source lets the frames before it go out, and then becomes the trailers.
  pub break_server :
      (c : Option CompressionEncoding) (max : Option ℕ) (f : Status Headers) (h : Headers)
      (more : List (SourceEvent Headers T))
      → to_header_map x f ≡ ok h
      → (st : n.State) (buf unc : Bytes)
      → Sent x display n
          (body_at x display n server c max st (broken f ∷ more) buf unc none)
          buf
          (trailers_frame h ∷ [])
  unfolding poll_frame poll_next poll_source
  break_server c max f h more e st [] unc = record {
    events = trailers_frame h ∷ [];
    emits = concludes (
        error_trailers ((body_at x display n server c max st (broken f ∷ more) [] unc none).inner) _
          f h refl e);
    carried = refl;
    ending = refl;
  }
  break_server c max f h more e st (b ∷ buf) unc = record {
    events = data_frame (b ∷ buf) ∷ trailers_frame h ∷ [];
    emits = sends refl (
        concludes (
          error_trailers ((body_at x display n server c max st more [] unc (some f)).inner) _ f h
            refl e));
    carried = append-nil (b ∷ buf);
    ending = refl;
  }
