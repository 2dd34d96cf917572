-- ===== src/H3.antt =====
-- grpc-server/src/h3_server.rs and grpc-client/src/h3_channel.rs: the bodies of a call over HTTP/3.
-- The two halves of a stream of the crate h3 are parameters: the receiving half is the list of what
-- its polls will give, and the sending half is an interface with what reaches the other side.
pub mod Given
pub mod Carried
pub mod Exchange
pub mod Cut
pub mod Head
use pure_grpc_rs.Base.{
  ℕ, Bool, true, false, List, [], ◌∷◌, ◌++◌, Option, none, some, ◌≡◌, Result, ok, err, Poll,
  pending, ready, not, if◌then◌else◌,
}
use pure_grpc_rs.Base.Text.{ascii}
use pure_grpc_rs.Base.Words.{Bytes}
use pure_grpc_rs.Code.{Code}
use pure_grpc_rs.Codec.Decode.{
  BodyEvent, waiting, data_frame, trailers_frame, unknown_frame, failed,
}
use pure_grpc_rs.Crates.{Crates}
use pure_grpc_rs.Request.{HttpResponse}
use pure_grpc_rs.Status
use pure_grpc_rs.Status.{Status, add_header}

-- What one `poll_recv_data` gives; behind the last one it gives the end of the data.
pub data DataEvent : Type 0 where
  data_waiting : DataEvent
  data_arrived : Bytes → DataEvent
  data_failed : Bytes → DataEvent

-- What one `poll_recv_trailers` gives; behind the last one there are no trailers.
pub data TrailersEvent (H : Type 0) : Type 0 where
  trailers_waiting : TrailersEvent H
  trailers_arrived : H → TrailersEvent H
  trailers_failed : Bytes → TrailersEvent H

pub record RecvStream (H : Type 0) : Type 0 where
  pub incoming : List DataEvent
  pub trailing : List (TrailersEvent H)

module _ {H : Type 0} where
  abbrev pub poll_recv_data : RecvStream H → RecvStream H × Poll (Result Bytes (Option Bytes))
  poll_recv_data r = elim r.incoming [
    | [] ↦ (r, ready (ok none))
    | data_waiting ∷ es ↦ (record r { incoming = es }, pending)
    | data_arrived b ∷ es ↦ (record r { incoming = es }, ready (ok (some b)))
    | data_failed e ∷ es ↦ (record r { incoming = es }, ready (err e))
  ]

  abbrev pub poll_recv_trailers : RecvStream H → RecvStream H × Poll (Result Bytes (Option H))
  poll_recv_trailers r = elim r.trailing [
    | [] ↦ (r, ready (ok none))
    | trailers_waiting ∷ es ↦ (record r { trailing = es }, pending)
    | trailers_arrived h ∷ es ↦ (record r { trailing = es }, ready (ok (some h)))
    | trailers_failed e ∷ es ↦ (record r { trailing = es }, ready (err e))
  ]

-- `h3::server::RequestStream` and `h3::client::RequestStream`, of which one half sends, with what
-- the calls that succeed bring to the other side: the bytes, the trailers, and the end of the
-- stream, which only `finish` marks.
pub record SendStream (H : Type 0) : Type 1 where
  pub Send : Type 0
  pub send_response : ℕ → H → Send → Send × Result Bytes (Unit {0})
  pub send_data : Bytes → Send → Send × Result Bytes (Unit {0})
  pub send_trailers : H → Send → Send × Result Bytes (Unit {0})
  pub finish : Send → Send × Result Bytes (Unit {0})
  pub written : Send → Bytes
  pub trailers : Send → Option H
  pub is_finished : Send → Bool
  pub written-send_response :
      (status : ℕ) (h : H) (s : Send) → written (send_response status h s).0 ≡ written s
  pub trailers-send_response :
      (status : ℕ) (h : H) (s : Send) → trailers (send_response status h s).0 ≡ trailers s
  pub written-send_data :
      (b : Bytes) (s : Send)
      → (send_data b s).1 ≡ ok tt
      → written (send_data b s).0 ≡ written s ++ b
  pub trailers-send_data : (b : Bytes) (s : Send) → trailers (send_data b s).0 ≡ trailers s
  pub written-send_trailers : (h : H) (s : Send) → written (send_trailers h s).0 ≡ written s
  pub trailers-send_trailers :
      (h : H) (s : Send) → (send_trailers h s).1 ≡ ok tt → trailers (send_trailers h s).0 ≡ some h
  pub written-finish : (s : Send) → written (finish s).0 ≡ written s
  pub trailers-finish : (s : Send) → trailers (finish s).0 ≡ trailers s
  pub is_finished-send_response :
      (status : ℕ) (h : H) (s : Send) → is_finished (send_response status h s).0 ≡ is_finished s
  pub is_finished-send_data : (b : Bytes) (s : Send) → is_finished (send_data b s).0 ≡ is_finished s
  pub is_finished-send_trailers :
      (h : H) (s : Send) → is_finished (send_trailers h s).0 ≡ is_finished s
  pub is_finished-finish : (s : Send) → (finish s).1 ≡ ok tt → is_finished (finish s).0 ≡ true

-- `H3RecvBody` and `H3ClientRecvBody`.
pub record RecvBody (H : Type 0) : Type 0 where
  pub recv : RecvStream H
  pub data_done : Bool
  pub trailers_done : Bool

abbrev pub new : {H : Type 0} → RecvStream H → RecvBody H
new recv = record { recv = recv; data_done = false; trailers_done = false }

module _ (x : Crates) where
  open x use {Headers, http}

  abbrev pub Polled : Type 0
  Polled = Poll (Option (Result (Status Headers) (BodyEvent Headers)))

  -- The errors of the two sides differ in the words in front.
  module _ (side : Bytes) where
    abbrev pub recv_error : Bytes → Status Headers
    recv_error e = Status.new x Code.internal (side ++ (ascii " recv error: " ++ e))

    abbrev pub trailers_error : Bytes → Status Headers
    trailers_error e = Status.new x Code.internal (side ++ (ascii " trailers error: " ++ e))

    unfoldable pub poll_data : RecvBody Headers → RecvBody Headers × Polled
    poll_data b =
        let (recv', polled) = poll_recv_data b.recv in
        let b' = record b { recv = recv' } in
        elim polled [
          | ready (ok (some bytes)) ↦ (b', ready (some (ok (data_frame bytes))))
          | ready (ok none) ↦ (record b' { data_done = true }, pending)
          | ready (err e) ↦ (b', ready (some (err (recv_error e))))
          | pending ↦ (b', pending)
        ]

    unfoldable pub poll_trailers : RecvBody Headers → RecvBody Headers × Polled
    poll_trailers b =
        let (recv', polled) = poll_recv_trailers b.recv in
        let b' = record b { recv = recv' } in
        elim polled [
          | ready (ok (some h)) ↦
              (record b' { trailers_done = true }, ready (some (ok (trailers_frame h))))
          | ready (ok none) ↦ (record b' { trailers_done = true }, ready none)
          | ready (err e) ↦
              (record b' { trailers_done = true }, ready (some (err (trailers_error e))))
          | pending ↦ (b', pending)
        ]

    unfoldable pub poll_recv : RecvBody Headers → RecvBody Headers × Polled
    unfolding poll_data poll_trailers
    poll_recv b =
        if b.trailers_done
        then (b, ready none)
        else if not b.data_done
        then poll_data b
        else poll_trailers b

  -- `H3RecvBody::poll_frame`
  abbrev pub server_poll_frame : RecvBody Headers → RecvBody Headers × Polled
  server_poll_frame b = poll_recv (ascii "h3") b

  -- `H3ClientRecvBody::poll_frame`
  abbrev pub client_poll_frame : RecvBody Headers → RecvBody Headers × Polled
  client_poll_frame b = poll_recv (ascii "h3 client") b

module _ (x : Crates) (w : SendStream x.Headers) where
  open x use {Headers, http}
  open w use {Send}

  abbrev pub Sending : Type 0 → Type 0
  Sending A = Send → Send × Result Bytes A

  infixl 5 ◌>>=◌ ◌>>◌
  abbrev ◌>>=◌ : {A B : Type 0} → Sending A → (A → Sending B) → Sending B
  ◌>>=◌ m f s = let (s', r) = m s in elim r [ ok a ↦ f a s' | err e ↦ (s', err e) ]

  abbrev ◌>>◌ : {B : Type 0} → Sending (Unit {0}) → Sending B → Sending B
  m >> k = m >>= λ _. k

  abbrev done : {A : Type 0} → A → Sending A
  done a s = (s, ok a)

  -- The loop of `send_h3_response`, on what the polls of the body give, with the trailers that it
  -- has seen. A status that cannot be written leaves what was written of it.
  unfoldable pub send_frames : List (BodyEvent Headers) → Option Headers → Sending (Option Headers)
  send_frames [] t = done t
  send_frames (waiting ∷ es) t = send_frames es t
  send_frames (data_frame b ∷ es) t = do w.send_data b; send_frames es t
  send_frames (trailers_frame h ∷ es) t = send_frames es (some h)
  send_frames (unknown_frame ∷ es) t = send_frames es t
  send_frames (failed status ∷ es) t = done (some (add_header x status http.empty).0)

  abbrev pub send_found : Option Headers → Sending (Unit {0})
  send_found none = done tt
  send_found (some t) = w.send_trailers t

  unfoldable pub send_h3_response :
      {E : Type 0} → HttpResponse Headers E (List (BodyEvent Headers)) → Sending (Unit {0})
  unfolding send_frames
  send_h3_response response = do
    w.send_response response.status response.headers
    trailers ← send_frames response.body none
    send_found trailers
    w.finish

  -- The loop of the task that sends the body of a request.
  unfoldable pub send_request_frames : List (BodyEvent Headers) → Send → Send
  send_request_frames [] s = s
  send_request_frames (waiting ∷ es) s = send_request_frames es s
  send_request_frames (data_frame b ∷ es) s =
      let (s', sent) = w.send_data b s in
      elim sent [ ok _ ↦ send_request_frames es s' | err _ ↦ s' ]
  send_request_frames (trailers_frame h ∷ es) s = (w.send_trailers h s).0
  send_request_frames (unknown_frame ∷ es) s = send_request_frames es s
  send_request_frames (failed _ ∷ es) s = s

  unfoldable pub send_request_body : List (BodyEvent Headers) → Send → Send
  unfolding send_request_frames
  send_request_body body s = (w.finish (send_request_frames body s)).0
