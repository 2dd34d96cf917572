-- ===== src/Codec/Decode/Stream.antt =====
-- A whole body: every message in order, and then the outcome (decode.rs).
use pure_grpc_rs.Base.{
  ℕ, ◌≤◌, ◌<◌, List, [], ◌∷◌, ◌++◌, Option, ◌≡◌, refl, ap, ◌∙◌, arith, ok, length, append_assoc,
  unwrap_or,
}
use pure_grpc_rs.Base.Words.{Bytes, u32_mod}
use pure_grpc_rs.Codec.{Decoder, default_max_recv_message_size}
use pure_grpc_rs.Codec.Decode.Deliver.{
  frame, Reads, Unpacks, Yields, stay, wait, item, Between, Same,
}
use pure_grpc_rs.Codec.Decode.Header.{arrive_header}
use pure_grpc_rs.Codec.Decode.Message.{Arrives}
use pure_grpc_rs.Codec.Decode.{Stream, recv_limit, read_flag}
use pure_grpc_rs.Compression.{CompressionEncoding}
use pure_grpc_rs.Crates.{Crates}

module _ (x : Crates) {T : Type 0} (d : Decoder x.Headers T) where
  open x use {Headers}

  Yields-append :
      {s t u : Stream x d} {ms ns : List T}
      → Yields x d s ms t
      → Yields x d t ns u
      → Yields x d s (ms ++ ns) u
  Yields-append stay z = z
  Yields-append (wait p y) z = wait p (Yields-append y z)
  Yields-append (item p y) z = item p (Yields-append y z)

  -- The frames of a list of messages, one behind the other: each within the limit, with a flag that
  -- the receiver takes, and with a payload from which the decoder reads the message.
  pub data Frames (limit : ℕ) (encoding : Option CompressionEncoding)
      : d.State → List T → d.State → Bytes → Type 0 where
    none_left : {st : d.State} {wire : Bytes} → wire ≡ [] → Frames limit encoding st [] st wire
    one_more :
        {st st' last : d.State} {m : T} {ms : List T} {wire : Bytes} (flag : ℕ) (payload p : Bytes)
        (c : Option CompressionEncoding) (rest : Bytes)
        → wire ≡ frame flag payload ++ rest
        → read_flag x encoding flag ≡ ok c
        → Unpacks x d c payload p
        → length payload < u32_mod
        → length payload ≤ limit
        → Reads x d st p m st'
        → Frames limit encoding st' ms last rest
        → Frames limit encoding st (m ∷ ms) last wire

  pub record Received (s : Stream x d) (ms : List T) (st' : d.State) (rest : Bytes) : Type 0 where
    pub last : Stream x d
    pub yields : Yields x d s ms last
    pub between : Between x d last st' rest
    pub same : Same x d s last

  Received-cons :
      {s : Stream x d} {m : T} {ms : List T} {st st' : d.State} {rest more : Bytes}
      (a : Arrives x d s m st rest)
      → Received a.last ms st' more
      → Received s (m ∷ ms) st' more
  Received-cons a r = record {
    last = r.last;
    yields = Yields-append a.yields r.yields;
    between = r.between;
    same = record {
      direction = r.same.direction ∙ a.same.direction;
      trailers = r.same.trailers ∙ a.same.trailers;
      encoding = r.same.encoding ∙ a.same.encoding;
      max_message_size = r.same.max_message_size ∙ a.same.max_message_size;
      tail = r.same.tail ∙ a.same.tail;
    };
  }

  -- Whatever the cuts between the data frames, and wherever the body waits, a stream that has the
  -- frames of some messages ahead of it gives just these messages, in their order.
  pub delivered_all :
      {limit : ℕ} {encoding : Option CompressionEncoding} {st st' : d.State} {ms : List T}
      {wire : Bytes} (s : Stream x d) (rest : Bytes)
      → Frames limit encoding st ms st' wire
      → recv_limit x s.inner ≡ limit
      → s.inner.encoding ≡ encoding
      → Between x d s st (wire ++ rest)
      → Received s ms st' rest
  delivered_all s rest (none_left e) l c b = record {
    last = s;
    yields = stay;
    between = record { decoder = b.decoder; state = b.state; bytes = ground (arith, b.bytes, e) };
    same = record {
      direction = refl;
      trailers = refl;
      encoding = refl;
      max_message_size = refl;
      tail = refl;
    };
  }
  delivered_all s rest (one_more flag payload p c more e f u w n r fs) l g b =
      let bytes = b.bytes ∙ ap (λ w. w ++ rest) e ∙ append_assoc (frame flag payload) more rest in
      let a = arrive_header x d flag payload p (more ++ rest) _ _ c u w s.inner.body s (record {
        body = refl;
        state = b.state;
        bytes = bytes;
        flagged = ap (λ o. read_flag x o flag) g ∙ f;
        small = rw l n;
        reads = λ r'. rw (b.decoder) (r r');
      }) in
      Received-cons a (
        delivered_all a.last rest fs
          (ap (λ o. unwrap_or o default_max_recv_message_size) a.same.max_message_size ∙ l)
          (a.same.encoding ∙ g) a.between)
