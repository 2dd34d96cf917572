-- ===== src/Tests/Codec.antt =====
-- A codec for the tests: a message is its own encoding, and the empty message is refused.
use pure_grpc_rs.Base.{
  [], ◌∷◌, ◌++◌, some, ◌≡◌, arith, Result, ok, err, length, take, drop, take-append, drop-append,
}
use pure_grpc_rs.Base.Text.{ascii}
use pure_grpc_rs.Base.Words.{Bytes}
use pure_grpc_rs.Code.{Code}
use pure_grpc_rs.Codec.{Decoder, Encoder}
use pure_grpc_rs.Crates.Model.{model_crates, Entries}
use pure_grpc_rs.Exchange.{IsCodec}
use pure_grpc_rs.Status.{Status}

abbrev pub display : Status Entries → Bytes
display s = s.message

abbrev pub refusal : Status Entries
refusal = record {
  code = Code.invalid_argument;
  message = ascii "empty";
  details = [];
  metadata = record { headers = [] };
}

abbrev pub encode_bytes : Unit {0} → Bytes → Unit {0} × Bytes × Result (Status Entries) (Unit {0})
encode_bytes u [] = (u, [], err refusal)
encode_bytes u (b ∷ bs) = (u, b ∷ bs, ok tt)

abbrev pub byte_encoder : Encoder Entries Bytes
byte_encoder = record { State = Unit; encode = encode_bytes; yield_threshold = 12 }

abbrev pub byte_decoder : Decoder Entries Bytes
byte_decoder = record {
  State = Unit;
  decode = λ u b. (u, record { buf = drop b.len b.buf; len = 0 }, ok (some (take b.len b.buf)));
}

pub byte_reads :
    {u u' w : Unit {0}} {m p : Bytes}
    → encode_bytes u m ≡ (u', p, ok tt)
    → (rest : Bytes)
    → byte_decoder.decode w (record { buf = p ++ rest; len = length p })
      ≡ (w, record { buf = rest; len = 0 }, ok (some m))
byte_reads {m = []} e rest = ground (arith, e)
byte_reads {m = b ∷ bs} {p} e rest =
    let q : p ≡ b ∷ bs = ground (arith, e) in
    rw (q) ground (arith, take-append (b ∷ bs) rest, drop-append (b ∷ bs) rest)

abbrev pub byte_codec : IsCodec model_crates byte_encoder byte_decoder
byte_codec = record { Agree = λ u w. Unit; reads = λ a e. (tt, byte_reads e, tt) }
