-- ===== src/Codec.antt =====
-- grpc-core/src/codec/mod.rs and buffer.rs: the constants of the framing, one-shot frames, the
-- buffers that codecs read from and write to, and the `Encoder` and `Decoder` interfaces.
-- Capacities (`reserve`, `buffer_size`) have no effect on the bytes and are left out.
pub mod Buffer
pub mod Frame
pub mod Decode
pub mod Encode
use pure_grpc_rs.Base.{
  ℕ, ◌+◌, ◌-◌, ◌*◌, ◌%◌, Bool, true, false, List, [], ◌∷◌, ◌++◌, Option, none, some, if◌then◌else◌,
  Result, ok, err, leb, length, take, drop,
}
use pure_grpc_rs.Base.Words.{Bytes, be_bytes, u32_mod, usize_mod}
use pure_grpc_rs.Codec.Buffer.{DecodeBuf}
use pure_grpc_rs.Status.{Status}

abbrev pub header_size : ℕ
header_size = 5

abbrev pub default_yield_threshold : ℕ
default_yield_threshold = 32 * 1024

abbrev pub default_max_recv_message_size : ℕ
default_max_recv_message_size = 4 * 1024 * 1024

-- `usize::MAX`
abbrev pub default_max_send_message_size : ℕ
default_max_send_message_size = usize_mod - 1

unfoldable pub encode_grpc_frame : Bytes → Bytes
encode_grpc_frame payload = 0 ∷ (be_bytes (length payload % u32_mod) ++ payload)

unfoldable pub decode_grpc_frame : Bytes → Bytes
decode_grpc_frame frame = if leb header_size (length frame) then drop header_size frame else frame

-- `Decoder`: a state, and a step that reads from the buffer. `EncodeBuf` only appends, so an
-- `Encoder` gives the bytes that it appends, also when it fails half-way.
pub record Decoder (H T : Type 0) : Type 1 where
  pub State : Type 0
  pub decode : State → DecodeBuf → State × DecodeBuf × Result (Status H) (Option T)

pub record Encoder (H T : Type 0) : Type 1 where
  pub State : Type 0
  pub encode : State → T → State × Bytes × Result (Status H) (Unit {0})
  pub yield_threshold : ℕ
