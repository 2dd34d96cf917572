-- ===== src/Codec/Frame.antt =====
-- One-shot frames and the decoding buffer (grpc-core/src/codec/mod.rs, buffer.rs).
use pure_grpc_rs.Base.{◌≡◌, arith}
use pure_grpc_rs.Base.Words.{Bytes}
use pure_grpc_rs.Codec.{encode_grpc_frame, decode_grpc_frame}

-- A payload of any size comes back from its one-shot frame.
pub decode_grpc_frame-encode_grpc_frame :
    (payload : Bytes) → decode_grpc_frame (encode_grpc_frame payload) ≡ payload
unfolding decode_grpc_frame encode_grpc_frame
decode_grpc_frame-encode_grpc_frame payload = ground arith
