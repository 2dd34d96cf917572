-- ===== src/Settings/Builder.antt =====
-- grpc-server/src/server.rs, the builder of a server; without the configuration of TLS, which is made
-- by rustls. A panic of an assertion is `none`.
use pure_grpc_rs.Base.{ℕ, Bool, true, Option, none, some, if◌then◌else◌, ltb}
use pure_grpc_rs.Request.{Duration}
use pure_grpc_rs.Settings.{Http2Config, defaults, ServerHttp2Config}

abbrev pub default_concurrency_limit : ℕ
default_concurrency_limit = 1024

pub record Server : Type 0 where
  pub nodelay : Bool
  pub timeout : Option Duration
  pub limit : ℕ
  pub http2 : ServerHttp2Config

abbrev pub builder : Server
builder = record {
  nodelay = true;
  timeout = none;
  limit = default_concurrency_limit;
  http2 = record { shared = defaults; max_concurrent_streams = none };
}

abbrev pub tcp_nodelay : Bool → Server → Server
tcp_nodelay enabled s = record s { nodelay = enabled }

abbrev pub with_timeout : Duration → Server → Server
with_timeout timeout s = record s { timeout = some timeout }

abbrev pub concurrency_limit : ℕ → Server → Option Server
concurrency_limit limit s = if ltb 0 limit then some (record s { limit = limit }) else none

-- The settings of `self.http2.shared`.
abbrev share : (Http2Config → Http2Config) → Server → Server
share f s = record s { http2 = record (s.http2) { shared = f s.http2.shared } }

abbrev pub initial_stream_window_size : ℕ → Server → Server
initial_stream_window_size size s =
    share (λ c. record c { initial_stream_window_size = some size }) s

abbrev pub initial_connection_window_size : ℕ → Server → Server
initial_connection_window_size size s =
    share (λ c. record c { initial_connection_window_size = some size }) s

abbrev pub http2_adaptive_window : Bool → Server → Server
http2_adaptive_window enabled s = share (λ c. record c { adaptive_window = some enabled }) s

abbrev pub max_frame_size : ℕ → Server → Server
max_frame_size size s = share (λ c. record c { max_frame_size = some size }) s

abbrev pub max_concurrent_streams : ℕ → Server → Server
max_concurrent_streams max s = record s {
  http2 = record (s.http2) { max_concurrent_streams = some max };
}

abbrev pub http2_keep_alive_interval : Duration → Server → Server
http2_keep_alive_interval interval s =
    share (λ c. record c { keep_alive_interval = some interval }) s

abbrev pub http2_keep_alive_timeout : Duration → Server → Server
http2_keep_alive_timeout timeout s = share (λ c. record c { keep_alive_timeout = some timeout }) s
