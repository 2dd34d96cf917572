-- ===== src/Settings.antt =====
-- grpc-core/src/http2_config.rs, and how its settings come to the builders of hyper: `apply_h2_config`
-- of grpc-client/src/channel.rs, and `serve_connection` of grpc-server/src/server.rs. A builder of
-- hyper is the list of the settings that are made on it, in order.
pub mod Endpoint
pub mod Builder
pub mod Last
use pure_grpc_rs.Base.{ℕ, Bool, List, [], ◌∷◌, ◌++◌, Option, none, some}
use pure_grpc_rs.Request.{Duration}

pub record Http2Config : Type 0 where
  pub initial_stream_window_size : Option ℕ
  pub initial_connection_window_size : Option ℕ
  pub adaptive_window : Option Bool
  pub max_frame_size : Option ℕ
  pub keep_alive_interval : Option Duration
  pub keep_alive_timeout : Option Duration

-- `Http2Config::default`
abbrev pub defaults : Http2Config
defaults = record {
  initial_stream_window_size = none;
  initial_connection_window_size = none;
  adaptive_window = none;
  max_frame_size = none;
  keep_alive_interval = none;
  keep_alive_timeout = none;
}

-- The setters of the builders of hyper.
pub data Setting : Type 0 where
  stream_window connection_window frame_size concurrent_streams : ℕ → Setting
  adaptive : Bool → Setting
  interval timeout : Duration → Setting

-- `if let Some(v) = option { builder.setter(v); }`
abbrev pub set_some : {A : Type 0} → (A → Setting) → Option A → List Setting
set_some setter none = []
set_some setter (some v) = setter v ∷ []

unfoldable pub apply_h2_config : Http2Config → List Setting
apply_h2_config config =
    set_some stream_window config.initial_stream_window_size
    ++ (set_some connection_window config.initial_connection_window_size
        ++ (set_some adaptive config.adaptive_window
            ++ (set_some frame_size config.max_frame_size
                ++ (set_some interval config.keep_alive_interval
                    ++ set_some timeout config.keep_alive_timeout))))

pub record ServerHttp2Config : Type 0 where
  pub shared : Http2Config
  pub max_concurrent_streams : Option ℕ

unfoldable pub apply_server_h2 : ServerHttp2Config → List Setting
apply_server_h2 http2 =
    set_some stream_window http2.shared.initial_stream_window_size
    ++ (set_some connection_window http2.shared.initial_connection_window_size
        ++ (set_some adaptive http2.shared.adaptive_window
            ++ (set_some frame_size http2.shared.max_frame_size
                ++ (set_some concurrent_streams http2.max_concurrent_streams
                    ++ (set_some interval http2.shared.keep_alive_interval
                        ++ set_some timeout http2.shared.keep_alive_timeout)))))
