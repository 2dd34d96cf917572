-- ===== src/Settings/Endpoint.antt =====
-- grpc-client/src/endpoint.rs with the feature tls: the builder of a channel, and its connection.
-- The connectors of hyper and rustls are made when they are first used, so a channel is what it is
-- made of; the reading of certificates is a parameter. A panic of an assertion is `none`.
use pure_grpc_rs.Base.{
  ℕ, Bool, ◌&&◌, List, Option, none, some, if◌then◌else◌, ◌==◌, Result, ok, err, ◌>>=◌,
}
use pure_grpc_rs.Base.Text.{ascii}
use pure_grpc_rs.Base.Words.{Bytes}
use pure_grpc_rs.Crates.{Crates}
use pure_grpc_rs.Deadline.{deadline_exceeded, within}
use pure_grpc_rs.Request.{Duration}
use pure_grpc_rs.Settings.{Http2Config, defaults, Setting, apply_h2_config}
use pure_grpc_rs.Status.{ErrorNode, status_error}

pub data TlsMode : Type 0 where
  no_tls native : TlsMode
  custom_ca : Bytes → TlsMode

pub record Endpoint (U : Type 0) : Type 0 where
  pub uri : U
  pub timeout : Option Duration
  pub connect_timeout : Option Duration
  pub http2 : Http2Config
  pub tls : TlsMode

-- `ChannelInner`, with the settings of its client; `Tls` is the type of a configuration of rustls.
pub data ChannelInner (Tls : Type 0) : Type 0 where
  http : List Setting → ChannelInner Tls
  https : Tls → List Setting → ChannelInner Tls

pub record Channel (U Tls : Type 0) : Type 0 where
  pub inner : ChannelInner Tls
  pub uri : U
  pub timeout : Option Duration

abbrev pub is_zero : Duration → Bool
is_zero d = d.secs == 0 && d.nanos == 0

module _ {U : Type 0} where
  -- `is_https` is what `scheme_str` says.
  abbrev pub new : (U → Bool) → U → Endpoint U
  new is_https uri = record {
    uri = uri;
    timeout = none;
    connect_timeout = none;
    http2 = defaults;
    tls = if is_https uri then native else no_tls;
  }

  abbrev pub with_timeout : Duration → Endpoint U → Option (Endpoint U)
  with_timeout d e = if is_zero d then none else some (record e { timeout = some d })

  abbrev pub with_connect_timeout : Duration → Endpoint U → Option (Endpoint U)
  with_connect_timeout d e =
      if is_zero d then none else some (record e { connect_timeout = some d })

  abbrev pub initial_stream_window_size : ℕ → Endpoint U → Endpoint U
  initial_stream_window_size size e = record e {
    http2 = record (e.http2) { initial_stream_window_size = some size };
  }

  abbrev pub initial_connection_window_size : ℕ → Endpoint U → Endpoint U
  initial_connection_window_size size e = record e {
    http2 = record (e.http2) { initial_connection_window_size = some size };
  }

  abbrev pub http2_adaptive_window : Bool → Endpoint U → Endpoint U
  http2_adaptive_window enabled e = record e {
    http2 = record (e.http2) { adaptive_window = some enabled };
  }

  abbrev pub max_frame_size : ℕ → Endpoint U → Endpoint U
  max_frame_size size e = record e { http2 = record (e.http2) { max_frame_size = some size } }

  abbrev pub http2_keep_alive_interval : Duration → Endpoint U → Endpoint U
  http2_keep_alive_interval interval e = record e {
    http2 = record (e.http2) { keep_alive_interval = some interval };
  }

  abbrev pub http2_keep_alive_timeout : Duration → Endpoint U → Endpoint U
  http2_keep_alive_timeout timeout e = record e {
    http2 = record (e.http2) { keep_alive_timeout = some timeout };
  }

  abbrev pub with_native_tls : Endpoint U → Endpoint U
  with_native_tls e = record e { tls = native }

  abbrev pub tls_with_ca : Bytes → Endpoint U → Endpoint U
  tls_with_ca ca_pem e = record e { tls = custom_ca ca_pem }

module _ (x : Crates) {U Tls : Type 0} (native_roots : Result (ErrorNode x.Headers) Tls)
    (ca_roots : Bytes → Result (ErrorNode x.Headers) Tls) where
  open x use {Headers}

  -- `Channel::connect_with_h2_config`
  abbrev pub connect_with_h2_config : U → Http2Config → Result (ErrorNode Headers) (Channel U Tls)
  connect_with_h2_config uri config =
      ok (record { inner = http (apply_h2_config config); uri = uri; timeout = none })

  -- `Channel::connect_with_tls_config_and_h2`
  abbrev pub connect_with_tls_config_and_h2 :
      U → Tls → Http2Config → Result (ErrorNode Headers) (Channel U Tls)
  connect_with_tls_config_and_h2 uri tls_config config =
      ok (record { inner = https tls_config (apply_h2_config config); uri = uri; timeout = none })

  -- `Channel::connect_tls_with_h2_config`
  abbrev pub connect_tls_with_h2_config :
      U → Http2Config → Result (ErrorNode Headers) (Channel U Tls)
  connect_tls_with_h2_config uri config = do
    tls_config ← native_roots
    connect_with_tls_config_and_h2 uri tls_config config

  -- `Channel::connect_with_ca_and_h2_config`
  abbrev pub connect_with_ca_and_h2_config :
      U → Bytes → Http2Config → Result (ErrorNode Headers) (Channel U Tls)
  connect_with_ca_and_h2_config uri ca_pem config = do
    tls_config ← ca_roots ca_pem
    connect_with_tls_config_and_h2 uri tls_config config

  -- What `connect` awaits.
  abbrev pub connect_fut : Endpoint U → Result (ErrorNode Headers) (Channel U Tls)
  connect_fut e = elim e.tls [
    | no_tls ↦ connect_with_h2_config e.uri e.http2
    | native ↦ connect_tls_with_h2_config e.uri e.http2
    | custom_ca ca ↦ connect_with_ca_and_h2_config e.uri ca e.http2
  ]

  abbrev pub set_timeout : Option Duration → Channel U Tls → Channel U Tls
  set_timeout none channel = channel
  set_timeout (some d) channel = record channel { timeout = some d }

  unfoldable pub connect :
      (Duration → Bool) → Endpoint U → Result (ErrorNode Headers) (Channel U Tls)
  unfolding within apply_h2_config
  connect elapses e = do
    channel ←
        within e.connect_timeout elapses (connect_fut e)
          (err (status_error (deadline_exceeded x (ascii "connect timed out"))))
    ok (set_timeout e.timeout channel)
