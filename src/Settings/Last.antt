-- ===== src/Settings/Last.antt =====
-- Which settings come to hyper, on both sides (endpoint.rs, server.rs, channel.rs).
use pure_grpc_rs.Base.{
  ℕ, Bool, List, [], ◌∷◌, ◌++◌, Option, none, some, ◌≡◌, refl, ap, ◌∙◌, arith, or_else,
  or_else-none,
}
use pure_grpc_rs.Request.{Duration}
use pure_grpc_rs.Settings.{
  Http2Config, Setting, stream_window, connection_window, frame_size, concurrent_streams, adaptive,
  interval, timeout, set_some, apply_h2_config, ServerHttp2Config, apply_server_h2,
}
use pure_grpc_rs.Settings.Builder
use pure_grpc_rs.Settings.Builder.{Server}
use pure_grpc_rs.Settings.Endpoint
use pure_grpc_rs.Settings.Endpoint.{Endpoint, TlsMode}

-- The calls of the methods of a builder, each named by the setting that it makes; an endpoint has
-- no method for the number of streams.
abbrev pub on_endpoint : {U : Type 0} → Setting → Endpoint U → Endpoint U
on_endpoint (stream_window n) e = Endpoint.initial_stream_window_size n e
on_endpoint (connection_window n) e = Endpoint.initial_connection_window_size n e
on_endpoint (frame_size n) e = Endpoint.max_frame_size n e
on_endpoint (concurrent_streams n) e = e
on_endpoint (adaptive b) e = Endpoint.http2_adaptive_window b e
on_endpoint (interval d) e = Endpoint.http2_keep_alive_interval d e
on_endpoint (timeout d) e = Endpoint.http2_keep_alive_timeout d e

abbrev pub on_server : Setting → Server → Server
on_server (stream_window n) s = Builder.initial_stream_window_size n s
on_server (connection_window n) s = Builder.initial_connection_window_size n s
on_server (frame_size n) s = Builder.max_frame_size n s
on_server (concurrent_streams n) s = Builder.max_concurrent_streams n s
on_server (adaptive b) s = Builder.http2_adaptive_window b s
on_server (interval d) s = Builder.http2_keep_alive_interval d s
on_server (timeout d) s = Builder.http2_keep_alive_timeout d s

abbrev pub in_order : {S : Type 0} → (Setting → S → S) → List Setting → S → S
in_order call [] s = s
in_order call (c ∷ cs) s = in_order call cs (call c s)

-- The last value of a kind of settings.
abbrev pub last : {A : Type 0} → (Setting → Option A) → List Setting → Option A
last pick [] = none
last pick (c ∷ cs) = or_else (last pick cs) (pick c)

abbrev pub stream_windows : Setting → Option ℕ
stream_windows (stream_window n) = some n
stream_windows _ = none

abbrev pub connection_windows : Setting → Option ℕ
connection_windows (connection_window n) = some n
connection_windows _ = none

abbrev pub frame_sizes : Setting → Option ℕ
frame_sizes (frame_size n) = some n
frame_sizes _ = none

abbrev pub stream_counts : Setting → Option ℕ
stream_counts (concurrent_streams n) = some n
stream_counts _ = none

abbrev pub adaptives : Setting → Option Bool
adaptives (adaptive b) = some b
adaptives _ = none

abbrev pub intervals : Setting → Option Duration
intervals (interval d) = some d
intervals _ = none

abbrev pub timeouts : Setting → Option Duration
timeouts (timeout d) = some d
timeouts _ = none

-- The settings that calls leave, over those that were there.
abbrev over : List Setting → Http2Config → Http2Config
over cs c = record {
  initial_stream_window_size = or_else (last stream_windows cs) c.initial_stream_window_size;
  initial_connection_window_size =
      or_else (last connection_windows cs) c.initial_connection_window_size;
  adaptive_window = or_else (last adaptives cs) c.adaptive_window;
  max_frame_size = or_else (last frame_sizes cs) c.max_frame_size;
  keep_alive_interval = or_else (last intervals cs) c.keep_alive_interval;
  keep_alive_timeout = or_else (last timeouts cs) c.keep_alive_timeout;
}

abbrev set_shared : Setting → Http2Config → Http2Config
set_shared (stream_window n) c = record c { initial_stream_window_size = some n }
set_shared (connection_window n) c = record c { initial_connection_window_size = some n }
set_shared (frame_size n) c = record c { max_frame_size = some n }
set_shared (concurrent_streams n) c = c
set_shared (adaptive b) c = record c { adaptive_window = some b }
set_shared (interval d) c = record c { keep_alive_interval = some d }
set_shared (timeout d) c = record c { keep_alive_timeout = some d }

over-set_shared :
    (k : Setting) (cs : List Setting) (c : Http2Config) → over cs (set_shared k c) ≡ over (k ∷ cs) c
over-set_shared (stream_window n) cs c = ground arith
over-set_shared (connection_window n) cs c = ground arith
over-set_shared (frame_size n) cs c = ground arith
over-set_shared (concurrent_streams n) cs c = ground arith
over-set_shared (adaptive b) cs c = ground arith
over-set_shared (interval d) cs c = ground arith
over-set_shared (timeout d) cs c = ground arith

on_endpoint_shared :
    {U : Type 0} (k : Setting) (e : Endpoint U) → (on_endpoint k e).http2 ≡ set_shared k e.http2
on_endpoint_shared (stream_window n) e = refl
on_endpoint_shared (connection_window n) e = refl
on_endpoint_shared (frame_size n) e = refl
on_endpoint_shared (concurrent_streams n) e = refl
on_endpoint_shared (adaptive b) e = refl
on_endpoint_shared (interval d) e = refl
on_endpoint_shared (timeout d) e = refl

endpoint_over :
    {U : Type 0} (cs : List Setting) (e : Endpoint U)
    → (in_order on_endpoint cs e).http2 ≡ over cs e.http2
endpoint_over [] e = refl
endpoint_over (k ∷ cs) e =
    endpoint_over cs (on_endpoint k e)
    ∙ ap (over cs) (on_endpoint_shared k e)
    ∙ over-set_shared k cs e.http2

abbrev over_server : List Setting → ServerHttp2Config → ServerHttp2Config
over_server cs c = record {
  shared = over cs c.shared;
  max_concurrent_streams = or_else (last stream_counts cs) c.max_concurrent_streams;
}

server_step :
    (k : Setting) (cs : List Setting) (s : Server)
    → over_server cs (on_server k s).http2 ≡ over_server (k ∷ cs) s.http2
server_step (stream_window n) cs s = ground arith
server_step (connection_window n) cs s = ground arith
server_step (frame_size n) cs s = ground arith
server_step (concurrent_streams n) cs s = ground arith
server_step (adaptive b) cs s = ground arith
server_step (interval d) cs s = ground arith
server_step (timeout d) cs s = ground arith

server_over :
    (cs : List Setting) (s : Server) → (in_order on_server cs s).http2 ≡ over_server cs s.http2
server_over [] s = refl
server_over (k ∷ cs) s = server_over cs (on_server k s) ∙ server_step k cs s

-- After any calls of the methods for HTTP/2 settings on a new endpoint or a new server, in any
-- order, the builder of hyper is given each kind of setting once, in the order of the code and
-- with the value of its last call, and none of a kind that was never set. The number of concurrent
-- streams can be set on a server only.
pub settings_last :
    {U : Type 0} (is_https : U → Bool) (uri : U) (cs : List Setting)
    → (apply_h2_config (in_order on_endpoint cs (Endpoint.new is_https uri)).http2
        ≡ set_some stream_window (last stream_windows cs)
          ++ (set_some connection_window (last connection_windows cs)
              ++ (set_some adaptive (last adaptives cs)
                  ++ (set_some frame_size (last frame_sizes cs)
                      ++ (set_some interval (last intervals cs)
                          ++ set_some timeout (last timeouts cs))))))
      × (apply_server_h2 (in_order on_server cs Builder.builder).http2
          ≡ set_some stream_window (last stream_windows cs)
            ++ (set_some connection_window (last connection_windows cs)
                ++ (set_some adaptive (last adaptives cs)
                    ++ (set_some frame_size (last frame_sizes cs)
                        ++ (set_some concurrent_streams (last stream_counts cs)
                            ++ (set_some interval (last intervals cs)
                                ++ set_some timeout (last timeouts cs)))))))
unfolding apply_h2_config apply_server_h2
settings_last is_https uri cs = (
  ap apply_h2_config (endpoint_over cs (Endpoint.new is_https uri)) ∙ simp or_else-none,
  ap apply_server_h2 (server_over cs Builder.builder) ∙ simp or_else-none,
)
