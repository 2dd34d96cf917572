-- ===== src/Tests/Settings.antt =====
-- Builders at concrete inputs: a setting that is made twice, and one that only a server has.
use pure_grpc_rs.Base.{ℕ, Bool, true, List, [], ◌∷◌, ◌≡◌}
use pure_grpc_rs.Settings.Builder
use pure_grpc_rs.Settings.Endpoint
use pure_grpc_rs.Settings.Last.{on_endpoint, on_server, in_order, settings_last}
use pure_grpc_rs.Settings.{
  Setting, stream_window, concurrent_streams, adaptive, apply_h2_config, apply_server_h2,
}

abbrev made : List Setting
made = stream_window 1 ∷ concurrent_streams 5 ∷ adaptive true ∷ stream_window 2 ∷ []

abbrev secure : ℕ → Bool
secure uri = true

settings_last_example :
    (apply_h2_config (in_order on_endpoint made (Endpoint.new secure 443)).http2
      ≡ stream_window 2 ∷ adaptive true ∷ [])
    × (apply_server_h2 (in_order on_server made Builder.builder).http2
        ≡ stream_window 2 ∷ adaptive true ∷ concurrent_streams 5 ∷ [])
settings_last_example = settings_last secure 443 made
