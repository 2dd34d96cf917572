-- ===== src/Tests/Calls.antt =====
-- Compression, requests and routes at concrete inputs.
use pure_grpc_rs.Base.{ℕ, [], ◌∷◌, none, some, ◌≡◌, ◌≢◌, refl, arith, All}
use pure_grpc_rs.Base.Text.{ascii}
use pure_grpc_rs.Base.Words.{Bytes, same}
use pure_grpc_rs.Crates.Model.{model_crates}
use pure_grpc_rs.Request.Timeout.{IsTimeout, duration_to_grpc_timeout-rounded}
use pure_grpc_rs.Request.{Duration, clamp, as_nanos, duration_to_grpc_timeout}
use pure_grpc_rs.Router.Dispatch.{method_path, IsWellFormed, route-add_service}
use pure_grpc_rs.Router.{Router, add_service, route}

abbrev ninety_seconds : Duration
ninety_seconds = record { secs = 90; nanos = 5000 }

duration_to_grpc_timeout-rounded_example :
    (header : Bytes) × (duration_to_grpc_timeout ninety_seconds ≡ some header)
    × IsTimeout (as_nanos (clamp ninety_seconds)) header
duration_to_grpc_timeout-rounded_example =
    duration_to_grpc_timeout-rounded ninety_seconds (omega arith)

abbrev echo : Bytes → ℕ
echo _ = 1

abbrev echo_more : Bytes → ℕ
echo_more _ = 2

abbrev one_service : Router model_crates Bytes ℕ
one_service = record { routes = (ascii "/echo.Echo", echo) ∷ []; fallback = none }

echo_name : All (λ b. b ≢ b'/') (ascii "echo.Echo")
echo_name = ground arith

math_name : All (λ b. b ≢ b'/') (ascii "echo.EchoMore")
math_name = ground arith

one_service-IsWellFormed : IsWellFormed model_crates Bytes ℕ one_service.routes
one_service-IsWellFormed = ((ascii "echo.Echo", refl, echo_name), tt)

route-add_service_example :
    (route model_crates Bytes ℕ
        (method_path (ascii "echo.Echo") (ascii "Say"))
        (add_service model_crates Bytes ℕ (ascii "echo.EchoMore") echo_more one_service)
      ≡ route model_crates Bytes ℕ (method_path (ascii "echo.Echo") (ascii "Say")) one_service)
    × IsWellFormed model_crates Bytes ℕ
        (add_service model_crates Bytes ℕ (ascii "echo.EchoMore") echo_more one_service).routes
unfolding same
route-add_service_example =
    route-add_service model_crates Bytes ℕ (ascii "echo.EchoMore") (ascii "echo.Echo") (ascii "Say")
      echo_more one_service math_name echo_name one_service-IsWellFormed
