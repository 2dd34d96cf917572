-- ===== src/Router.antt =====
-- grpc-server/src/router.rs: the services of a server, by the paths of their methods. A service is
-- the function from requests to responses that its `call` is once it has been awaited; the routes
-- of the `HashMap` are listed in the order in which it iterates.
pub mod Dispatch
use pure_grpc_rs.Base.{
  ℕ, Bool, true, false, ◌&&◌, List, [], ◌∷◌, ◌++◌, Option, none, some, if◌then◌else◌, ◌==◌, length,
  drop,
}
use pure_grpc_rs.Base.Text.{ascii}
use pure_grpc_rs.Base.Words.{Bytes, same}
use pure_grpc_rs.Code.{Code}
use pure_grpc_rs.Crates.{Crates}
use pure_grpc_rs.Status
use pure_grpc_rs.Status.{Status}

-- `str::starts_with`
unfoldable pub starts_with : Bytes → Bytes → Bool
starts_with text [] = true
starts_with [] (_ ∷ _) = false
starts_with (a ∷ text) (b ∷ prefix) = a == b && starts_with text prefix

module _ (x : Crates) (Req Resp : Type 0) where
  open x use {Headers}

  abbrev pub Service : Type 0
  Service = Req → Resp

  pub record Router : Type 0 where
    pub routes : List (Bytes × Service)
    pub fallback : Option Service

  abbrev pub new : Router
  new = record { routes = []; fallback = none }

  -- `HashMap::insert`
  unfoldable pub insert_route : Bytes → Service → List (Bytes × Service) → List (Bytes × Service)
  insert_route key svc [] = (key, svc) ∷ []
  insert_route key svc ((j, s) ∷ routes) =
      let rest = insert_route key svc routes in
      if same j key then (key, svc) ∷ routes else (j, s) ∷ rest

  unfoldable pub add_service : Bytes → Service → Router → Router
  unfolding insert_route
  add_service name svc r = record r { routes = insert_route (b'/' ∷ name) svc r.routes }

  unfoldable pub with_fallback : Service → Router → Router
  with_fallback svc r = record r { fallback = some svc }

  unfoldable pub find_route : Bytes → List (Bytes × Service) → Option Service
  find_route path [] = none
  find_route path ((key, svc) ∷ routes) =
      let rest = find_route path routes in
      if starts_with path key && starts_with (drop (length key) path) (b'/' ∷ [])
      then some svc
      else rest

  unfoldable pub route : Bytes → Router → Option Service
  unfolding find_route
  route path r = find_route path r.routes

  -- `path` is the path of the URI, and `respond` makes a response with an empty body of headers.
  unfoldable pub call : (Req → Bytes) → (Headers → Resp) → Router → Req → Resp
  unfolding route
  call path respond r req = elim (route (path req) r) [
    | some svc ↦ svc req
    | none ↦ elim r.fallback [
      | some fallback ↦ fallback req
      | none ↦
          respond (Status.into_http x (Status.new x Code.unimplemented (ascii "service not found")))
    ]
  ]
