-- ===== src/Health.antt =====
-- grpc-health/src/lib.rs: the health service. `Watch` is what the code uses of the channels of
-- `tokio::sync::watch`. The two locks of the state are taken one after the other, so `set_status`
-- and the call of `WatchSvc` are two steps each.
pub mod Current
use pure_grpc_rs.Base.{ℕ, suc, ◌<◌, List, [], ◌∷◌, Option, none, some, String, ◌≡◌, unwrap_or}
use pure_grpc_rs.Base.Maps.{lookup, store}

pub data ServingStatus : Type 0 where
  unknown serving not_serving service_unknown : ServingStatus

-- `watch::Sender`, with the channel that it shares with its receivers. `send` fails without
-- receivers, and then does not store the value.
pub record Watch (A : Type 0) : Type 1 where
  pub Sender : Type 0
  pub channel : A → Sender
  pub subscribe : Sender → Sender
  pub send : A → Sender → Sender
  pub drop_receiver : Sender → Sender
  -- What a new or an attached receiver reads.
  pub value : Sender → A
  pub receiver_count : Sender → ℕ
  pub value-channel : (a : A) → value (channel a) ≡ a
  pub value-subscribe : (s : Sender) → value (subscribe s) ≡ value s
  pub value-send : (a : A) (s : Sender) → 0 < receiver_count s → value (send a s) ≡ a
  pub send-closed : (a : A) (s : Sender) → receiver_count s ≡ 0 → send a s ≡ s
  pub value-drop_receiver : (s : Sender) → value (drop_receiver s) ≡ value s
  pub receiver_count-channel : (a : A) → receiver_count (channel a) ≡ 1
  pub receiver_count-subscribe :
      (s : Sender) → receiver_count (subscribe s) ≡ suc (receiver_count s)
  pub receiver_count-send : (a : A) (s : Sender) → receiver_count (send a s) ≡ receiver_count s

module _ (w : Watch ServingStatus) where
  pub record HealthState : Type 0 where
    pub statuses : List (String × ServingStatus)
    pub watchers : List (String × w.Sender)

  -- `health_service`: the server as a whole is serving.
  abbrev pub health_service : HealthState
  health_service = record { statuses = ("", serving) ∷ []; watchers = [] }

  -- `set_status`, up to where it lets the statuses go.
  abbrev pub store_status : String → ServingStatus → HealthState → HealthState
  store_status service status s = record s { statuses = store service status s.statuses }

  -- The rest of `set_status`.
  unfoldable pub notify : String → ServingStatus → HealthState → HealthState
  notify service status s = elim (lookup service s.watchers) [
    | none ↦ s
    | some tx ↦ record s { watchers = store service (w.send status tx) s.watchers }
  ]

  unfoldable pub set_status : String → ServingStatus → HealthState → HealthState
  unfolding notify
  set_status service status s = notify service status (store_status service status s)

  abbrev pub set_serving : String → HealthState → HealthState
  set_serving service s = set_status service serving s

  abbrev pub set_not_serving : String → HealthState → HealthState
  set_not_serving service s = set_status service not_serving s

  -- The call of `CheckSvc`: the status of its response.
  unfoldable pub check : String → HealthState → ServingStatus
  check service_name s = elim (lookup service_name s.statuses) [
    | some status ↦ status
    | none ↦ service_unknown
  ]

  -- What the call of `WatchSvc` reads first.
  abbrev pub initial_status : String → HealthState → Option ServingStatus
  initial_status service_name s = lookup service_name s.statuses

  -- What it does then: its receiver is one of the channel of the service.
  unfoldable pub attach : String → Option ServingStatus → HealthState → HealthState
  attach service_name initial s = elim (lookup service_name s.watchers) [
    | some tx ↦ record s { watchers = store service_name (w.subscribe tx) s.watchers }
    | none ↦ record s {
      watchers = store service_name (w.channel (unwrap_or initial service_unknown)) s.watchers;
    }
  ]

  unfoldable pub watch : String → HealthState → HealthState
  unfolding attach
  watch service_name s = attach service_name (initial_status service_name s) s

  -- A client that goes away.
  unfoldable pub leave : String → HealthState → HealthState
  leave service_name s = elim (lookup service_name s.watchers) [
    | none ↦ s
    | some tx ↦ record s { watchers = store service_name (w.drop_receiver tx) s.watchers }
  ]

  -- What the stream of a watching client has last given, once it is at rest.
  unfoldable pub watched : String → HealthState → Option ServingStatus
  watched service_name s = elim (lookup service_name s.watchers) [
    | none ↦ none
    | some tx ↦ some (w.value tx)
  ]
