-- ===== src/Health/Current.antt =====
-- What watching clients see of the statuses (grpc-health/src/lib.rs).
use pure_grpc_rs.Base.{
  ◌<◌, Option, none, some, String, ◌≡◌, refl, sym, ap, ◌∙◌, arith, if◌then◌else◌, unwrap_or,
}
use pure_grpc_rs.Base.Maps.{lookup}
use pure_grpc_rs.Health.{
  Watch, ServingStatus, service_unknown, HealthState, health_service, set_status, notify, check,
  watch, attach, initial_status, leave, watched,
}
use text.Mathlib.Text.{◌==◌}
use text.Mathlib.TextEquality.{eq_iff}

module _ (w : Watch ServingStatus) where
  -- Who watches a service sees the status that `check` answers.
  abbrev pub Current : HealthState w → Type 0
  Current s =
      (name : String) (status : ServingStatus)
      → watched w name s ≡ some status
      → status ≡ check w name s

  -- The channel of the service, if there is one, has a receiver.
  abbrev pub IsHeard : String → HealthState w → Type 0
  IsHeard name s = (tx : w.Sender) → lookup name s.watchers ≡ some tx → 0 < w.receiver_count tx

  pub health_service-Current : Current (health_service w)
  unfolding watched lookup
  health_service-Current name status e = absurd (cc e)

  watched-attach_of :
      (k j : String) (o : Option ServingStatus) (s : HealthState w) (t : Option w.Sender)
      → lookup k s.watchers ≡ t
      → watched w j (attach w k o s) ≡ (
          if k == j
          then some (unwrap_or (watched w k s) (unwrap_or o service_unknown))
          else watched w j s)
  unfolding attach watched lookup
  watched-attach_of k j o s none e =
      ground (arith, e, w.value-channel (unwrap_or o service_unknown))
  watched-attach_of k j o s (some tx) e = ground (arith, e, w.value-subscribe tx)

  -- A new watching client joins the channel, or opens one with the status that it has read.
  watched-attach :
      (k j : String) (o : Option ServingStatus) (s : HealthState w)
      → watched w j (attach w k o s) ≡ (
          if k == j
          then some (unwrap_or (watched w k s) (unwrap_or o service_unknown))
          else watched w j s)
  watched-attach k j o s = watched-attach_of k j o s (lookup k s.watchers) refl

  abbrev replaced : Option ServingStatus → ServingStatus → Option ServingStatus
  replaced none status = none
  replaced (some _) status = some status

  watched-set_status_of :
      (k j : String) (status : ServingStatus) (s : HealthState w) (t : Option w.Sender)
      → lookup k s.watchers ≡ t
      → IsHeard k s
      → watched w j (set_status w k status s)
        ≡ (if k == j then replaced (watched w k s) status else watched w j s)
  unfolding set_status notify watched lookup
  watched-set_status_of k j status s none e h = ground (arith, e, eq_iff k j)
  watched-set_status_of k j status s (some tx) e h =
      ground (arith, e, w.value-send status tx (h tx e))

  watched-set_status :
      (k j : String) (status : ServingStatus) (s : HealthState w)
      → IsHeard k s
      → watched w j (set_status w k status s)
        ≡ (if k == j then replaced (watched w k s) status else watched w j s)
  watched-set_status k j status s h =
      watched-set_status_of k j status s (lookup k s.watchers) refl h

  check-set_status :
      (k j : String) (status : ServingStatus) (s : HealthState w)
      → check w j (set_status w k status s) ≡ (if k == j then status else check w j s)
  unfolding set_status notify check lookup
  check-set_status k j status s = ground arith

  check-attach :
      (k j : String) (o : Option ServingStatus) (s : HealthState w)
      → check w j (attach w k o s) ≡ check w j s
  unfolding attach check
  check-attach k j o s = ground arith

  check-initial_status :
      (k : String) (s : HealthState w)
      → unwrap_or (initial_status w k s) service_unknown ≡ check w k s
  unfolding check
  check-initial_status k s = ground arith

  -- A client that joins sees the status that `check` answers.
  joined :
      (k : String) (s : HealthState w) (o : Option ServingStatus)
      → watched w k s ≡ o
      → Current s
      → watched w k (attach w k (initial_status w k s) s) ≡ some (check w k s)
  joined k s none e c =
      ground (
        arith,
        watched-attach k k (initial_status w k s) s,
        check-initial_status k s,
        e,
        eq_iff k k,
      )
  joined k s (some status) e c =
      ground (arith, watched-attach k k (initial_status w k s) s, e, c k status e, eq_iff k k)

  pub watch-Current :
      (k : String) (s : HealthState w)
      → Current s
      → Current (watch w k s) × (watched w k (watch w k s) ≡ some (check w k s))
  unfolding watch
  watch-Current k s c =
      let o = initial_status w k s in
      (
        λ j status e. ground (
          arith,
          watched-attach k j o s,
          check-attach k j o s,
          check-initial_status k s,
          eq_iff k j,
          c j status,
          c k (unwrap_or (watched w k s) service_unknown),
          e,
        ),
        joined k s (watched w k s) refl c,
      )

  pub set_status-Current :
      (k : String) (status : ServingStatus) (s : HealthState w)
      → Current s
      → IsHeard k s
      → Current (set_status w k status s)
  set_status-Current k status s c h j status' e =
      ground
        (arith, watched-set_status k j status s h, check-set_status k j status s, c j status', e)

  -- A client that goes away changes nothing for the others.
  watched-leave_of :
      (k j : String) (s : HealthState w) (t : Option w.Sender)
      → lookup k s.watchers ≡ t
      → (watched w j (leave w k s) ≡ watched w j s) × (check w j (leave w k s) ≡ check w j s)
  unfolding leave watched lookup check
  watched-leave_of k j s none e = ground (arith, e)
  watched-leave_of k j s (some tx) e =
      ground (arith, e, ap (λ i. lookup i s.watchers), eq_iff k j, w.value-drop_receiver tx)

  pub leave-Current : (k : String) (s : HealthState w) → Current s → Current (leave w k s)
  leave-Current k s c j status e =
      ground (arith, watched-leave_of k j s (lookup k s.watchers) refl, c j status, e)

  -- What can happen to the service, one thing after the other: a status is set of a service whose
  -- watching clients have not all gone away, a client starts to watch, or it goes away.
  pub data Runs : HealthState w → HealthState w → Type 0 where
    rests : {s : HealthState w} → Runs s s
    sets :
        {s t : HealthState w} (k : String) (status : ServingStatus)
        → IsHeard k s
        → Runs (set_status w k status s) t
        → Runs s t
    watches : {s t : HealthState w} (k : String) → Runs (watch w k s) t → Runs s t
    leaves : {s t : HealthState w} (k : String) → Runs (leave w k s) t → Runs s t

  Runs-Current : {s t : HealthState w} → Runs s t → Current s → Current t
  Runs-Current rests c = c
  Runs-Current {s} (sets k status h r) c = Runs-Current r (set_status-Current k status s c h)
  Runs-Current {s} (watches k r) c = Runs-Current r (watch-Current k s c).0
  Runs-Current {s} (leaves k r) c = Runs-Current r (leave-Current k s c)

  -- Start with a new health service, and let statuses be set one after the other of services whose
  -- channel has a receiver or is not there, and clients begin to watch and go away. Then who
  -- watches a service sees the status that `check` answers, and so does a client that begins to
  -- watch it now.
  pub watched-check :
      {s : HealthState w} (k : String) (status : ServingStatus)
      → Runs (health_service w) s
      → watched w k s ≡ some status
      → (status ≡ check w k s) × (watched w k (watch w k s) ≡ some status)
  watched-check {s} k status r e =
      let c = Runs-Current r health_service-Current in
      let here = c k status e in (here, (watch-Current k s c).1 ∙ ap some (sym here))

  -- Setting the status of a service reaches everyone who watches it, where its channel has a
  -- receiver, and `check` answers the new status.
  pub set_status-heard :
      (s : HealthState w) (k : String) (status st : ServingStatus)
      → IsHeard k s
      → watched w k s ≡ some st
      → (watched w k (set_status w k status s) ≡ some status)
        × (check w k (set_status w k status s) ≡ status)
  set_status-heard s k status st h e =
      ground
        (arith, watched-set_status k k status s h, check-set_status k k status s, e, eq_iff k k)

  -- If all the clients that watched a service have gone away when its status is set, then a client
  -- that begins to watch it afterwards sees the status from before, while `check` answers the new
  -- one.
  pub set_status-unheard :
      (k : String) (status : ServingStatus) (s : HealthState w) (tx : w.Sender)
      → lookup k s.watchers ≡ some tx
      → w.receiver_count tx ≡ 0
      → (watched w k (watch w k (set_status w k status s)) ≡ watched w k s)
        × (check w k (watch w k (set_status w k status s)) ≡ status)
  unfolding watch set_status notify watched attach lookup check
  set_status-unheard k status s tx e z =
      ground (arith, e, w.send-closed status tx z, eq_iff k k, w.value-subscribe tx)

  -- If a client begins to watch a service that has no channel, and the status is set after the
  -- client has read it and before the channel is opened, then the client sees the status from
  -- before, while `check` answers the new one.
  pub watch-raced :
      (k : String) (status : ServingStatus) (s : HealthState w)
      → lookup k s.watchers ≡ none
      → let raced = attach w k (initial_status w k s) (set_status w k status s) in
        (watched w k raced ≡ some (check w k s)) × (check w k raced ≡ status)
  unfolding set_status notify watched attach lookup check
  watch-raced k status s e = ground (arith, e, eq_iff k k, w.value-channel (check w k s))
