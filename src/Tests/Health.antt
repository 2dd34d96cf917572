-- ===== src/Tests/Health.antt =====
-- The health service at concrete inputs, with a channel that counts its receivers.
use pure_grpc_rs.Base.{ℕ, suc, ◌-◌, ◌<◌, zero, [], ◌∷◌, some, ◌≡◌, refl, arith}
use pure_grpc_rs.Base.Maps.{lookup}
use pure_grpc_rs.Health.{
  Watch, ServingStatus, serving, not_serving, HealthState, health_service, set_status, check, watch,
  attach, initial_status, watched,
}
use pure_grpc_rs.Health.Current.{
  Runs, rests, watches, watched-check, set_status-unheard, watch-raced,
}

-- A value and the number of receivers.
abbrev sent : ServingStatus → ServingStatus × ℕ → ServingStatus × ℕ
sent a (b, zero) = (b, zero)
sent a (b, suc n) = (a, suc n)

value_sent : (a : ServingStatus) (s : ServingStatus × ℕ) → 0 < s.1 → (sent a s).0 ≡ a
value_sent a (b, zero) l = absurd (omega (arith, l))
value_sent a (b, suc n) l = refl

sent_closed : (a : ServingStatus) (s : ServingStatus × ℕ) → s.1 ≡ 0 → sent a s ≡ s
sent_closed a (b, zero) e = refl
sent_closed a (b, suc n) e = absurd (omega (arith, e))

count_sent : (a : ServingStatus) (s : ServingStatus × ℕ) → (sent a s).1 ≡ s.1
count_sent a (b, zero) = refl
count_sent a (b, suc n) = refl

abbrev counted : Watch ServingStatus
counted = record {
  Sender = ServingStatus × ℕ;
  channel = λ a. (a, 1);
  subscribe = λ s. (s.0, suc s.1);
  send = sent;
  drop_receiver = λ s. (s.0, s.1 - 1);
  value = λ s. s.0;
  receiver_count = λ s. s.1;
  value-channel = λ a. refl;
  value-subscribe = λ s. refl;
  value-send = value_sent;
  send-closed = sent_closed;
  value-drop_receiver = λ s. refl;
  receiver_count-channel = λ a. refl;
  receiver_count-subscribe = λ s. refl;
  receiver_count-send = count_sent;
}

abbrev opened : HealthState counted
opened = record { statuses = ("", serving) ∷ []; watchers = ("", (serving, 1)) ∷ [] }

abbrev left_alone : HealthState counted
left_alone = record opened { watchers = ("", (serving, 0)) ∷ [] }

opened-Runs : Runs counted (health_service counted) opened
unfolding watch attach lookup
opened-Runs = watches "" rests

watched-check_example :
    (serving ≡ check counted "" opened)
    × (watched counted "" (watch counted "" opened) ≡ some serving)
unfolding watched lookup
watched-check_example = watched-check counted "" serving opened-Runs refl

set_status-unheard_example :
    (watched counted "" (watch counted "" (set_status counted "" not_serving left_alone))
      ≡ watched counted "" left_alone)
    × (check counted "" (watch counted "" (set_status counted "" not_serving left_alone))
        ≡ not_serving)
unfolding lookup
set_status-unheard_example =
    set_status-unheard counted "" not_serving left_alone (serving, 0) refl refl

watch-raced_example :
    (watched counted "" (
        attach counted ""
          (initial_status counted "" (health_service counted))
          (set_status counted "" not_serving (health_service counted)))
      ≡ some (check counted "" (health_service counted)))
    × (check counted "" (
          attach counted ""
            (initial_status counted "" (health_service counted))
            (set_status counted "" not_serving (health_service counted)))
        ≡ not_serving)
unfolding lookup
watch-raced_example = watch-raced counted "" not_serving (health_service counted) refl
