-- ===== src/Tests/Listener.antt =====
-- The accept loop at concrete inputs, with a semaphore that is its number of permits.
use pure_grpc_rs.Base.{
  ℕ, zero, suc, ◌<◌, ◌≤◌, true, [], ◌∷◌, Option, none, some, ◌≡◌, refl, arith, Result, ok, length,
}
use pure_grpc_rs.Base.Words.{Bytes}
use pure_grpc_rs.Listener.Limit.{Reach-le, Step-holding}
use pure_grpc_rs.Listener.Served.{WillServe, accepted-WillServe}
use pure_grpc_rs.Listener.{
  Semaphore, Task, selecting, holding, Listener, incoming, accepts, closes, Reach, started, later,
  accepted, admit,
}

-- A permit is the number of those that were there.
abbrev take_one : ℕ → Option (ℕ × ℕ)
take_one zero = none
take_one (suc n) = some (suc n, n)

take_one-some : (s : ℕ) → 0 < s → (p : ℕ) × (s' : ℕ) × (take_one s ≡ some (p, s')) × (s ≡ suc s')
take_one-some zero l = absurd (omega (arith, l))
take_one-some (suc n) l = (suc n, n, refl, refl)

take_one-none : (s : ℕ) → s ≡ 0 → take_one s ≡ none
take_one-none zero e = refl
take_one-none (suc n) e = absurd (omega (arith, e))

abbrev permits : Semaphore
permits = record {
  Sem = ℕ;
  Permit = ℕ;
  new = λ n. n;
  available_permits = λ n. n;
  try_acquire = take_one;
  drop_permit = λ p n. suc n;
  available_permits-new = λ n. refl;
  try_acquire-some = take_one-some;
  try_acquire-none = take_one-none;
  available_permits-drop_permit = λ p n. refl;
}

abbrev delayed : ℕ → Result Bytes (Unit {0})
delayed c = ok tt

abbrev first_task : Task permits ℕ
first_task = record { connection = 7; permit = 1 }

-- One connection is served.
abbrev busy : Listener permits ℕ
busy = record { sem = 0; connections = first_task ∷ []; phase = selecting }

busy_reached : Reach permits 1 true delayed busy
unfolding accepted admit
busy_reached = later started (accepts (ok 7) refl)

-- And another one waits.
abbrev full : Listener permits ℕ
full = record { sem = 0; connections = first_task ∷ []; phase = holding 8 }

full_reached : Reach permits 1 true delayed full
unfolding accepted admit
full_reached = later busy_reached (accepts (ok 8) refl)

abbrev freed : Listener permits ℕ
freed = record { sem = 1; connections = []; phase = holding 8 }

Reach-le_example : length full.connections ≤ 1
Reach-le_example = Reach-le permits 1 true delayed full_reached

Step-holding_example : (freed.phase ≡ holding 8) × (suc (length freed.connections) ≡ 1)
Step-holding_example =
    Step-holding permits 1 true delayed 8 full_reached refl refl (closes [] [] first_task refl)

accepted-WillServe_example :
    WillServe permits 1 true delayed 8 2 (accepted permits true delayed (ok 8) busy)
    × WillServe permits 1 true delayed 8 2 (incoming permits (some 8) busy)
accepted-WillServe_example =
    accepted-WillServe permits 1 true delayed 8 (omega arith) busy_reached refl
