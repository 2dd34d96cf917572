-- ===== src/Listener.antt =====
-- The accept loops of grpc-server/src/server.rs (`serve_listener_with_shutdown`) and
-- grpc-server/src/h3_server.rs (`run_accept_loop`). The state is that between two events; what
-- `tokio::select!` picks, and when connections close, is up to the runs. `Semaphore` is what the
-- code uses of `tokio::sync::Semaphore`, which it never closes.
pub mod Limit
pub mod Served
use pure_grpc_rs.Base.{
  ℕ, suc, zero, ◌+◌, ◌-◌, ◌<◌, Bool, true, false, List, [], ◌∷◌, ◌++◌, Option, none, some, ◌≡◌,
  Result, ok, err,
}
use pure_grpc_rs.Base.Words.{Bytes}

pub record Semaphore : Type 1 where
  pub Sem : Type 0
  pub new : ℕ → Sem
  pub available_permits : Sem → ℕ
  pub Permit : Type 0
  pub try_acquire : Sem → Option (Permit × Sem)
  -- `Drop` of a permit.
  pub drop_permit : Permit → Sem → Sem
  pub available_permits-new : (n : ℕ) → available_permits (new n) ≡ n
  pub try_acquire-some :
      (s : Sem)
      → 0 < available_permits s
      → (p : Permit) × (s' : Sem) × (try_acquire s ≡ some (p, s'))
        × (available_permits s ≡ suc (available_permits s'))
  pub try_acquire-none : (s : Sem) → available_permits s ≡ 0 → try_acquire s ≡ none
  pub available_permits-drop_permit :
      (p : Permit) (s : Sem) → available_permits (drop_permit p s) ≡ suc (available_permits s)

-- At the `select!`, in `acquire_owned().await` with an accepted connection, or behind the loop.
pub data Phase (C : Type 0) : Type 0 where
  selecting : Phase C
  holding : C → Phase C
  stopped : Result Bytes (Unit {0}) → Phase C

-- A spawned task, with what has moved into it: the connection that it serves, and its permit.
pub record Task (m : Semaphore) (C : Type 0) : Type 0 where
  pub connection : C
  pub permit : m.Permit

-- The tasks that run, in the order in which they were spawned.
pub record Listener (m : Semaphore) (C : Type 0) : Type 0 where
  pub sem : m.Sem
  pub connections : List (Task m C)
  pub phase : Phase C

module _ (m : Semaphore) {C : Type 0} where
  abbrev pub listen : ℕ → Listener m C
  listen concurrency_limit = record {
    sem = m.new concurrency_limit;
    connections = [];
    phase = selecting;
  }

  -- `tokio::spawn` of the task that serves a connection.
  abbrev pub spawn : C → m.Permit → m.Sem → Listener m C → Listener m C
  spawn c p sem' l = record l {
    sem = sem';
    connections = l.connections ++ (record { connection = c; permit = p } ∷ []);
    phase = selecting;
  }

  -- A task whose `serve_connection` is over comes to the end of its block, where `_permit` is
  -- dropped.
  abbrev pub finish_task :
      List (Task m C) → Task m C → List (Task m C) → Listener m C → Listener m C
  finish_task before t after l = record l {
    sem = m.drop_permit t.permit l.sem;
    connections = before ++ after;
  }

  abbrev stop : Result Bytes (Unit {0}) → Listener m C → Listener m C
  stop r l = record l { phase = stopped r }

  -- A connection that has been accepted asks for a permit.
  unfoldable pub admit : C → Listener m C → Listener m C
  admit c l = elim (m.try_acquire l.sem) [
    | some (p, sem') ↦ spawn c p sem' l
    | none ↦ record l { phase = holding c }
  ]

  abbrev pub nodelay : Bool → (C → Result Bytes (Unit {0})) → C → Result Bytes (Unit {0})
  nodelay true set_nodelay c = set_nodelay c
  nodelay false set_nodelay c = ok tt

  -- The branch of `listener.accept()`.
  unfoldable pub accepted :
      Bool → (C → Result Bytes (Unit {0})) → Result Bytes C → Listener m C → Listener m C
  unfolding admit
  accepted tcp_nodelay set_nodelay (err e) l = stop (err e) l
  accepted tcp_nodelay set_nodelay (ok stream) l = elim (nodelay tcp_nodelay set_nodelay stream) [
    | err e ↦ stop (err e) l
    | ok _ ↦ admit stream l
  ]

  -- The branch of `endpoint.accept()`.
  unfoldable pub incoming : Option C → Listener m C → Listener m C
  unfolding admit
  incoming none l = stop (ok tt) l
  incoming (some c) l = admit c l

  -- The branch of the signal.
  abbrev pub signalled : Listener m C → Listener m C
  signalled l = stop (ok tt) l

  -- One event: each branch of `select!` where the loop selects, a permit where it waits for one,
  -- and a connection that closes at any time, also behind the loop.
  pub data Step (tcp_nodelay : Bool) (set_nodelay : C → Result Bytes (Unit {0})) (l : Listener m C)
      : Listener m C → Type 0 where
    accepts :
        (result : Result Bytes C)
        → l.phase ≡ selecting
        → Step tcp_nodelay set_nodelay l (accepted tcp_nodelay set_nodelay result l)
    takes : (c : Option C) → l.phase ≡ selecting → Step tcp_nodelay set_nodelay l (incoming c l)
    shuts_down : l.phase ≡ selecting → Step tcp_nodelay set_nodelay l (signalled l)
    acquires :
        (c : C) (p : m.Permit) (sem' : m.Sem)
        → l.phase ≡ holding c
        → m.try_acquire l.sem ≡ some (p, sem')
        → Step tcp_nodelay set_nodelay l (spawn c p sem' l)
    closes :
        (before after : List (Task m C)) (t : Task m C)
        → l.connections ≡ before ++ (t ∷ after)
        → Step tcp_nodelay set_nodelay l (finish_task before t after l)

  pub data Reach (limit : ℕ) (tcp_nodelay : Bool) (set_nodelay : C → Result Bytes (Unit {0}))
      : Listener m C → Type 0 where
    started : Reach limit tcp_nodelay set_nodelay (listen limit)
    later :
        {l l' : Listener m C}
        → Reach limit tcp_nodelay set_nodelay l
        → Step tcp_nodelay set_nodelay l l'
        → Reach limit tcp_nodelay set_nodelay l'
