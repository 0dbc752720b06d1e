-- ===== src/GlobalState.antt =====
-- internal/engine/global_state.go: the shared state behind a sync.RWMutex, which is not reentrant.
-- `none` is a call that waits for a lock which its own goroutine holds. `Q` is float64; int32 values
-- are in two's complement, below 2 ^ 32.
pub mod Deadlock
mod Tests
use web3_indexer_go.Base.{
  ℕ, ◌+◌, Bool, true, false, Option, none, some, List, [], ◌∷◌, ◌++◌, map, ltb, ◌==◌, not,
  if◌then◌else◌, length,
}
use web3_indexer_go.Orchestrator.State.{
  SystemState, unknown, idle, active, catching_up, stalled, healing, degraded, running, optimizing,
  throttled, u64,
}
use web3_indexer_go.Orchestrator.Evaluate.{update_pipeline_depth}

pub data Mutex : Type 0 where
  free : Mutex
  read_locked : Mutex
  write_locked : Mutex

pub record Snapshot (Q : Type 0) : Type 0 where
  pub on_chain_height : ℕ
  pub db_cursor : ℕ
  pub total_transfers : ℕ
  pub system_state : SystemState
  pub pipeline_depth : ℕ
  pub quota_usage : Q
  pub last_update : ℕ
  pub jobs_queue_depth : ℕ
  pub results_depth : ℕ
  pub sequencer_buffer : ℕ

-- The protected values are those of a snapshot; `subscribers` are their channels, of 100 places.
pub record GlobalState (Q : Type 0) : Type 0 where
  pub mutex : Mutex
  pub values : Snapshot Q
  pub max_jobs_capacity : ℕ
  pub max_results_capacity : ℕ
  pub max_sequencer_buffer : ℕ
  pub subscribers : List (List (Snapshot Q))

-- `state != s.systemState`, by the number of the state.
abbrev pub number_of : SystemState → ℕ
number_of unknown = 0
number_of idle = 1
number_of active = 2
number_of catching_up = 3
number_of stalled = 4
number_of healing = 5
number_of degraded = 6
number_of running = 7
number_of optimizing = 8
number_of throttled = 9

module _ {Q : Type 0} where
  unfoldable pub lock : GlobalState Q → Option (GlobalState Q)
  lock s = elim s.mutex [
    | free ↦ some (record s { mutex = write_locked })
    | read_locked ↦ none
    | write_locked ↦ none
  ]

  unfoldable pub unlock : GlobalState Q → GlobalState Q
  unlock s = record s { mutex = free }

  -- `Snapshot` takes the read lock and gives it back.
  unfoldable pub snapshot : GlobalState Q → Option (Snapshot Q)
  snapshot s = elim s.mutex [
    | free ↦ some s.values
    | read_locked ↦ some s.values
    | write_locked ↦ none
  ]

  abbrev deliver : Snapshot Q → List (Snapshot Q) → List (Snapshot Q)
  deliver v ch = if ltb (length ch) 100 then ch ++ v ∷ [] else ch

  unfoldable pub notify_subscribers : GlobalState Q → Option (GlobalState Q)
  notify_subscribers s = elim (snapshot s) [
    | none ↦ none
    | some v ↦ some (record s { subscribers = map (deliver v) s.subscribers })
  ]

  -- Between `Lock` and `Unlock`: either new values, with the notice, or nothing.
  unfoldable pub changed : Bool → Snapshot Q → GlobalState Q → Option (GlobalState Q)
  changed changes v s = elim (lock s) [
    | none ↦ none
    | some l ↦
        if changes
        then elim (notify_subscribers (record l { values = v })) [
          | none ↦ none
          | some n ↦ some (unlock n)
        ]
        else some (unlock l)
  ]

  unfoldable pub update_chain_head : ℕ → ℕ → GlobalState Q → Option (GlobalState Q)
  update_chain_head now h s =
      changed (ltb s.values.on_chain_height h)
        (record (s.values) { on_chain_height = h; last_update = now }) s

  unfoldable pub advance_db_cursor : ℕ → ℕ → GlobalState Q → Option (GlobalState Q)
  advance_db_cursor now h s =
      changed (ltb s.values.db_cursor h) (record (s.values) { db_cursor = h; last_update = now }) s

  unfoldable pub set_system_state : ℕ → SystemState → GlobalState Q → Option (GlobalState Q)
  set_system_state now x s =
      changed (not (number_of s.values.system_state == number_of x))
        (record (s.values) { system_state = x; last_update = now }) s

  -- A method that only sets values under the lock.
  unfoldable pub set_values : Snapshot Q → GlobalState Q → Option (GlobalState Q)
  set_values v s = elim (lock s) [ none ↦ none | some l ↦ some (unlock (record l { values = v })) ]

  unfoldable pub increment_transfers : ℕ → ℕ → GlobalState Q → Option (GlobalState Q)
  increment_transfers now n s =
      set_values
        (record (s.values) {
          total_transfers = u64 (s.values.total_transfers + n);
          last_update = now;
        })
        s

  unfoldable pub set_depths : ℕ → ℕ → ℕ → ℕ → GlobalState Q → Option (GlobalState Q)
  set_depths now jobs results sequencer s =
      set_values
        (record (s.values) {
          jobs_queue_depth = jobs;
          results_depth = results;
          sequencer_buffer = sequencer;
          last_update = now;
          pipeline_depth = update_pipeline_depth jobs results sequencer;
        })
        s

  unfoldable pub record_quota : ℕ → Q → GlobalState Q → Option (GlobalState Q)
  record_quota now usage s =
      set_values (record (s.values) { quota_usage = usage; last_update = now }) s

  unfoldable pub subscribe : GlobalState Q → Option (GlobalState Q)
  subscribe s = elim (lock s) [
    | none ↦ none
    | some l ↦ some (unlock (record l { subscribers = l.subscribers ++ [] ∷ [] }))
  ]
