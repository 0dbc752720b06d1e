-- ===== src/LazyManager.antt =====
-- internal/engine/lazy_manager.go: the manager that pauses the fetcher when nobody uses the indexer.
-- Times are nanoseconds. The linearity check of the guard, the status callback and the
-- orchestrator's record of the activity are not in the state; a goroutine that is started is a step
-- at once.
pub mod Sleep
mod Tests
use web3_indexer_go.Base.{
  ℕ, ◌+◌, ◌-◌, Bool, true, false, ◌&&◌, ◌||◌, not, List, [], ◌∷◌, Option, none, some, ltb,
  if◌then◌else◌, is_some,
}
use web3_indexer_go.Fetcher.{Fetcher, pause, resume}
use web3_indexer_go.StateManager.{StateManager, idle, record_access, transition_to}

pub record LazyManager (I : Type 0) : Type 0 where
  pub is_active : Bool
  pub is_always_active : Bool
  pub last_heartbeat : ℕ
  pub last_block_time : ℕ
  pub timeout : ℕ
  pub fetcher : Fetcher
  pub state_manager : Option (StateManager I)

-- What `getStatusLocked` reports: the mode and the seconds until the sleep, with its source.
pub data Status : Type 0 where
  lab_mode : Status
  active_by_blocks : ℕ → Status
  active_by_user : ℕ → Status
  sleeping : Status

-- A state manager is asked to wake the indexer; without one the fetcher is resumed.
unfoldable pub woken_manager : {I : Type 0} → ℕ → Option (StateManager I) → Option (StateManager I)
unfolding record_access
woken_manager now none = none
woken_manager now (some sm) = some (record_access now sm)

unfoldable pub idle_manager : {I : Type 0} → Option (StateManager I) → Option (StateManager I)
unfolding transition_to
idle_manager none = none
idle_manager (some sm) = some (transition_to idle sm)

module _ {I : Type 0} where
  unfoldable pub new_lazy_manager : Fetcher → ℕ → ℕ → LazyManager I
  unfolding pause
  new_lazy_manager fetcher timeout now = record {
    is_active = false;
    is_always_active = false;
    last_heartbeat = now - timeout;
    last_block_time = 0;
    timeout = timeout;
    fetcher = pause fetcher;
    state_manager = none;
  }

  unfoldable pub set_state_manager : StateManager I → LazyManager I → LazyManager I
  set_state_manager sm m = record m { state_manager = some sm }

  unfoldable pub set_always_active : Bool → LazyManager I → LazyManager I
  unfolding resume
  set_always_active enabled m = record m {
    is_always_active = enabled;
    is_active = if enabled then true else m.is_active;
    fetcher = if enabled then resume m.fetcher else m.fetcher;
  }

  -- The wake-up that a block and a heartbeat share.
  unfoldable pub wake : Bool → ℕ → LazyManager I → LazyManager I
  unfolding resume woken_manager
  wake sleeps now m = record m {
    is_active = if sleeps then true else m.is_active;
    state_manager = if sleeps then woken_manager now m.state_manager else m.state_manager;
    fetcher = if sleeps && not (is_some m.state_manager) then resume m.fetcher else m.fetcher;
  }

  unfoldable pub notify_block_processed : ℕ → LazyManager I → LazyManager I
  unfolding wake
  notify_block_processed now m =
      wake (not m.is_active && not m.is_always_active) now (record m { last_block_time = now })

  unfoldable pub trigger : ℕ → LazyManager I → LazyManager I
  unfolding wake
  trigger now m =
      wake (not m.is_always_active && not m.is_active) now
        (record m { last_heartbeat = if m.is_always_active then m.last_heartbeat else now })

  -- Whether the monitor puts the manager to sleep; the lag is that of the height oracle's snapshot,
  -- zero when the indexer is ahead.
  unfoldable pub falls_asleep : ℕ → ℕ → ℕ → LazyManager I → Bool
  falls_asleep now chain_head indexed_head m =
      not m.is_always_active
      && m.is_active
      && ltb m.timeout (now - m.last_heartbeat)
      && not (ltb 10 (chain_head - indexed_head))

  unfoldable pub monitor_tick : ℕ → ℕ → ℕ → LazyManager I → LazyManager I
  unfolding falls_asleep pause idle_manager
  monitor_tick now chain_head indexed_head m =
      let sleeps = falls_asleep now chain_head indexed_head m in
      record m {
        is_active = if sleeps then false else m.is_active;
        state_manager = if sleeps then idle_manager m.state_manager else m.state_manager;
        fetcher = if sleeps && not (is_some m.state_manager) then pause m.fetcher else m.fetcher;
      }

  -- `sleep_in` in nanoseconds, zero where the code's would be negative.
  unfoldable pub get_status : ℕ → LazyManager I → Status
  get_status now m =
      let by_blocks = ltb m.last_heartbeat m.last_block_time in
      let last_activity = if by_blocks then m.last_block_time else m.last_heartbeat in
      let remaining = m.timeout - (now - last_activity) in
      if m.is_always_active
      then lab_mode
      else (if m.is_active || by_blocks
          then (if by_blocks then active_by_blocks remaining else active_by_user remaining)
          else sleeping)

-- What happens to a manager.
pub data Label : Type 0 where
  triggered : ℕ → Label
  block_processed : ℕ → Label
  ticked : ℕ → ℕ → ℕ → Label

module _ {I : Type 0} where
  unfoldable pub step : Label → LazyManager I → LazyManager I
  unfolding trigger notify_block_processed monitor_tick
  step (triggered now) m = trigger now m
  step (block_processed now) m = notify_block_processed now m
  step (ticked now chain_head indexed_head) m = monitor_tick now chain_head indexed_head m

  unfoldable pub run : List Label → LazyManager I → LazyManager I
  unfolding step
  run [] m = m
  run (l ∷ ls) m = run ls (step l m)
