-- ===== src/Watchdog.antt =====
-- internal/engine/watchdog_deadlock.go: the watchdog that resets the sequencer and the cursors when
-- the indexer has stalled far behind the chain. Heights are below 2 ^ 63 and not negative.
pub mod Healing
mod Tests
use web3_indexer_go.Base.{
  ℕ, ◌+◌, ◌-◌, ◌*◌, Bool, true, false, ◌&&◌, Option, none, some, ltb, if◌then◌else◌,
}
use web3_indexer_go.Sequencer.State.{Env, Sequencer}
use web3_indexer_go.Sequencer.Stall.{
  second, get_idle_time, reset_expected_block, get_expected_block, clear_buffer,
}
use web3_indexer_go.Orchestrator.State.{healing, Orchestrator}
use web3_indexer_go.Orchestrator.Loop.{dispatch_system_state}
use web3_indexer_go.Orchestrator.Cursors.{force_set_cursors}

pub record DeadlockWatchdog : Type 0 where
  pub enabled : Bool
  pub stall_threshold : ℕ
  pub check_interval : ℕ
  pub gap_threshold : ℕ
  pub has_fetcher : Bool

abbrev pub new_deadlock_watchdog : DeadlockWatchdog
new_deadlock_watchdog = record {
  enabled = false;
  stall_threshold = 120 * second;
  check_interval = 30 * second;
  gap_threshold = 1000;
  has_fetcher = false;
}

unfoldable pub set_fetcher : Bool → DeadlockWatchdog → DeadlockWatchdog
set_fetcher is_set w = record w { has_fetcher = is_set }

unfoldable pub set_gap_threshold : ℕ → DeadlockWatchdog → DeadlockWatchdog
set_gap_threshold blocks w = record w {
  gap_threshold = if ltb 0 blocks then blocks else w.gap_threshold;
}

unfoldable pub enable : DeadlockWatchdog → DeadlockWatchdog
enable w = record w { enabled = true }

pub record HealingEvent : Type 0 where
  pub db_watermark : ℕ
  pub rpc_height : ℕ
  pub gap_size : ℕ
  pub success : Bool

-- What the watchdog reads and writes; `cursor` is the checkpoint of the database.
pub record System (F L B T Block Log Err : Type 0) : Type 0 where
  pub sequencer : Sequencer Block Log Err
  pub orchestrator : Orchestrator F L B T
  pub cursor : ℕ

-- The answers of the RPC pool and of the repository: none, or false, is an error.
pub record Answers : Type 0 where
  pub latest_block_number : Option ℕ
  pub sync_cursor : Option ℕ
  pub cursor_updated : Bool

pub data Checked : Type 0 where
  -- nothing to do
  healthy : Checked
  rpc_failed : Checked
  cursor_unknown : Checked
  update_failed : HealingEvent → Checked
  -- the range that is handed to `Schedule` in another goroutine
  healed : HealingEvent → Option (ℕ × ℕ) → Checked

-- A gap above the threshold, before the sequencer and in the database.
unfoldable pub is_space_time_tear : ℕ → ℕ → ℕ → ℕ → Bool
is_space_time_tear gap_threshold rpc_height db_height expected =
    ltb (db_height + gap_threshold) rpc_height && ltb (expected + gap_threshold) rpc_height

unfoldable pub gap_range : Bool → ℕ → ℕ → Option (ℕ × ℕ)
gap_range has_fetcher db_height rpc_height =
    if has_fetcher && ltb (db_height + 1) rpc_height then some (db_height + 1, rpc_height) else none

abbrev pub healing_event : ℕ → ℕ → Bool → HealingEvent
healing_event db_height rpc_height success = record {
  db_watermark = db_height;
  rpc_height = rpc_height;
  gap_size = rpc_height - db_height;
  success = success;
}

module _ {F L B T Block Log Err : Type 0} (env : Env Block Log Err) where
  -- The three steps; the sends of the orchestrator's channel take `sends` in a `select`.
  unfoldable pub heal : Bool → ℕ → System F L B T Block Log Err → System F L B T Block Log Err
  unfolding reset_expected_block clear_buffer dispatch_system_state force_set_cursors
  heal sends rpc_height s = record {
    sequencer = clear_buffer (reset_expected_block env s.sequencer rpc_height);
    orchestrator =
        force_set_cursors (rpc_height - 1) (dispatch_system_state sends healing s.orchestrator);
    cursor = rpc_height - 1;
  }

  unfoldable pub try_heal :
      Bool
      → DeadlockWatchdog
      → Bool
      → ℕ
      → ℕ
      → System F L B T Block Log Err
      → System F L B T Block Log Err × Checked
  unfolding heal is_space_time_tear gap_range get_expected_block
  try_heal sends w updated rpc_height db_height s =
      if is_space_time_tear w.gap_threshold rpc_height db_height (get_expected_block s.sequencer)
      then (if updated
          then (
            heal sends rpc_height s,
            healed (healing_event db_height rpc_height true)
                (gap_range w.has_fetcher db_height rpc_height),
          )
          else (s, update_failed (healing_event db_height rpc_height false)))
      else (s, healthy)

  unfoldable pub with_answers :
      Bool
      → DeadlockWatchdog
      → Bool
      → Option ℕ
      → Option ℕ
      → System F L B T Block Log Err
      → System F L B T Block Log Err × Checked
  unfolding try_heal
  with_answers sends w updated none db s = (s, rpc_failed)
  with_answers sends w updated (some rpc) none s = (s, cursor_unknown)
  with_answers sends w updated (some rpc) (some db) s = try_heal sends w updated rpc db s

  unfoldable pub check_and_heal :
      Bool
      → DeadlockWatchdog
      → Answers
      → System F L B T Block Log Err
      → System F L B T Block Log Err × Checked
  unfolding with_answers get_idle_time
  check_and_heal sends w a s =
      if w.enabled
        && (if ltb (get_idle_time env s.sequencer) w.stall_threshold then false else true)
      then with_answers sends w a.cursor_updated a.latest_block_number a.sync_cursor s
      else (s, healthy)
