-- ===== src/Orchestrator/Cursors.antt =====
-- orchestrator_core.go: the operations that set the cursors from outside the loop.
pub mod Alignment
use Prim.Native.String.{String}
use text.Mathlib.Text.{◌==◌ as str_eq}
use web3_indexer_go.Base.{
  ℕ, ◌+◌, ◌-◌, Bool, false, ◌&&◌, ◌||◌, Option, none, some, ltb, ◌==◌, if◌then◌else◌, [],
}
use web3_indexer_go.Fetcher.{Fetcher, clear_jobs}
use web3_indexer_go.AsyncWriter.{AsyncWriter}
use web3_indexer_go.Orchestrator.State.{unknown, CoordinatorState, Orchestrator, u64}

-- The literal of `GetOrchestrator` and of `Reset`; `zero_progress` is 0.0.
unfoldable pub new_state : {F L : Type 0} → F → ℕ → ℕ → CoordinatorState F L
new_state zero_progress now safety_buffer = record {
  latest_height = 0;
  target_height = 0;
  fetched_height = 0;
  synced_cursor = 0;
  transfers = 0;
  is_eco_mode = false;
  progress = zero_progress;
  system_state = unknown;
  updated_at = now;
  last_user_activity = now;
  safety_buffer = safety_buffer;
  success_count = 0;
  jobs_depth = 0;
  results_depth = 0;
  log_entry = none;
}

abbrev pub with_cursors : {F L : Type 0} → ℕ → CoordinatorState F L → CoordinatorState F L
with_cursors h s = record s {
  latest_height = h;
  fetched_height = h;
  synced_cursor = h;
  target_height = h;
}

abbrev cleared : Option Fetcher → Option Fetcher
cleared none = none
cleared (some f) = some (clear_jobs f)

abbrev pub is_absent : String → Bool
is_absent t = str_eq t "" || str_eq t "0"

abbrev text_of : Option String → String
text_of none = ""
text_of (some t) = t

-- The text of the greatest block, when the checkpoint's is absent and there is a block.
abbrev from_blocks : (ℕ → String) → String → Option ℕ → String
from_blocks print t none = t
from_blocks print t (some n) = if is_absent t && ltb 0 n then print n else t

module _ {F L B T : Type 0} where
  -- `no_time` is the zero `time.Time` of the snapshot.
  unfoldable pub get_orchestrator : F → ℕ → ℕ → Orchestrator F L B T
  unfolding new_state
  get_orchestrator zero_progress no_time now = record {
    cmd_chan = [];
    state = new_state zero_progress now 1;
    snapshot = new_state zero_progress no_time 0;
    msg_seq = 0;
    cancelled = false;
    broadcast_ch = [];
    broadcast_dropped = 0;
    pending_height_update = none;
    last_height_merge_time = now;
    async_writer = none;
    fetcher = none;
  }

  -- `initial` is the strategy's `GetInitialSafetyBuffer`.
  unfoldable pub init : Option Fetcher → ℕ → Orchestrator F L B T → Orchestrator F L B T
  init fetcher initial o = record o {
    fetcher = fetcher;
    state = record (o.state) { safety_buffer = initial };
  }

  unfoldable pub set_async_writer : AsyncWriter B T → Orchestrator F L B T → Orchestrator F L B T
  set_async_writer w o = record o { async_writer = some w }

  unfoldable pub restore_state : CoordinatorState F L → Orchestrator F L B T → Orchestrator F L B T
  restore_state s o = record o { state = s; snapshot = s }

  -- `rpcHeight+1000` wraps.
  unfoldable pub snap_to_reality : ℕ → Orchestrator F L B T → Orchestrator F L B T
  snap_to_reality rpc_height o =
      if ltb (u64 (rpc_height + 1000)) o.state.latest_height
      then record o {
        state = with_cursors rpc_height o.state;
        snapshot = with_cursors rpc_height o.state;
      }
      else o

  unfoldable pub force_set_cursors : ℕ → Orchestrator F L B T → Orchestrator F L B T
  force_set_cursors h o = record o {
    state = with_cursors h o.state;
    snapshot = with_cursors h o.state;
    fetcher = cleared o.fetcher;
  }

  unfoldable pub reset_to_zero : Orchestrator F L B T → Orchestrator F L B T
  reset_to_zero o = record o {
    state = with_cursors 0 o.state;
    snapshot = with_cursors 0 o.state;
    fetcher = cleared o.fetcher;
  }

  -- `initial` is the strategy's `GetInitialSafetyBuffer`, when there is a strategy.
  unfoldable pub reset : F → ℕ → Option ℕ → Orchestrator F L B T → Orchestrator F L B T
  reset zero_progress now initial o =
      let s = new_state zero_progress now (elim initial [ none ↦ 1 | some n ↦ n ]) in
      record o { state = s; snapshot = s }

  abbrev aligned : Option ℕ → Orchestrator F L B T → Orchestrator F L B T
  aligned none o = o
  aligned (some n) o =
      let s = record (o.state) { synced_cursor = u64 n } in record o { state = s; snapshot = s }

  -- `parse` and `print` are the decimal `SetString` and `Sprintf`. The queries answer with the
  -- checkpoint's text (none is an error, which leaves it empty) and with the greatest block number.
  unfoldable pub load_initial_state :
      (String → Option ℕ)
      → (ℕ → String)
      → Option String
      → Option ℕ
      → Orchestrator F L B T
      → Orchestrator F L B T
  load_initial_state parse print checkpoint max_in_db o =
      let found = from_blocks print (text_of checkpoint) max_in_db in
      if is_absent found then o else aligned (parse found) o

-- `GetSyncLag`, for heights below 2 ^ 63.
unfoldable pub get_sync_lag : {F L B T : Type 0} → Orchestrator F L B T → ℕ
get_sync_lag o =
    let s = o.snapshot in if s.latest_height == 0 then 0 else s.latest_height - s.synced_cursor
