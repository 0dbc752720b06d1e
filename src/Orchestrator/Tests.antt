-- ===== src/Orchestrator/Tests.antt =====
-- Runs of the coordinator on concrete messages, and the theorems at concrete inputs.

use Prim.Native.String.{String}
use text.Mathlib.Text.{◌==◌ as str_eq}
use web3_indexer_go.Base.{
  ℕ, ◌-◌, ◌*◌, ◌≤◌, ◌≡◌, ◌↔◌, refl, true, false, List, [], ◌∷◌, map, take, Option, none, some,
  arith, ltb, if◌then◌else◌,
}
use web3_indexer_go.Fetcher.{Fetcher}
use web3_indexer_go.Orchestrator.State.{
  commit_disk, fetch_failed, notify_fetched, height, string, Floats, CoordinatorState, Orchestrator,
  running,
}
use web3_indexer_go.Orchestrator.Process.{
  process, handle, update_progress_and_snapshot, broadcast, handle_fetch_failed,
  handle_notify_fetch, handle_commit_disk,
}
use web3_indexer_go.Orchestrator.Evaluate.{
  evaluate_eco_mode, evaluate_system_state, flush_pending_height_update,
}
use web3_indexer_go.Orchestrator.Evaluate.Decisions.{evaluate_eco_mode_iff}
use web3_indexer_go.Orchestrator.Loop.{
  Label, drawn, sent, received, merged, decided, loop, loop_step, receive, draw, send,
}
use web3_indexer_go.Orchestrator.Loop.Invariant.{Forward, loop-Forward}

-- Percentages are rounded down here; log records, blocks and transfers are numbers.
abbrev percent : Floats ℕ
percent = record {
  of_height = λ h. h * 100;
  divide = λ a b. a - b;
  times = λ a b. a;
  exceeds = λ a b. ltb b a;
  hundred = 100;
}

abbrev State : Type 0
State = CoordinatorState ℕ ℕ

abbrev Coordinator : Type 0
Coordinator = Orchestrator ℕ ℕ ℕ ℕ

abbrev fresh : State
fresh = record {
  latest_height = 100;
  target_height = 99;
  fetched_height = 90;
  synced_cursor = 80;
  transfers = 0;
  is_eco_mode = false;
  progress = 0;
  system_state = running;
  updated_at = 0;
  last_user_activity = 0;
  safety_buffer = 3;
  success_count = 47;
  jobs_depth = 0;
  results_depth = 0;
  log_entry = none;
}

abbrev crowded : Fetcher
crowded = record {
  paused = false;
  stopped = false;
  jobs = [];
  jobs_cap = 160;
  results_depth = 1;
  results_cap = 15000;
}

abbrev start : Coordinator
start = record {
  cmd_chan = [];
  state = fresh;
  snapshot = fresh;
  msg_seq = 0;
  cancelled = false;
  broadcast_ch = [];
  broadcast_dropped = 0;
  pending_height_update = some 120;
  last_height_merge_time = 0;
  async_writer = none;
  fetcher = some crowded;
}

abbrev labels : List (Label ℕ ℕ ℕ)
labels =
    drawn
    ∷ drawn
    ∷ sent true fetch_failed (string "not_found") 2
    ∷ sent true notify_fetched (height 95) 1
    ∷ received 1
    ∷ merged
    ∷ drawn
    ∷ sent true commit_disk (height 85) 3
    ∷ received 2
    ∷ received 3
    ∷ decided 4
    ∷ []

loop-Forward_example : Forward fresh (loop percent labels start).state
loop-Forward_example = loop-Forward percent labels start

-- Two goroutines that draw their numbers in one order may send in the other.
sent_out_of_order : map (λ m. m.sequence) (loop percent (take 4 labels) start).cmd_chan ≡ 2 ∷ 1 ∷ []
unfolding loop loop_step draw send
sent_out_of_order = refl

evaluate_eco_mode_iff_example :
    (evaluate_eco_mode 5 start).state.is_eco_mode ≡ true
    ↔ (80 ≤ 100) × (100 ≤ 90) × (120000000000 ≤ 5)
evaluate_eco_mode_iff_example = evaluate_eco_mode_iff 5 start (omega arith) (omega arith)

abbrev seven : String → Option ℕ
seven t = if str_eq t "7" then some 7 else none

labels_run : (loop percent labels start).state.safety_buffer ≡ 4
unfolding loop loop_step receive draw send process handle handle_fetch_failed handle_notify_fetch
    handle_commit_disk update_progress_and_snapshot broadcast flush_pending_height_update
    evaluate_eco_mode evaluate_system_state
labels_run = refl
