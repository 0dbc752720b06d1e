-- ===== src/Orchestrator/Loop/Invariant.antt =====
-- What every run of the coordinator's loop keeps: orchestrator_loop.go.
use web3_indexer_go.Base.{ℕ, ◌≤◌, List, [], ◌∷◌, Option, none, some, arith}
use web3_indexer_go.Orchestrator.State.{
  MsgType, update_chain_height, commit_batch, commit_disk, reset_cursor, increment_transfers,
  toggle_eco_mode, set_system_state, fetch_failed, fetch_success, notify_fetched,
  notify_fetch_progress, log_event, get_status, get_snapshot, record_user_activity, Payload, height,
  string, flag, entry, task, system_state, Message, Floats, CoordinatorState, Orchestrator,
}
use web3_indexer_go.Orchestrator.Process.{
  handle, handle_update_chain_height, handle_fetch_failed, handle_fetch_success,
  handle_notify_fetch, handle_log_event, handle_commit_batch, handle_commit_disk,
  handle_reset_cursor, handle_increment_transfers, handle_toggle_eco_mode, handle_set_system_state,
  process, update_progress_and_snapshot, broadcast,
}
use web3_indexer_go.Orchestrator.Evaluate.{
  evaluate_eco_mode, evaluate_system_state, flush_pending_height_update, raised,
}
use web3_indexer_go.Orchestrator.Loop.{
  Label, drawn, sent, received, decided, merged, pulsed, receive, loop_step, loop, draw, send,
}

module _ {F L : Type 0} where
  -- From one state to a later one.
  abbrev pub Forward : CoordinatorState F L → CoordinatorState F L → Type 0
  Forward s t =
      (s.latest_height ≤ t.latest_height)
      × (s.fetched_height ≤ t.fetched_height)
      × (1 ≤ s.safety_buffer → 1 ≤ t.safety_buffer)
      × (s.safety_buffer ≤ 20 → t.safety_buffer ≤ 20)

  Forward-same : (s : CoordinatorState F L) → Forward s s
  Forward-same s = (omega arith, omega arith, λ h. h, λ h. h)

  Forward-trans : (s t u : CoordinatorState F L) → Forward s t → Forward t u → Forward s u
  Forward-trans s t u (a, b, c, d) (e, f, g, h) =
      (omega (arith, a, e), omega (arith, b, f), λ l. g (c l), λ m. h (d m))

  raised-Forward :
      (p : Option ℕ) (s : CoordinatorState F L)
      → Forward s (record s { latest_height = raised p s.latest_height })
  raised-Forward none s = Forward-same s
  raised-Forward (some h) s = ground arith

  handle_fetch_success-Forward : (s : CoordinatorState F L) → Forward s (handle_fetch_success s)
  unfolding handle_fetch_success
  handle_fetch_success-Forward s = ground arith

module _ {F L B T : Type 0} where
  handle_notify_fetch-Forward :
      (p : Payload L B T) (s : CoordinatorState F L) → Forward s (handle_notify_fetch p s)
  unfolding handle_notify_fetch
  handle_notify_fetch-Forward (height h) s = ground arith
  handle_notify_fetch-Forward p s = Forward-same s

  handle_fetch_failed-Forward :
      (p : Payload L B T) (s : CoordinatorState F L) → Forward s (handle_fetch_failed p s)
  unfolding handle_fetch_failed
  handle_fetch_failed-Forward (string e) s = ground arith
  handle_fetch_failed-Forward p s = Forward-same s

  handle_update_chain_height-Forward :
      (p : Payload L B T) (now : ℕ) (o : Orchestrator F L B T)
      → Forward o.state (handle_update_chain_height p now o).state
  unfolding handle_update_chain_height
  handle_update_chain_height-Forward (height h) now o = ground arith
  handle_update_chain_height-Forward p now o = Forward-same o.state

  handle_log_event-Forward :
      (p : Payload L B T) (now : ℕ) (s : CoordinatorState F L)
      → Forward s (handle_log_event p now s)
  unfolding handle_log_event
  handle_log_event-Forward (entry l) now s = Forward-same s
  handle_log_event-Forward p now s = Forward-same s

  handle_commit_disk-Forward :
      (p : Payload L B T) (s : CoordinatorState F L) → Forward s (handle_commit_disk p s)
  unfolding handle_commit_disk
  handle_commit_disk-Forward (height h) s = Forward-same s
  handle_commit_disk-Forward p s = Forward-same s

  handle_reset_cursor-Forward :
      (p : Payload L B T) (s : CoordinatorState F L) → Forward s (handle_reset_cursor p s)
  unfolding handle_reset_cursor
  handle_reset_cursor-Forward (height h) s = Forward-same s
  handle_reset_cursor-Forward p s = Forward-same s

  handle_increment_transfers-Forward :
      (p : Payload L B T) (s : CoordinatorState F L) → Forward s (handle_increment_transfers p s)
  unfolding handle_increment_transfers
  handle_increment_transfers-Forward (height n) s = Forward-same s
  handle_increment_transfers-Forward p s = Forward-same s

  handle_toggle_eco_mode-Forward :
      (p : Payload L B T) (s : CoordinatorState F L) → Forward s (handle_toggle_eco_mode p s)
  unfolding handle_toggle_eco_mode
  handle_toggle_eco_mode-Forward (flag b) s = Forward-same s
  handle_toggle_eco_mode-Forward p s = Forward-same s

  handle_set_system_state-Forward :
      (p : Payload L B T) (s : CoordinatorState F L) → Forward s (handle_set_system_state p s)
  unfolding handle_set_system_state
  handle_set_system_state-Forward (system_state x) s = Forward-same s
  handle_set_system_state-Forward p s = Forward-same s

  handle_commit_batch-Forward :
      (p : Payload L B T) (o : Orchestrator F L B T)
      → Forward o.state (handle_commit_batch p o).state
  unfolding handle_commit_batch
  handle_commit_batch-Forward (task t) o = Forward-same o.state
  handle_commit_batch-Forward p o = Forward-same o.state

  handle-Forward :
      (t : MsgType) (p : Payload L B T) (now : ℕ) (o : Orchestrator F L B T)
      → Forward o.state (handle t p now o).state
  unfolding handle
  handle-Forward update_chain_height p now o = handle_update_chain_height-Forward p now o
  handle-Forward fetch_failed p now o = handle_fetch_failed-Forward p o.state
  handle-Forward fetch_success p now o = handle_fetch_success-Forward o.state
  handle-Forward notify_fetched p now o = handle_notify_fetch-Forward p o.state
  handle-Forward notify_fetch_progress p now o = handle_notify_fetch-Forward p o.state
  handle-Forward log_event p now o = handle_log_event-Forward p now o.state
  handle-Forward commit_batch p now o = handle_commit_batch-Forward p o
  handle-Forward commit_disk p now o = handle_commit_disk-Forward p o.state
  handle-Forward reset_cursor p now o = handle_reset_cursor-Forward p o.state
  handle-Forward increment_transfers p now o = handle_increment_transfers-Forward p o.state
  handle-Forward toggle_eco_mode p now o = handle_toggle_eco_mode-Forward p o.state
  handle-Forward set_system_state p now o = handle_set_system_state-Forward p o.state
  handle-Forward get_status p now o = Forward-same o.state
  handle-Forward get_snapshot p now o = Forward-same o.state
  handle-Forward record_user_activity p now o = Forward-same o.state

module _ {F L B T : Type 0} (fl : Floats F) where
  process-Forward :
      (now : ℕ) (o : Orchestrator F L B T) (m : Message L B T)
      → Forward o.state (process fl now o m).0.state
  unfolding process update_progress_and_snapshot broadcast
  process-Forward now o m = handle-Forward m.type m.payload now o

  receive-Forward :
      (now : ℕ) (o : Orchestrator F L B T) (ms : List (Message L B T))
      → Forward o.state (receive fl now o ms).state
  unfolding receive
  receive-Forward now o [] = Forward-same o.state
  receive-Forward now o (m ∷ ms) = process-Forward now (record o { cmd_chan = ms }) m

  loop_step-Forward :
      (l : Label L B T) (o : Orchestrator F L B T) → Forward o.state (loop_step fl l o).state
  unfolding loop_step draw send flush_pending_height_update evaluate_system_state evaluate_eco_mode
  loop_step-Forward drawn o = Forward-same o.state
  loop_step-Forward (sent b t d n) o = Forward-same o.state
  loop_step-Forward (received now) o = receive-Forward now o o.cmd_chan
  loop_step-Forward (decided now) o = Forward-same o.state
  loop_step-Forward merged o = raised-Forward o.pending_height_update o.state
  loop_step-Forward pulsed o = Forward-same o.state

  -- Whatever messages are sent, and in whatever order the loop takes messages and ticks: the latest
  -- and the fetched height never decrease, and a safety buffer between 1 and 20 stays there.
  pub loop-Forward :
      (ls : List (Label L B T)) (o : Orchestrator F L B T) → Forward o.state (loop fl ls o).state
  unfolding loop
  loop-Forward [] o = Forward-same o.state
  loop-Forward (l ∷ ls) o =
      Forward-trans o.state (loop_step fl l o).state (loop fl ls (loop_step fl l o)).state
        (loop_step-Forward l o) (loop-Forward ls (loop_step fl l o))
