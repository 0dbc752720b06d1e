-- ===== src/Orchestrator/Process/Effects.antt =====
-- What the handlers of a message leave alone: orchestrator_loop.go.
use web3_indexer_go.Base.{ℕ, ◌≤◌, ◌≡◌, refl, Bool, true, false, arith}
use web3_indexer_go.Orchestrator.State.{
  MsgType, update_chain_height, commit_batch, commit_disk, reset_cursor, increment_transfers,
  toggle_eco_mode, set_system_state, fetch_failed, fetch_success, notify_fetched,
  notify_fetch_progress, log_event, get_status, get_snapshot, record_user_activity, Payload, height,
  string, flag, entry, task, system_state, CoordinatorState, Orchestrator,
}
use web3_indexer_go.Orchestrator.Process.{
  handle, handle_update_chain_height, handle_fetch_failed, handle_fetch_success,
  handle_notify_fetch, handle_log_event, handle_commit_batch, handle_commit_disk,
  handle_increment_transfers, handle_toggle_eco_mode, handle_set_system_state,
}

-- Whether a message resets the cursor.
abbrev pub is_reset : MsgType → Bool
is_reset reset_cursor = true
is_reset _ = false

module _ {F L : Type 0} where
  handle_fetch_success-synced :
      (s : CoordinatorState F L) → s.synced_cursor ≤ (handle_fetch_success s).synced_cursor
  unfolding handle_fetch_success
  handle_fetch_success-synced s = ground arith

module _ {F L B T : Type 0} where
  handle_update_chain_height-synced :
      (p : Payload L B T) (now : ℕ) (o : Orchestrator F L B T)
      → o.state.synced_cursor ≤ (handle_update_chain_height p now o).state.synced_cursor
  unfolding handle_update_chain_height
  handle_update_chain_height-synced (height h) now o = ground arith
  handle_update_chain_height-synced p now o = omega arith

  handle_fetch_failed-synced :
      (p : Payload L B T) (s : CoordinatorState F L)
      → s.synced_cursor ≤ (handle_fetch_failed p s).synced_cursor
  unfolding handle_fetch_failed
  handle_fetch_failed-synced (string e) s = ground arith
  handle_fetch_failed-synced p s = omega arith

  handle_notify_fetch-synced :
      (p : Payload L B T) (s : CoordinatorState F L)
      → s.synced_cursor ≤ (handle_notify_fetch p s).synced_cursor
  unfolding handle_notify_fetch
  handle_notify_fetch-synced (height h) s = omega arith
  handle_notify_fetch-synced p s = omega arith

  handle_log_event-synced :
      (p : Payload L B T) (now : ℕ) (s : CoordinatorState F L)
      → s.synced_cursor ≤ (handle_log_event p now s).synced_cursor
  unfolding handle_log_event
  handle_log_event-synced (entry l) now s = omega arith
  handle_log_event-synced p now s = omega arith

  handle_commit_batch-synced :
      (p : Payload L B T) (o : Orchestrator F L B T)
      → o.state.synced_cursor ≤ (handle_commit_batch p o).state.synced_cursor
  unfolding handle_commit_batch
  handle_commit_batch-synced (task t) o = omega arith
  handle_commit_batch-synced p o = omega arith

  handle_commit_disk-synced :
      (p : Payload L B T) (s : CoordinatorState F L)
      → s.synced_cursor ≤ (handle_commit_disk p s).synced_cursor
  unfolding handle_commit_disk
  handle_commit_disk-synced (height h) s = ground arith
  handle_commit_disk-synced p s = omega arith

  handle_increment_transfers-synced :
      (p : Payload L B T) (s : CoordinatorState F L)
      → s.synced_cursor ≤ (handle_increment_transfers p s).synced_cursor
  unfolding handle_increment_transfers
  handle_increment_transfers-synced (height n) s = omega arith
  handle_increment_transfers-synced p s = omega arith

  handle_toggle_eco_mode-synced :
      (p : Payload L B T) (s : CoordinatorState F L)
      → s.synced_cursor ≤ (handle_toggle_eco_mode p s).synced_cursor
  unfolding handle_toggle_eco_mode
  handle_toggle_eco_mode-synced (flag b) s = omega arith
  handle_toggle_eco_mode-synced p s = omega arith

  handle_set_system_state-synced :
      (p : Payload L B T) (s : CoordinatorState F L)
      → s.synced_cursor ≤ (handle_set_system_state p s).synced_cursor
  unfolding handle_set_system_state
  handle_set_system_state-synced (system_state x) s = omega arith
  handle_set_system_state-synced p s = omega arith

  pub handle-synced :
      (t : MsgType) (p : Payload L B T) (now : ℕ) (o : Orchestrator F L B T)
      → is_reset t ≡ false
      → o.state.synced_cursor ≤ (handle t p now o).state.synced_cursor
  unfolding handle
  handle-synced update_chain_height p now o h = handle_update_chain_height-synced p now o
  handle-synced fetch_failed p now o h = handle_fetch_failed-synced p o.state
  handle-synced fetch_success p now o h = handle_fetch_success-synced o.state
  handle-synced notify_fetched p now o h = handle_notify_fetch-synced p o.state
  handle-synced notify_fetch_progress p now o h = handle_notify_fetch-synced p o.state
  handle-synced log_event p now o h = handle_log_event-synced p now o.state
  handle-synced commit_batch p now o h = handle_commit_batch-synced p o
  handle-synced commit_disk p now o h = handle_commit_disk-synced p o.state
  handle-synced reset_cursor p now o h = ground (arith, h)
  handle-synced increment_transfers p now o h = handle_increment_transfers-synced p o.state
  handle-synced toggle_eco_mode p now o h = handle_toggle_eco_mode-synced p o.state
  handle-synced set_system_state p now o h = handle_set_system_state-synced p o.state
  handle-synced get_status p now o h = omega arith
  handle-synced get_snapshot p now o h = omega arith
  handle-synced record_user_activity p now o h = omega arith

  handle_update_chain_height-channel :
      (p : Payload L B T) (now : ℕ) (o : Orchestrator F L B T)
      → ((handle_update_chain_height p now o).cmd_chan ≡ o.cmd_chan)
        × ((handle_update_chain_height p now o).msg_seq ≡ o.msg_seq)
  unfolding handle_update_chain_height
  handle_update_chain_height-channel (height h) now o = (refl, refl)
  handle_update_chain_height-channel p now o = (refl, refl)

  handle_commit_batch-channel :
      (p : Payload L B T) (o : Orchestrator F L B T)
      → ((handle_commit_batch p o).cmd_chan ≡ o.cmd_chan)
        × ((handle_commit_batch p o).msg_seq ≡ o.msg_seq)
  unfolding handle_commit_batch
  handle_commit_batch-channel (task t) o = (refl, refl)
  handle_commit_batch-channel p o = (refl, refl)

  -- No handler touches the channel of commands or the counter of messages.
  pub handle-channel :
      (t : MsgType) (p : Payload L B T) (now : ℕ) (o : Orchestrator F L B T)
      → ((handle t p now o).cmd_chan ≡ o.cmd_chan) × ((handle t p now o).msg_seq ≡ o.msg_seq)
  unfolding handle
  handle-channel update_chain_height p now o = handle_update_chain_height-channel p now o
  handle-channel fetch_failed p now o = (refl, refl)
  handle-channel fetch_success p now o = (refl, refl)
  handle-channel notify_fetched p now o = (refl, refl)
  handle-channel notify_fetch_progress p now o = (refl, refl)
  handle-channel log_event p now o = (refl, refl)
  handle-channel commit_batch p now o = handle_commit_batch-channel p o
  handle-channel commit_disk p now o = (refl, refl)
  handle-channel reset_cursor p now o = (refl, refl)
  handle-channel increment_transfers p now o = (refl, refl)
  handle-channel toggle_eco_mode p now o = (refl, refl)
  handle-channel set_system_state p now o = (refl, refl)
  handle-channel get_status p now o = (refl, refl)
  handle-channel get_snapshot p now o = (refl, refl)
  handle-channel record_user_activity p now o = (refl, refl)
