-- ===== src/Orchestrator/Process.antt =====
-- orchestrator_loop.go: `process` and its handlers. The time of the call is an argument.
pub mod Counters
pub mod Effects
use text.Mathlib.Text.{◌==◌ as str_eq}
use web3_indexer_go.Base.{
  ℕ, ◌+◌, ◌-◌, ◌&&◌, [], ◌∷◌, ◌++◌, Option, none, some, ltb, leb, if◌then◌else◌, length,
}
use web3_indexer_go.AsyncWriter.{enqueue}
use web3_indexer_go.Orchestrator.State.{
  MsgType, update_chain_height, commit_batch, commit_disk, reset_cursor, increment_transfers,
  toggle_eco_mode, set_system_state, fetch_failed, fetch_success, notify_fetched,
  notify_fetch_progress, log_event, get_status, get_snapshot, record_user_activity, Payload, height,
  string, flag, entry, task, system_state, Message, Floats, CoordinatorState, Orchestrator, u64,
}

unfoldable pub handle_fetch_success : {F L : Type 0} → CoordinatorState F L → CoordinatorState F L
handle_fetch_success s =
    let count = u64 (s.success_count + 1) in
    if leb 50 count && ltb 1 s.safety_buffer
    then record s { safety_buffer = s.safety_buffer - 1; success_count = 0 }
    else record s { success_count = count }

module _ {F L B T : Type 0} where
  -- The target keeps the safety buffer's distance from the new height.
  unfoldable pub handle_update_chain_height :
      Payload L B T → ℕ → Orchestrator F L B T → Orchestrator F L B T
  handle_update_chain_height (height h) now o = record o {
    pending_height_update = if ltb o.state.latest_height h then some h else o.pending_height_update;
    last_height_merge_time = if ltb o.state.latest_height h then now else o.last_height_merge_time;
    state = record (o.state) {
      target_height =
          if ltb o.state.latest_height h
          then (if ltb o.state.safety_buffer h then h - o.state.safety_buffer else 0)
          else o.state.target_height;
    };
  }
  handle_update_chain_height _ now o = o

  unfoldable pub handle_fetch_failed : Payload L B T → CoordinatorState F L → CoordinatorState F L
  handle_fetch_failed (string e) s =
      if str_eq e "not_found"
      then record s {
        success_count = 0;
        safety_buffer = if ltb s.safety_buffer 20 then s.safety_buffer + 1 else s.safety_buffer;
      }
      else s
  handle_fetch_failed _ s = s

  unfoldable pub handle_notify_fetch : Payload L B T → CoordinatorState F L → CoordinatorState F L
  handle_notify_fetch (height h) s = record s {
    fetched_height = if ltb s.fetched_height h then h else s.fetched_height;
  }
  handle_notify_fetch _ s = s

  unfoldable pub handle_log_event : Payload L B T → ℕ → CoordinatorState F L → CoordinatorState F L
  handle_log_event (entry l) now s = record s { log_entry = some l; updated_at = now }
  handle_log_event _ now s = s

  -- A task that the writer has no room for is dropped.
  unfoldable pub handle_commit_batch : Payload L B T → Orchestrator F L B T → Orchestrator F L B T
  handle_commit_batch (task t) o = record o {
    async_writer = elim o.async_writer [ none ↦ none | some w ↦ some (enqueue w t).0 ];
  }
  handle_commit_batch _ o = o

  unfoldable pub handle_commit_disk : Payload L B T → CoordinatorState F L → CoordinatorState F L
  handle_commit_disk (height h) s = record s {
    synced_cursor = if ltb s.synced_cursor h then h else s.synced_cursor;
  }
  handle_commit_disk _ s = s

  unfoldable pub handle_reset_cursor : Payload L B T → CoordinatorState F L → CoordinatorState F L
  handle_reset_cursor (height h) s = record s { synced_cursor = h }
  handle_reset_cursor _ s = s

  unfoldable pub handle_increment_transfers :
      Payload L B T → CoordinatorState F L → CoordinatorState F L
  handle_increment_transfers (height n) s = record s { transfers = u64 (s.transfers + n) }
  handle_increment_transfers _ s = s

  unfoldable pub handle_toggle_eco_mode :
      Payload L B T → CoordinatorState F L → CoordinatorState F L
  handle_toggle_eco_mode (flag b) s = record s { is_eco_mode = b }
  handle_toggle_eco_mode _ s = s

  unfoldable pub handle_set_system_state :
      Payload L B T → CoordinatorState F L → CoordinatorState F L
  handle_set_system_state (system_state x) s = record s { system_state = x }
  handle_set_system_state _ s = s

  abbrev on_state :
      Orchestrator F L B T → (CoordinatorState F L → CoordinatorState F L) → Orchestrator F L B T
  on_state o f = record o { state = f o.state }

  -- The `switch` of `process`.
  unfoldable pub handle : MsgType → Payload L B T → ℕ → Orchestrator F L B T → Orchestrator F L B T
  unfolding handle_update_chain_height handle_fetch_failed handle_fetch_success handle_notify_fetch
      handle_log_event handle_commit_batch handle_commit_disk handle_reset_cursor
      handle_increment_transfers handle_toggle_eco_mode handle_set_system_state
  handle update_chain_height p now o = handle_update_chain_height p now o
  handle fetch_failed p now o = on_state o (handle_fetch_failed p)
  handle fetch_success p now o = on_state o handle_fetch_success
  handle notify_fetched p now o = on_state o (handle_notify_fetch p)
  handle notify_fetch_progress p now o = on_state o (handle_notify_fetch p)
  handle log_event p now o = on_state o (handle_log_event p now)
  handle commit_batch p now o = handle_commit_batch p o
  handle commit_disk p now o = on_state o (handle_commit_disk p)
  handle reset_cursor p now o = on_state o (handle_reset_cursor p)
  handle increment_transfers p now o = on_state o (handle_increment_transfers p)
  handle toggle_eco_mode p now o = on_state o (handle_toggle_eco_mode p)
  handle set_system_state p now o = on_state o (handle_set_system_state p)
  handle get_status p now o = o
  handle get_snapshot p now o = o
  handle record_user_activity p now o = on_state o (λ s. record s { last_user_activity = now })

  -- `handleGetStatus` sends the state to the reply channel, if there is one.
  unfoldable pub replies_of : Message L B T → CoordinatorState F L → Option (CoordinatorState F L)
  replies_of m s = elim m.type [
    | get_status ↦ if m.reply then some s else none
    | get_snapshot ↦ if m.reply then some s else none
    | _ ↦ none
  ]

  -- A full broadcast channel, of 1000 places, drops the snapshot.
  unfoldable pub broadcast : Orchestrator F L B T → Orchestrator F L B T
  broadcast o = record o {
    broadcast_ch =
        if ltb (length o.broadcast_ch) 1000
        then o.broadcast_ch ++ o.snapshot ∷ []
        else o.broadcast_ch;
    broadcast_dropped =
        if ltb (length o.broadcast_ch) 1000 then o.broadcast_dropped else o.broadcast_dropped + 1;
  }

unfoldable pub progress_of : {F L : Type 0} → Floats F → CoordinatorState F L → F
progress_of fl s =
    let p =
      fl.times (fl.divide (fl.of_height s.synced_cursor) (fl.of_height s.latest_height))
        fl.hundred in
    if ltb 0 s.latest_height
    then (if fl.exceeds p fl.hundred then fl.hundred else p)
    else s.progress

module _ {F L B T : Type 0} (fl : Floats F) where
  unfoldable pub update_progress_and_snapshot : ℕ → Orchestrator F L B T → Orchestrator F L B T
  unfolding progress_of broadcast
  update_progress_and_snapshot now o =
      let s = record (o.state) { progress = progress_of fl o.state; updated_at = now } in
      broadcast (record o { state = s; snapshot = s })

  -- `process`, with what it sends to the reply channel.
  unfoldable pub process :
      ℕ
      → Orchestrator F L B T
      → Message L B T
      → Orchestrator F L B T × Option (CoordinatorState F L)
  unfolding replies_of
  process now o m =
      (update_progress_and_snapshot now (handle m.type m.payload now o), replies_of m o.state)
