-- ===== src/Orchestrator/Evaluate.antt =====
-- orchestrator_loop.go: the decisions that the tickers make, `evaluateEcoMode`,
-- `evaluateSystemState` and `flushPendingHeightUpdate`; global_state.go: `UpdatePipelineDepth`.
pub mod Decisions
use web3_indexer_go.Base.{
  ℕ, ◌+◌, ◌-◌, ◌*◌, ◌/◌, ◌%◌, Bool, true, false, ◌&&◌, ◌||◌, Option, none, some, ltb, leb,
  if◌then◌else◌, length,
}
use web3_indexer_go.Orchestrator.State.{
  SystemState, unknown, optimizing, throttled, running, CoordinatorState, Orchestrator, u64,
}

abbrev pub two_minutes : ℕ
two_minutes = 120000000000

-- `LatestHeight - SyncedCursor` of two uint64 values.
unfoldable pub lag_of : {F L : Type 0} → CoordinatorState F L → ℕ
lag_of s = u64 (s.latest_height + 18446744073709551616 - s.synced_cursor)

-- `now` is the clock's value.
unfoldable pub evaluate_eco_mode :
    {F L B T : Type 0} → ℕ → Orchestrator F L B T → Orchestrator F L B T
unfolding lag_of
evaluate_eco_mode now o = record o {
  state = record (o.state) {
    is_eco_mode = leb (lag_of o.state) 10 && leb two_minutes (now - o.state.last_user_activity);
  };
}

-- `UpdatePipelineDepth` adds the three depths to the int32 `PipelineDepth`, which wraps; it is
-- written here in two's complement, below 2 ^ 32.
unfoldable pub update_pipeline_depth : ℕ → ℕ → ℕ → ℕ
update_pipeline_depth fetcher processor writer = (fetcher + processor + writer) % 4294967296

-- `results > pipeline*80/100` on int32: the product wraps, the division rounds to zero.
unfoldable pub exceeds_capacity : ℕ → ℕ → Bool
exceeds_capacity results pipeline =
    let p = (pipeline * 80) % 4294967296 in
    if ltb p 2147483648
    then ltb (p / 100) results
    else (ltb 0 ((4294967296 - p) / 100) || ltb 0 results)

abbrev pub depths_of : {F L B T : Type 0} → Orchestrator F L B T → ℕ × ℕ
depths_of o = elim o.fetcher [ none ↦ (0, 0) | some f ↦ (length f.jobs, f.results_depth) ]

abbrev pub is_stopgap : SystemState → Bool
is_stopgap optimizing = true
is_stopgap throttled = true
is_stopgap unknown = true
is_stopgap _ = false

-- The state that the depths, the safety buffer and the state before give.
unfoldable pub next_system_state : ℕ → ℕ → ℕ → SystemState → SystemState
unfolding update_pipeline_depth exceeds_capacity
next_system_state jobs results safety_buffer s =
    let j = jobs % 2147483648 in
    let r = results % 2147483648 in
    if exceeds_capacity r (update_pipeline_depth j r 0)
    then throttled
    else if ltb 1 safety_buffer
    then optimizing
    else if is_stopgap s
    then running
    else s

-- Without a fetcher the depths of the state stay as they were.
unfoldable pub evaluate_system_state :
    {F L B T : Type 0} → Orchestrator F L B T → Orchestrator F L B T
evaluate_system_state o = record o {
  state = record (o.state) {
    jobs_depth = elim o.fetcher [ none ↦ o.state.jobs_depth | some f ↦ length f.jobs ];
    results_depth = elim o.fetcher [ none ↦ o.state.results_depth | some f ↦ f.results_depth ];
    system_state =
        next_system_state (depths_of o).0 (depths_of o).1 o.state.safety_buffer
          o.state.system_state;
  };
}

abbrev pub raised : Option ℕ → ℕ → ℕ
raised none latest = latest
raised (some h) latest = if ltb latest h then h else latest

unfoldable pub flush_pending_height_update :
    {F L B T : Type 0} → Orchestrator F L B T → Orchestrator F L B T
flush_pending_height_update o = record o {
  state = record (o.state) { latest_height = raised o.pending_height_update o.state.latest_height };
  pending_height_update = none;
}
