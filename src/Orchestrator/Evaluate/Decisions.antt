-- ===== src/Orchestrator/Evaluate/Decisions.antt =====
-- When the coordinator sleeps and when it throttles: orchestrator_loop.go, `evaluateEcoMode` and
-- `evaluateSystemState`.
use web3_indexer_go.Base.{
  ℕ, ◌+◌, ◌*◌, ◌≤◌, ◌<◌, ◌≡◌, ◌↔◌, true, arith, length, ltb, if◌then◌else◌, some, ◌*◌, Bool-cases,
  inl, inr, refl, ◌%◌,
}
use web3_indexer_go.Fetcher.{Fetcher}
use web3_indexer_go.Fetcher.{Fetcher}
use web3_indexer_go.Orchestrator.State.{
  Orchestrator, SystemState, unknown, idle, active, catching_up, stalled, healing, degraded,
  throttled, running, optimizing,
}
use web3_indexer_go.Orchestrator.Evaluate.{
  lag_of, evaluate_eco_mode, exceeds_capacity, update_pipeline_depth, evaluate_system_state,
  next_system_state, is_stopgap,
}

module _ {F L B T : Type 0} where
  -- For heights below 2 ^ 63, the coordinator is in eco mode after the decision exactly when the
  -- cursor is at most ten blocks behind the latest height and not beyond it, and the user has been
  -- idle for two minutes: a cursor beyond the latest height wraps the lag and keeps it awake.
  pub evaluate_eco_mode_iff :
      (now : ℕ) (o : Orchestrator F L B T)
      → o.state.latest_height < 9223372036854775808
      → o.state.synced_cursor < 9223372036854775808
      → (evaluate_eco_mode now o).state.is_eco_mode ≡ true
        ↔ (o.state.synced_cursor ≤ o.state.latest_height)
          × (o.state.latest_height ≤ o.state.synced_cursor + 10)
          × (o.state.last_user_activity + 120000000000 ≤ now)
  unfolding evaluate_eco_mode lag_of
  evaluate_eco_mode_iff now o a b = (λ h. ground arith, λ h. ground arith)

-- While the two depths' sum times eighty stays below 2 ^ 31, the results exceed four fifths of the pipeline's depth exactly
-- when they are more than four times the jobs.
exceeds_capacity_iff :
    (j r : ℕ)
    → 80 * (j + r) < 2147483648
    → exceeds_capacity r (update_pipeline_depth j r 0) ≡ true ↔ 4 * j < r
unfolding exceeds_capacity update_pipeline_depth
exceeds_capacity_iff j r h = (λ e. ground arith, λ e. ground arith)

-- A state that is neither throttled nor kept is not throttled.
not_throttled :
    (b : ℕ) (s : SystemState)
    → (if ltb 1 b then optimizing else if is_stopgap s then running else s) ≡ throttled
    → ⊥
not_throttled b unknown e = ground (arith, e)
not_throttled b idle e = ground (arith, e)
not_throttled b active e = ground (arith, e)
not_throttled b catching_up e = ground (arith, e)
not_throttled b stalled e = ground (arith, e)
not_throttled b healing e = ground (arith, e)
not_throttled b degraded e = ground (arith, e)
not_throttled b running e = ground (arith, e)
not_throttled b optimizing e = ground (arith, e)
not_throttled b throttled e = ground (arith, e)

next_system_state-throttled :
    (j r b : ℕ) (s : SystemState)
    → 80 * (j + r) < 2147483648
    → next_system_state j r b s ≡ throttled ↔ 4 * j < r
unfolding next_system_state
next_system_state-throttled j r b s h =
    let ej : j % 2147483648 ≡ j = omega (arith, h) in
    let er : r % 2147483648 ≡ r = omega (arith, h) in
    let (to, from) = exceeds_capacity_iff j r h in
    rw (ej, er)
      (elim (Bool-cases (exceeds_capacity r (update_pipeline_depth j r 0))) [
        | inl e ↦ rw e (λ t. to e, λ l. refl)
        | inr e ↦ rw e (λ t. absurd (not_throttled b s t), λ l. ground (arith, from l, e))
      ])

module _ {F L B T : Type 0} where
  -- With a fetcher, and while eighty times its two depths stays below 2 ^ 31: the coordinator is
  -- throttled after the evaluation exactly when the waiting results are more than four times the
  -- waiting jobs, however full or empty the channels are.
  pub evaluate_system_state-throttled :
      (o : Orchestrator F L B T) (f : Fetcher)
      → o.fetcher ≡ some f
      → 80 * (length f.jobs + f.results_depth) < 2147483648
      → (evaluate_system_state o).state.system_state ≡ throttled
        ↔ 4 * length f.jobs < f.results_depth
  unfolding evaluate_system_state next_system_state
  evaluate_system_state-throttled o f e h = rw e (
      next_system_state-throttled (length f.jobs) f.results_depth o.state.safety_buffer
        o.state.system_state h)
