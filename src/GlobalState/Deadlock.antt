-- ===== src/GlobalState/Deadlock.antt =====
-- Which calls never return: internal/engine/global_state.go.
use web3_indexer_go.Base.{ℕ, ◌≡◌, refl, ◌∙◌, Bool, true, false, not, ltb, ◌==◌, is_some}
use web3_indexer_go.Orchestrator.State.{SystemState}
use web3_indexer_go.GlobalState.{
  free, Snapshot, GlobalState, number_of, lock, snapshot, notify_subscribers, changed,
  update_chain_head, advance_db_cursor, set_system_state,
}

not-not : (b : Bool) → not (not b) ≡ b
not-not true = refl
not-not false = refl

module _ {Q : Type 0} where
  changed-returns :
      (b : Bool) (v : Snapshot Q) (s : GlobalState Q)
      → s.mutex ≡ free
      → is_some (changed b v s) ≡ not b
  unfolding changed lock notify_subscribers snapshot
  changed-returns true v s e = rw e refl
  changed-returns false v s e = rw e refl

  -- When nobody holds the lock, the calls that report a height, a cursor or a state return only if
  -- they change nothing: a call with a greater height, a greater cursor or another state waits
  -- for the lock that it holds itself, whether or not there are subscribers.
  pub updates_deadlock :
      (now h : ℕ) (x : SystemState) (s : GlobalState Q)
      → s.mutex ≡ free
      → (is_some (update_chain_head now h s) ≡ not (ltb s.values.on_chain_height h))
        × (is_some (advance_db_cursor now h s) ≡ not (ltb s.values.db_cursor h))
        × (is_some (set_system_state now x s) ≡ (number_of s.values.system_state == number_of x))
  unfolding update_chain_head advance_db_cursor set_system_state
  updates_deadlock now h x s e = (
    changed-returns (ltb s.values.on_chain_height h) _ s e,
    changed-returns (ltb s.values.db_cursor h) _ s e,
    changed-returns (not (number_of s.values.system_state == number_of x)) _ s e
        ∙ not-not (number_of s.values.system_state == number_of x),
  )
