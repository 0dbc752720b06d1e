-- ===== src/SelfHealing.antt =====
-- internal/engine/self_healing.go: the audit of the coordinator's heights. The suggestion about the
-- jobs' depth is a log only.
use web3_indexer_go.Base.{◌≤◌, ◌≡◌, refl, ◌&&◌, ltb, if◌then◌else◌, arith}
use web3_indexer_go.Orchestrator.State.{stalled, CoordinatorState, Orchestrator}

module _ {F L : Type 0} where
  -- The fetched height is at least the synced one afterwards.
  unfoldable pub aligned_memory : CoordinatorState F L → CoordinatorState F L
  aligned_memory s = record s {
    fetched_height =
        if ltb s.fetched_height s.synced_cursor then s.synced_cursor else s.fetched_height;
  }

  unfoldable pub audited : CoordinatorState F L → CoordinatorState F L
  unfolding aligned_memory
  audited s = record (aligned_memory s) {
    system_state =
        if ltb 0 s.latest_height && ltb s.latest_height s.synced_cursor
        then stalled
        else s.system_state;
  }

unfoldable pub audit_and_heal : {F L B T : Type 0} → Orchestrator F L B T → Orchestrator F L B T
unfolding audited
audit_and_heal o = record o { state = audited o.state }

module _ {F L : Type 0} where
  -- After an audit the fetched height is not below the synced one, and no height but it has changed.
  audited-ordered :
      (s : CoordinatorState F L)
      → (s.synced_cursor ≤ (audited s).fetched_height)
        × ((audited s).synced_cursor ≡ s.synced_cursor)
        × ((audited s).latest_height ≡ s.latest_height)
  unfolding audited aligned_memory
  audited-ordered s = (ground arith, refl, refl)

  -- A second audit finds nothing to do.
  audited_twice :
      (s : CoordinatorState F L)
      → ((audited (audited s)).fetched_height ≡ (audited s).fetched_height)
        × ((audited (audited s)).system_state ≡ (audited s).system_state)
  unfolding audited aligned_memory
  audited_twice s = (ground arith, ground arith)
