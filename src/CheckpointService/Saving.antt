-- ===== src/CheckpointService/Saving.antt =====
-- No checkpoint is ever saved or loaded.
use web3_indexer_go.Base.{
  ℕ, ◌≡◌, refl, Bool, false, List, [], ◌∷◌, Option, none, arith, if_intro, ltb, ◌+◌,
}
use web3_indexer_go.Orchestrator.State.{Orchestrator, u64}
use web3_indexer_go.CheckpointService.{
  Checkpoint, CheckpointService, serialize_checkpoint, after_serialize, atomic_save,
  create_snapshot, maybe_create_checkpoint, find_latest_valid_checkpoint, after_find,
  load_latest_checkpoint, enable_nvme_optimization, Label, ticked, saved, optimised, save_first,
  step, run,
}

module _ {F L : Type 0} where
  abbrev pub IsEmpty : CheckpointService F L → Type 0
  IsEmpty s = (s.latest_checkpoint ≡ none) × (s.files ≡ [])

  save_first-IsEmpty :
      (b : Bool) (cs : List (Checkpoint F L)) (s : CheckpointService F L)
      → IsEmpty s
      → IsEmpty (save_first b cs s)
  unfolding save_first atomic_save after_serialize serialize_checkpoint
  save_first-IsEmpty b [] s h = h
  save_first-IsEmpty b (c ∷ cs) s h = h

  step-IsEmpty : (l : Label F L) (s : CheckpointService F L) → IsEmpty s → IsEmpty (step l s)
  unfolding step maybe_create_checkpoint create_snapshot enable_nvme_optimization
  step-IsEmpty (ticked now first second) s h =
      if_intro IsEmpty (ltb first.synced_cursor (u64 (s.last_save_height + s.interval))) s
        (create_snapshot now first.synced_cursor second s) h
        (ground (arith, h.0), ground (arith, h.1))
  step-IsEmpty (saved b) s h = save_first-IsEmpty b s.saving s h
  step-IsEmpty optimised s h = h

  -- However long the service runs, it writes no checkpoint, and a start afterwards loads none and
  -- leaves the coordinator as it is.
  pub run-IsEmpty :
      {B T : Type 0} (ls : List (Label F L)) (s : CheckpointService F L) (max_block : Option ℕ)
      (o : Orchestrator F L B T)
      → IsEmpty s
      → IsEmpty (run ls s) × (load_latest_checkpoint max_block (run ls s) o ≡ (run ls s, o, false))
  unfolding run load_latest_checkpoint after_find find_latest_valid_checkpoint
  run-IsEmpty [] s m o h = (h, refl)
  run-IsEmpty (l ∷ ls) s m o h = run-IsEmpty ls (step l s) m o (step-IsEmpty l s h)
