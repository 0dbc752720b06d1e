-- ===== src/CheckpointService.antt =====
-- internal/engine/checkpoint_service.go: snapshots of the coordinator's state. `serializeCheckpoint`
-- and `findLatestValidCheckpoint` are unfinished in the code and always answer an error; what would
-- run after them is modelled all the same. A save, which runs in a goroutine of its own, is a step.
mod Saving
use web3_indexer_go.Base.{
  ℕ, zero, suc, ◌+◌, Bool, true, false, List, [], ◌∷◌, Option, none, some, ltb, if◌then◌else◌,
}
use web3_indexer_go.Orchestrator.State.{CoordinatorState, Orchestrator, u64}
use web3_indexer_go.Orchestrator.Cursors.{restore_state}

-- The checksum and the version have no reader.
pub record Checkpoint (F L : Type 0) : Type 0 where
  pub height : ℕ
  pub timestamp : ℕ
  pub state : CoordinatorState F L

-- `files` are the checkpoints in the directory, `saving` those that a goroutine has still to save.
pub record CheckpointService (F L : Type 0) : Type 0 where
  pub interval : ℕ
  pub max_snapshots : ℕ
  pub latest_checkpoint : Option (Checkpoint F L)
  pub last_save_height : ℕ
  pub saving : List (Checkpoint F L)
  pub files : List (Checkpoint F L)

module _ {F L : Type 0} where
  unfoldable pub new_checkpoint_service : ℕ → ℕ → CheckpointService F L
  new_checkpoint_service interval max_snapshots = record {
    interval = interval;
    max_snapshots = max_snapshots;
    latest_checkpoint = none;
    last_save_height = 0;
    saving = [];
    files = [];
  }

  -- The bytes; none is the error.
  unfoldable pub serialize_checkpoint : Checkpoint F L → Option (List ℕ)
  serialize_checkpoint c = none

  unfoldable pub after_serialize :
      Bool → Checkpoint F L → Option (List ℕ) → CheckpointService F L → CheckpointService F L
  after_serialize renamed c none s = s
  after_serialize renamed c (some bytes) s =
      if renamed then record s { files = c ∷ s.files; latest_checkpoint = some c } else s

  -- `renamed` says whether the rename of the file succeeds.
  unfoldable pub atomic_save : Bool → Checkpoint F L → CheckpointService F L → CheckpointService F L
  unfolding after_serialize serialize_checkpoint
  atomic_save renamed c s = after_serialize renamed c (serialize_checkpoint c) s

  unfoldable pub create_snapshot :
      ℕ → ℕ → CoordinatorState F L → CheckpointService F L → CheckpointService F L
  create_snapshot now current_height state s =
      if ltb state.synced_cursor current_height then s else record s {
        saving = record { height = state.synced_cursor; timestamp = now; state = state } ∷ s.saving;
        last_save_height = current_height;
      }

  -- The two states are the snapshots that are taken here and in `CreateSnapshot`.
  unfoldable pub maybe_create_checkpoint :
      ℕ
      → CoordinatorState F L
      → CoordinatorState F L
      → CheckpointService F L
      → CheckpointService F L
  unfolding create_snapshot
  maybe_create_checkpoint now first second s =
      if ltb first.synced_cursor (u64 (s.last_save_height + s.interval))
      then s
      else create_snapshot now first.synced_cursor second s

  unfoldable pub find_latest_valid_checkpoint : CheckpointService F L → Option (Checkpoint F L)
  find_latest_valid_checkpoint s = none

  -- `SELECT MAX(number)`; none is an error of the query or of the number's text.
  unfoldable pub verify_database_consistency : Option ℕ → Checkpoint F L → Bool
  verify_database_consistency none c = false
  verify_database_consistency (some max_block) c = if ltb max_block c.height then false else true

  unfoldable pub after_find :
      {B T : Type 0}
      → Option ℕ
      → Option (Checkpoint F L)
      → CheckpointService F L
      → Orchestrator F L B T
      → CheckpointService F L × Orchestrator F L B T × Bool
  unfolding verify_database_consistency restore_state
  after_find max_block none s o = (s, o, false)
  after_find max_block (some c) s o =
      if verify_database_consistency max_block c
      then (
        record s { latest_checkpoint = some c; last_save_height = c.height },
        restore_state c.state o,
        true,
      )
      else (s, o, false)

  -- The Boolean is whether it returns nil.
  unfoldable pub load_latest_checkpoint :
      {B T : Type 0}
      → Option ℕ
      → CheckpointService F L
      → Orchestrator F L B T
      → CheckpointService F L × Orchestrator F L B T × Bool
  unfolding after_find find_latest_valid_checkpoint
  load_latest_checkpoint max_block s o = after_find max_block (find_latest_valid_checkpoint s) s o

  unfoldable pub enable_nvme_optimization : CheckpointService F L → CheckpointService F L
  enable_nvme_optimization s = record s { interval = 10000; max_snapshots = 10 }

-- A tick of `run`, the end of a goroutine that saves, and the switch.
pub data Label (F L : Type 0) : Type 0 where
  ticked : ℕ → CoordinatorState F L → CoordinatorState F L → Label F L
  saved : Bool → Label F L
  optimised : Label F L

module _ {F L : Type 0} where
  unfoldable pub save_first :
      Bool → List (Checkpoint F L) → CheckpointService F L → CheckpointService F L
  unfolding atomic_save
  save_first renamed [] s = s
  save_first renamed (c ∷ cs) s = atomic_save renamed c (record s { saving = cs })

  unfoldable pub step : Label F L → CheckpointService F L → CheckpointService F L
  unfolding maybe_create_checkpoint save_first enable_nvme_optimization
  step (ticked now first second) s = maybe_create_checkpoint now first second s
  step (saved renamed) s = save_first renamed s.saving s
  step optimised s = enable_nvme_optimization s

  unfoldable pub run : List (Label F L) → CheckpointService F L → CheckpointService F L
  unfolding step
  run [] s = s
  run (l ∷ ls) s = run ls (step l s)
