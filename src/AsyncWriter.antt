-- ===== src/AsyncWriter.antt =====
-- internal/engine/async_writer_types.go and async_writer_core.go: the writer's task channel. `B` and
-- `T` are the block and transfer rows of package models.
pub mod Run
mod Tests
use web3_indexer_go.Base.{ℕ, Bool, true, false, List, [], ◌∷◌, ◌++◌, ltb, if◌then◌else◌, length}

pub record PersistTask (B T : Type 0) : Type 0 where
  pub height : ℕ
  pub block : B
  pub transfers : List T
  pub sequence : ℕ

-- `task_chan` holds the waiting tasks, oldest first.
pub record AsyncWriter (B T : Type 0) : Type 0 where
  pub task_chan : List (PersistTask B T)
  pub task_cap : ℕ
  pub batch_size : ℕ
  pub ephemeral_mode : Bool
  pub disk_watermark : ℕ
  pub drain_cooldown : Bool

module _ {B T : Type 0} where
  unfoldable pub new_async_writer : Bool → AsyncWriter B T
  new_async_writer ephemeral = record {
    task_chan = [];
    task_cap = 15000;
    batch_size = 200;
    ephemeral_mode = ephemeral;
    disk_watermark = 0;
    drain_cooldown = false;
  }

  -- `Enqueue`; the flag says whether the task was taken (`false` is `DeadlineExceeded`).
  unfoldable pub enqueue : AsyncWriter B T → PersistTask B T → AsyncWriter B T × Bool
  enqueue w t =
      if ltb (length w.task_chan) w.task_cap
      then (record w { task_chan = w.task_chan ++ t ∷ [] }, true)
      else (w, false)
