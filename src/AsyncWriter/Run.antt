-- ===== src/AsyncWriter/Run.antt =====
-- async_writer_core.go: the main loop `run`; async_writer_flush.go: `flush` and `emergencyDrain`.
-- The database is a function that says whether the transaction of a batch commits.
pub mod Accounts
pub mod Reports
pub mod Shutdown
use Prim.Native.Nat.{max}
use web3_indexer_go.Base.{
  ℕ, ◌-◌, ◌*◌, ◌/◌, Bool, true, false, List, [], ◌∷◌, ◌++◌, ltb, leb, if◌then◌else◌, length, take,
  drop,
}
use web3_indexer_go.AsyncWriter.{PersistTask, AsyncWriter, enqueue}

-- What became of a batch given to `flush`: `skipped` in the ephemeral mode, which writes nothing.
pub data Flush (B T : Type 0) : Type 0 where
  persisted : List (PersistTask B T) → Flush B T
  dropped : List (PersistTask B T) → Flush B T
  skipped : List (PersistTask B T) → Flush B T

-- What the writer dispatches to the coordinator.
pub data Notice : Type 0 where
  commit_disk : ℕ → Notice
  degraded : Notice
  running : Notice

-- `batch` is the local variable of `run`; `flushes` and `dispatched` are newest first.
pub record Run (B T : Type 0) : Type 0 where
  pub writer : AsyncWriter B T
  pub batch : List (PersistTask B T)
  pub cancelled : Bool
  pub returned : Bool
  pub flushes : List (Flush B T)
  pub dispatched : List Notice

-- Whether the transaction commits, given the flushes before and whether the context is done.
abbrev pub Database : Type 0 → Type 0 → Type 0
Database B T = List (Flush B T) → Bool → List (PersistTask B T) → Bool

module _ {B T : Type 0} where
  unfoldable pub max_height : List (PersistTask B T) → ℕ
  max_height [] = 0
  max_height (t ∷ ts) = max t.height (max_height ts)

  unfoldable pub handle_ephemeral_flush : List (PersistTask B T) → Run B T → Run B T
  handle_ephemeral_flush b r = record r {
    writer = record (r.writer) { disk_watermark = max_height b };
    flushes = skipped b ∷ r.flushes;
    dispatched = commit_disk (max_height b) ∷ r.dispatched;
  }

  -- The end of `flush`, given whether the transaction committed.
  unfoldable pub after_commit : Bool → List (PersistTask B T) → Run B T → Run B T
  after_commit true b r = record r {
    writer = record (r.writer) { disk_watermark = max_height b };
    flushes = persisted b ∷ r.flushes;
    dispatched = commit_disk (max_height b) ∷ r.dispatched;
  }
  after_commit false b r = record r { flushes = dropped b ∷ r.flushes }

module _ {B T : Type 0} (db : Database B T) where
  unfoldable pub flush : List (PersistTask B T) → Run B T → Run B T
  flush [] r = r
  flush (t ∷ ts) r =
      if r.writer.ephemeral_mode
      then handle_ephemeral_flush (t ∷ ts) r
      else after_commit (db r.flushes r.cancelled (t ∷ ts)) (t ∷ ts) r

  -- The channel is brought down to half of its capacity, in one flush.
  unfoldable pub drain_half : Run B T → Run B T
  drain_half r =
      let c = r.writer.task_chan in
      let n = length c - r.writer.task_cap * 50 / 100 in
      flush (take n c) (record r { writer = record (r.writer) { task_chan = drop n c } })

  unfoldable pub notify : Notice → Run B T → Run B T
  notify x r = record r { dispatched = x ∷ r.dispatched }

  -- The drain does nothing while its cooldown lasts.
  unfoldable pub emergency_drain : Run B T → Run B T
  emergency_drain r =
      if r.writer.drain_cooldown
      then r
      else notify running (
          drain_half
            (notify degraded (record r { writer = record (r.writer) { drain_cooldown = true } })))

  unfoldable pub flush_batch : Run B T → Run B T
  flush_batch r = record (flush r.batch r) { batch = [] }

  -- A task just received, by how many tasks still wait.
  unfoldable pub receive : PersistTask B T → Run B T → Run B T
  receive t r =
      let r' = record r { batch = r.batch ++ t ∷ [] } in
      if ltb (r.writer.task_cap * 75 / 100) (length r.writer.task_chan)
      then emergency_drain (flush_batch r')
      else (if leb r.writer.batch_size (length r'.batch) then flush_batch r' else r')

-- What `run` may take from its `select`, and what other goroutines do.
pub data Label (B T : Type 0) : Type 0 where
  enqueued : PersistTask B T → Label B T
  received : Label B T
  ticked : Label B T
  cooled : Label B T
  cancels : Label B T
  done : Label B T

module _ {B T : Type 0} (db : Database B T) where
  unfoldable pub take_task : List (PersistTask B T) → Run B T → Run B T
  take_task [] r = r
  take_task (t ∷ ts) r = receive db t (record r { writer = record (r.writer) { task_chan = ts } })

  -- `Shutdown` cancels the context; `run` returns when it sees that.
  unfoldable pub step : Label B T → Run B T → Run B T
  step (enqueued t) r = record r { writer = (enqueue r.writer t).0 }
  step received r = if r.returned then r else take_task r.writer.task_chan r
  step ticked r = if r.returned then r else flush_batch db r
  step cooled r = record r { writer = record (r.writer) { drain_cooldown = false } }
  step cancels r = record r { cancelled = true }
  step done r =
      if r.returned
      then r
      else (if r.cancelled then record (flush_batch db r) { returned = true } else r)

  unfoldable pub run : List (Label B T) → Run B T → Run B T
  run [] r = r
  run (l ∷ ls) r = run ls (step l r)
