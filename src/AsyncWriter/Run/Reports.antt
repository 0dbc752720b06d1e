-- ===== src/AsyncWriter/Run/Reports.antt =====
-- What the writer reports to the coordinator: async_writer_flush.go.
use web3_indexer_go.Base.{
  ℕ, ◌≡◌, ap, Bool, true, false, List, [], ◌∷◌, ◌++◌, ltb, leb, length, take, if_intro, ◌-◌, ◌*◌,
  ◌/◌,
}
use web3_indexer_go.AsyncWriter.{PersistTask}
use web3_indexer_go.AsyncWriter.Run.{
  Flush, persisted, dropped, skipped, Run, Database, max_height, handle_ephemeral_flush,
  after_commit, flush, drain_half, notify, emergency_drain, flush_batch, receive, take_task, step,
  run, Label, enqueued, received, ticked, cooled, cancels, done, Notice, commit_disk, degraded,
  running,
}

-- The heights reported as being on disk, newest first.
abbrev pub reported : List Notice → List ℕ
reported [] = []
reported (commit_disk h ∷ ns) = h ∷ reported ns
reported (degraded ∷ ns) = reported ns
reported (running ∷ ns) = reported ns

module _ {B T : Type 0} where
  -- The greatest heights of the batches whose transaction committed, or that need none.
  abbrev pub written : List (Flush B T) → List ℕ
  written [] = []
  written (persisted b ∷ fs) = max_height b ∷ written fs
  written (skipped b ∷ fs) = max_height b ∷ written fs
  written (dropped b ∷ fs) = written fs

  abbrev pub IsHonest : Run B T → Type 0
  IsHonest r = reported r.dispatched ≡ written r.flushes

  after_commit-IsHonest :
      (ok : Bool) (b : List (PersistTask B T)) (r : Run B T)
      → IsHonest r
      → IsHonest (after_commit ok b r)
  unfolding after_commit
  after_commit-IsHonest true b r h = ap (◌∷◌ (max_height b)) h
  after_commit-IsHonest false b r h = h

module _ {B T : Type 0} (db : Database B T) where
  flush-IsHonest : (b : List (PersistTask B T)) (r : Run B T) → IsHonest r → IsHonest (flush db b r)
  unfolding flush handle_ephemeral_flush
  flush-IsHonest [] r h = h
  flush-IsHonest (t ∷ ts) r h =
      if_intro (λ (q : Run B T). IsHonest q) r.writer.ephemeral_mode _ _
        (ap (◌∷◌ (max_height (t ∷ ts))) h)
        (after_commit-IsHonest (db r.flushes r.cancelled (t ∷ ts)) (t ∷ ts) r h)

  flush_batch-IsHonest : (r : Run B T) → IsHonest r → IsHonest (flush_batch db r)
  unfolding flush_batch
  flush_batch-IsHonest r h = flush-IsHonest r.batch r h

  emergency_drain-IsHonest : (r : Run B T) → IsHonest r → IsHonest (emergency_drain db r)
  unfolding emergency_drain notify drain_half
  emergency_drain-IsHonest r h =
      if_intro (λ (q : Run B T). IsHonest q) r.writer.drain_cooldown _ _ h
        (flush-IsHonest
          (take (length r.writer.task_chan - r.writer.task_cap * 50 / 100) r.writer.task_chan) _ h)

  receive-IsHonest : (t : PersistTask B T) (r : Run B T) → IsHonest r → IsHonest (receive db t r)
  unfolding receive
  receive-IsHonest t r h =
      let q : Run B T = record r { batch = r.batch ++ t ∷ [] } in
      let flushed : IsHonest (flush_batch db q) = flush_batch-IsHonest q h in
      if_intro (λ (q : Run B T). IsHonest q)
        (ltb (r.writer.task_cap * 75 / 100) (length r.writer.task_chan)) _ _
        (emergency_drain-IsHonest (flush_batch db q) flushed)
        (if_intro (λ (q : Run B T). IsHonest q) (leb r.writer.batch_size (length q.batch)) _ _
          flushed h)

  take_task-IsHonest :
      (ts : List (PersistTask B T)) (r : Run B T) → IsHonest r → IsHonest (take_task db ts r)
  unfolding take_task
  take_task-IsHonest [] r h = h
  take_task-IsHonest (t ∷ ts) r h =
      receive-IsHonest t (record r { writer = record (r.writer) { task_chan = ts } }) h

  step-IsHonest : (l : Label B T) (r : Run B T) → IsHonest r → IsHonest (step db l r)
  unfolding step
  step-IsHonest (enqueued t) r h = h
  step-IsHonest received r h =
      if_intro (λ (q : Run B T). IsHonest q) r.returned _ _ h
        (take_task-IsHonest r.writer.task_chan r h)
  step-IsHonest ticked r h =
      if_intro (λ (q : Run B T). IsHonest q) r.returned _ _ h (flush_batch-IsHonest r h)
  step-IsHonest cooled r h = h
  step-IsHonest cancels r h = h
  step-IsHonest done r h =
      if_intro (λ (q : Run B T). IsHonest q) r.returned _ _ h
        (if_intro (λ (q : Run B T). IsHonest q) r.cancelled _ _ (flush_batch-IsHonest r h) h)

  -- Along any run, if it was so before: the heights reported to the coordinator as being on disk are
  -- the greatest heights of the batches that committed or that the ephemeral mode skipped, in order.
  pub run-IsHonest : (ls : List (Label B T)) (r : Run B T) → IsHonest r → IsHonest (run db ls r)
  unfolding run
  run-IsHonest [] r h = h
  run-IsHonest (l ∷ ls) r h = run-IsHonest ls (step db l r) (step-IsHonest l r h)
