-- ===== src/AsyncWriter/Run/Accounts.antt =====
-- Where the tasks are: every accepted task is given to `flush` once and in order, or still waits.
use mathlib.Core.List.{append-nil, append_assoc}
use web3_indexer_go.Base.{
  ◌≡◌, refl, sym, ap, ◌∙◌, Bool, true, false, List, [], ◌∷◌, ◌++◌, ltb, leb, if◌then◌else◌, length,
  take, drop, if_intro, take-append-drop, ◌-◌, ◌*◌, ◌/◌,
}
use web3_indexer_go.AsyncWriter.{PersistTask, AsyncWriter, enqueue}
use web3_indexer_go.AsyncWriter.Run.{
  Flush, persisted, dropped, skipped, Run, Database, handle_ephemeral_flush, after_commit, flush,
  drain_half, notify, emergency_drain, flush_batch, receive, take_task, step, run, Label, enqueued,
  received, ticked, cooled, cancels, done, degraded,
}

module _ {B T : Type 0} where
  abbrev pub tasks_of : Flush B T → List (PersistTask B T)
  tasks_of (persisted b) = b
  tasks_of (dropped b) = b
  tasks_of (skipped b) = b

  -- The tasks given to `flush`, oldest first.
  abbrev pub given : List (Flush B T) → List (PersistTask B T)
  given [] = []
  given (f ∷ fs) = given fs ++ tasks_of f

  -- Every task that the writer has taken: those flushed, the batch, and the channel.
  abbrev pub taken : Run B T → List (PersistTask B T)
  taken r = given r.flushes ++ (r.batch ++ r.writer.task_chan)

  -- The tasks that `Enqueue` takes along the labels.
  abbrev pub added : Label B T → Run B T → List (PersistTask B T)
  added (enqueued t) r = if (enqueue r.writer t).1 then t ∷ [] else []
  added l r = []

  after_commit-given :
      (ok : Bool) (b : List (PersistTask B T)) (r : Run B T)
      → given (after_commit ok b r).flushes ≡ given r.flushes ++ b
  unfolding after_commit
  after_commit-given true b r = refl
  after_commit-given false b r = refl

  -- What a flush leaves alone.
  abbrev Kept : Run B T → Run B T → Type 0
  Kept r q =
      (q.writer.task_chan ≡ r.writer.task_chan)
      × (q.batch ≡ r.batch)
      × (q.writer.task_cap ≡ r.writer.task_cap)
      × (q.writer.batch_size ≡ r.writer.batch_size)

  after_commit-Kept :
      (ok : Bool) (b : List (PersistTask B T)) (r : Run B T) → Kept r (after_commit ok b r)
  unfolding after_commit
  after_commit-Kept true b r = (refl, refl, refl, refl)
  after_commit-Kept false b r = (refl, refl, refl, refl)

  enqueue-taken :
      (w : AsyncWriter B T) (t : PersistTask B T) (g b : List (PersistTask B T))
      → g ++ (b ++ (enqueue w t).0.task_chan)
        ≡ (g ++ (b ++ w.task_chan)) ++ (if (enqueue w t).1 then t ∷ [] else [])
  unfolding enqueue
  enqueue-taken w t g b =
      if_intro
        (λ (p : AsyncWriter B T × Bool).
          g ++ (b ++ p.0.task_chan) ≡ (g ++ (b ++ w.task_chan)) ++ (if p.1 then t ∷ [] else []))
        (ltb (length w.task_chan) w.task_cap) _ _
        (ap (λ l. g ++ l) (sym (append_assoc b w.task_chan (t ∷ [])))
          ∙ sym (append_assoc g (b ++ w.task_chan) (t ∷ [])))
        (sym (append-nil (g ++ (b ++ w.task_chan))))

module _ {B T : Type 0} (db : Database B T) where
  flush-given :
      (b : List (PersistTask B T)) (r : Run B T)
      → given (flush db b r).flushes ≡ given r.flushes ++ b
  unfolding flush handle_ephemeral_flush
  flush-given [] r = sym (append-nil (given r.flushes))
  flush-given (t ∷ ts) r =
      if_intro (λ (q : Run B T). given q.flushes ≡ given r.flushes ++ t ∷ ts)
        r.writer.ephemeral_mode _ _ refl
        (after_commit-given (db r.flushes r.cancelled (t ∷ ts)) (t ∷ ts) r)

  pub flush-Kept : (b : List (PersistTask B T)) (r : Run B T) → Kept r (flush db b r)
  unfolding flush handle_ephemeral_flush
  flush-Kept [] r = (refl, refl, refl, refl)
  flush-Kept (t ∷ ts) r =
      if_intro (Kept r) r.writer.ephemeral_mode _ _ (refl, refl, refl, refl)
        (after_commit-Kept (db r.flushes r.cancelled (t ∷ ts)) (t ∷ ts) r)

  flush_batch-taken : (r : Run B T) → taken (flush_batch db r) ≡ taken r
  unfolding flush_batch
  flush_batch-taken r =
      let (c, b, cap, size) = flush-Kept r.batch r in
      rw (flush-given r.batch r, c) (append_assoc (given r.flushes) r.batch r.writer.task_chan)

  drain_half-taken : (r : Run B T) → r.batch ≡ [] → taken (drain_half db r) ≡ taken r
  unfolding drain_half
  drain_half-taken r e =
      let n = length r.writer.task_chan - r.writer.task_cap * 50 / 100 in
      let q = record r { writer = record (r.writer) { task_chan = drop n r.writer.task_chan } } in
      let (c, b, cap, size) = flush-Kept (take n r.writer.task_chan) q in
      rw (flush-given (take n r.writer.task_chan) q, c, b, e)
        (append_assoc (given r.flushes) (take n r.writer.task_chan) (drop n r.writer.task_chan)
          ∙ ap (λ l. given r.flushes ++ l) (take-append-drop n r.writer.task_chan))

  emergency_drain-taken : (r : Run B T) → r.batch ≡ [] → taken (emergency_drain db r) ≡ taken r
  unfolding emergency_drain notify
  emergency_drain-taken r e =
      if_intro (λ q. taken q ≡ taken r) r.writer.drain_cooldown _ _ refl
        (drain_half-taken
          (record r {
            writer = record (r.writer) { drain_cooldown = true };
            dispatched = degraded ∷ r.dispatched;
          })
          e)

  receive-taken :
      (t : PersistTask B T) (r : Run B T)
      → taken (receive db t r) ≡ given r.flushes ++ (r.batch ++ t ∷ r.writer.task_chan)
  unfolding receive flush_batch
  receive-taken t r =
      let q : Run B T = record r { batch = r.batch ++ t ∷ [] } in
      let same : taken q ≡ given r.flushes ++ (r.batch ++ t ∷ r.writer.task_chan) =
        ap (λ l. given r.flushes ++ l) (append_assoc r.batch (t ∷ []) r.writer.task_chan) in
      if_intro (λ p. taken p ≡ given r.flushes ++ (r.batch ++ t ∷ r.writer.task_chan))
        (ltb (r.writer.task_cap * 75 / 100) (length r.writer.task_chan)) _ _
        (emergency_drain-taken (flush_batch db q) refl ∙ flush_batch-taken q ∙ same)
        (if_intro (λ p. taken p ≡ given r.flushes ++ (r.batch ++ t ∷ r.writer.task_chan))
          (leb r.writer.batch_size (length q.batch)) _ _ (flush_batch-taken q ∙ same) same)

  take_task-taken :
      (ts : List (PersistTask B T)) (r : Run B T)
      → r.writer.task_chan ≡ ts
      → taken (take_task db ts r) ≡ taken r
  unfolding take_task
  take_task-taken [] r e = refl
  take_task-taken (t ∷ ts) r e =
      receive-taken t (record r { writer = record (r.writer) { task_chan = ts } })
      ∙ ap (λ l. given r.flushes ++ (r.batch ++ l)) (sym e)

  -- One step adds to what the writer has taken the task that it accepts, if any, at the end.
  step-taken : (l : Label B T) (r : Run B T) → taken (step db l r) ≡ taken r ++ added l r
  unfolding step
  step-taken (enqueued t) r = enqueue-taken r.writer t (given r.flushes) r.batch
  step-taken received r =
      if_intro (λ q. taken q ≡ taken r) r.returned _ _ refl
        (take_task-taken r.writer.task_chan r refl)
      ∙ sym (append-nil (taken r))
  step-taken ticked r =
      if_intro (λ q. taken q ≡ taken r) r.returned _ _ refl (flush_batch-taken r)
      ∙ sym (append-nil (taken r))
  step-taken cooled r = sym (append-nil (taken r))
  step-taken cancels r = sym (append-nil (taken r))
  step-taken done r =
      if_intro (λ q. taken q ≡ taken r) r.returned _ _ refl
        (if_intro (λ q. taken q ≡ taken r) r.cancelled _ _ (flush_batch-taken r) refl)
      ∙ sym (append-nil (taken r))

  -- The tasks that `Enqueue` accepts along a run, in order.
  abbrev pub accepted : List (Label B T) → Run B T → List (PersistTask B T)
  accepted [] r = []
  accepted (l ∷ ls) r = added l r ++ accepted ls (step db l r)

  -- Along any run of the writer, with emergency drains and shutdown, whatever transactions fail:
  -- the tasks given to `flush`, then the batch, then the channel, are what there was before and
  -- then the accepted tasks, each once and in their order.
  pub run-taken :
      (ls : List (Label B T)) (r : Run B T) → taken (run db ls r) ≡ taken r ++ accepted ls r
  unfolding run
  run-taken [] r = sym (append-nil (taken r))
  run-taken (l ∷ ls) r =
      run-taken ls (step db l r)
      ∙ ap (λ q. q ++ accepted ls (step db l r)) (step-taken l r)
      ∙ append_assoc (taken r) (added l r) (accepted ls (step db l r))
