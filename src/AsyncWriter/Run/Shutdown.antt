-- ===== src/AsyncWriter/Run/Shutdown.antt =====
-- What `Shutdown` does to the tasks that wait: async_writer_core.go.
use web3_indexer_go.Base.{◌≡◌, refl, ap, ◌∙◌, true, false, List, [], ◌∷◌}
use web3_indexer_go.AsyncWriter.{PersistTask}
use web3_indexer_go.AsyncWriter.Run.{
  Flush, dropped, Run, Database, after_commit, flush, flush_batch, step, run, Label, enqueued,
  received, ticked, cooled, cancels, done,
}

module _ {B T : Type 0} (db : Database B T) where
  step-returned :
      (l : Label B T) (r : Run B T)
      → r.returned ≡ true
      → ((step db l r).returned ≡ true) × ((step db l r).flushes ≡ r.flushes)
  unfolding step
  step-returned (enqueued t) r h = (h, refl)
  step-returned received r h = simp h (refl, refl)
  step-returned ticked r h = simp h (refl, refl)
  step-returned cooled r h = (h, refl)
  step-returned cancels r h = (h, refl)
  step-returned done r h = simp h (refl, refl)

  -- Once `run` has returned nothing is flushed any more.
  run-returned :
      (ls : List (Label B T)) (r : Run B T) → r.returned ≡ true → (run db ls r).flushes ≡ r.flushes
  unfolding run
  run-returned [] r h = refl
  run-returned (l ∷ ls) r h =
      let (k, same) = step-returned l r h in run-returned ls (step db l r) k ∙ same

  flush-dropped :
      (r : Run B T) (t : PersistTask B T) (ts : List (PersistTask B T))
      → r.writer.ephemeral_mode ≡ false
      → db r.flushes r.cancelled (t ∷ ts) ≡ false
      → (flush db (t ∷ ts) r).flushes ≡ dropped (t ∷ ts) ∷ r.flushes
  unfolding flush after_commit
  flush-dropped r t ts c ok = simp (c, ok) refl

  done-flushes :
      (r : Run B T)
      → r.returned ≡ false
      → r.cancelled ≡ true
      → ((step db done r).returned ≡ true)
        × ((step db done r).flushes ≡ (flush db r.batch r).flushes)
  unfolding step flush_batch
  done-flushes r a b = simp (a, b) (refl, refl)

  -- When no transaction begins under a cancelled context: outside the ephemeral mode the batch that
  -- a cancelled run still holds is dropped as it returns, and whatever happens later, nothing
  -- more is flushed, so that what waits in the channel is never written.
  pub shutdown_drops :
      ((fs : List (Flush B T)) (b : List (PersistTask B T)) → db fs true b ≡ false)
      → (r : Run B T) (t : PersistTask B T) (ts : List (PersistTask B T)) (ls : List (Label B T))
      → r.returned ≡ false
      → r.cancelled ≡ true
      → r.writer.ephemeral_mode ≡ false
      → r.batch ≡ t ∷ ts
      → (run db ls (step db done r)).flushes ≡ dropped (t ∷ ts) ∷ r.flushes
  shutdown_drops fails r t ts ls a b c e =
      let (back, same) = done-flushes r a b in
      let ok : db r.flushes r.cancelled (t ∷ ts) ≡ false =
        ap (λ k. db r.flushes k (t ∷ ts)) b ∙ fails r.flushes (t ∷ ts) in
      run-returned ls (step db done r) back
      ∙ same
      ∙ ap (λ l. (flush db l r).flushes) e
      ∙ flush-dropped r t ts c ok
