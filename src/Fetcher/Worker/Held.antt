-- ===== src/Fetcher/Worker/Held.antt =====
-- A paused worker begins no job, and what it holds outlives the clearing of the queue.
use web3_indexer_go.Base.{
  ℕ, ◌≡◌, refl, ap, ◌∙◌, Bool, true, false, List, [], ◌∷◌, none, some, arith, if◌then◌else◌, All,
}
use web3_indexer_go.Fetcher.{FetchJob, Fetcher, pause, resume, clear_jobs}
use web3_indexer_go.Fetcher.Range.{fetch_range_with_logs}
use web3_indexer_go.Fetcher.Worker.{
  Turn, Label, receives, proceeds, other_receives, ended, paused, resumed, cleared, System, receive,
  fetch, proceed, step, run,
}

module _ {Block Log : Type 0} (block_of : Log → ℕ) where
  -- Whether a step is anything but the end of the pause.
  abbrev pub keeps_pause : Label Block Log → Bool
  keeps_pause resumed = false
  keeps_pause _ = true

  step-paused :
      (l : Label Block Log) (s : System Block Log)
      → s.fetcher.paused ≡ true
      → keeps_pause l ≡ true
      → ((step block_of l s).fetcher.paused ≡ true) × ((step block_of l s).trace ≡ s.trace)
  unfolding step receive proceed pause clear_jobs
  step-paused receives s p k = (ground arith, ground arith)
  step-paused (proceeds t) s p k = (ground arith, ground arith)
  step-paused ended s p k = (ground arith, ground arith)
  step-paused other_receives s p k = (ground arith, ground arith)
  step-paused paused s p k = (refl, refl)
  step-paused resumed s p k = absurd (ground arith)
  step-paused cleared s p k = (p, refl)

  -- Once the fetcher is paused, a worker begins no job until it is resumed, whatever happens.
  pub run-paused :
      (ls : List (Label Block Log)) (s : System Block Log)
      → s.fetcher.paused ≡ true
      → All (λ l. keeps_pause l ≡ true) ls
      → (run block_of ls s).trace ≡ s.trace
  unfolding run
  run-paused [] s p a = refl
  run-paused (l ∷ ls) s p (k, a) =
      let (q, e) = step-paused l s p k in run-paused ls (step block_of l s) q a ∙ e

  -- A job that the worker has received before the pause is fetched after it, although the queue was
  -- cleared meanwhile, as the rollback of a reorg does.
  held_survives :
      (j : FetchJob) (js : List FetchJob) (f : Fetcher) (t : Turn Block Log)
      → t.stops ≡ false
      → t.limiter_error ≡ none
      → let s : System Block Log = record {
        fetcher = record f { jobs = j ∷ js };
        worker = record { held = none; returned = false };
        trace = [];
      } in
        (run block_of (receives ∷ paused ∷ cleared ∷ resumed ∷ proceeds t ∷ []) s).trace
        ≡ fetch_range_with_logs block_of t.world j.end j.start
  unfolding run step receive proceed fetch pause resume clear_jobs
  held_survives j js f t h e =
      let s : System Block Log = record {
        fetcher = record f { jobs = []; paused = false };
        worker = record { held = some j; returned = false };
        trace = [];
      } in
      let stopped : System Block Log = record s {
        worker = record { held = none; returned = true };
      } in
      ap (λ b. (if b then stopped else fetch block_of t j t.limiter_error s).trace) h
      ∙ ap (λ x. (fetch block_of t j x s).trace) e
