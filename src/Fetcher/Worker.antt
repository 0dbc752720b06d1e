-- ===== src/Fetcher/Worker.antt =====
-- internal/engine/fetcher_core.go: `worker`, which takes jobs off the queue, waits while the fetcher
-- is paused, and fetches; and the throttle of `SetThroughputLimit`. The other workers and the users of
-- the fetcher act between its steps.
pub mod Held
use Prim.Native.String.{String}
use web3_indexer_go.Base.{
  ℕ, zero, suc, ◌+◌, ◌*◌, Bool, true, false, ◌&&◌, ◌||◌, not, List, [], ◌∷◌, ◌++◌, Option, none,
  some, if◌then◌else◌, ltb,
}
use web3_indexer_go.Sequencer.State.{BlockData}
use web3_indexer_go.Fetcher.{FetchJob, Fetcher, pause, resume, clear_jobs}
use web3_indexer_go.Fetcher.Range.{World, Emitted, sent, Trace, fetch_range_with_logs}

-- The job that the worker holds, and whether it has returned.
pub record Worker : Type 0 where
  pub held : Option FetchJob
  pub returned : Bool

-- What a job meets: whether the worker has to stop, the error of the wait for a token, whether that
-- error can be sent, and the world of the fetch.
pub record Turn (Block Log : Type 0) : Type 0 where
  pub stops : Bool
  pub limiter_error : Option String
  pub error_delivered : Bool
  pub world : World Block Log

-- What happens: the worker receives a job, goes on with the one it holds, or ends without one; another worker receives
-- a job; the users pause and resume the fetcher and clear its queue.
pub data Label (Block Log : Type 0) : Type 0 where
  receives : Label Block Log
  proceeds : Turn Block Log → Label Block Log
  ended other_receives paused resumed cleared : Label Block Log

pub record System (Block Log : Type 0) : Type 0 where
  pub fetcher : Fetcher
  pub worker : Worker
  -- what the worker has emitted
  pub trace : Trace Block Log

module _ {Block Log : Type 0} (block_of : Log → ℕ) where
  unfoldable pub receive : List FetchJob → System Block Log → System Block Log
  receive [] s = s
  receive (j ∷ js) s = record s {
    fetcher = record (s.fetcher) { jobs = js };
    worker = record (s.worker) { held = some j };
  }

  -- The result of a failed wait for a token.
  unfoldable pub limiter_result : FetchJob → String → BlockData Block Log String
  limiter_result j e = record {
    number = some j.start;
    range_end = some j.end;
    block = none;
    err = some e;
    logs = [];
  }

  unfoldable pub fetch :
      Turn Block Log → FetchJob → Option String → System Block Log → System Block Log
  unfolding limiter_result fetch_range_with_logs
  fetch t j none s = record s {
    worker = record (s.worker) { held = none };
    trace = s.trace ++ fetch_range_with_logs block_of t.world j.end j.start;
  }
  fetch t j (some e) s = record s {
    worker = record { held = none; returned = not t.error_delivered };
    trace = s.trace ++ (if t.error_delivered then sent (limiter_result j e) ∷ [] else []);
  }

  unfoldable pub proceed : Turn Block Log → Option FetchJob → System Block Log → System Block Log
  unfolding fetch
  proceed t none s = s
  proceed t (some j) s =
      if s.fetcher.paused
      then s
      else (if t.stops
          then record s { worker = record { held = none; returned = true } }
          else fetch t j t.limiter_error s)

  unfoldable pub step : Label Block Log → System Block Log → System Block Log
  unfolding receive proceed pause resume clear_jobs
  step receives s = elim s.worker.held [
    | some j ↦ s
    | none ↦ if s.worker.returned then s else receive s.fetcher.jobs s
  ]
  step (proceeds t) s = proceed t s.worker.held s
  step ended s = elim s.worker.held [
    | some j ↦ s
    | none ↦ record s { worker = record { held = none; returned = true } }
  ]
  step other_receives s = elim s.fetcher.jobs [
    | [] ↦ s
    | j ∷ js ↦ record s { fetcher = record (s.fetcher) { jobs = js } }
  ]
  step paused s = record s { fetcher = pause s.fetcher }
  step resumed s = record s { fetcher = resume s.fetcher }
  step cleared s = record s { fetcher = clear_jobs s.fetcher }

  unfoldable pub run : List (Label Block Log) → System Block Log → System Block Log
  unfolding step
  run [] s = s
  run (l ∷ ls) s = run ls (step l s)
