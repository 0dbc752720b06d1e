-- ===== src/Backpressure.antt =====
-- internal/engine/dynamic_backpressure.go: the watermarks with an exponential backoff, and the merge
-- of repeated schedules. Times are nanoseconds.
pub mod Backoff
pub mod Merge
mod Tests
use web3_indexer_go.Base.{
  ℕ, zero, suc, ◌+◌, ◌-◌, ◌*◌, ◌/◌, ◌^◌, Bool, true, false, ◌&&◌, not, List, [], ◌∷◌, Option, none,
  some, ltb, ◌==◌, if◌then◌else◌, keep, length,
}
use web3_indexer_go.Fetcher.{FetchJob, Fetcher}
use web3_indexer_go.Fetcher.Schedule.{Choice, Scheduled, scheduled, schedule}

pub record BackpressureManager : Type 0 where
  pub max_jobs_capacity : ℕ
  pub max_results_capacity : ℕ
  pub max_seq_buffer : ℕ
  pub jobs_watermark : ℕ
  pub results_watermark : ℕ
  pub seq_buffer_watermark : ℕ
  pub last_blocked_time : ℕ
  pub backoff_level : ℕ
  pub total_blocked_count : ℕ

-- A tenth of a second.
abbrev pub unit : ℕ
unit = 100000000

unfoldable pub results_capacity : ℕ → ℕ
results_capacity mem_gb =
    let most = if ltb 100000 (mem_gb * 1000) then 100000 else mem_gb * 1000 in
    if ltb most 5000 then 5000 else most

unfoldable pub new_backpressure_manager : ℕ → BackpressureManager
unfolding results_capacity
new_backpressure_manager mem_gb =
    let results = results_capacity mem_gb in
    record {
      max_jobs_capacity = results / 5;
      max_results_capacity = results;
      max_seq_buffer = 10000;
      jobs_watermark = results / 5 * 80 / 100;
      results_watermark = results * 80 / 100;
      seq_buffer_watermark = 800;
      last_blocked_time = 0;
      backoff_level = 0;
      total_blocked_count = 0;
    }

pub data Verdict : Type 0 where
  allowed : Verdict
  blocked : Verdict
  backing_off : Verdict

-- `time.Duration(1<<level) * 100 * time.Millisecond`.
unfoldable pub backoff_duration : ℕ → ℕ
backoff_duration level = 2 ^ level * unit

unfoldable pub block_with_error : ℕ → BackpressureManager → BackpressureManager
block_with_error now m = record m {
  total_blocked_count = m.total_blocked_count + 1;
  last_blocked_time = now;
  backoff_level = if ltb m.backoff_level 5 then m.backoff_level + 1 else m.backoff_level;
}

unfoldable pub is_over : ℕ → ℕ → ℕ → BackpressureManager → Bool
is_over jobs_depth results_depth seq_buffer_size m =
    if ltb m.jobs_watermark jobs_depth
    then true
    else (if ltb m.results_watermark results_depth
        then true
        else ltb m.seq_buffer_watermark seq_buffer_size)

unfoldable pub is_backing_off : ℕ → BackpressureManager → Bool
unfolding backoff_duration
is_backing_off now m =
    ltb 0 m.backoff_level && ltb (now - m.last_blocked_time) (backoff_duration m.backoff_level)

unfoldable pub check_schedule : ℕ → ℕ → ℕ → ℕ → BackpressureManager → BackpressureManager × Verdict
unfolding is_over is_backing_off block_with_error
check_schedule now jobs_depth results_depth seq_buffer_size m =
    if is_over jobs_depth results_depth seq_buffer_size m
    then (block_with_error now m, blocked)
    else (if is_backing_off now m
        then (m, backing_off)
        else (record m { backoff_level = 0 }, allowed))

unfoldable pub reset_backoff : BackpressureManager → BackpressureManager
reset_backoff m = record m { backoff_level = 0 }

-- The map from a range to the time when it was last scheduled.
pub record Pending : Type 0 where
  pub start : ℕ
  pub end : ℕ
  pub last_time : ℕ

pub record ScheduleMerge : Type 0 where
  pub pending : List Pending
  pub merge_window : ℕ

unfoldable pub new_schedule_merge : ℕ → ScheduleMerge
new_schedule_merge merge_window = record { pending = []; merge_window = merge_window }

unfoldable pub is_range : ℕ → ℕ → Pending → Bool
is_range start end p = p.start == start && p.end == end

unfoldable pub last_time_of : ℕ → ℕ → List Pending → Option ℕ
unfolding is_range
last_time_of start end [] = none
last_time_of start end (p ∷ ps) =
    if is_range start end p then some p.last_time else last_time_of start end ps

unfoldable pub is_merged : ℕ → ℕ → Option ℕ → Bool
is_merged now merge_window none = false
is_merged now merge_window (some last_time) = ltb (now - last_time) merge_window

unfoldable pub should_schedule : ℕ → ℕ → ℕ → ScheduleMerge → ScheduleMerge × Bool
unfolding last_time_of is_merged is_range
should_schedule now start end sm =
    let merged = is_merged now sm.merge_window (last_time_of start end sm.pending) in
    let entry : Pending = record { start = start; end = end; last_time = now } in
    (
      record sm {
        pending =
            if merged
            then sm.pending
            else entry ∷ keep (λ p. not (is_range start end p)) sm.pending;
      },
      not merged,
    )

unfoldable pub cleanup : ℕ → ScheduleMerge → ScheduleMerge
cleanup now sm = record sm {
  pending = keep (λ (p : Pending). not (ltb 600000000000 (now - p.last_time))) sm.pending;
}

pub record FetcherWithDynamicBackpressure : Type 0 where
  pub fetcher : Fetcher
  pub backpressure_mgr : BackpressureManager
  pub schedule_merge : ScheduleMerge

unfoldable pub new_fetcher_with_dynamic_backpressure : ℕ → Fetcher → FetcherWithDynamicBackpressure
unfolding new_backpressure_manager new_schedule_merge
new_fetcher_with_dynamic_backpressure mem_gb f = record {
  fetcher = f;
  backpressure_mgr = new_backpressure_manager mem_gb;
  schedule_merge = new_schedule_merge 5000000000;
}

-- What `ScheduleDynamic` returns: nil, an error of the watermarks, or what `Schedule` returns.
pub data Answer : Type 0 where
  merged : Answer
  refused : Verdict → Answer
  passed_on : List FetchJob → Scheduled → Answer

unfoldable pub buffer_size : Option ℕ → ℕ
buffer_size none = 0
buffer_size (some n) = n

unfoldable pub is_scheduled : Scheduled → Bool
is_scheduled scheduled = true
is_scheduled _ = false

unfoldable pub after_check :
    ℕ
    → Option ℕ
    → (ℕ → Choice)
    → ℕ
    → ℕ
    → FetcherWithDynamicBackpressure
    → BackpressureManager × Verdict
    → FetcherWithDynamicBackpressure × Answer
unfolding schedule is_scheduled reset_backoff
after_check latest buffered select start end f (m, allowed) =
    let (jobs, r) = schedule latest buffered select f.fetcher start end in
    (
      record f { backpressure_mgr = if is_scheduled r then reset_backoff m else m },
      passed_on jobs r,
    )
after_check latest buffered select start end f (m, v) =
    (record f { backpressure_mgr = m }, refused v)

unfoldable pub after_merge :
    ℕ
    → ℕ
    → Option ℕ
    → (ℕ → Choice)
    → ℕ
    → ℕ
    → FetcherWithDynamicBackpressure
    → ScheduleMerge × Bool
    → FetcherWithDynamicBackpressure × Answer
unfolding after_check check_schedule buffer_size
after_merge now latest buffered select start end f (sm, false) = (f, merged)
after_merge now latest buffered select start end f (sm, true) =
    after_check latest buffered select start end (record f { schedule_merge = sm })
      (check_schedule now (length f.fetcher.jobs) f.fetcher.results_depth (buffer_size buffered)
        f.backpressure_mgr)

unfoldable pub schedule_dynamic :
    ℕ
    → ℕ
    → Option ℕ
    → (ℕ → Choice)
    → ℕ
    → ℕ
    → FetcherWithDynamicBackpressure
    → FetcherWithDynamicBackpressure × Answer
unfolding after_merge should_schedule
schedule_dynamic now latest buffered select start end f =
    after_merge now latest buffered select start end f
      (should_schedule now start end f.schedule_merge)
