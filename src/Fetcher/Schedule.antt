-- ===== src/Fetcher/Schedule.antt =====
-- fetcher_schedule.go: `Schedule`, which cuts a range of blocks into jobs. Workers may take jobs from
-- the channel meanwhile: the result lists the jobs sent, in order.
pub mod Cover
use web3_indexer_go.Base.{
  ℕ, zero, suc, ◌+◌, ◌-◌, ◌*◌, ◌/◌, Bool, List, [], ◌∷◌, Option, none, some, ltb, leb,
  if◌then◌else◌, length,
}
use web3_indexer_go.Fetcher.{FetchJob, Fetcher}

-- Which case of the `select` a send takes.
pub data Choice : Type 0 where
  sends : Choice
  context_done : Choice
  stop_closed : Choice

pub data Scheduled : Type 0 where
  scheduled : Scheduled
  block_not_yet_available : Scheduled
  jobs_backpressure : Scheduled
  results_backpressure : Scheduled
  sequencer_backpressure : Scheduled
  context_error : Scheduled
  fetcher_stopped : Scheduled
  out_of_fuel : Scheduled

-- The end of the job that starts at `current`.
unfoldable pub batch_end : ℕ → ℕ → ℕ
batch_end current end = if ltb end (current + 50) then end else current + 50

unfoldable pub after_send :
    Choice → FetchJob → List FetchJob × Scheduled → List FetchJob × Scheduled
after_send sends job (jobs, r) = (job ∷ jobs, r)
after_send context_done job (jobs, r) = ([], context_error)
after_send stop_closed job (jobs, r) = ([], fetcher_stopped)

-- The loop; `select n` is what happens at the `n`-th send.
unfoldable pub schedule_loop : ℕ → (ℕ → Choice) → ℕ → ℕ → ℕ → List FetchJob × Scheduled
schedule_loop zero select n current end = ([], out_of_fuel)
schedule_loop (suc fuel) select n current end =
    let b = batch_end current end in
    let rest = schedule_loop fuel select (n + 1) (b + 1) end in
    if leb current end
    then after_send (select n) (record { start = current; end = b }) rest
    else ([], scheduled)

-- `SafeUint64ToInt64`.
unfoldable pub safe_uint64_to_int64 : ℕ → ℕ
safe_uint64_to_int64 v = if ltb 9223372036854775807 v then 9223372036854775807 else v

-- Whether the sequencer that the fetcher knows has more than 2000 buffered blocks.
unfoldable pub is_crowded : Option ℕ → Bool
is_crowded none = Bool.false
is_crowded (some size) = ltb 2000 size

-- `latest_height` is that of the coordinator's snapshot, `buffered` the sequencer's buffer size.
unfoldable pub schedule : ℕ → Option ℕ → (ℕ → Choice) → Fetcher → ℕ → ℕ → List FetchJob × Scheduled
schedule latest_height buffered select f start end =
    let chain_height = safe_uint64_to_int64 latest_height in
    let end' = if ltb chain_height end then chain_height else end in
    if ltb chain_height start
    then ([], block_not_yet_available)
    else (if ltb end' start
        then ([], scheduled)
        else (if ltb (f.jobs_cap * 90 / 100) (length f.jobs)
            then ([], jobs_backpressure)
            else (if ltb (f.results_cap * 90 / 100) f.results_depth
                then ([], results_backpressure)
                else (if is_crowded buffered
                    then ([], sequencer_backpressure)
                    else schedule_loop (end' - start + 2) select 0 start end'))))
