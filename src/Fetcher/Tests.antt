-- ===== src/Fetcher/Tests.antt =====
-- `Schedule` on a concrete range, and the theorems at concrete inputs.
use web3_indexer_go.Base.{
  ◌+◌, ◌≤◌, ◌≡◌, ◌≢◌, refl, false, ◌&&◌, [], ◌∷◌, All, none, some, ltb, leb, if◌then◌else◌, arith,
}
use web3_indexer_go.Fetcher.{Fetcher}
use web3_indexer_go.Fetcher.Schedule.{
  sends, stop_closed, scheduled, out_of_fuel, schedule, schedule_loop, batch_end, after_send,
  safe_uint64_to_int64, is_crowded,
}
use web3_indexer_go.Fetcher.Schedule.Cover.{covers, schedule-IsSound, schedule-covers}

abbrev idle : Fetcher
idle = record {
  paused = false;
  stopped = false;
  jobs = [];
  jobs_cap = 160;
  results_depth = 0;
  results_cap = 15000;
}

two_jobs :
    schedule 1000 none (λ n. sends) idle 10 70
    ≡ (record { start = 10; end = 60 } ∷ record { start = 61; end = 70 } ∷ [], scheduled)
unfolding schedule schedule_loop batch_end after_send safe_uint64_to_int64 is_crowded
two_jobs = refl

schedule-IsSound_example :
    let (jobs, r) =
      schedule 1000 (some 3) (λ n. if ltb n 1 then sends else stop_closed) idle 10 70 in
    (covers 65 jobs ≤ (if leb 10 65 && (leb 65 70 && leb 65 1000) then 1 else 0))
    × All (λ j. j.end ≤ j.start + 50) jobs
    × (r ≢ out_of_fuel)
schedule-IsSound_example =
    schedule-IsSound 1000 (some 3) (λ n. if ltb n 1 then sends else stop_closed) idle 10 70 65

schedule-covers_example :
    let (jobs, r) = schedule 1000 (some 3) (λ n. sends) idle 10 70 in
    (r ≡ scheduled) × (covers 65 jobs ≡ (if leb 10 65 && (leb 65 70 && leb 65 1000) then 1 else 0))
unfolding is_crowded
schedule-covers_example =
    schedule-covers 1000 (some 3) (λ n. sends) idle 10 70 65 (omega arith) (omega arith)
      (omega arith) (omega arith) refl (λ i. refl)
