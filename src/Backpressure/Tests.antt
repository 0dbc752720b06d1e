-- ===== src/Backpressure/Tests.antt =====
-- The backpressure on concrete queues, and the theorems at concrete inputs.
use web3_indexer_go.Base.{◌≡◌, refl, false, some, []}
use web3_indexer_go.Fetcher.{Fetcher}
use web3_indexer_go.Fetcher.Schedule.{sends}
use web3_indexer_go.Backpressure.{
  BackpressureManager, new_backpressure_manager, blocked, is_over, check_schedule,
  FetcherWithDynamicBackpressure, new_fetcher_with_dynamic_backpressure, refused, schedule_dynamic,
  results_capacity, new_schedule_merge, after_merge, should_schedule, after_check, last_time_of,
  is_merged, is_range, block_with_error, buffer_size,
}

abbrev fetcher : Fetcher
fetcher = record {
  paused = false;
  stopped = false;
  jobs = [];
  jobs_cap = 10;
  results_depth = 4001;
  results_cap = 5000;
}

abbrev manager : BackpressureManager
unfolding new_backpressure_manager results_capacity
manager = new_backpressure_manager 4

abbrev full : FetcherWithDynamicBackpressure
unfolding new_fetcher_with_dynamic_backpressure new_backpressure_manager results_capacity
    new_schedule_merge
full = new_fetcher_with_dynamic_backpressure 4 fetcher

full_is_refused : (schedule_dynamic 0 100 (some 0) (λ i. sends) 1 50 full).1 ≡ refused blocked
unfolding schedule_dynamic after_merge should_schedule after_check check_schedule last_time_of
    is_merged is_range is_over block_with_error buffer_size full
full_is_refused = refl
