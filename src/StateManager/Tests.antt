-- ===== src/StateManager/Tests.antt =====
-- The manager with a concrete indexer, and the theorems at concrete inputs.
use web3_indexer_go.Base.{◌≡◌, refl, Bool, true, false, [], ◌∷◌, if◌then◌else◌}
use web3_indexer_go.StateManager.{
  idle, active, IndexerService, StateManager, new_state_manager, accessed, requested,
  watchdog_ticks, processes, stops, run, step, check_and_transition, transition_to, process_next,
  execute_transition, is_same, enter, leave, start_watching_mode,
}
use web3_indexer_go.StateManager.Runs.{run-continuous}

-- An indexer that is running or not, and in the low power mode or not.
abbrev Indexer : Type 0
Indexer = Bool × Bool

abbrev service : Bool → IndexerService Indexer
service starts = record {
  start = λ i. (if starts then (true, i.1) else i, starts);
  stop = λ i. ((false, i.1), true);
  is_running = λ i. i.0;
  set_low_power_mode = λ on i. (i.0, on);
}

abbrev asleep : StateManager Indexer
asleep = record {
  indexer = (false, false);
  state_ch = [];
  stopped = false;
  demo_duration = 300000000000;
  idle_timeout = 600000000000;
  continuous_mode = false;
  current_state = idle;
  last_access = 0;
}

watches_headers :
    (run (service true) (watchdog_ticks 700000000000 ∷ processes ∷ []) asleep).indexer
    ≡ (true, true)
unfolding run step check_and_transition transition_to process_next execute_transition is_same enter
    leave start_watching_mode
watches_headers = refl

run-continuous_example :
    (run
      (service true)
      (accessed 1 ∷ requested active ∷ watchdog_ticks 900000000000 ∷ processes ∷ stops ∷ [])
      (new_state_manager (false, false) true false 0)).current_state
    ≡ active
run-continuous_example =
    run-continuous (service true) (false, false) false 0
      (accessed 1 ∷ requested active ∷ watchdog_ticks 900000000000 ∷ processes ∷ stops ∷ [])
      (tt, (refl, (tt, (tt, (tt, tt)))))

abbrev on_duty : StateManager Indexer
on_duty = record asleep {
  current_state = active;
  state_ch = active ∷ [];
  indexer = (true, false);
  continuous_mode = true;
}
