-- ===== src/StateManager.antt =====
-- internal/engine/state_manager_*.go: the manager that puts the indexer to sleep and wakes it. The
-- indexer is a parameter, with the operations of `IndexerService` that are called here.
pub mod Runs
mod Tests
use web3_indexer_go.Base.{
  ℕ, ◌+◌, ◌*◌, ◌-◌, Bool, true, false, ◌||◌, not, List, [], ◌∷◌, ◌++◌, ltb, if◌then◌else◌, length,
}

pub data IndexerState : Type 0 where
  idle : IndexerState
  active : IndexerState
  watching : IndexerState

-- `start` and `stop` say whether they succeed (true is a nil error).
pub record IndexerService (I : Type 0) : Type 0 where
  pub start : I → I × Bool
  pub stop : I → I × Bool
  pub is_running : I → Bool
  pub set_low_power_mode : Bool → I → I

-- Times are nanoseconds; `state_ch` holds what waits in the channel of 10 places.
pub record StateManager (I : Type 0) : Type 0 where
  pub indexer : I
  pub state_ch : List IndexerState
  pub stopped : Bool
  pub demo_duration : ℕ
  pub idle_timeout : ℕ
  pub continuous_mode : Bool
  pub current_state : IndexerState
  pub last_access : ℕ

abbrev pub minute : ℕ
minute = 60000000000

-- `state == newState`.
unfoldable pub is_same : IndexerState → IndexerState → Bool
is_same idle idle = true
is_same active active = true
is_same watching watching = true
is_same _ _ = false

module _ {I : Type 0} where
  -- The two flags are the environment's `CONTINUOUS_MODE` and `DISABLE_SMART_SLEEP`.
  unfoldable pub new_state_manager : I → Bool → Bool → ℕ → StateManager I
  new_state_manager indexer continuous_mode disable_smart_sleep now = record {
    indexer = indexer;
    state_ch = [];
    stopped = false;
    demo_duration = 5 * minute;
    idle_timeout = 10 * minute;
    continuous_mode = continuous_mode;
    current_state = if continuous_mode || disable_smart_sleep then active else idle;
    last_access = now;
  }

  -- A full channel drops the request.
  unfoldable pub transition_to : IndexerState → StateManager I → StateManager I
  transition_to s m = record m {
    state_ch = if ltb (length m.state_ch) 10 then m.state_ch ++ s ∷ [] else m.state_ch;
  }

  unfoldable pub record_access : ℕ → StateManager I → StateManager I
  record_access now m =
      let n = record m { last_access = now } in
      elim m.current_state [
        | idle ↦ transition_to active n
        | active ↦ n
        | watching ↦ transition_to active n
      ]

  unfoldable pub start_demo : ℕ → StateManager I → StateManager I
  start_demo now m = record_access now m

  unfoldable pub check_and_transition : ℕ → StateManager I → StateManager I
  check_and_transition now m = elim m.current_state [
    | idle ↦ if ltb m.idle_timeout (now - m.last_access) then transition_to watching m else m
    | active ↦ if ltb m.demo_duration (now - m.last_access) then transition_to idle m else m
    | watching ↦ m
  ]

  unfoldable pub get_state : StateManager I → IndexerState
  get_state m = m.current_state

module _ {I : Type 0} (service : IndexerService I) where
  -- A failed start leaves the low power mode as it is.
  unfoldable pub start_watching_mode : I → I
  start_watching_mode i =
      if service.is_running i
      then service.set_low_power_mode true i
      else (let (j, ok) = service.start i in if ok then service.set_low_power_mode true j else j)

  unfoldable pub leave : IndexerState → I → I
  leave idle i = i
  leave active i = (service.stop i).0
  leave watching i = service.set_low_power_mode false i

  unfoldable pub enter : IndexerState → I → I
  enter idle i = (service.stop i).0
  enter active i = (service.start i).0
  enter watching i = start_watching_mode i

  unfoldable pub execute_transition : IndexerState → StateManager I → StateManager I
  execute_transition s m =
      if is_same m.current_state s
      then m
      else record m { indexer = enter s (leave m.current_state m.indexer); current_state = s }

  unfoldable pub stop : StateManager I → StateManager I
  stop m = record m {
    stopped = true;
    indexer = if service.is_running m.indexer then (service.stop m.indexer).0 else m.indexer;
  }

-- What the goroutines of `Start` and the callers do. `requested` is a call of `transitionTo` by
-- another component: `AdminServer.Stop` and `LazyManager.StartMonitor` request the idle state.
pub data Label : Type 0 where
  accessed : ℕ → Label
  requested : IndexerState → Label
  watchdog_ticks : ℕ → Label
  processes : Label
  stops : Label

module _ {I : Type 0} (service : IndexerService I) where
  unfoldable pub process_next : List IndexerState → StateManager I → StateManager I
  process_next [] m = m
  process_next (s ∷ ss) m = execute_transition service s (record m { state_ch = ss })

  -- `Start` starts the watchdog only outside the continuous mode. Once stopped, neither goroutine
  -- goes on.
  unfoldable pub step : Label → StateManager I → StateManager I
  step (accessed now) m = record_access now m
  step (requested s) m = transition_to s m
  step (watchdog_ticks now) m =
      if m.continuous_mode || m.stopped then m else check_and_transition now m
  step processes m = if m.stopped then m else process_next m.state_ch m
  step stops m = stop service m

  unfoldable pub run : List Label → StateManager I → StateManager I
  run [] m = m
  run (l ∷ ls) m = run ls (step l m)
