-- ===== src/StateManager/Runs.antt =====
-- Runs of the manager: state_manager_*.go.
use web3_indexer_go.Base.{
  zero, suc, ℕ, ◌+◌, ◌-◌, ◌*◌, ◌≤◌, ◌<◌, ◌≡◌, refl, Bool, true, false, ◌||◌, List, [], ◌∷◌, ◌++◌,
  All, ltb, length, arith, if_intro, length-append,
}
use web3_indexer_go.StateManager.{
  IndexerState, idle, active, watching, IndexerService, StateManager, minute, is_same,
  new_state_manager, transition_to, record_access, check_and_transition, leave, enter,
  execute_transition, stop, Label, accessed, requested, watchdog_ticks, processes, stops,
  process_next, step, run,
}

-- No other component requests the idle or the watching state.
abbrev pub KeepsAwake : Label → Type 0
KeepsAwake (requested s) = s ≡ active
KeepsAwake _ = Unit

module _ {I : Type 0} where
  transition_to-bounded :
      (s : IndexerState) (m : StateManager I)
      → length m.state_ch ≤ 10
      → length (transition_to s m).state_ch ≤ 10
  unfolding transition_to
  transition_to-bounded s m h = ground (arith, h, length-append m.state_ch (s ∷ []))

  record_access-bounded :
      (now : ℕ) (m : StateManager I)
      → length m.state_ch ≤ 10
      → length (record_access now m).state_ch ≤ 10
  unfolding record_access transition_to
  record_access-bounded now m h = ground (arith, h, length-append m.state_ch (active ∷ []))

  check_and_transition-bounded :
      (now : ℕ) (m : StateManager I)
      → length m.state_ch ≤ 10
      → length (check_and_transition now m).state_ch ≤ 10
  unfolding check_and_transition transition_to
  check_and_transition-bounded now m h =
      ground
        (arith, h, length-append m.state_ch (watching ∷ []), length-append m.state_ch (idle ∷ []))

module _ {I : Type 0} (service : IndexerService I) where
  -- The manager is active, and nothing that waits in its channel puts it to sleep.
  abbrev pub Awake : StateManager I → Type 0
  Awake m =
      (m.continuous_mode ≡ true) × (m.current_state ≡ active) × All (λ s. s ≡ active) m.state_ch

  All-append :
      (ss : List IndexerState) (s : IndexerState)
      → All (λ t. t ≡ active) ss
      → s ≡ active
      → All (λ t. t ≡ active) (ss ++ s ∷ [])
  All-append [] s a e = (e, tt)
  All-append (t ∷ ss) s (b, a) e = (b, All-append ss s a e)

  transition_to-Awake :
      (s : IndexerState) (m : StateManager I) → s ≡ active → Awake m → Awake (transition_to s m)
  unfolding transition_to
  transition_to-Awake s m k (c, a, e) = (
    c,
    a,
    if_intro (All (λ t. t ≡ active)) (ltb (length m.state_ch) 10) _ _ (All-append m.state_ch s e k)
        e,
  )

  process_next-Awake :
      (ss : List IndexerState) (m : StateManager I)
      → All (λ s. s ≡ active) ss
      → Awake m
      → Awake (process_next service ss m)
  unfolding process_next execute_transition is_same
  process_next-Awake [] m e h = h
  process_next-Awake (s ∷ ss) m (b, e) (c, a, h) = rw (a, b) (c, refl, e)

  step-Awake : (l : Label) (m : StateManager I) → KeepsAwake l → Awake m → Awake (step service l m)
  unfolding step record_access stop
  step-Awake (accessed now) m k (c, a, e) = rw a (c, refl, e)
  step-Awake (requested s) m k h = transition_to-Awake s m k h
  step-Awake (watchdog_ticks now) m k (c, a, e) = rw c (refl, a, e)
  step-Awake processes m k (c, a, e) =
      if_intro Awake m.stopped _ _ (c, a, e) (process_next-Awake m.state_ch m e (c, a, e))
  step-Awake stops m k (c, a, e) = (c, a, e)

  run-Awake :
      (ls : List Label) (m : StateManager I)
      → All KeepsAwake ls
      → Awake m
      → Awake (run service ls m)
  unfolding run
  run-Awake [] m k h = h
  run-Awake (l ∷ ls) m (k, ks) h = run-Awake ls (step service l m) ks (step-Awake l m k h)

  -- In the continuous mode, while no other component requests the idle or the watching state, the
  -- manager is active after any run, whatever is accessed, requested to be active, ticks or stops.
  pub run-continuous :
      (indexer : I) (disable_smart_sleep : Bool) (now : ℕ) (ls : List Label)
      → All KeepsAwake ls
      → (run service ls (new_state_manager indexer true disable_smart_sleep now)).current_state
        ≡ active
  unfolding new_state_manager
  run-continuous indexer d now ls k =
      let (c, a, e) = run-Awake ls (new_state_manager indexer true d now) k (refl, refl, tt) in a

  -- As many turns of the processor.
  abbrev pub turns : ℕ → List Label
  turns zero = []
  turns (suc n) = processes ∷ turns n

  -- With the smart sleep disabled, outside the continuous mode, a manager that nobody accesses for
  -- more than five minutes is put to sleep all the same: the watchdog's tick and the processor make
  -- it idle, and stop the indexer.
  pub disabled_sleep_sleeps :
      (indexer : I) (now later : ℕ)
      → now + 300000000000 < later
      → let m =
          run service
            (watchdog_ticks later ∷ processes ∷ [])
            (new_state_manager indexer false true now) in
        (m.current_state ≡ idle) × (m.indexer ≡ (service.stop (service.stop indexer).0).0)
  unfolding run step new_state_manager check_and_transition transition_to process_next
      execute_transition is_same enter leave
  disabled_sleep_sleeps indexer now later h =
      let late : ltb (5 * minute) (later - now) ≡ true = ground (arith, h) in rw late (refl, refl)

  -- An access wakes a sleeping manager with an empty channel: it is active, whether the indexer
  -- started or not, and when it did not, a further access does not start it again.
  pub failed_start_sticks :
      (m : StateManager I) (first second : ℕ)
      → m.current_state ≡ idle
      → m.state_ch ≡ []
      → m.stopped ≡ false
      → let n = run service (accessed first ∷ processes ∷ accessed second ∷ processes ∷ []) m in
        (n.current_state ≡ active) × (n.indexer ≡ (service.start m.indexer).0)
  unfolding run step record_access transition_to process_next execute_transition is_same enter leave
  failed_start_sticks m first second a b c = rw (a, b, c) (refl, refl)

  process_next-bounded :
      (ss : List IndexerState) (m : StateManager I)
      → length m.state_ch ≤ 10
      → length ss ≤ 10
      → length (process_next service ss m).state_ch ≤ 10
  unfolding process_next execute_transition
  process_next-bounded [] m h k = h
  process_next-bounded (s ∷ ss) m h k =
      if_intro (λ (n : StateManager I). length n.state_ch ≤ 10) (is_same m.current_state s) _ _
        (omega (arith, k)) (omega (arith, k))

  step-bounded :
      (l : Label) (m : StateManager I)
      → length m.state_ch ≤ 10
      → length (step service l m).state_ch ≤ 10
  unfolding step stop
  step-bounded (accessed now) m h = record_access-bounded now m h
  step-bounded (requested s) m h = transition_to-bounded s m h
  step-bounded (watchdog_ticks now) m h =
      if_intro (λ (n : StateManager I). length n.state_ch ≤ 10) (m.continuous_mode || m.stopped) _ _
        h (check_and_transition-bounded now m h)
  step-bounded processes m h =
      if_intro (λ (n : StateManager I). length n.state_ch ≤ 10) m.stopped _ _ h
        (process_next-bounded m.state_ch m h h)
  step-bounded stops m h = h

  -- The channel of requests never holds more than its ten places.
  pub run-bounded :
      (ls : List Label) (m : StateManager I)
      → length m.state_ch ≤ 10
      → length (run service ls m).state_ch ≤ 10
  unfolding run
  run-bounded [] m h = h
  run-bounded (l ∷ ls) m h = run-bounded ls (step service l m) (step-bounded l m h)
