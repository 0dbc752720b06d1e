-- ===== src/LazyManager/Sleep.antt =====
-- When the manager sleeps and when it does not.
use web3_indexer_go.Base.{
  ℕ, ◌+◌, ◌≤◌, ◌<◌, ◌≡◌, true, false, ◌&&◌, not, List, [], ◌∷◌, none, arith, ◌⊎◌,
}
use web3_indexer_go.Fetcher.{pause, resume}
use web3_indexer_go.LazyManager.{
  LazyManager, active_by_blocks, wake, notify_block_processed, trigger, falls_asleep, monitor_tick,
  get_status, Label, triggered, block_processed, ticked, step, run,
}

-- Each tick comes within the timeout after the last heartbeat `beat`, or sees a lag above ten blocks.
abbrev pub KeepsBusy : ℕ → ℕ → List Label → Type 0
KeepsBusy timeout beat [] = Unit
KeepsBusy timeout beat (triggered now ∷ ls) = KeepsBusy timeout now ls
KeepsBusy timeout beat (block_processed now ∷ ls) = KeepsBusy timeout beat ls
KeepsBusy timeout beat (ticked now chain indexed ∷ ls) =
    ((now ≤ beat + timeout) ⊎ (indexed + 10 < chain)) × KeepsBusy timeout beat ls

module _ {I : Type 0} where
  -- Awake outside the laboratory mode, with a fetcher that runs.
  pub record IsAwake (beat : ℕ) (m : LazyManager I) : Type 0 where
    pub active : m.is_active ≡ true
    pub ordinary : m.is_always_active ≡ false
    pub heartbeat : m.last_heartbeat ≡ beat
    pub running : m.fetcher.paused ≡ false

  -- In the laboratory mode nothing that happens puts the manager to sleep.
  pub run-lab_mode :
      (ls : List Label) (m : LazyManager I)
      → m.is_always_active ≡ true
      → m.is_active ≡ true
      → m.fetcher.paused ≡ false
      → ((run ls m).is_active ≡ true) × ((run ls m).fetcher.paused ≡ false)
  unfolding run step trigger notify_block_processed monitor_tick falls_asleep wake pause resume
  run-lab_mode [] m a h f = (h, f)
  run-lab_mode (triggered now ∷ ls) m a h f =
      run-lab_mode ls (trigger now m) a (ground (arith, a, h)) (ground (arith, a, h, f))
  run-lab_mode (block_processed now ∷ ls) m a h f =
      run-lab_mode ls (notify_block_processed now m) a (ground (arith, a, h))
        (ground (arith, a, h, f))
  run-lab_mode (ticked now chain indexed ∷ ls) m a h f =
      run-lab_mode ls (monitor_tick now chain indexed m) a (ground (arith, a, h))
        (ground (arith, a, h, f))

  -- Blocks do not keep the manager awake: when the last heartbeat is over, a tick right after a block
  -- puts it to sleep and pauses the fetcher, and the status then reports activity by blocks.
  pub block_activity_sleeps :
      (now chain indexed : ℕ) (m : LazyManager I)
      → m.is_always_active ≡ false
      → m.is_active ≡ true
      → m.state_manager ≡ none
      → m.last_heartbeat + m.timeout < now
      → chain ≤ indexed + 10
      → let n = run (block_processed now ∷ ticked now chain indexed ∷ []) m in
        (n.is_active ≡ false)
        × (n.fetcher.paused ≡ true)
        × (get_status now n ≡ active_by_blocks m.timeout)
  unfolding run step notify_block_processed monitor_tick falls_asleep wake pause resume get_status
  block_activity_sleeps now chain indexed m a h s e l =
      let awake : (not m.is_active && not m.is_always_active) ≡ false = ground arith in
      let n : LazyManager I = notify_block_processed now m in
      let sleeps : falls_asleep now chain indexed n ≡ true = ground arith in
      (ground arith, ground arith, ground arith)
