-- ===== src/Fetcher/Schedule/Cover.antt =====
-- Which blocks the jobs of `Schedule` cover: fetcher_schedule.go.
use web3_indexer_go.Base.{
  ℕ, zero, suc, ◌+◌, ◌-◌, ◌*◌, ◌/◌, ◌≤◌, ◌<◌, ◌≡◌, ◌≢◌, refl, inl, inr, false, ◌&&◌, List, [], ◌∷◌,
  All, Option, ltb, leb, if◌then◌else◌, length, arith, Bool-cases, if_intro,
}
use web3_indexer_go.Fetcher.{FetchJob, Fetcher}
use web3_indexer_go.Fetcher.Schedule.{
  Choice, sends, context_done, stop_closed, Scheduled, scheduled, block_not_yet_available,
  jobs_backpressure, results_backpressure, sequencer_backpressure, out_of_fuel, batch_end,
  after_send, schedule_loop, safe_uint64_to_int64, is_crowded, schedule,
}

-- How many of the jobs cover block `k`.
abbrev pub covers : ℕ → List FetchJob → ℕ
covers k [] = 0
covers k (j ∷ js) = (if leb j.start k && leb k j.end then 1 else 0) + covers k js

-- One for the numbers from `a` to `b`, zero for the others.
abbrev pub within : ℕ → ℕ → ℕ → ℕ
within a b k = if leb a k && leb k b then 1 else 0

-- Jobs of at most 51 blocks, that cover the blocks from `a` to `b` at most once and no others.
abbrev pub IsSound : ℕ → ℕ → ℕ → List FetchJob × Scheduled → Type 0
IsSound a b k (jobs, r) =
    (covers k jobs ≤ within a b k) × All (λ j. j.end ≤ j.start + 50) jobs × (r ≢ out_of_fuel)

after_send-IsSound :
    (c : Choice) (a b k : ℕ) (p : List FetchJob × Scheduled)
    → a ≤ b
    → IsSound (batch_end a b + 1) b k p
    → IsSound a b k (after_send c (record { start = a; end = batch_end a b }) p)
unfolding after_send batch_end
after_send-IsSound sends a b k (jobs, r) le (h, s, q) =
    (ground (arith, h, le), (ground arith, s), q)
after_send-IsSound context_done a b k (jobs, r) le (h, s, q) =
    (omega arith, tt, λ e. ground (arith, e))
after_send-IsSound stop_closed a b k (jobs, r) le (h, s, q) =
    (omega arith, tt, λ e. ground (arith, e))

batch_end-ge : (a b : ℕ) → a ≤ b → a ≤ batch_end a b
unfolding batch_end
batch_end-ge a b h = ground arith

schedule_loop-IsSound :
    (fuel : ℕ) (select : ℕ → Choice) (n a b k : ℕ)
    → b + 2 ≤ fuel + a
    → 0 < fuel
    → IsSound a b k (schedule_loop fuel select n a b)
unfolding schedule_loop
schedule_loop-IsSound zero select n a b k h pos = absurd (omega (arith, pos))
schedule_loop-IsSound (suc fuel) select n a b k h pos = elim (Bool-cases (leb a b)) [
  | inl e ↦
      let le : a ≤ b = ground (arith, e) in
      let ge = batch_end-ge a b le in
      rw e (
        after_send-IsSound (select n) a b k
          (schedule_loop fuel select (n + 1) (batch_end a b + 1) b) le
          (schedule_loop-IsSound fuel select (n + 1) (batch_end a b + 1) b k (omega (arith, h, ge))
            (omega (arith, h, le))))
  | inr e ↦ rw e (omega arith, tt, λ q. ground (arith, q))
]

-- When every send succeeds, each block is covered exactly once.
abbrev IsComplete : ℕ → ℕ → ℕ → List FetchJob × Scheduled → Type 0
IsComplete a b k (jobs, r) = (r ≡ scheduled) × (covers k jobs ≡ within a b k)

after_send-IsComplete :
    (a b k : ℕ) (p : List FetchJob × Scheduled)
    → a ≤ b
    → IsComplete (batch_end a b + 1) b k p
    → IsComplete a b k (after_send sends (record { start = a; end = batch_end a b }) p)
unfolding after_send batch_end
after_send-IsComplete a b k (jobs, r) le (h, c) = (h, ground (arith, c, le))

schedule_loop-IsComplete :
    (fuel : ℕ) (select : ℕ → Choice) (n a b k : ℕ)
    → ((i : ℕ) → select i ≡ sends)
    → b + 2 ≤ fuel + a
    → 0 < fuel
    → IsComplete a b k (schedule_loop fuel select n a b)
unfolding schedule_loop
schedule_loop-IsComplete zero select n a b k s h pos = absurd (omega (arith, pos))
schedule_loop-IsComplete (suc fuel) select n a b k s h pos = elim (Bool-cases (leb a b)) [
  | inl e ↦
      let le : a ≤ b = ground (arith, e) in
      let ge = batch_end-ge a b le in
      rw (e, s n)
        (after_send-IsComplete a b k (schedule_loop fuel select (n + 1) (batch_end a b + 1) b) le (
          schedule_loop-IsComplete fuel select (n + 1) (batch_end a b + 1) b k s
            (omega (arith, h, ge)) (omega (arith, h, le))))
  | inr e ↦ rw e (refl, ground (arith, e))
]

abbrev Sound : ℕ → ℕ → ℕ → ℕ → List FetchJob × Scheduled → Type 0
Sound latest_height start end k (jobs, r) =
    (covers k jobs ≤ (if leb start k && (leb k end && leb k latest_height) then 1 else 0))
    × All (λ j. j.end ≤ j.start + 50) jobs
    × (r ≢ out_of_fuel)

safe_uint64_to_int64-same : (v : ℕ) → v < 9223372036854775808 → safe_uint64_to_int64 v ≡ v
unfolding safe_uint64_to_int64
safe_uint64_to_int64-same v h = ground arith

-- Whatever the channels do, `Schedule` ends; each of its jobs has at most 51 blocks; and they cover
-- the blocks from `start` to `end` that are not beyond the latest height at most once, and no others.
pub schedule-IsSound :
    (latest_height : ℕ) (buffered : Option ℕ) (select : ℕ → Choice) (f : Fetcher) (start end k : ℕ)
    → let (jobs, r) = schedule latest_height buffered select f start end in
      (covers k jobs ≤ (if leb start k && (leb k end && leb k latest_height) then 1 else 0))
      × All (λ j. j.end ≤ j.start + 50) jobs
      × (r ≢ out_of_fuel)
unfolding schedule safe_uint64_to_int64
schedule-IsSound latest_height buffered select f start end k =
    let chain = safe_uint64_to_int64 latest_height in
    let end' = if ltb chain end then chain else end in
    let (c, s, q) =
      schedule_loop-IsSound (end' - start + 2) select 0 start end' k (omega arith) (omega arith) in
    let nothing : (r : Scheduled) → r ≢ out_of_fuel → Sound latest_height start end k ([], r) =
      λ r h. (omega arith, tt, h) in
    let P = Sound latest_height start end k in
    if_intro P (ltb chain start) _ _ (nothing block_not_yet_available (λ e. ground (arith, e))) (
      if_intro P (ltb end' start) _ _ (nothing scheduled (λ e. ground (arith, e))) (
        if_intro P (ltb (f.jobs_cap * 90 / 100) (length f.jobs)) _ _
          (nothing jobs_backpressure (λ e. ground (arith, e)))
          (if_intro P (ltb (f.results_cap * 90 / 100) f.results_depth) _ _
            (nothing results_backpressure (λ e. ground (arith, e)))
            (if_intro P (is_crowded buffered) _ _
              (nothing sequencer_backpressure (λ e. ground (arith, e)))
              (ground (arith, c), s, q)))))

-- When the range starts at a known height below 2 ^ 63, neither channel is fuller than nine tenths,
-- the sequencer has no more than 2000 buffered blocks and every send succeeds: the jobs cover each
-- block from `start` to `end` that is not beyond the latest height exactly once, and no others.
pub schedule-covers :
    (latest_height : ℕ) (buffered : Option ℕ) (select : ℕ → Choice) (f : Fetcher) (start end k : ℕ)
    → start ≤ latest_height
    → latest_height < 9223372036854775808
    → length f.jobs ≤ f.jobs_cap * 90 / 100
    → f.results_depth ≤ f.results_cap * 90 / 100
    → is_crowded buffered ≡ false
    → ((i : ℕ) → select i ≡ sends)
    → let (jobs, r) = schedule latest_height buffered select f start end in
      (r ≡ scheduled)
      × (covers k jobs ≡ (if leb start k && (leb k end && leb k latest_height) then 1 else 0))
unfolding schedule
schedule-covers latest_height buffered select f start end k a b c d e s =
    let end' = if ltb latest_height end then latest_height else end in
    let known : ltb latest_height start ≡ false = ground (arith, a) in
    let roomy : ltb (f.jobs_cap * 90 / 100) (length f.jobs) ≡ false = ground (arith, c) in
    let light : ltb (f.results_cap * 90 / 100) f.results_depth ≡ false = ground (arith, d) in
    let (r, cover) =
      schedule_loop-IsComplete (end' - start + 2) select 0 start end' k s (omega arith)
        (omega arith) in
    rw (safe_uint64_to_int64-same latest_height b, known)
      (elim (Bool-cases (ltb end' start)) [
        | inl empty ↦ rw empty (refl, ground (arith, empty))
        | inr some_left ↦ rw (some_left, roomy, light, e) (r, ground (arith, cover))
      ])
