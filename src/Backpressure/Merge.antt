-- ===== src/Backpressure/Merge.antt =====
-- The merge of schedules, before the watermarks are looked at.
use web3_indexer_go.Base.{
  ℕ, ◌-◌, ◌<◌, ◌≡◌, refl, sym, subst, Bool, true, false, ◌&&◌, Option, arith, ◌==◌,
}
use web3_indexer_go.Fetcher.Schedule.{Choice}
use web3_indexer_go.Backpressure.{
  ScheduleMerge, is_range, last_time_of, is_merged, should_schedule, FetcherWithDynamicBackpressure,
  BackpressureManager, Verdict, allowed, blocked, backing_off, merged, refused, after_check,
  after_merge, schedule_dynamic,
}

-- A range that was accepted is merged for the rest of the window.
accepted_then_merged :
    (now later start end : ℕ) (sm : ScheduleMerge)
    → (should_schedule now start end sm).1 ≡ true
    → later - now < sm.merge_window
    → (should_schedule later start end (should_schedule now start end sm).0).1 ≡ false
unfolding should_schedule last_time_of is_range is_merged
accepted_then_merged now later start end sm h l =
    let fresh : is_merged now sm.merge_window (last_time_of start end sm.pending) ≡ false =
      ground arith in
    let same : (start == start && end == end) ≡ true = ground arith in ground arith

module _ (latest : ℕ) (buffered : Option ℕ) (select : ℕ → Choice) (start end : ℕ) where
  after_check-merge :
      (f : FetcherWithDynamicBackpressure) (c : BackpressureManager × Verdict)
      → (after_check latest buffered select start end f c).0.schedule_merge ≡ f.schedule_merge
  unfolding after_check
  after_check-merge f (m, allowed) = refl
  after_check-merge f (m, blocked) = refl
  after_check-merge f (m, backing_off) = refl

  after_merge-refused :
      (now : ℕ) (f : FetcherWithDynamicBackpressure) (q : ScheduleMerge × Bool) (v : Verdict)
      → (after_merge now latest buffered select start end f q).1 ≡ refused v
      → (q.1 ≡ true)
        × ((after_merge now latest buffered select start end f q).0.schedule_merge ≡ q.0)
  unfolding after_merge
  after_merge-refused now f (sm, false) v h = absurd (ground arith)
  after_merge-refused now f (sm, true) v h =
      (refl, after_check-merge (record f { schedule_merge = sm }) _)

  after_merge-merged :
      (now : ℕ) (f : FetcherWithDynamicBackpressure) (q : ScheduleMerge × Bool)
      → q.1 ≡ false
      → (after_merge now latest buffered select start end f q).1 ≡ merged
  unfolding after_merge
  after_merge-merged now f (sm, false) h = refl
  after_merge-merged now f (sm, true) h = absurd (ground arith)

  -- When the watermarks refuse a range, trying it again within the merge window is answered as a
  -- repetition, with nil, as if the range had been scheduled.
  pub schedule_dynamic-refused :
      (now later : ℕ) (f : FetcherWithDynamicBackpressure) (v : Verdict)
      → (schedule_dynamic now latest buffered select start end f).1 ≡ refused v
      → later - now < f.schedule_merge.merge_window
      → let g = (schedule_dynamic now latest buffered select start end f).0 in
        (schedule_dynamic later latest buffered select start end g).1 ≡ merged
  unfolding schedule_dynamic
  schedule_dynamic-refused now later f v h l =
      let q : ScheduleMerge × Bool = should_schedule now start end f.schedule_merge in
      let (accepted, kept) = after_merge-refused now f q v h in
      after_merge-merged later (after_merge now latest buffered select start end f q).0
        (should_schedule later start end
          (after_merge now latest buffered select start end f q).0.schedule_merge)
        (subst (λ sm. (should_schedule later start end sm).1 ≡ false) (sym kept)
          (accepted_then_merged now later start end f.schedule_merge accepted l))
