-- ===== src/Sequencer/Stall/Gap.antt =====
-- The stall handler's refetches of a gap, and how long a gap can hold the sequencer.
use web3_indexer_go.Base.{
  ℕ, zero, suc, ◌+◌, ◌-◌, ◌*◌, ◌≤◌, ◌<◌, ◌≡◌, refl, sym, ap, ◌∙◌, ◌⊎◌, length, Bool, true, false,
  Bool-cases, Option-cases, inl, inr, none, some, arith, ltb, ◌&&◌, ◌∷◌, is_some,
}
use web3_indexer_go.Sequencer.Buffer.{lookup, min_buffered}
use web3_indexer_go.Sequencer.Buffer.Size.{min_buffered-le, min_buffered-mem}
use web3_indexer_go.Sequencer.State.{tick, log, Event, schedule, History, Env, Sequencer}
use web3_indexer_go.Sequencer.Stall.{second, get_idle_time, handle_stall, stall_tick}

module _ {Block Log Err : Type 0} (env : Env Block Log Err) where
  -- Whether the stall handler finds a gap: the least buffered block lies after the expected one.
  abbrev pub has_gap : Sequencer Block Log Err → Bool
  has_gap s = elim (min_buffered s.buffer) [ none ↦ false | some m ↦ ltb s.expected_block m ]

  module _ (s : Sequencer Block Log Err) where
    pub handle_stall-le : s.expected_block ≤ (handle_stall env s).expected_block
    unfolding handle_stall
    handle_stall-le = ground arith

    -- The ways a stall is handled.
    pub data Handled : Type 0 where
      refetched :
          (m : ℕ)
          → min_buffered s.buffer ≡ some m
          → s.expected_block < m
          → handle_stall env s ≡ record s {
            gap_fill_count = s.gap_fill_count + 1;
            history = schedule s.expected_block (m - 1) ∷ s.history;
          }
          → Handled
      moved : (handle_stall env s).history ≡ s.history → Handled

    handle_stall-Handled : Handled
    unfolding handle_stall
    handle_stall-Handled = elim (Option-cases (min_buffered s.buffer)) [
      | inl empty ↦ moved (ground arith)
      | inr (m, least) ↦
          elim (Bool-cases (
            ltb (55 * second) (get_idle_time env s)
            && ltb s.expected_block m
            && is_some s.fetcher
            && ltb s.gap_fill_count 3)) [
              | inl refetch ↦ refetched m least (ground arith) (ground arith)
              | inr other ↦ moved (ground arith)
            ]
    ]

    cons-ne : (e : Event Block Log Err) (h : History Block Log Err) → ¬ (h ≡ e ∷ h)
    cons-ne e h same = absurd (omega (arith, ap length same))

    covers :
        (a b k m : ℕ)
        → min_buffered s.buffer ≡ some m
        → s.expected_block < m
        → handle_stall env s ≡ record s {
          gap_fill_count = s.gap_fill_count + 1;
          history = schedule s.expected_block (m - 1) ∷ s.history;
        }
        → (handle_stall env s).history ≡ schedule a b ∷ s.history
        → k ≤ b
        → (a ≡ s.expected_block)
          × ((handle_stall env s).expected_block ≡ s.expected_block)
          × (lookup k s.buffer ≡ none)
          × (is_some (lookup (b + 1) s.buffer) ≡ true)
    covers a b k m least gap t h le =
        let calls : (handle_stall env s).history ≡ schedule s.expected_block (m - 1) ∷ s.history =
          ap (λ q. q.history) t in
        let last : b + 1 ≡ m = ground arith in
        let (v, found) = min_buffered-mem m s.buffer least in
        (
          ground arith,
          ground arith,
          elim (Option-cases (lookup k s.buffer)) [
            | inl gone ↦ gone
            | inr (w, there) ↦ absurd (omega (arith, min_buffered-le k m w s.buffer least there))
          ],
          rw (last, found) refl,
        )

    -- A refetch that the stall handler asks for is of the whole gap and of nothing else: it starts at
    -- the expected block, which stays expected; none of the blocks asked for is buffered, and the
    -- one after them is.
    pub handle_stall-schedule :
        (a b k : ℕ)
        → (handle_stall env s).history ≡ schedule a b ∷ s.history
        → a ≤ k
        → k ≤ b
        → (a ≡ s.expected_block)
          × ((handle_stall env s).expected_block ≡ s.expected_block)
          × (lookup k s.buffer ≡ none)
          × (is_some (lookup (b + 1) s.buffer) ≡ true)
    handle_stall-schedule a b k h le ge = elim handle_stall-Handled [
      | refetched m least gap t ↦ covers a b k m least gap t h ge
      | moved same ↦ absurd (cons-ne (schedule a b) s.history (sym same ∙ h))
    ]

  -- `n` ticks of the stall timer in a row, with nothing arriving in between.
  abbrev pub stall_ticks : ℕ → Sequencer Block Log Err → Sequencer Block Log Err
  stall_ticks zero s = s
  stall_ticks (suc n) s = stall_ticks n (stall_tick env s)

  stall_tick-le :
      (s : Sequencer Block Log Err) → s.expected_block ≤ (stall_tick env s).expected_block
  unfolding stall_tick
  stall_tick-le s = handle_stall-le (log s tick)

  stall_ticks-le :
      (n : ℕ) (s : Sequencer Block Log Err) → s.expected_block ≤ (stall_ticks n s).expected_block
  stall_ticks-le zero s = omega arith
  stall_ticks-le (suc n) s = omega (arith, stall_ticks-le n (stall_tick env s), stall_tick-le s)

  -- A tick after more than 55 s moves the cursor, or counts an attempt and leaves the clock alone.
  stall_step :
      (s : Sequencer Block Log Err)
      → s.last_progress_at + 55 * second < env.now (tick ∷ s.history)
      → (s.expected_block < (stall_tick env s).expected_block)
        ⊎ ((s.gap_fill_count < 3)
            × ((stall_tick env s).gap_fill_count ≡ s.gap_fill_count + 1)
            × ((stall_tick env s).last_progress_at ≡ s.last_progress_at))
  unfolding stall_tick handle_stall
  stall_step s idle = ground arith

  stall_ticks_from :
      (n : ℕ) (s : Sequencer Block Log Err)
      → ((h : History Block Log Err) → s.last_progress_at + 55 * second < env.now (tick ∷ h))
      → 3 < s.gap_fill_count + n
      → 0 < n
      → s.expected_block < (stall_ticks n s).expected_block
  stall_ticks_from zero s idle many some_left = absurd (omega arith)
  stall_ticks_from (suc n) s idle many some_left = elim (stall_step s (idle s.history)) [
    | inl moved_on ↦ omega (arith, stall_ticks-le n (stall_tick env s))
    | inr (few, counted, clock) ↦ omega (
      arith,
      stall_ticks_from n (stall_tick env s) (λ h. rw clock (idle h)) (omega arith) (omega arith),
      stall_tick-le s,
    )
  ]

  -- Whatever holds the sequencer up, four ticks of the stall timer in a row, all of them more than
  -- 55 s after the last progress, move the expected block on.
  pub stall_ticks-progress :
      (s : Sequencer Block Log Err)
      → ((h : History Block Log Err) → s.last_progress_at + 55 * second < env.now (tick ∷ h))
      → s.expected_block < (stall_ticks 4 s).expected_block
  stall_ticks-progress s idle = stall_ticks_from 4 s idle (omega arith) (omega arith)
