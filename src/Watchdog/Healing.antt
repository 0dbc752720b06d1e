-- ===== src/Watchdog/Healing.antt =====
-- What a healing leaves, and what becomes of the gap that it schedules.
use web3_indexer_go.Base.{
  ℕ, ◌+◌, ◌-◌, ◌*◌, ◌/◌, ◌≤◌, ◌<◌, ◌≡◌, refl, sym, ap, ◌∙◌, subst, Bool, true, false, ◌&&◌, Option,
  none, some, arith, ltb, if◌then◌else◌, length, [], Bool-cases, inl, inr, if_intro,
}
use web3_indexer_go.Fetcher.{Fetcher}
use web3_indexer_go.Fetcher.Schedule.{schedule, sends, is_crowded}
use web3_indexer_go.Fetcher.Schedule.Cover.{covers, schedule-covers}
use web3_indexer_go.Sequencer.State.{Env, Sequencer, BlockData, done}
use web3_indexer_go.Sequencer.Handle.{
  handle_block, handle_fetched, hydrate, settle, place, is_range_progress_signal,
}
use web3_indexer_go.Sequencer.Stall.{
  get_idle_time, reset_expected_block, get_expected_block, clear_buffer,
}
use web3_indexer_go.Orchestrator.Cursors.{force_set_cursors}
use web3_indexer_go.Watchdog.{
  DeadlockWatchdog, System, Answers, Checked, healed, healthy, update_failed, healing_event, heal,
  try_heal, with_answers, check_and_heal, is_space_time_tear, gap_range,
}

module _ {F L B T Block Log Err : Type 0} (env : Env Block Log Err) (w : DeadlockWatchdog)
    (a : Answers) (s : System F L B T Block Log Err) where
  -- The conditions under which the watchdog acts.
  pub record IsTorn (rpc db : ℕ) : Type 0 where
    pub enabled : w.enabled ≡ true
    pub stalled : w.stall_threshold ≤ get_idle_time env s.sequencer
    pub rpc_height : a.latest_block_number ≡ some rpc
    pub db_height : a.sync_cursor ≡ some db
    pub updated : a.cursor_updated ≡ true
    pub gap : db + w.gap_threshold < rpc
    pub behind : s.sequencer.expected_block + w.gap_threshold < rpc

  started :
      (b : Bool)
      → w.enabled ≡ true
      → w.stall_threshold ≤ get_idle_time env s.sequencer
      → check_and_heal env b w a s
        ≡ with_answers env b w a.cursor_updated a.latest_block_number a.sync_cursor s
  unfolding check_and_heal
  started b e i =
      let go : w.enabled
            && (if ltb (get_idle_time env s.sequencer) w.stall_threshold then false else true)
          ≡ true =
        ground arith in
      ap
        (λ x.
          if x
          then with_answers env b w a.cursor_updated a.latest_block_number a.sync_cursor s
          else (s, healthy))
        go

  answered :
      (b : Bool) (rpc db : ℕ)
      → a.latest_block_number ≡ some rpc
      → a.sync_cursor ≡ some db
      → a.cursor_updated ≡ true
      → with_answers env b w a.cursor_updated a.latest_block_number a.sync_cursor s
        ≡ try_heal env b w true rpc db s
  unfolding with_answers
  answered b rpc db r d u =
      ap (λ x. with_answers env b w a.cursor_updated x a.sync_cursor s) r
      ∙ ap (λ x. with_answers env b w a.cursor_updated (some rpc) x s) d
      ∙ ap (λ x. try_heal env b w x rpc db s) u

  torn :
      (b : Bool) (rpc db : ℕ)
      → db + w.gap_threshold < rpc
      → s.sequencer.expected_block + w.gap_threshold < rpc
      → try_heal env b w true rpc db s
        ≡ (heal env b rpc s, healed (healing_event db rpc true) (gap_range w.has_fetcher db rpc))
  unfolding try_heal is_space_time_tear get_expected_block
  torn b rpc db g h =
      let e : is_space_time_tear w.gap_threshold rpc db s.sequencer.expected_block ≡ true =
        ground arith in
      ap
        (λ x.
          if x
          then (
            heal env b rpc s,
            healed (healing_event db rpc true) (gap_range w.has_fetcher db rpc),
          )
          else (s, healthy))
        e

  heals :
      (b : Bool) (rpc db : ℕ)
      → IsTorn rpc db
      → check_and_heal env b w a s
        ≡ (heal env b rpc s, healed (healing_event db rpc true) (gap_range w.has_fetcher db rpc))
  heals b rpc db t =
      started b t.enabled t.stalled
      ∙ answered b rpc db t.rpc_height t.db_height t.updated
      ∙ torn b rpc db t.gap t.behind

  -- The system after a healing: the sequencer expects the chain's head, with an empty buffer, and no
  -- longer counts as stalled; all cursors are one below the head.
  abbrev pub IsHealed : ℕ → System F L B T Block Log Err → Type 0
  IsHealed rpc t =
      (t.sequencer.expected_block ≡ rpc)
      × (t.sequencer.buffer ≡ [])
      × (get_idle_time env t.sequencer ≡ 0)
      × (t.cursor ≡ rpc - 1)
      × (t.orchestrator.snapshot.synced_cursor ≡ rpc - 1)
      × (t.orchestrator.snapshot.latest_height ≡ rpc - 1)

  heal-IsHealed : (b : Bool) (rpc : ℕ) → IsHealed rpc (heal env b rpc s)
  unfolding heal reset_expected_block clear_buffer force_set_cursors get_idle_time
  heal-IsHealed b rpc = (refl, refl, omega arith, refl, refl, refl)

  -- A check of a torn system heals it.
  pub check_and_heal-IsHealed :
      (b : Bool) (rpc db : ℕ)
      → IsTorn rpc db
      → let (t, r) = check_and_heal env b w a s in
        IsHealed rpc t × (r ≡ healed (healing_event db rpc true) (gap_range w.has_fetcher db rpc))
  check_and_heal-IsHealed b rpc db t =
      let e = heals b rpc db t in
      (
        subst (λ (x : System F L B T Block Log Err × Checked). IsHealed rpc x.0) (sym e)
            (heal-IsHealed b rpc),
        ap (λ (x : System F L B T Block Log Err × Checked). x.1) e,
      )

  abbrev Step : Type 0
  Step = System F L B T Block Log Err × Checked

  try_heal-keeps :
      (b u : Bool) (rpc db : ℕ)
      → ¬ (
          (u ≡ true)
          × (db + w.gap_threshold < rpc)
          × (s.sequencer.expected_block + w.gap_threshold < rpc))
      → (try_heal env b w u rpc db s).0 ≡ s
  unfolding try_heal is_space_time_tear get_expected_block
  try_heal-keeps b false rpc db n =
      if_intro (λ (x : Step). x.0 ≡ s)
        (is_space_time_tear w.gap_threshold rpc db s.sequencer.expected_block)
        (s, update_failed (healing_event db rpc false)) (s, healthy) refl refl
  try_heal-keeps b true rpc db n =
      let e : is_space_time_tear w.gap_threshold rpc db s.sequencer.expected_block ≡ false =
        ground arith in
      subst
        (λ (x : Bool).
          (if◌then◌else◌ {A = Step} x
            (heal env b rpc s, healed (healing_event db rpc true) (gap_range w.has_fetcher db rpc))
            (s, healthy)).0
          ≡ s)
        (sym e) refl

  with_answers-keeps :
      (b : Bool) (r d : Option ℕ)
      → ((rpc db : ℕ)
          → r ≡ some rpc
          → d ≡ some db
          → ¬ (
              (a.cursor_updated ≡ true)
              × (db + w.gap_threshold < rpc)
              × (s.sequencer.expected_block + w.gap_threshold < rpc)))
      → (with_answers env b w a.cursor_updated r d s).0 ≡ s
  unfolding with_answers
  with_answers-keeps b none d n = refl
  with_answers-keeps b (some rpc) none n = refl
  with_answers-keeps b (some rpc) (some db) n =
      try_heal-keeps b a.cursor_updated rpc db (n rpc db refl refl)

  -- In any other case the watchdog changes nothing.
  pub check_and_heal-keeps :
      (b : Bool) → ¬ ((rpc : ℕ) × (db : ℕ) × IsTorn rpc db) → (check_and_heal env b w a s).0 ≡ s
  unfolding check_and_heal
  check_and_heal-keeps b n =
      let go =
        w.enabled
        && (if ltb (get_idle_time env s.sequencer) w.stall_threshold then false else true) in
      elim (Bool-cases go) [
        | inl e ↦
            subst
              (λ (x : Bool).
                (if◌then◌else◌ {A = Step} x
                  (with_answers env b w a.cursor_updated a.latest_block_number a.sync_cursor s)
                  (s, healthy)).0
                ≡ s)
              (sym e)
              (with_answers-keeps b a.latest_block_number a.sync_cursor (λ rpc db r d q. n (
                rpc,
                db,
                record {
                  enabled = ground arith;
                  stalled = ground arith;
                  rpc_height = r;
                  db_height = d;
                  updated = q.0;
                  gap = q.1;
                  behind = q.2;
                },
              )))
        | inr e ↦
            subst
              (λ (x : Bool).
                (if◌then◌else◌ {A = Step} x
                  (with_answers env b w a.cursor_updated a.latest_block_number a.sync_cursor s)
                  (s, healthy)).0
                ≡ s)
              (sym e) refl
      ]

  dropped :
      (rpc : ℕ) (t : Sequencer Block Log Err) (d : BlockData Block Log Err) (k : Block)
      → t.expected_block ≡ rpc
      → d.err ≡ none
      → d.block ≡ some k
      → env.number_of k < rpc
      → handle_block env t d ≡ (t, done)
  unfolding handle_block handle_fetched hydrate settle place is_range_progress_signal
  dropped rpc t d k h e f l = ground arith

  -- After a healing the sequencer drops, without processing it, each fetched block below the head of
  -- the chain, as all blocks of the gap are.
  pub check_and_heal-drops_gap :
      (b : Bool) (rpc db : ℕ) (d : BlockData Block Log Err) (k : Block)
      → IsTorn rpc db
      → d.err ≡ none
      → d.block ≡ some k
      → env.number_of k < rpc
      → let t = (check_and_heal env b w a s).0.sequencer in handle_block env t d ≡ (t, done)
  check_and_heal-drops_gap b rpc db d k torn_at e f l =
      dropped rpc (check_and_heal env b w a s).0.sequencer d k
        (check_and_heal-IsHealed b rpc db torn_at).0.0 e f l

  -- The head itself is not fetched either: with the cursors of the healing, the jobs of the gap end one
  -- block below it.
  pub check_and_heal-misses_head :
      (b : Bool) (rpc db : ℕ) (buffered : Option ℕ) (f : Fetcher)
      → IsTorn rpc db
      → db + 1 < rpc
      → rpc < 9223372036854775808
      → length f.jobs ≤ f.jobs_cap * 90 / 100
      → f.results_depth ≤ f.results_cap * 90 / 100
      → is_crowded buffered ≡ false
      → let latest = (check_and_heal env b w a s).0.orchestrator.snapshot.latest_height in
        covers rpc (schedule latest buffered (λ i. sends) f (db + 1) rpc).0 ≡ 0
  check_and_heal-misses_head b rpc db buffered f t below small roomy light e =
      let latest = (check_and_heal env b w a s).0.orchestrator.snapshot.latest_height in
      let known : latest ≡ rpc - 1 = (check_and_heal-IsHealed b rpc db t).0.5 in
      let (ok, cover) =
        schedule-covers latest buffered (λ i. sends) f (db + 1) rpc rpc (omega arith) (omega arith)
          roomy light e (λ i. refl) in
      ground arith

module _ {F L B T Block Log Err : Type 0} (w : DeadlockWatchdog) where
  -- Once a stalled indexer has been healed at the height `rpc`, the watchdog does not act again, at
  -- whatever later time and with whatever answer for the checkpoint, as long as the sequencer has not
  -- gone back and the chain is at most the threshold above `rpc`: a check leaves the sequencer, the
  -- cursors in memory and the checkpoint as they are.
  pub check_and_heal-heals_once :
      (env later : Env Block Log Err) (a answers : Answers) (s t : System F L B T Block Log Err)
      (b c : Bool) (rpc db height : ℕ)
      → IsTorn env w a s rpc db
      → (check_and_heal env b w a s).0.sequencer.expected_block ≤ t.sequencer.expected_block
      → answers.latest_block_number ≡ some height
      → height ≤ rpc + w.gap_threshold
      → (check_and_heal later c w answers t).0 ≡ t
  check_and_heal-heals_once env later a answers s t b c rpc db height torn_at forward known near =
      let expects = (check_and_heal-IsHealed env w a s b rpc db torn_at).0.0 in
      check_and_heal-keeps later w answers t c (λ q.
        let same : q.0 ≡ height = ground (arith, q.2.rpc_height, known) in
        let behind = q.2.behind in omega (arith, same, behind, expects, forward, near))
