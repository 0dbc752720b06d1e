-- ===== src/Consistency/Linearity.antt =====
-- What the linearity check ensures, and what it leaves behind.
use web3_indexer_go.Base.{
  ℕ, ◌+◌, ◌-◌, ◌≤◌, ◌<◌, ◌≡◌, refl, sym, ap, subst, Bool, true, false, ◌&&◌, not, List, [], ◌∷◌,
  Option, none, some, arith, ltb, if◌then◌else◌, keep, if_intro, lt→ltb,
}
use web3_indexer_go.Orchestrator.State.{Orchestrator}
use web3_indexer_go.Orchestrator.Cursors.{force_set_cursors}
use web3_indexer_go.Consistency.{
  Tables, get_max_stored_block, set_checkpoints, update_sync_cursor, prune_future_data, Outcome,
  aligned, no_chain_height, no_db_height, reset_required, Answers, after_leap, leap, after_prune,
  with_chain_head, perform_linearity_check,
}

max-keep : (h : ℕ) (ns : List ℕ) → get_max_stored_block (keep (λ n. not (ltb h n)) ns) ≤ h
unfolding get_max_stored_block
max-keep h [] = omega arith
max-keep h (n ∷ ns) = ground (arith, max-keep h ns)

-- The blocks up to `h`.
abbrev pub up_to : ℕ → List ℕ → List ℕ
up_to h ns = keep (λ n. not (ltb h n)) ns

-- The tables after a pruning to `h`: the blocks and the transfers up to `h`, and all checkpoints there.
abbrev pub pruned_to : ℕ → Tables → Tables
pruned_to h t = record {
  blocks = up_to h t.blocks;
  transfers = up_to h t.transfers;
  checkpoints = set_checkpoints h t.checkpoints;
  last_processed_block = h;
}

-- The tables with all checkpoints and the processed block moved to `h`.
abbrev pub moved_to : ℕ → Tables → Tables
moved_to h t = record t { checkpoints = set_checkpoints h t.checkpoints; last_processed_block = h }

-- What is due for a chain's head `h` and the tables `t`: a pruning, when a block is beyond `h`, or else
-- in the demo mode a leap, when all blocks are more than 1000 below `h`.
abbrev pub is_over : ℕ → Tables → Bool
is_over h t = ltb h (get_max_stored_block t.blocks)

abbrev pub is_far_below : Bool → ℕ → Tables → Bool
is_far_below demo_mode h t = demo_mode && ltb (get_max_stored_block t.blocks + 1000) h

module _ {F L B T : Type 0} (demo_mode : Bool) (h : ℕ) (t : Tables) (o : Orchestrator F L B T) where
  -- The tables and the cursors after a check that has not failed.
  abbrev pub due : Tables × Orchestrator F L B T
  due =
      if is_over h t
      then (pruned_to h t, o)
      else (if is_far_below demo_mode h t
          then (moved_to (h - 1) t, force_set_cursors (h - 1) o)
          else (t, o))

  -- An aligned check has done what is due, and so has one that requires a reset, which a leap over
  -- more than 100000 blocks does; any other has changed nothing.
  abbrev pub IsLinear : Tables × Orchestrator F L B T × Outcome → Type 0
  IsLinear (t', o', aligned) = ((t', o') ≡ due) × (t'.blocks ≡ up_to h t.blocks)
  IsLinear (t', o', reset_required) =
      ((t', o') ≡ due)
      × (t'.blocks ≡ up_to h t.blocks)
      × (get_max_stored_block t.blocks + 100000 < h)
  IsLinear (t', o', r) = (t' ≡ t) × (o' ≡ o)

module _ {F L B T : Type 0} (demo_mode : Bool) (t : Tables) (o : Orchestrator F L B T) where
  -- Without the chain's height nothing changes.
  abbrev pub IsChecked : Option ℕ → Tables × Orchestrator F L B T × Outcome → Type 0
  IsChecked none (t', o', r) = (t' ≡ t) × (o' ≡ o) × (r ≡ no_chain_height)
  IsChecked (some h) r = IsLinear demo_mode h t o r

module _ {F L B T : Type 0} (h : ℕ) (t : Tables) (o : Orchestrator F L B T) where
  module _ (a : Answers) (demo_mode : Bool) where
    no_leap : (m : ℕ) (u : Tables) → h < m → (leap demo_mode a h m u o).1 ≡ o
    unfolding leap
    no_leap m u l =
        let small : demo_mode && ltb (m + 1000) h ≡ false = ground arith in
        ap
          (λ x.
            (if◌then◌else◌ {A = Tables × Orchestrator F L B T × Outcome} x
              (after_leap (update_sync_cursor a.leaps (h - 1) u) h (h - m) u o) (u, o, aligned)).1)
          small

    pruned-cursors :
        (m : ℕ) (pruned : Option Tables) → h < m → (after_prune demo_mode a h m pruned t o).1 ≡ o
    unfolding after_prune
    pruned-cursors m none l = refl
    pruned-cursors m (some u) l = no_leap m u l

    -- A pruning takes the database back, but not the cursors in memory.
    pub perform_linearity_check-cursors :
        a.chain_head ≡ some h
        → h < get_max_stored_block t.blocks
        → (perform_linearity_check demo_mode a t o).1 ≡ o
    unfolding perform_linearity_check with_chain_head
    perform_linearity_check-cursors e l =
        let m = get_max_stored_block t.blocks in
        let over : ltb h m ≡ true = lt→ltb h m l in
        subst (λ x. (with_chain_head demo_mode a x t o).1 ≡ o) (sym e)
          (if_intro (λ (r : Tables × Orchestrator F L B T × Outcome). r.1 ≡ o) a.db_readable
            (if ltb h m
              then after_prune demo_mode a h m (prune_future_data a.prunes h t) t o
              else leap demo_mode a h m t o)
            (t, o, no_db_height) (rw over (pruned-cursors m (prune_future_data a.prunes h t) l))
            refl)
