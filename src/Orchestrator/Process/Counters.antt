-- ===== src/Orchestrator/Process/Counters.antt =====
-- The safety buffer, the committed cursor and the snapshot under `process`: orchestrator_loop.go.
use Prim.Native.Nat.{max}
use web3_indexer_go.Base.{
  ℕ, zero, suc, ◌+◌, ◌-◌, ◌<◌, ◌≡◌, refl, ap, ◌∙◌, false, List, [], ◌∷◌, ltb, if◌then◌else◌, arith,
}
use web3_indexer_go.Orchestrator.State.{commit_disk, height, Floats, CoordinatorState, Orchestrator}
use web3_indexer_go.Orchestrator.Process.{
  handle, handle_fetch_success, handle_commit_disk, process, update_progress_and_snapshot,
  broadcast,
}

module _ {F L : Type 0} where
  -- `n` successes in a row.
  abbrev pub successes : ℕ → CoordinatorState F L → CoordinatorState F L
  successes zero s = s
  successes (suc n) s = successes n (handle_fetch_success s)

  -- A success below the fiftieth counts.
  handle_fetch_success-count :
      (s : CoordinatorState F L)
      → s.success_count + 1 < 50
      → handle_fetch_success s ≡ record s { success_count = s.success_count + 1 }
  unfolding handle_fetch_success
  handle_fetch_success-count s h = ground arith

  handle_fetch_success-shrink :
      (s : CoordinatorState F L)
      → s.success_count ≡ 49
      → 1 < s.safety_buffer
      → handle_fetch_success s ≡ record s { safety_buffer = s.safety_buffer - 1; success_count = 0 }
  unfolding handle_fetch_success
  handle_fetch_success-shrink s h b = ground arith

  -- From a count below fifty and a safety buffer above one, the successes that complete the fifty
  -- take one block off the safety buffer, reset the count, and change nothing else.
  pub successes-shrink :
      (n : ℕ) (s : CoordinatorState F L)
      → s.success_count + n ≡ 49
      → 1 < s.safety_buffer
      → successes (suc n) s ≡ record s { safety_buffer = s.safety_buffer - 1; success_count = 0 }
  successes-shrink zero s h b = handle_fetch_success-shrink s (omega (arith, h)) b
  successes-shrink (suc n) s h b =
      ap (successes (suc n)) (handle_fetch_success-count s (omega (arith, h)))
      ∙ successes-shrink n (record s { success_count = s.success_count + 1 }) (omega (arith, h)) b

abbrev pub greatest : ℕ → List ℕ → ℕ
greatest n [] = n
greatest n (h ∷ hs) = greatest (max n h) hs

max-if : (a b : ℕ) → (if ltb a b then b else a) ≡ max a b
max-if a b = ground arith

module _ {F L B T : Type 0} (fl : Floats F) where
  abbrev pub commit_all : ℕ → List ℕ → Orchestrator F L B T → Orchestrator F L B T
  commit_all now [] o = o
  commit_all now (h ∷ hs) o =
      commit_all now hs
        (process fl now o
          (record { type = commit_disk; payload = height h; reply = false; sequence = 0 })).0

  -- Heights committed one after the other leave the cursor at the greatest of them, or where it was.
  pub commit_all-greatest :
      (now : ℕ) (hs : List ℕ) (o : Orchestrator F L B T)
      → (commit_all now hs o).state.synced_cursor ≡ greatest o.state.synced_cursor hs
  unfolding process update_progress_and_snapshot broadcast handle handle_commit_disk
  commit_all-greatest now [] o = refl
  commit_all-greatest now (h ∷ hs) o =
      commit_all-greatest now hs _ ∙ ap (λ n. greatest n hs) (max-if o.state.synced_cursor h)
