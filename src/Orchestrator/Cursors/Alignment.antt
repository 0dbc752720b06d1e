-- ===== src/Orchestrator/Cursors/Alignment.antt =====
-- What the operations on the cursors leave, and what the pending height does to it:
-- orchestrator_core.go and orchestrator_loop.go.
use Prim.Native.Nat.{max}
use Prim.Native.String.{String}
use web3_indexer_go.Base.{
  ℕ, ◌+◌, ◌≤◌, ◌<◌, ◌≡◌, refl, false, List, [], ◌∷◌, Option, none, some, ltb, if◌then◌else◌, arith,
  lt→ltb,
}
use web3_indexer_go.Orchestrator.State.{height, update_chain_height, Orchestrator, Floats}
use web3_indexer_go.Orchestrator.Process.{
  handle, handle_update_chain_height, process, update_progress_and_snapshot, broadcast,
}
use web3_indexer_go.Orchestrator.Evaluate.{flush_pending_height_update, raised}
use web3_indexer_go.Orchestrator.Cursors.{
  snap_to_reality, force_set_cursors, load_initial_state, is_absent,
}

module _ {F L B T : Type 0} where
  -- Below the wrap, after `SnapToReality` the latest height is at most a thousand blocks beyond
  -- the chain's.
  pub snap_to_reality-bounded :
      (h : ℕ) (o : Orchestrator F L B T)
      → h + 1000 < 18446744073709551616
      → (snap_to_reality h o).state.latest_height ≤ h + 1000
  unfolding snap_to_reality
  snap_to_reality-bounded h o b = ground arith

  -- A height that waits for the merge tick survives `ForceSetCursors`: the tick after it raises the
  -- latest height to the waiting one, so that forced heights below it are undone.
  pub force_set_cursors-pending :
      (h p : ℕ) (o : Orchestrator F L B T)
      → o.pending_height_update ≡ some p
      → (flush_pending_height_update (force_set_cursors h o)).state.latest_height ≡ max h p
  unfolding flush_pending_height_update force_set_cursors
  force_set_cursors-pending h p o e = rw e (ground arith)

  -- Of a positive uint64 height whose print is neither empty nor "0" and parses back: as the
  -- checkpoint's text it becomes the snapshot's cursor, and so it does as the greatest stored block,
  -- both when the checkpoint is missing and when it is "0".
  pub load_initial_state-cursor :
      (parse : String → Option ℕ) (print : ℕ → String) (n : ℕ) (o : Orchestrator F L B T)
      → 0 < n
      → n < 18446744073709551616
      → is_absent (print n) ≡ false
      → parse (print n) ≡ some n
      → ((load_initial_state parse print (some (print n)) none o).snapshot.synced_cursor ≡ n)
        × ((load_initial_state parse print none (some n) o).snapshot.synced_cursor ≡ n)
        × ((load_initial_state parse print (some "0") (some n) o).snapshot.synced_cursor ≡ n)
  unfolding load_initial_state
  load_initial_state-cursor parse print n o a b c d =
      rw (lt→ltb 0 n a, c, d) (omega (arith, b), omega (arith, b), omega (arith, b))

-- The last height of the list beyond `latest`, or what waited before.
abbrev pub last_beyond : ℕ → Option ℕ → List ℕ → Option ℕ
last_beyond latest p [] = p
last_beyond latest p (h ∷ hs) = last_beyond latest (if ltb latest h then some h else p) hs

module _ {F L B T : Type 0} (fl : Floats F) where
  -- The chain heights of a list, reported one after the other before a tick.
  abbrev pub report_all : ℕ → List ℕ → Orchestrator F L B T → Orchestrator F L B T
  report_all now [] o = o
  report_all now (h ∷ hs) o =
      report_all now hs
        (process fl now o (record {
          type = update_chain_height;
          payload = height h;
          reply = false;
          sequence = 0;
        })).0

  -- Of the heights reported before a merge tick, the tick sets the last one that is beyond the
  -- latest height, and not the greatest of them.
  pub report_all-merge :
      (now : ℕ) (hs : List ℕ) (o : Orchestrator F L B T)
      → (flush_pending_height_update (report_all now hs o)).state.latest_height
        ≡ raised
            (last_beyond o.state.latest_height o.pending_height_update hs)
            o.state.latest_height
  unfolding flush_pending_height_update process update_progress_and_snapshot broadcast handle
      handle_update_chain_height
  report_all-merge now [] o = refl
  report_all-merge now (h ∷ hs) o = report_all-merge now hs _
