-- ===== src/Sequencer/Run.antt =====
-- sequencer_core.go: the constructors and the main loop. A signal is what a round of its `select`
-- picks; the report of a fatal error is a non-blocking send, which changes nothing here.
pub mod Bounded
use web3_indexer_go.Base.{ℕ, Bool, List, [], ◌∷◌, Option, none, some}
use web3_indexer_go.Fetcher.{Fetcher}
use web3_indexer_go.Sequencer.State.{
  BlockData, Env, Sequencer, Error, Result, done, failed, panicked, out_of_fuel,
}
use web3_indexer_go.Sequencer.Process.{drain_buffer}
use web3_indexer_go.Sequencer.Batch.{collect_batch, handle_batch}
use web3_indexer_go.Sequencer.Stall.{stall_tick}

pub data Signal (Block Log Err : Type 0) : Type 0 where
  context_ends : Signal Block Log Err
  stall_timer : Signal Block Log Err
  pulse_timer : Signal Block Log Err
  channel_closed : Signal Block Log Err
  receives : BlockData Block Log Err → List (BlockData Block Log Err) → Signal Block Log Err

-- Whether the loop goes on, and with what error it returns.
pub data Loop (Err : Type 0) : Type 0 where
  continues : Loop Err
  returns : Option (Error Err) → Loop Err
  crashes : Loop Err

module _ {Block Log Err : Type 0} (env : Env Block Log Err) where
  -- `NewSequencer`, without a fetcher, and `NewSequencerWithFetcher`.
  unfoldable pub new_sequencer : Option Fetcher → Bool → ℕ → ℕ → Sequencer Block Log Err
  new_sequencer fetcher has_reorg_ch start_block chain_id = record {
    expected_block = start_block;
    buffer = [];
    fetcher = fetcher;
    has_reorg_ch = has_reorg_ch;
    chain_id = chain_id;
    last_progress_at = env.now [];
    gap_fill_count = 0;
    history = [];
  }

  abbrev loop_of : Result Err → Loop Err
  loop_of done = continues
  loop_of (failed e) = returns (some e)
  loop_of panicked = crashes
  loop_of out_of_fuel = crashes

  -- One round of the loop of `Run`.
  unfoldable pub run_step :
      Sequencer Block Log Err → Signal Block Log Err → Sequencer Block Log Err × Loop Err
  run_step s context_ends = ((drain_buffer env s).0, returns none)
  run_step s stall_timer = (stall_tick env s, continues)
  run_step s pulse_timer = (s, continues)
  run_step s channel_closed = ((drain_buffer env s).0, returns none)
  run_step s (receives first later) =
      let (t, r) = handle_batch env s (collect_batch env first later) in (t, loop_of r)

  unfoldable pub continue_with :
      (Sequencer Block Log Err → Sequencer Block Log Err × Loop Err)
      → Sequencer Block Log Err × Loop Err
      → Sequencer Block Log Err × Loop Err
  continue_with next (s, continues) = next s
  continue_with next (s, returns e) = (s, returns e)
  continue_with next (s, crashes) = (s, crashes)

  -- `Run` over the signals of its rounds.
  unfoldable pub run :
      Sequencer Block Log Err → List (Signal Block Log Err) → Sequencer Block Log Err × Loop Err
  unfolding continue_with
  run s [] = (s, continues)
  run s (g ∷ gs) = continue_with (λ t. run t gs) (run_step s g)
