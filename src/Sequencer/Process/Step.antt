-- ===== src/Sequencer/Process/Step.antt =====
-- `processSequentialLocked` by the processor's answer.
use web3_indexer_go.Base.{◌≡◌, ◌≢◌, arith}
use web3_indexer_go.Sequencer.State.{
  BlockData, processed, reorg, rejected, process_block, Env, Sequencer, processor_error, done,
  failed, out_of_fuel, log,
}
use web3_indexer_go.Sequencer.Process.{
  advance, after_process, handle_reorg, notify_reorg, process_sequential,
}

module _ {Block Log Err : Type 0} (env : Env Block Log Err) (s : Sequencer Block Log Err)
    (d : BlockData Block Log Err) where
  pub process_sequential-processed :
      env.process s.history d ≡ processed
      → process_sequential env s d ≡ (advance env (log s (process_block d processed)), done)
  unfolding process_sequential after_process
  process_sequential-processed h = ground arith

  pub process_sequential-rejected :
      (e : Err)
      → env.process s.history d ≡ rejected e
      → process_sequential env s d
        ≡ (log s (process_block d (rejected e)), failed (processor_error e))
  unfolding process_sequential after_process
  process_sequential-rejected e h = ground arith

  pub process_sequential-reorg :
      env.process s.history d ≡ reorg
      → process_sequential env s d ≡ handle_reorg env (log s (process_block d reorg)) d
  unfolding process_sequential after_process
  process_sequential-reorg h = ground arith

  pub process_sequential-ne-fuel : (process_sequential env s d).1 ≢ out_of_fuel
  unfolding process_sequential after_process handle_reorg notify_reorg
  process_sequential-ne-fuel h = ground arith

  pub process_sequential-done :
      (process_sequential env s d).1 ≡ done → env.process s.history d ≡ processed
  unfolding process_sequential after_process handle_reorg notify_reorg
  process_sequential-done h = ground arith
