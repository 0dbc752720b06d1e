-- ===== src/Sequencer/Handle.antt =====
-- sequencer_batch.go: `handleBlockLocked` with its branches, and the limit of the buffer.
pub mod Place
pub mod Order
pub mod Limit
use web3_indexer_go.Base.{
  ℕ, ◌+◌, Bool, true, false, ◌&&◌, not, none, some, ltb, leb, ◌==◌, if◌then◌else◌, length, is_some,
}
use web3_indexer_go.Sequencer.Buffer.{insert, min_buffered}
use web3_indexer_go.Sequencer.State.{
  BlockData, fetch_block, fetch_logs, Env, Sequencer, Result, done, failed, panicked, out_of_fuel,
  log, get_block_num,
}
use web3_indexer_go.Sequencer.Process.{process_sequential, process_buffer_continuations}

-- 50000 blocks on Anvil, 1000 elsewhere.
unfoldable pub buffer_limit : ℕ → ℕ
buffer_limit chain_id = if chain_id == 31337 then 50000 else 1000

module _ {Block Log Err : Type 0} where
  unfoldable pub is_range_progress_signal : BlockData Block Log Err → Bool
  is_range_progress_signal d =
      not (is_some d.number) && not (is_some d.block) && is_some d.range_end && not (is_some d.err)

module _ {Block Log Err : Type 0} (env : Env Block Log Err) where
  -- Above its limit the buffer is drained from its least key, and the blocks before it are skipped.
  unfoldable pub enforce_buffer_limit :
      Sequencer Block Log Err → Sequencer Block Log Err × Result Err
  enforce_buffer_limit s = elim (ltb (buffer_limit s.chain_id) (length s.buffer)) [
    | false ↦ (s, done)
    | true ↦ elim (min_buffered s.buffer) [
      | none ↦ (s, done)
      | some m ↦ process_buffer_continuations env (record s { expected_block = m })
    ]
  ]

  unfoldable pub teleport_progress :
      Sequencer Block Log Err → ℕ → Sequencer Block Log Err × Result Err
  teleport_progress s range_end =
      if leb s.expected_block range_end
      then process_buffer_continuations env
          (record s { expected_block = range_end + 1; last_progress_at = env.now s.history })
      else (s, done)

  -- A block that only its number stands for is fetched; a failed fetch leaves the data as it is.
  unfoldable pub hydrate :
      Sequencer Block Log Err
      → BlockData Block Log Err
      → Sequencer Block Log Err × BlockData Block Log Err
  hydrate s d = elim d.block [
    | some b ↦ (s, d)
    | none ↦ elim d.number [
      | none ↦ (s, d)
      | some n ↦
          if env.client
          then (
            log s (fetch_block n),
            elim (env.block_by_number s.history n) [
              | some b ↦ record d { block = some b }
              | none ↦ d
            ],
          )
          else (s, d)
    ]
  ]

  unfoldable pub after_sequential :
      Sequencer Block Log Err × Result Err → Sequencer Block Log Err × Result Err
  after_sequential (s, done) = process_buffer_continuations env s
  after_sequential (s, failed e) = (s, failed e)
  after_sequential (s, panicked) = (s, panicked)
  after_sequential (s, out_of_fuel) = (s, out_of_fuel)

  -- The end of `handleBlockLocked`, once the number of the block is settled.
  unfoldable pub place :
      Sequencer Block Log Err → BlockData Block Log Err → ℕ → Sequencer Block Log Err × Result Err
  place s d n =
      if n == s.expected_block
      then after_sequential (process_sequential env s d)
      else (if ltb n s.expected_block
          then (s, done)
          else enforce_buffer_limit (record s { buffer = insert n d s.buffer }))

  -- The number of the block itself, where there is one, else the number it was asked for by.
  unfoldable pub settle :
      Sequencer Block Log Err × BlockData Block Log Err → Sequencer Block Log Err × Result Err
  settle (s, d) = elim d.block [
    | some b ↦ place s d (env.number_of b)
    | none ↦ elim d.number [ none ↦ (s, done) | some n ↦ place s d n ]
  ]

  -- `handleBlockLocked` on data without an error.
  unfoldable pub handle_fetched :
      Sequencer Block Log Err → BlockData Block Log Err → Sequencer Block Log Err × Result Err
  handle_fetched s d =
      if is_range_progress_signal d
      then elim d.range_end [ none ↦ (s, done) | some e ↦ teleport_progress s e ]
      else settle (hydrate s d)

  -- The RPC calls of the retry: the block, then its logs.
  unfoldable pub retry_fetch :
      Sequencer Block Log Err → BlockData Block Log Err → ℕ → Sequencer Block Log Err × Result Err
  retry_fetch s d n =
      if env.client
      then elim (env.block_by_number s.history n) [
        | none ↦ (log s (fetch_block n), done)
        | some b ↦
            let t = log s (fetch_block n) in
            elim (env.filter_logs t.history n) [
              | none ↦ (log t (fetch_logs n), done)
              | some logs ↦
                  handle_fetched (log t (fetch_logs n))
                    (record d { block = some b; logs = logs; err = none })
            ]
      ]
      else (s, done)

  unfoldable pub handle_fetch_error :
      Sequencer Block Log Err → BlockData Block Log Err → Sequencer Block Log Err × Result Err
  handle_fetch_error s d = elim (get_block_num env d) [
    | none ↦ (s, done)
    | some n ↦ retry_fetch s d n
  ]

  -- `handleBlockLocked`. Its call of itself from the retry meets data without an error.
  unfoldable pub handle_block :
      Sequencer Block Log Err → BlockData Block Log Err → Sequencer Block Log Err × Result Err
  handle_block s d = elim d.err [ none ↦ handle_fetched s d | some e ↦ handle_fetch_error s d ]

  unfoldable pub after_block :
      Sequencer Block Log Err × Result Err
      → (Sequencer Block Log Err → Sequencer Block Log Err × Result Err)
      → Sequencer Block Log Err × Result Err
  after_block (s, done) k = k s
  after_block (s, failed e) k = (s, failed e)
  after_block (s, panicked) k = (s, panicked)
  after_block (s, out_of_fuel) k = (s, out_of_fuel)
