-- ===== src/Sequencer/Stall/Bypass.antt =====
-- What follows a bypass of a gap: the drain of the buffer does not run.
use web3_indexer_go.Base.{ℕ, ◌+◌, ◌*◌, ◌≤◌, ◌<◌, ◌≡◌, refl, true, some, arith, length, is_some, ◌∷◌}
use web3_indexer_go.Sequencer.Buffer.{lookup, min_buffered}
use web3_indexer_go.Sequencer.Buffer.Size.{min_buffered-mem, length-insert-le}
use web3_indexer_go.Sequencer.Buffer.Lookup.{lookup-insert}
use web3_indexer_go.Sequencer.State.{BlockData, tick, Env, Sequencer, done}
use web3_indexer_go.Sequencer.Handle.{buffer_limit, handle_block}
use web3_indexer_go.Sequencer.Handle.Place.{Fetched, handle_block-Fetched, place-gt}
use web3_indexer_go.Sequencer.Stall.{second, handle_stall, stall_tick}

module _ {Block Log Err : Type 0} (env : Env Block Log Err) where
  -- The stall handler gave up on a gap below block `m`, which waits in the buffer.
  handle_stall-bypass :
      (s : Sequencer Block Log Err) (m : ℕ)
      → min_buffered s.buffer ≡ some m
      → s.expected_block < m
      → s.last_progress_at + 55 * second < env.now s.history
      → 3 ≤ s.gap_fill_count
      → handle_stall env s
        ≡ record s { last_progress_at = env.now s.history; expected_block = m; gap_fill_count = 0 }
  unfolding handle_stall
  handle_stall-bypass s m least gap idle tried = ground arith

  -- After the bypass of a gap, with block `m` expected and buffered and the buffer below its limit, a
  -- later block `n` that arrives
  -- is buffered too: nothing is given to the processor, block `m` stays in the buffer, and it is
  -- still expected.
  pub bypass_strands :
      (s : Sequencer Block Log Err) (m n : ℕ) (d : BlockData Block Log Err)
      → min_buffered s.buffer ≡ some m
      → s.expected_block < m
      → s.last_progress_at + 55 * second < env.now s.history
      → 3 ≤ s.gap_fill_count
      → Fetched env n d
      → m < n
      → length s.buffer < buffer_limit s.chain_id
      → let (t, r) = handle_block env (handle_stall env s) d in
        (r ≡ done)
        × (t.history ≡ s.history)
        × (t.expected_block ≡ m)
        × (is_some (lookup m t.buffer) ≡ true)
  bypass_strands s m n d least gap idle tried f later room =
      let b = record s {
        last_progress_at = env.now s.history;
        expected_block = m;
        gap_fill_count = 0;
      } in
      let (v, found) = min_buffered-mem m s.buffer least in
      rw
        (
          handle_stall-bypass s m least gap idle tried,
          handle_block-Fetched env b n d f,
          place-gt env b d n later (omega (arith, length-insert-le n d s.buffer)),
        )
        (refl, refl, refl, ground (arith, lookup-insert n m d s.buffer, found))

  -- If nothing arrives after the bypass, the next tick more than 55 s later passes over block `m`: it
  -- is never given to the processor, and it stays in the buffer below the expected block.
  pub bypass_skips :
      (s : Sequencer Block Log Err) (m : ℕ)
      → min_buffered s.buffer ≡ some m
      → s.expected_block < m
      → s.last_progress_at + 55 * second < env.now s.history
      → 3 ≤ s.gap_fill_count
      → env.now s.history + 55 * second < env.now (tick ∷ s.history)
      → let t = stall_tick env (handle_stall env s) in
        (t.expected_block ≡ m + 1)
        × (t.history ≡ tick ∷ s.history)
        × (t.buffer ≡ s.buffer)
        × (is_some (lookup m t.buffer) ≡ true)
  bypass_skips s m least gap idle tried again =
      let (v, found) = min_buffered-mem m s.buffer least in
      rw (handle_stall-bypass s m least gap idle tried) (
        passes
          (record s {
            last_progress_at = env.now s.history;
            expected_block = m;
            gap_fill_count = 0;
          })
          v least again found)
    where
      passes :
          (b : Sequencer Block Log Err) (v : BlockData Block Log Err)
          → min_buffered b.buffer ≡ some b.expected_block
          → b.last_progress_at + 55 * second < env.now (tick ∷ b.history)
          → lookup b.expected_block b.buffer ≡ some v
          → ((stall_tick env b).expected_block ≡ b.expected_block + 1)
            × ((stall_tick env b).history ≡ tick ∷ b.history)
            × ((stall_tick env b).buffer ≡ b.buffer)
            × (is_some (lookup b.expected_block (stall_tick env b).buffer) ≡ true)
      passes b v e i f = unfold stall_tick handle_stall in ground arith
