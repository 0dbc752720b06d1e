-- ===== src/Sequencer/Handle/Limit.antt =====
-- The limit of the buffer: that it holds, and what a jump of the expected block leaves behind.
use web3_indexer_go.Base.{
  ℕ, zero, suc, ◌+◌, ◌-◌, ◌≤◌, ◌<◌, ◌≡◌, sym, ap, subst, ◌∙◌, Bool-cases, inl, inr, none, some,
  arith, length, ltb, ◌==◌, ◌∷◌, ltb→lt, ltb→ge, ==→eq,
}
use web3_indexer_go.Sequencer.Buffer.{lookup, insert, min_buffered}
use web3_indexer_go.Sequencer.Buffer.Size.{min_buffered-mem, min_buffered-some, length-insert-le}
use web3_indexer_go.Sequencer.State.{
  BlockData, processed, process_block, History, Env, Sequencer, done, log,
}
use web3_indexer_go.Sequencer.Process.{advance, process_buffer_continuations}
use web3_indexer_go.Sequencer.Process.Drain.{Drained, Ended, missing, held, process_run, accept}
use web3_indexer_go.Sequencer.Process.Continue.{continuations-Drained}
use web3_indexer_go.Sequencer.Handle.{
  buffer_limit, enforce_buffer_limit, teleport_progress, place, handle_block,
}
use web3_indexer_go.Sequencer.Handle.Place.{
  Fetched, handle_block-Fetched, place-lt, place-eq, place-late,
}

module _ {Block Log Err : Type 0} (env : Env Block Log Err) (s : Sequencer Block Log Err) where
  enforce-over :
      (m : ℕ)
      → buffer_limit s.chain_id < length s.buffer
      → min_buffered s.buffer ≡ some m
      → enforce_buffer_limit env s
        ≡ process_buffer_continuations env (record s { expected_block = m })
  unfolding enforce_buffer_limit
  enforce-over m over least = ground arith

  enforce-within :
      length s.buffer ≤ buffer_limit s.chain_id → enforce_buffer_limit env s ≡ (s, done)
  unfolding enforce_buffer_limit
  enforce-within within = ground arith

module _ {Block Log Err : Type 0} (env : Env Block Log Err)
    (accepts : (h : History Block Log Err) (d : BlockData Block Log Err)
      → env.process h d ≡ processed) where
  drains : (s : Sequencer Block Log Err) → Drained env s (process_buffer_continuations env s).0
  drains s = (continuations-Drained env s (λ h d e. ground (arith, accepts h d))).1

  drains-Ended :
      (t : Sequencer Block Log Err) (h : History Block Log Err)
      → Ended env t h
      → (lookup t.expected_block t.buffer ≡ none) × (t.history ≡ h)
  drains-Ended t h (missing a b) = (a, b)
  drains-Ended t h (held d e a p c) = absurd (ground (arith, accepts h d))

  -- A drain from a block that is buffered takes that block.
  drains-past :
      (s : Sequencer Block Log Err) (d : BlockData Block Log Err)
      → lookup s.expected_block s.buffer ≡ some d
      → s.expected_block < (process_buffer_continuations env s).0.expected_block
  drains-past s d found =
      let r = drains s in
      let t = (process_buffer_continuations env s).0 in
      elim (Bool-cases (t.expected_block == s.expected_block)) [
        | inl still ↦ absurd (
            ground (
              arith,
              r.buffered s.expected_block,
              ap (λ k. lookup k t.buffer) (==→eq t.expected_block s.expected_block still),
              (drains-Ended t _ r.ended).0,
            ))
        | inr moved ↦ ground (arith, r.advances)
      ]

  -- When the processor accepts every block: a range signal up to block `e` leaves every buffered block of that range in the buffer, although
  -- the expected block is then beyond the range.
  pub teleport_progress-stale :
      (s : Sequencer Block Log Err) (e k : ℕ)
      → s.expected_block ≤ e
      → k ≤ e
      → let t = (teleport_progress env s e).0 in
        (e < t.expected_block) × (lookup k t.buffer ≡ lookup k s.buffer)
  unfolding teleport_progress
  teleport_progress-stale s e k ahead le =
      let r = drains (record s { expected_block = e + 1; last_progress_at = env.now s.history }) in
      ground (arith, r.advances, r.buffered k)

  -- When the processor accepts every block, the buffer is over its limit and its least block `m` is a stale one, alone below the
  -- expected block, the expected block falls back to `m + 1` and block `m` is processed.
  pub enforce_buffer_limit-falls_back :
      (s : Sequencer Block Log Err) (m : ℕ) (d : BlockData Block Log Err)
      → buffer_limit s.chain_id < length s.buffer
      → min_buffered s.buffer ≡ some m
      → lookup m s.buffer ≡ some d
      → lookup (m + 1) s.buffer ≡ none
      → m + 1 < s.expected_block
      → let t = (enforce_buffer_limit env s).0 in
        (t.expected_block ≡ m + 1)
        × (t.expected_block < s.expected_block)
        × (t.history ≡ process_block d processed ∷ s.history)
  enforce_buffer_limit-falls_back s m d over least found alone stale =
      let b = record s { expected_block = m } in
      let r = drains b in
      let t = (process_buffer_continuations env b).0 in
      let next : t.expected_block ≡ m + 1 =
        ground (arith, drains-past b d found, r.available (m + 1), alone) in
      let one : t.expected_block - m ≡ suc zero = omega arith in
      let calls : t.history ≡ process_block d processed ∷ s.history =
        (drains-Ended t _ r.ended).1
        ∙ ap (λ j. process_run s.buffer m j s.history) one
        ∙ ap (λ o. accept o s.history) found in
      rw (enforce-over env s m over least) (next, rw next stale, calls)

  enforce-limit :
      (s : Sequencer Block Log Err)
      → length s.buffer ≤ buffer_limit s.chain_id + 1
      → length (enforce_buffer_limit env s).0.buffer ≤ buffer_limit s.chain_id
  enforce-limit s fits = elim (Bool-cases (ltb (buffer_limit s.chain_id) (length s.buffer))) [
    | inr within ↦ rw (enforce-within env s (ltb→ge _ _ within)) (ltb→ge _ _ within)
    | inl over ↦
        let (m, least) = min_buffered-some s.buffer (ground arith) in
        let (d, found) = min_buffered-mem m s.buffer least in
        let b = record s { expected_block = m } in
        rw (enforce-over env s m (ltb→lt _ _ over) least)
          (omega (arith, drains-past b d found, (drains b).smaller))
  ]

  -- When the processor accepts every block, a fetched block leaves the buffer within its limit.
  pub handle_block-limit :
      (s : Sequencer Block Log Err) (n : ℕ) (d : BlockData Block Log Err)
      → Fetched env n d
      → length s.buffer ≤ buffer_limit s.chain_id
      → length (handle_block env s d).0.buffer ≤ buffer_limit s.chain_id
  unfolding advance
  handle_block-limit s n d f fits =
      rw (handle_block-Fetched env s n d f) (elim (Bool-cases (ltb n s.expected_block)) [
        | inl early ↦ rw (place-lt env s d n (ltb→lt _ _ early)) fits
        | inr rest ↦ elim (Bool-cases (n == s.expected_block)) [
          | inl here ↦
              subst (λ q. length (place env s d q).0.buffer ≤ buffer_limit s.chain_id)
                (sym (==→eq _ _ here))
                (rw (place-eq env s d (accepts s.history d)) (
                  omega
                    (arith, (drains (advance env (log s (process_block d processed)))).smaller)))
          | inr other ↦ rw (place-late env s d n (ground arith)) (
              enforce-limit (record s { buffer = insert n d s.buffer })
                (omega (arith, length-insert-le n d s.buffer)))
        ]
      ])
