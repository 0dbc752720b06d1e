-- ===== src/Processor/Retry.antt =====
-- processor_core.go: `ProcessBlockWithRetry`, which tries a block several times.
pub mod Attempts
use web3_indexer_go.Base.{
  ℕ, zero, suc, ◌+◌, ◌*◌, ◌^◌, Bool, true, false, List, [], ◌∷◌, ◌++◌, Option, none, some,
  if◌then◌else◌, ◌||◌,
}
use web3_indexer_go.Processor.Types.{Codec}
use web3_indexer_go.Processor.Reorg.{Found}
use web3_indexer_go.Processor.Block.{
  BlockData, Processor, Error, fetch_error, reorg_error, nil_block, Effect, World, process_block,
}

-- `max_retries_exceeded` wraps the last error, which is nil when there was no attempt.
pub data RetryError (E : Type 0) : Type 0 where
  fatal : Error E → RetryError E
  context_error : RetryError E
  max_retries_exceeded : Option (Error E) → RetryError E

-- `isFatalError`: a fetch error is wrapped, so that no comparison with `context.Canceled` holds of it.
-- A nil block panics, which leaves the loop at once.
unfoldable pub is_fatal_error : {E : Type 0} → Error E → Bool
is_fatal_error (fetch_error e) = false
is_fatal_error (reorg_error n) = true
is_fatal_error nil_block = true

-- What an attempt meets: the database, the clock, and whether the context has ended after it or ends
-- during the wait.
pub record Attempt : Type 0 where
  pub query : ℕ → Found
  pub world : World
  pub context_ended : Bool
  pub wait_cut_short : Bool

-- The processor, its effects, the seconds waited, and the error.
abbrev pub Outcome : Type 0 → Type 0
Outcome E = Processor × List Effect × ℕ × Option (RetryError E)

unfoldable pub add_wait : {E : Type 0} → ℕ → Outcome E → Outcome E
add_wait w (q, es, waited, r) = (q, es, w + waited, r)

-- The wait before the next attempt; the Boolean says whether the context ends it.
unfoldable pub wait_and_retry :
    {E : Type 0} → (Processor → Outcome E) → ℕ → Processor → Bool → Outcome E
unfolding add_wait
wait_and_retry again i p true = (p, [], 0, some context_error)
wait_and_retry again i p false = add_wait (2 ^ i) (again p)

-- After a failed attempt; the last Boolean says whether the error is fatal.
unfoldable pub after_failure :
    {E : Type 0} → (Processor → Outcome E) → Attempt → ℕ → Processor → Error E → Bool → Outcome E
unfolding wait_and_retry
after_failure again a i p e true = (p, [], 0, some (fatal e))
after_failure again a i p e false = wait_and_retry again i p (a.context_ended || a.wait_cut_short)

unfoldable pub with_effects : {E : Type 0} → List Effect → Outcome E → Outcome E
with_effects es (q, es', waited, r) = (q, es ++ es', waited, r)

unfoldable pub after_attempt :
    {E : Type 0}
    → (Error E → Processor → Outcome E)
    → Attempt
    → ℕ
    → Processor × List Effect × Option (Error E)
    → Outcome E
unfolding after_failure is_fatal_error with_effects
after_attempt again a i (p, es, none) = (p, es, 0, none)
after_attempt again a i (p, es, some e) =
    with_effects es (after_failure (again e) a i p e (is_fatal_error e))

-- The loop from attempt `i`, with `n` left; `last` is `err`.
unfoldable pub retry_loop :
    {E : Type 0}
    → Codec
    → (ℕ → Attempt)
    → BlockData E
    → ℕ
    → ℕ
    → Option (Error E)
    → Processor
    → Outcome E
unfolding after_attempt process_block
retry_loop codec attempts d zero i last p = (p, [], 0, some (max_retries_exceeded last))
retry_loop codec attempts d (suc n) i last p =
    let a = attempts i in
    after_attempt (λ e q. retry_loop codec attempts d n (i + 1) (some e) q) a i
      (process_block codec a.query a.world p d)

unfoldable pub process_block_with_retry :
    {E : Type 0} → Codec → (ℕ → Attempt) → BlockData E → ℕ → Processor → Outcome E
unfolding retry_loop
process_block_with_retry codec attempts d max_retries p =
    retry_loop codec attempts d max_retries 0 none p
