-- ===== src/Processor/Retry/Attempts.antt =====
-- processor_core.go: what the attempts of `ProcessBlockWithRetry` leave behind.
use web3_indexer_go.Base.{
  ℕ, zero, suc, ◌+◌, ◌-◌, ◌^◌, ◌<◌, ◌≡◌, refl, sym, ap, ◌∙◌, subst, Bool, true, false, [], ◌∷◌,
  Option, none, some, arith, ◌||◌, inl, inr, Option-cases,
}
use native.Mathlib.Nat.{two-pow-succ, pow-zero}
use web3_indexer_go.Processor.Types.{Block, Codec}
use web3_indexer_go.Processor.Block.{
  BlockData, Processor, Error, fetch_error, block_row, process_block, process_present,
  process_checked, handle_reorg_read_only,
}
use web3_indexer_go.Processor.Block.Linked.{committed, checked-committed, Step, failed_fetch}
use web3_indexer_go.Processor.Retry.{
  fatal, context_error, max_retries_exceeded, is_fatal_error, Attempt, Outcome, after_failure,
  after_attempt, add_wait, wait_and_retry, with_effects, retry_loop, process_block_with_retry,
}

-- The seconds of `n` waits from attempt `i` on.
total_wait : ℕ → ℕ → ℕ
total_wait i zero = 0
total_wait i (suc n) = 2 ^ i + total_wait (i + 1) n

total_wait-closed : (i n : ℕ) → total_wait i n + 2 ^ i ≡ 2 ^ (i + n)
unfolding total_wait
total_wait-closed i zero =
    let same : 2 ^ i ≡ 2 ^ (i + 0) = ap (2 ^◌) (omega arith) in omega (arith, same)
total_wait-closed i (suc n) =
    let one_more : 2 ^ (i + 1) ≡ 2 ^ suc i = ap (2 ^◌) (omega arith) in
    let same : 2 ^ (i + 1 + n) ≡ 2 ^ (i + suc n) = ap (2 ^◌) (omega arith) in
    omega (arith, total_wait-closed (i + 1) n, two-pow-succ i, one_more, same)

two_zero : 2 ^ 0 ≡ 1
two_zero = pow-zero 2

exponent : (n : ℕ) → 2 ^ (0 + suc n) ≡ 2 ^ suc n
exponent n = ap (2 ^◌) (omega arith)

no_effects : {E : Type 0} (o : Outcome E) → with_effects [] o ≡ o
unfolding with_effects
no_effects (q, es, waited, r) = refl

module _ {E : Type 0} (codec : Codec) (d : BlockData E) where
  -- One call changes nothing, or commits the block.
  abbrev Tried : Processor → Step E → Type 0
  Tried p (q, es, none) = (b : Block) × (d.block ≡ some b) × (committed es ≡ block_row codec b ∷ [])
  Tried p (q, es, some e) = (q ≡ p) × (es ≡ [])

  checked-Tried :
      (a : Attempt) (p : Processor) (b : Block) (o : Option (Error E))
      → d.block ≡ some b
      → Tried p (process_checked codec a.world p d.logs b o)
  unfolding process_checked
  checked-Tried a p b none h = (b, h, checked-committed codec E a.world p d.logs b)
  checked-Tried a p b (some e) h = (refl, refl)

  present-Tried :
      (a : Attempt) (p : Processor) (o : Option Block)
      → d.block ≡ o
      → Tried p (process_present codec a.query a.world p d.logs o)
  unfolding process_present
  present-Tried a p none h = (refl, refl)
  present-Tried a p (some b) h =
      checked-Tried a p b (handle_reorg_read_only p a.query b.number (codec.hash_hex b.parent_hash))
        h

  fetched :
      (a : Attempt) (p : Processor)
      → d.err ≡ none
      → process_block codec a.query a.world p d
        ≡ process_present codec a.query a.world p d.logs d.block
  unfolding process_block
  fetched a p h = ground arith

  process_block-Tried :
      (a : Attempt) (p : Processor) → Tried p (process_block codec a.query a.world p d)
  process_block-Tried a p = elim (Option-cases d.err) [
    | inl h ↦ subst (Tried p) (sym (fetched a p h)) (present-Tried a p d.block refl)
    | inr (e, h) ↦ subst (Tried p) (sym (failed_fetch codec a.query a.world p d e h)) (refl, refl)
  ]

  -- The seconds of the waits after the attempts `i`, ..., `i + m - 1`, which double, for some `m`
  -- below `n`: the attempt `i + m` was the last.
  abbrev pub Waited : ℕ → ℕ → ℕ → Type 0
  Waited i n waited = (m : ℕ) × (m < n) × (waited + 2 ^ i ≡ 2 ^ (i + m))

  -- After the attempts from `i` on, at most `n`: no error and the block's row, once, or an error, no
  -- effect and the processor as before.
  abbrev pub IsSettled : ℕ → ℕ → Processor → Outcome E → Type 0
  IsSettled i n p (q, es, waited, none) =
      ((b : Block) × (d.block ≡ some b) × (committed es ≡ block_row codec b ∷ []))
      × Waited i n waited
  IsSettled i n p (q, es, waited, some (max_retries_exceeded e)) =
      (q ≡ p) × (es ≡ []) × (waited + 2 ^ i ≡ 2 ^ (i + n))
  IsSettled i n p (q, es, waited, some e) = (q ≡ p) × (es ≡ []) × Waited i n waited

  no_wait : (i : ℕ) → 0 + 2 ^ i ≡ 2 ^ (i + 0)
  no_wait i = let same : 2 ^ i ≡ 2 ^ (i + 0) = ap (2 ^◌) (omega arith) in omega (arith, same)

  at_once : (i n : ℕ) → Waited i (suc n) 0
  at_once i n = (0, omega arith, no_wait i)

  longer :
      (i m waited : ℕ)
      → waited + 2 ^ (i + 1) ≡ 2 ^ (i + 1 + m)
      → 2 ^ i + waited + 2 ^ i ≡ 2 ^ (i + suc m)
  longer i m waited h =
      let one_more : 2 ^ (i + 1) ≡ 2 ^ suc i = ap (2 ^◌) (omega arith) in
      let same : 2 ^ (i + 1 + m) ≡ 2 ^ (i + suc m) = ap (2 ^◌) (omega arith) in
      omega (arith, h, two-pow-succ i, one_more, same)

  Waited-longer : (i n waited : ℕ) → Waited (i + 1) n waited → Waited i (suc n) (2 ^ i + waited)
  Waited-longer i n waited (m, l, h) = (suc m, omega (arith, l), longer i m waited h)

  add_wait-IsSettled :
      (i n : ℕ) (p : Processor) (o : Outcome E)
      → IsSettled (i + 1) n p o
      → IsSettled i (suc n) p (add_wait (2 ^ i) o)
  unfolding add_wait
  add_wait-IsSettled i n p (q, es, waited, none) (h, w) = (h, Waited-longer i n waited w)
  add_wait-IsSettled i n p (q, es, waited, some (max_retries_exceeded e)) (h, k, w) =
      (h, k, longer i n waited w)
  add_wait-IsSettled i n p (q, es, waited, some (fatal e)) (h, k, w) =
      (h, k, Waited-longer i n waited w)
  add_wait-IsSettled i n p (q, es, waited, some context_error) (h, k, w) =
      (h, k, Waited-longer i n waited w)

  wait_and_retry-IsSettled :
      (again : Processor → Outcome E) (i n : ℕ) (p : Processor) (ended : Bool)
      → IsSettled (i + 1) n p (again p)
      → IsSettled i (suc n) p (wait_and_retry again i p ended)
  unfolding wait_and_retry
  wait_and_retry-IsSettled again i n p true h = (refl, refl, at_once i n)
  wait_and_retry-IsSettled again i n p false h = add_wait-IsSettled i n p (again p) h

  after_failure-IsSettled :
      (again : Processor → Outcome E) (a : Attempt) (i n : ℕ) (p : Processor) (e : Error E)
      (is_fatal : Bool)
      → IsSettled (i + 1) n p (again p)
      → IsSettled i (suc n) p (after_failure again a i p e is_fatal)
  unfolding after_failure
  after_failure-IsSettled again a i n p e true h = (refl, refl, at_once i n)
  after_failure-IsSettled again a i n p e false h =
      wait_and_retry-IsSettled again i n p (a.context_ended || a.wait_cut_short) h

  without_effects :
      (i n : ℕ) (p : Processor) (o : Outcome E)
      → IsSettled i n p o
      → IsSettled i n p (with_effects [] o)
  unfolding with_effects
  without_effects i n p (q, es, waited, none) h = h
  without_effects i n p (q, es, waited, some e) h = h

  after_attempt-IsSettled :
      (again : Error E → Processor → Outcome E) (a : Attempt) (i n : ℕ) (p : Processor) (s : Step E)
      → Tried p s
      → ((e : Error E) → IsSettled (i + 1) n p (again e p))
      → IsSettled i (suc n) p (after_attempt again a i s)
  unfolding after_attempt
  after_attempt-IsSettled again a i n p (q, es, none) t h = (t, at_once i n)
  after_attempt-IsSettled again a i n p (q, es, some e) (same, nothing) h =
      subst
        (λ xs.
          IsSettled i (suc n) p
            (with_effects xs (after_failure (again e) a i q e (is_fatal_error e))))
        (sym nothing)
        (subst
          (λ x.
            IsSettled i (suc n) p
              (with_effects [] (after_failure (again e) a i x e (is_fatal_error e))))
          (sym same)
          (without_effects i (suc n) p (after_failure (again e) a i p e (is_fatal_error e))
            (after_failure-IsSettled (again e) a i n p e (is_fatal_error e) (h e))))

  retry-IsSettled :
      (attempts : ℕ → Attempt) (n i : ℕ) (last : Option (Error E)) (p : Processor)
      → IsSettled i n p (retry_loop codec attempts d n i last p)
  unfolding retry_loop
  retry-IsSettled attempts zero i last p = (refl, refl, no_wait i)
  retry-IsSettled attempts (suc n) i last p =
      let a = attempts i in
      after_attempt-IsSettled (λ e q. retry_loop codec attempts d n (i + 1) (some e) q) a i n p
        (process_block codec a.query a.world p d) (process_block-Tried a p)
        (λ e. retry-IsSettled attempts n (i + 1) (some e) p)

  -- With at most `n` attempts, a block is committed exactly once when no error is returned; with an
  -- error nothing is committed or published and the processor is as before. The waits double from one
  -- second on: when the retries are exceeded they add up to 2 ^ n - 1 seconds, and otherwise to
  -- 2 ^ m - 1 seconds for an `m` below `n`, the number of attempts that were tried again.
  pub process_block_with_retry-IsSettled :
      (attempts : ℕ → Attempt) (n : ℕ) (p : Processor)
      → IsSettled 0 n p (process_block_with_retry codec attempts d n p)
  unfolding process_block_with_retry
  process_block_with_retry-IsSettled attempts n p = retry-IsSettled attempts n 0 none p

  abbrev pub Lasts : (ℕ → Attempt) → Type 0
  Lasts attempts = (i : ℕ) → (attempts i).context_ended || (attempts i).wait_cut_short ≡ false

  vain_step :
      (attempts : ℕ → Attempt) (e : E) (n i : ℕ) (last : Option (Error E)) (p : Processor)
      → Lasts attempts
      → d.err ≡ some e
      → retry_loop codec attempts d (suc n) i last p
        ≡ add_wait (2 ^ i) (retry_loop codec attempts d n (i + 1) (some (fetch_error e)) p)
  unfolding retry_loop after_attempt after_failure wait_and_retry with_effects is_fatal_error
  vain_step attempts e n i last p l h =
      let a : Attempt = attempts i in
      let again : Error E → Processor → Outcome E =
        λ x q. retry_loop codec attempts d n (i + 1) (some x) q in
      ap (after_attempt again a i) (failed_fetch codec a.query a.world p d e h)
      ∙ ap (λ x. with_effects [] (wait_and_retry (again (fetch_error e)) i p x)) (l i)
      ∙ no_effects (add_wait (2 ^ i) (again (fetch_error e) p))

  waits_in_vain :
      (attempts : ℕ → Attempt) (e : E) (n i : ℕ) (last : Option (Error E)) (p : Processor)
      → Lasts attempts
      → d.err ≡ some e
      → retry_loop codec attempts d (suc n) i last p
        ≡ (p, [], total_wait i (suc n), some (max_retries_exceeded (some (fetch_error e))))
  unfolding retry_loop add_wait total_wait
  waits_in_vain attempts e zero i last p l h = vain_step attempts e zero i last p l h
  waits_in_vain attempts e (suc n) i last p l h =
      vain_step attempts e (suc n) i last p l h
      ∙ ap (add_wait (2 ^ i)) (waits_in_vain attempts e n (i + 1) (some (fetch_error e)) p l h)

  -- A fetch error is retried in vain: the block is not fetched again, and after the waits of all
  -- attempts, 2 ^ n - 1 seconds, the error is what it was at first.
  pub process_block_with_retry-fetch_error :
      (attempts : ℕ → Attempt) (e : E) (n : ℕ) (p : Processor)
      → Lasts attempts
      → d.err ≡ some e
      → process_block_with_retry codec attempts d (suc n) p
        ≡ (p, [], 2 ^ suc n - 1, some (max_retries_exceeded (some (fetch_error e))))
  unfolding process_block_with_retry
  process_block_with_retry-fetch_error attempts e n p l h =
      waits_in_vain attempts e n 0 none p l h
      ∙ ap (λ w. (p, [], w, some (max_retries_exceeded (some (fetch_error e)))))
          (omega (arith, total_wait-closed 0 (suc n), two_zero, exponent n))
