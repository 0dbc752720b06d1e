-- ===== src/Processor/Block/Linked.antt =====
-- The tasks of successive calls of `ProcessBlock` form a chain of parent hashes.
use Prim.Native.String.{String}
use text.Mathlib.Text.{◌==◌ as str_eq}
use text.Mathlib.TextEquality.{eq_iff}
use web3_indexer_go.Base.{
  ℕ, ◌+◌, ◌≡◌, refl, sym, ap, ◌∙◌, subst, ◌≢◌, Bool, false, List, [], ◌∷◌, ◌++◌, map, Option, none,
  some, arith, ◌==◌, ne→==, if◌then◌else◌, Bool-cases, inl, inr, ◌⊎◌, Option-cases, if_intro,
  length,
}
use web3_indexer_go.Processor.Reorg.{Found}
use web3_indexer_go.Processor.Types.{Log, Block, BlockRow, Transfer, Codec}
use web3_indexer_go.Processor.Anvil.{process_anvil_synthetic}
use web3_indexer_go.Processor.Extract.{extract_activities}
use web3_indexer_go.Processor.Gas.{GasSpender, analyze_gas}
use web3_indexer_go.Processor.Block.{
  BlockData, Processor, Error, fetch_error, reorg_error, Effect, commit_batch, block_event,
  gas_leaderboard, transfer_event, record_activity, sync_height, World, reorg_if,
  handle_reorg_read_only, is_cached, update_reorg_cache, block_row, persist_task, push_events,
  update_metrics, process_checked, process_present, process_block,
}

-- The rows that a list of effects commits.
abbrev pub committed : List Effect → List BlockRow
committed [] = []
committed (commit_batch t ∷ es) = t.block ∷ committed es
committed (e ∷ es) = committed es

pub committed-append : (xs ys : List Effect) → committed (xs ++ ys) ≡ committed xs ++ committed ys
committed-append [] ys = refl
committed-append (commit_batch t ∷ xs) ys = ap (◌∷◌ t.block) (committed-append xs ys)
committed-append (block_event b ∷ xs) ys = committed-append xs ys
committed-append (gas_leaderboard g ∷ xs) ys = committed-append xs ys
committed-append (transfer_event t ∷ xs) ys = committed-append xs ys
committed-append (record_activity n ∷ xs) ys = committed-append xs ys
committed-append (sync_height n ∷ xs) ys = committed-append xs ys

committed-events : (ts : List Transfer) → committed (map transfer_event ts) ≡ []
committed-events [] = refl
committed-events (t ∷ ts) = committed-events ts

abbrev pub Step : Type 0 → Type 0
Step E = Processor × List Effect × Option (Error E)

after_block : {E : Type 0} → (Processor → Step E) → Step E → Step E
after_block again (q, es, some e) = (q, es, some e)
after_block again (q, es, none) = let (q', es', r') = again q in (q', es ++ es', r')

-- Blocks in sequence, until one fails; `query` and `world` answer for each in turn.
unfoldable pub process_blocks :
    {E : Type 0}
    → Codec
    → (ℕ → ℕ → Found)
    → (ℕ → World)
    → ℕ
    → Processor
    → List (BlockData E)
    → Step E
unfolding process_block after_block
process_blocks codec query world i p [] = (p, [], none)
process_blocks codec query world i p (d ∷ ds) =
    after_block (λ q. process_blocks codec query world (i + 1) q ds)
      (process_block codec (query i) (world i) p d)

-- Heights from `n` on, where each row's parent hash is the hash of the row before it.
abbrev pub Follows : ℕ → String → List BlockRow → Type 0
Follows n h [] = Unit
Follows n h (r ∷ rs) = (r.number ≡ n) × (r.parent_hash ≡ h) × Follows (n + 1) r.hash rs

-- Fetched blocks from height `n` on, where no fetch failed.
abbrev pub IsSequence : {E : Type 0} → ℕ → List (BlockData E) → Type 0
IsSequence n [] = Unit
IsSequence n (d ∷ ds) = ((b : Block) × (d.block ≡ some b) × (b.number ≡ n)) × IsSequence (n + 1) ds

module _ (codec : Codec) where
  pub push_events-committed :
      (p : Processor) (b : Block) (ts : List Transfer) (g : List GasSpender)
      → committed (push_events codec p b ts g) ≡ []
  unfolding push_events
  push_events-committed p b ts g =
      if_intro (λ es. committed es ≡ []) p.has_event_hook
        (block_event b
            ∷ gas_leaderboard g
            ∷ (if p.has_metrics then record_activity (length ts) ∷ [] else [])
          ++ map transfer_event ts)
        []
        (if_intro (λ xs. committed (xs ++ map transfer_event ts) ≡ []) p.has_metrics
          (record_activity (length ts) ∷ []) [] (committed-events ts) (committed-events ts))
        refl

  update_metrics-committed : (p : Processor) (b : Block) → committed (update_metrics codec p b) ≡ []
  unfolding update_metrics
  update_metrics-committed p b =
      if_intro (λ es. committed es ≡ []) p.has_metrics (sync_height b.number ∷ []) [] refl refl

  -- The check against the cache.
  check_cached :
      {E : Type 0} (query : ℕ → Found) (p : Processor) (n : ℕ) (parent : String)
      → ¬ (p.chain_id ≡ 31337)
      → p.last_block_hash ≢ ""
      → n ≡ p.last_block_num + 1
      → handle_reorg_read_only {E = E} p query n parent
        ≡ (if str_eq p.last_block_hash parent then none else some (reorg_error n))
  unfolding handle_reorg_read_only is_cached reorg_if
  check_cached query p n parent c h e = ground (arith, eq_iff p.last_block_hash "")

  present_follows :
      {E : Type 0} (query : ℕ → Found) (w : World) (p : Processor) (d : BlockData E) (b : Block)
      → ¬ (p.chain_id ≡ 31337)
      → p.last_block_hash ≢ ""
      → d.block ≡ some b
      → b.number ≡ p.last_block_num + 1
      → d.err ≡ none
      → process_block codec query w p d
        ≡ process_checked codec w p d.logs b (
            if str_eq p.last_block_hash (codec.hash_hex b.parent_hash)
            then none
            else some (reorg_error b.number))
  unfolding process_block process_present
  present_follows {E} query w p d b c h f e n =
      let g = check_cached {E = E} query p b.number (codec.hash_hex b.parent_hash) c h e in
      ground arith

  pub failed_fetch :
      {E : Type 0} (query : ℕ → Found) (w : World) (p : Processor) (d : BlockData E) (e : E)
      → d.err ≡ some e
      → process_block codec query w p d ≡ (p, [], some (fetch_error e))
  unfolding process_block
  failed_fetch query w p d e h = ground arith

  -- A call fails and changes nothing, or commits a block that follows the one in the cache.
  block-cases :
      {E : Type 0} (query : ℕ → Found) (w : World) (p : Processor) (d : BlockData E) (b : Block)
      → ¬ (p.chain_id ≡ 31337)
      → p.last_block_hash ≢ ""
      → d.block ≡ some b
      → b.number ≡ p.last_block_num + 1
      → ((e : Error E) × (process_block codec query w p d ≡ (p, [], some e)))
        ⊎ ((process_block codec query w p d ≡ process_checked codec w p d.logs b none)
            × (codec.hash_hex b.parent_hash ≡ p.last_block_hash))
  unfolding process_checked
  block-cases {E} query w p d b c h f n = elim (Option-cases d.err) [
    | inl e ↦
        let q = present_follows query w p d b c h f n e in
        let pick : Bool → Option (Error E) = λ x. if x then none else some (reorg_error b.number) in
        elim (Bool-cases (str_eq p.last_block_hash (codec.hash_hex b.parent_hash))) [
          | inl same ↦ inr (
            q ∙ ap (λ x. process_checked codec w p d.logs b (pick x)) same,
            sym ((eq_iff p.last_block_hash (codec.hash_hex b.parent_hash)).0 same),
          )
          | inr other ↦ inl (
            reorg_error b.number,
            q ∙ ap (λ x. process_checked codec w p d.logs b (pick x)) other,
          )
        ]
    | inr (e, q) ↦ inl (fetch_error e, failed_fetch query w p d e q)
  ]

  pub checked-committed :
      (E : Type 0) (w : World) (p : Processor) (logs : List Log) (b : Block)
      → committed (process_checked codec {E = E} w p logs b none).1 ≡ block_row codec b ∷ []
  unfolding process_checked persist_task
  checked-committed E w p logs b =
      let ts : List Transfer =
        process_anvil_synthetic codec w.extra w.amount p.simulator b
          (extract_activities codec b.number p.enricher logs b.transactions) in
      let g : List GasSpender = analyze_gas codec b.transactions in
      ap (◌∷◌ (block_row codec b)) (
        committed-append (push_events codec p b ts g) (update_metrics codec p b)
        ∙ ap (λ x. x ++ committed (update_metrics codec p b)) (push_events-committed p b ts g)
        ∙ update_metrics-committed p b)

  -- The cache is that of the block below height `n`.
  abbrev pub IsCurrent : ℕ → Processor → Type 0
  IsCurrent n p = (¬ (p.chain_id ≡ 31337)) × (p.last_block_hash ≢ "") × (n ≡ p.last_block_num + 1)

  checked-IsCurrent :
      (E : Type 0) (w : World) (p : Processor) (logs : List Log) (b : Block)
      → ¬ (p.chain_id ≡ 31337)
      → codec.hash_hex b.hash ≢ ""
      → IsCurrent (b.number + 1) (process_checked codec {E = E} w p logs b none).0
        × ((process_checked codec {E = E} w p logs b none).0.last_block_hash
            ≡ codec.hash_hex b.hash)
  unfolding process_checked update_reorg_cache
  checked-IsCurrent E w p logs b c h =
      let e : (p.chain_id == 31337) ≡ false = ne→== p.chain_id 31337 c in
      (
        (
          c,
          subst (λ x. (if x then p.last_block_hash else codec.hash_hex b.hash) ≢ "") (sym e) h,
          ap (λ x. (if x then p.last_block_num else b.number) + 1) (sym e),
        ),
        ap (λ x. if x then p.last_block_hash else codec.hash_hex b.hash) e,
      )

  stopped :
      {E : Type 0} (query : ℕ → ℕ → Found) (world : ℕ → World) (i : ℕ) (p : Processor)
      (d : BlockData E) (ds : List (BlockData E)) (e : Error E)
      → process_block codec (query i) (world i) p d ≡ (p, [], some e)
      → process_blocks codec query world i p (d ∷ ds) ≡ (p, [], some e)
  unfolding process_blocks after_block
  stopped query world i p d ds e h =
      ap (after_block (λ q. process_blocks codec query world (i + 1) q ds)) h

  went_on :
      {E : Type 0} (query : ℕ → ℕ → Found) (world : ℕ → World) (i : ℕ) (p : Processor)
      (d : BlockData E) (ds : List (BlockData E)) (b : Block)
      → process_block codec (query i) (world i) p d
        ≡ process_checked codec (world i) p d.logs b none
      → (process_blocks codec query world i p (d ∷ ds)).1
        ≡ (process_checked codec {E = E} (world i) p d.logs b none).1
          ++ (process_blocks codec query world
              (i + 1)
              (process_checked codec {E = E} (world i) p d.logs b none).0
              ds).1
  unfolding process_blocks after_block process_checked
  went_on query world i p d ds b h =
      ap (λ x. (after_block (λ q. process_blocks codec query world (i + 1) q ds) x).1) h

  -- The rows that successive calls of `ProcessBlock` commit are consecutive, and each one's parent
  -- hash is the hash of the one before: for fetched blocks of consecutive heights, from a processor
  -- whose cache holds the block below, on any chain but Anvil, and whatever the database answers.
  pub process_blocks-Follows :
      {E : Type 0} (query : ℕ → ℕ → Found) (world : ℕ → World)
      → ((h : ℕ) → codec.hash_hex h ≢ "")
      → (i n : ℕ) (p : Processor) (ds : List (BlockData E)) → IsCurrent n p
      → IsSequence n ds
      → Follows n p.last_block_hash (committed (process_blocks codec query world i p ds).1)
  unfolding process_blocks
  process_blocks-Follows query world nonempty i n p [] c s = tt
  process_blocks-Follows {E} query world nonempty i n p (d ∷ ds) c ((b, e, m), s) =
      elim (block-cases (query i) (world i) p d b c.0 c.1 e (m ∙ c.2)) [
        | inl (x, h) ↦
            subst (λ es. Follows n p.last_block_hash (committed es))
              (sym (ap (λ (r : Step E). r.1) (stopped query world i p d ds x h))) tt
        | inr (h, parent) ↦
            let q : Processor = (process_checked codec {E = E} (world i) p d.logs b none).0 in
            let es : List Effect = (process_checked codec {E = E} (world i) p d.logs b none).1 in
            let rest : List Effect = (process_blocks codec query world (i + 1) q ds).1 in
            let (current, hash) = checked-IsCurrent E (world i) p d.logs b c.0 (nonempty b.hash) in
            let rows : committed (es ++ rest) ≡ block_row codec b ∷ committed rest =
              committed-append es rest
              ∙ ap (λ x. x ++ committed rest) (checked-committed E (world i) p d.logs b) in
            let below : Follows (n + 1) (codec.hash_hex b.hash) (committed rest) =
              subst (λ x. Follows (n + 1) x (committed rest)) hash
                (process_blocks-Follows query world nonempty (i + 1) (n + 1) q ds
                  (subst (λ x. IsCurrent (x + 1) q) m current) s) in
            subst (λ x. Follows n p.last_block_hash (committed x))
              (sym (went_on query world i p d ds b h))
              (subst (Follows n p.last_block_hash) (sym rows) (m, parent, below))
      ]
