-- ===== src/Processor/Extract/Sources.antt =====
-- Where the activities of a block come from: processor_block_part1.go.
use Prim.Native.String.{String}
use text.Mathlib.Text.{◌==◌ as str_eq}
use text.Mathlib.TextPositions.{eq_refl}
use web3_indexer_go.Base.{
  ℕ, ◌+◌, ◌≡◌, refl, sym, ap, ◌∙◌, subst, List, [], ◌∷◌, ◌++◌, Option, none, some, arith, All, inl,
  inr, Option-cases, Bool, true, false, ◌||◌,
}
use web3_indexer_go.Processor.Types.{Log, Transaction, Transfer, Codec}
use web3_indexer_go.Processor.Activity.{process_log, activity_of}
use web3_indexer_go.Processor.Extract.{log_activities, transaction_loop, detect, extract_activities}
use web3_indexer_go.Processor.Extract.Keys.{loop-none, loop-some}
use web3_indexer_go.Processor.Extract.Alike.{
  Pays, IsFoundIn, detect-hash, extract_activities-IsFoundIn,
}

All-append :
    (P : Transfer → Type 0) (xs ys : List Transfer) → All P xs → All P ys → All P (xs ++ ys)
All-append P [] ys h k = k
All-append P (x ∷ xs) ys (h, hs) k = (h, All-append P xs ys hs k)

All-map :
    (P Q : Transfer → Type 0) (xs : List Transfer)
    → ((t : Transfer) → P t → Q t)
    → All P xs
    → All Q xs
All-map P Q [] f h = tt
All-map P Q (x ∷ xs) f (h, hs) = (f x h, All-map P Q xs f hs)

module _ (codec : Codec) (block_num : ℕ) where
  -- Whether a hash is that of one of the logs or of one of the transactions.
  abbrev pub is_log_hash : List Log → String → Bool
  is_log_hash [] h = false
  is_log_hash (log ∷ logs) h = str_eq (codec.hash_hex log.tx_hash) h || is_log_hash logs h

  abbrev pub is_tx_hash : List Transaction → String → Bool
  is_tx_hash [] h = false
  is_tx_hash (tx ∷ txs) h = str_eq (codec.hash_hex tx.hash) h || is_tx_hash txs h

  -- The activity stands under the hash of a log or of a transaction.
  abbrev pub HasSource : List Log → List Transaction → Transfer → Type 0
  HasSource logs txs t = (is_log_hash logs t.tx_hash || is_tx_hash txs t.tx_hash) ≡ true

  process_log-hash :
      (enricher : Option (ℕ → String)) (log : Log) (t : Transfer) (topics : List ℕ)
      → log.topics ≡ topics
      → process_log codec enricher log ≡ some t
      → codec.hash_hex log.tx_hash ≡ t.tx_hash
  unfolding process_log activity_of
  process_log-hash enricher log t [] e h = ground (arith, e, h)
  process_log-hash enricher log t (x ∷ xs) e h = ground (arith, e, h)

  same : (s t : String) → s ≡ t → str_eq s t ≡ true
  same s t e = ap (str_eq s) (sym e) ∙ eq_refl s

  logs-none :
      (enricher : Option (ℕ → String)) (log : Log) (logs : List Log)
      → process_log codec enricher log ≡ none
      → log_activities codec enricher (log ∷ logs) ≡ log_activities codec enricher logs
  unfolding log_activities
  logs-none enricher log logs e = ground (arith, e)

  logs-some :
      (enricher : Option (ℕ → String)) (log : Log) (logs : List Log) (t : Transfer)
      → process_log codec enricher log ≡ some t
      → log_activities codec enricher (log ∷ logs) ≡ t ∷ log_activities codec enricher logs
  unfolding log_activities
  logs-some enricher log logs t e = ground (arith, e)

  log_activities-hash :
      (enricher : Option (ℕ → String)) (logs : List Log)
      → All (λ t. is_log_hash logs t.tx_hash ≡ true) (log_activities codec enricher logs)
  unfolding log_activities
  log_activities-hash enricher [] = tt
  log_activities-hash enricher (log ∷ logs) =
      let rest =
        All-map (λ t. is_log_hash logs t.tx_hash ≡ true)
          (λ t. is_log_hash (log ∷ logs) t.tx_hash ≡ true) (log_activities codec enricher logs)
          (λ t h. ground (arith, h)) (log_activities-hash enricher logs) in
      elim (Option-cases (process_log codec enricher log)) [
        | inl e ↦
            subst (All (λ t. is_log_hash (log ∷ logs) t.tx_hash ≡ true))
              (sym (logs-none enricher log logs e)) rest
        | inr (t, e) ↦
            let own =
              same (codec.hash_hex log.tx_hash) t.tx_hash
                (process_log-hash enricher log t log.topics refl e) in
            subst (All (λ t. is_log_hash (log ∷ logs) t.tx_hash ≡ true))
              (sym (logs-some enricher log logs t e)) (ground (arith, own), rest)
      ]

  loop-hash :
      (real : List Transfer) (idx : ℕ) (txs : List Transaction)
      → All
          (λ t. is_tx_hash txs t.tx_hash ≡ true)
          (transaction_loop codec block_num (detect codec block_num real) idx txs)
  unfolding transaction_loop
  loop-hash real idx [] = tt
  loop-hash real idx (tx ∷ txs) =
      let find = detect codec block_num real in
      let weaker = λ (ts : List Transfer).
        All-map (λ t. is_tx_hash txs t.tx_hash ≡ true) (λ t. is_tx_hash (tx ∷ txs) t.tx_hash ≡ true)
          ts (λ t h. ground (arith, h)) in
      elim (Option-cases (find tx idx)) [
        | inl e ↦
            subst (All (λ t. is_tx_hash (tx ∷ txs) t.tx_hash ≡ true))
              (sym (loop-none codec block_num find idx tx txs e))
              (weaker (transaction_loop codec block_num find idx txs) (loop-hash real idx txs))
        | inr (t, e) ↦
            let own =
              same (codec.hash_hex tx.hash) t.tx_hash
                (sym (detect-hash codec block_num real tx idx t e)) in
            subst (All (λ t. is_tx_hash (tx ∷ txs) t.tx_hash ≡ true))
              (sym (loop-some codec block_num find idx tx txs t e))
              (
                ground (arith, own),
                weaker (transaction_loop codec block_num find (idx + 1) txs)
                    (loop-hash real (idx + 1) txs),
              )
      ]

  -- Every activity of a block stands under the hash of one of its logs or transactions.
  extract_activities-HasSource :
      (enricher : Option (ℕ → String)) (logs : List Log) (txs : List Transaction)
      → All (HasSource logs txs) (extract_activities codec block_num enricher logs txs)
  unfolding extract_activities
  extract_activities-HasSource enricher logs txs =
      let real = log_activities codec enricher logs in
      let rest = transaction_loop codec block_num (detect codec block_num real) 20000 txs in
      All-append (HasSource logs txs) real rest
        (All-map (λ t. is_log_hash logs t.tx_hash ≡ true) (HasSource logs txs) real
          (λ t h. ground (arith, h)) (log_activities-hash enricher logs))
        (All-map (λ t. is_tx_hash txs t.tx_hash ≡ true) (HasSource logs txs) rest
          (λ t h. ground (arith, h)) (loop-hash real 20000 txs))

  -- Every transaction of a block that moves value to an address has an activity under its hash, of a
  -- log or of its own, and every activity of the block stands under the hash of one of its logs or
  -- transactions.
  pub extract_activities-sources :
      (enricher : Option (ℕ → String)) (logs : List Log) (before : List Transaction)
      (tx : Transaction) (after : List Transaction)
      → Pays codec block_num tx
      → let ts = extract_activities codec block_num enricher logs (before ++ tx ∷ after) in
        IsFoundIn codec block_num ts tx × All (HasSource logs (before ++ tx ∷ after)) ts
  extract_activities-sources enricher logs before tx after p = (
    extract_activities-IsFoundIn codec block_num enricher logs before tx after p,
    extract_activities-HasSource enricher logs (before ++ tx ∷ after),
  )
