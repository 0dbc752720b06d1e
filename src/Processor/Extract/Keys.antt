-- ===== src/Processor/Extract/Keys.antt =====
-- The transfers of a block under the key of the table: `UNIQUE(block_number, log_index)`.
use Prim.Native.String.{String}
use mathlib.Core.List.{map-append}
use web3_indexer_go.Base.{
  ℕ, ◌+◌, ◌≤◌, ◌<◌, ◌≡◌, ◌≢◌, sym, List, [], ◌∷◌, ◌++◌, map, Option, none, some, arith, All, inl,
  inr, subst, Option-cases,
}
use web3_indexer_go.Processor.Types.{Log, Transaction, Transfer, Codec}
use web3_indexer_go.Processor.Activity.{process_log, activity_of}
use web3_indexer_go.Processor.Extract.{
  log_activities, transaction_loop, detect, extract_activities, batch_activities, batch_transaction,
  or_else, detect_faucet, detect_deploy, detect_eth_transfer, synthetic,
}

-- No number occurs twice.
abbrev pub IsUnique : List ℕ → Type 0
IsUnique [] = Unit
IsUnique (n ∷ ns) = All (λ m. n ≢ m) ns × IsUnique ns

abbrev pub indices : List Transfer → List ℕ
indices = map (λ (t : Transfer). t.log_index)

abbrev pub log_indices : List Log → List ℕ
log_indices = map (λ (l : Log). l.index)

All-weaken {ℓ κ μ} :
    {A : Type ℓ} {P : A → Type κ} {Q : A → Type μ}
    → ((a : A) → P a → Q a)
    → (xs : List A) → All P xs
    → All Q xs
All-weaken f [] h = tt
All-weaken f (x ∷ xs) h = (f x h.0, All-weaken f xs h.1)

All-append {ℓ κ} :
    {A : Type ℓ} (P : A → Type κ) (xs ys : List A) → All P xs → All P ys → All P (xs ++ ys)
All-append P [] ys h g = g
All-append P (x ∷ xs) ys h g = (h.0, All-append P xs ys h.1 g)

IsUnique-append :
    (b : ℕ) (ms ns : List ℕ)
    → IsUnique ms
    → All (λ m. m < b) ms
    → IsUnique ns
    → All (λ n. b ≤ n) ns
    → IsUnique (ms ++ ns)
IsUnique-append b [] ns u l v g = v
IsUnique-append b (m ∷ ms) ns u l v g = (
  All-append (λ n. m ≢ n) ms ns u.0 (All-weaken (λ n (le : b ≤ n). omega (arith, l.0)) ns g),
  IsUnique-append b ms ns u.1 l.1 v g,
)

-- A detection numbers what it finds as it is told.
abbrev Numbers : (Transaction → ℕ → Option Transfer) → Type 0
Numbers find =
    (tx : Transaction) (idx : ℕ) (t : Transfer) → find tx idx ≡ some t → t.log_index ≡ idx

abbrev IsNumbered : ℕ → List Transfer → Type 0
IsNumbered idx ts = IsUnique (indices ts) × All (λ n. idx ≤ n) (indices ts)

module _ (codec : Codec) (block_num : ℕ) where
  pub loop-none :
      (find : Transaction → ℕ → Option Transfer) (idx : ℕ) (tx : Transaction)
      (txs : List Transaction)
      → find tx idx ≡ none
      → transaction_loop codec block_num find idx (tx ∷ txs)
        ≡ transaction_loop codec block_num find idx txs
  unfolding transaction_loop
  loop-none find idx tx txs e = ground arith

  pub loop-some :
      (find : Transaction → ℕ → Option Transfer) (idx : ℕ) (tx : Transaction)
      (txs : List Transaction) (t : Transfer)
      → find tx idx ≡ some t
      → transaction_loop codec block_num find idx (tx ∷ txs)
        ≡ t ∷ transaction_loop codec block_num find (idx + 1) txs
  unfolding transaction_loop
  loop-some find idx tx txs t e = ground arith

  loop-IsNumbered :
      (find : Transaction → ℕ → Option Transfer)
      → Numbers find
      → (idx : ℕ) (txs : List Transaction)
      → IsNumbered idx (transaction_loop codec block_num find idx txs)
  unfolding transaction_loop
  loop-IsNumbered find numbers idx [] = (tt, tt)
  loop-IsNumbered find numbers idx (tx ∷ txs) = elim (Option-cases (find tx idx)) [
    | inl e ↦
        subst (IsNumbered idx) (sym (loop-none find idx tx txs e))
          (loop-IsNumbered find numbers idx txs)
    | inr (t, e) ↦
        let ts = transaction_loop codec block_num find (idx + 1) txs in
        let (u, g) = loop-IsNumbered find numbers (idx + 1) txs in
        let n : t.log_index ≡ idx = numbers tx idx t e in
        subst (IsNumbered idx) (sym (loop-some find idx tx txs t e)) (
          (All-weaken (λ m (le : idx + 1 ≤ m). omega arith) (indices ts) g, u),
          (omega arith, All-weaken (λ m (le : idx + 1 ≤ m). omega arith) (indices ts) g),
        )
  ]

  detect-Numbers : (real : List Transfer) → Numbers (detect codec block_num real)
  unfolding detect or_else detect_faucet detect_deploy detect_eth_transfer synthetic
  detect-Numbers real tx idx t e = ground arith

  batch_transaction-Numbers :
      (real : List Transfer) → Numbers (batch_transaction codec block_num real)
  unfolding batch_transaction synthetic
  batch_transaction-Numbers real tx idx t e = ground arith

  process_log-index :
      (enricher : Option (ℕ → String)) (log : Log) (t : Transfer)
      → process_log codec enricher log ≡ some t
      → t.log_index ≡ log.index
  unfolding process_log activity_of
  process_log-index enricher log t e = ground arith

  logs-none :
      (enricher : Option (ℕ → String)) (log : Log) (logs : List Log)
      → process_log codec enricher log ≡ none
      → log_activities codec enricher (log ∷ logs) ≡ log_activities codec enricher logs
  unfolding log_activities
  logs-none enricher log logs e = ground arith

  logs-some :
      (enricher : Option (ℕ → String)) (log : Log) (logs : List Log) (t : Transfer)
      → process_log codec enricher log ≡ some t
      → log_activities codec enricher (log ∷ logs) ≡ t ∷ log_activities codec enricher logs
  unfolding log_activities
  logs-some enricher log logs t e = ground arith

  logs-All :
      (P : ℕ → Type 0) (enricher : Option (ℕ → String)) (logs : List Log)
      → All P (log_indices logs)
      → All P (indices (log_activities codec enricher logs))
  unfolding log_activities
  logs-All P enricher [] h = tt
  logs-All P enricher (log ∷ logs) h = elim (Option-cases (process_log codec enricher log)) [
    | inl e ↦
        subst (λ ts. All P (indices ts)) (sym (logs-none enricher log logs e))
          (logs-All P enricher logs h.1)
    | inr (t, e) ↦
        subst (λ ts. All P (indices ts)) (sym (logs-some enricher log logs t e))
          (subst P (sym (process_log-index enricher log t e)) h.0, logs-All P enricher logs h.1)
  ]

  logs-IsUnique :
      (enricher : Option (ℕ → String)) (logs : List Log)
      → IsUnique (log_indices logs)
      → IsUnique (indices (log_activities codec enricher logs))
  unfolding log_activities
  logs-IsUnique enricher [] h = tt
  logs-IsUnique enricher (log ∷ logs) h = elim (Option-cases (process_log codec enricher log)) [
    | inl e ↦
        subst (λ ts. IsUnique (indices ts)) (sym (logs-none enricher log logs e))
          (logs-IsUnique enricher logs h.1)
    | inr (t, e) ↦
        subst (λ ts. IsUnique (indices ts)) (sym (logs-some enricher log logs t e))
          (
            subst (λ n. All (λ m. n ≢ m) (indices (log_activities codec enricher logs)))
                (sym (process_log-index enricher log t e))
                (logs-All (λ m. log.index ≢ m) enricher logs h.0),
            logs-IsUnique enricher logs h.1,
          )
  ]

  with_logs :
      (find : Transaction → ℕ → Option Transfer)
      → Numbers find
      → (enricher : Option (ℕ → String)) (logs : List Log) (txs : List Transaction)
      → IsUnique (log_indices logs)
      → All (λ n. n < 20000) (log_indices logs)
      → IsUnique (
          indices
            (log_activities codec enricher logs ++ transaction_loop codec block_num find 20000 txs))
  with_logs find numbers enricher logs txs u l =
      let (v, g) = loop-IsNumbered find numbers 20000 txs in
      subst IsUnique
        (sym (
          map-append (λ (t : Transfer). t.log_index) (log_activities codec enricher logs)
            (transaction_loop codec block_num find 20000 txs)))
        (IsUnique-append 20000 (indices (log_activities codec enricher logs))
          (indices (transaction_loop codec block_num find 20000 txs))
          (logs-IsUnique enricher logs u) (logs-All (λ n. n < 20000) enricher logs l) v g)

  -- The transfers extracted from a block, by `ProcessBlock` and by `ProcessBatch`, have different log
  -- indices, when the block's logs have different indices below 20000.
  pub activities-IsUnique :
      (enricher : Option (ℕ → String)) (logs : List Log) (txs : List Transaction)
      → IsUnique (log_indices logs)
      → All (λ n. n < 20000) (log_indices logs)
      → IsUnique (indices (extract_activities codec block_num enricher logs txs))
        × IsUnique (indices (batch_activities codec block_num enricher logs txs))
  unfolding extract_activities batch_activities
  activities-IsUnique enricher logs txs u l =
      let real = log_activities codec enricher logs in
      (
        with_logs (detect codec block_num real) (detect-Numbers real) enricher logs txs u l,
        with_logs (batch_transaction codec block_num real) (batch_transaction-Numbers real) enricher
            logs txs u l,
      )
