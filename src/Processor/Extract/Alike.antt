-- ===== src/Processor/Extract/Alike.antt =====
-- What the two ways to extract activities have in common.
use Prim.Native.String.{String}
use text.Mathlib.Text.{◌==◌ as str_eq}
use text.Mathlib.TextPositions.{eq_refl}
use web3_indexer_go.Base.{
  ℕ, ◌+◌, ◌<◌, ◌≡◌, refl, sym, ap, ◌∙◌, subst, List, [], ◌∷◌, ◌++◌, Option, none, some, arith, All,
  inl, inr, Option-cases, Bool-cases, true, false, ◌||◌, is_some,
}
use web3_indexer_go.Processor.Types.{Log, Transaction, Transfer, Codec}
use web3_indexer_go.Processor.Extract.Keys.{loop-none, loop-some}
use web3_indexer_go.Processor.Activity.{get_address_label}
use web3_indexer_go.Processor.Extract.{
  log_activities, has_real_log, transaction_loop, detect, extract_activities, batch_activities,
  batch_transaction, or_else, detect_faucet, detect_deploy, detect_eth_transfer, synthetic,
  sender_text, receiver_text,
}

module _ (codec : Codec) (block_num : ℕ) where
  -- The sender is not one of the known faucets.
  abbrev pub IsUnlabelled : Transaction → Type 0
  IsUnlabelled tx = get_address_label (sender_text codec block_num tx) ≡ ""

  detect_faucet-none :
      (tx : Transaction) (idx : ℕ) → IsUnlabelled tx → detect_faucet codec block_num tx idx ≡ none
  unfolding detect_faucet
  detect_faucet-none tx idx h =
      let e : str_eq (get_address_label (sender_text codec block_num tx)) "" ≡ true =
        ap (λ l. str_eq l "") h ∙ eq_refl "" in
      ground arith

  detect_rest :
      (real : List Transfer) (tx : Transaction) (idx : ℕ) (o : Option ℕ)
      → tx.to ≡ o
      → or_else codec block_num
          (detect_deploy codec block_num tx idx)
          (detect_eth_transfer codec block_num real tx idx)
        ≡ batch_transaction codec block_num real tx idx
  unfolding or_else detect_deploy detect_eth_transfer batch_transaction receiver_text
  detect_rest real tx idx none h = ground arith
  detect_rest real tx idx (some a) h = ground arith

  detect-batch :
      (real : List Transfer) (tx : Transaction) (idx : ℕ)
      → IsUnlabelled tx
      → detect codec block_num real tx idx ≡ batch_transaction codec block_num real tx idx
  unfolding detect or_else
  detect-batch real tx idx h =
      ap
        (λ o. or_else codec block_num o (
          or_else codec block_num (detect_deploy codec block_num tx idx)
            (detect_eth_transfer codec block_num real tx idx)))
        (detect_faucet-none tx idx h)
      ∙ detect_rest real tx idx tx.to refl

  loop-alike :
      (f g : Transaction → ℕ → Option Transfer)
      → ((tx : Transaction) (idx : ℕ) → IsUnlabelled tx → f tx idx ≡ g tx idx)
      → (idx : ℕ) (txs : List Transaction) → All IsUnlabelled txs
      → transaction_loop codec block_num f idx txs ≡ transaction_loop codec block_num g idx txs
  unfolding transaction_loop
  loop-alike f g same idx [] h = refl
  loop-alike f g same idx (tx ∷ txs) h = ground (
    arith,
    same tx idx h.0,
    loop-alike f g same idx txs h.1,
    loop-alike f g same (idx + 1) txs h.1,
  )

  -- `ProcessBatch` extracts the activities that `ProcessBlock` extracts, when no transaction's sender
  -- is a known faucet.
  pub batch-extract :
      (enricher : Option (ℕ → String)) (logs : List Log) (txs : List Transaction)
      → All IsUnlabelled txs
      → batch_activities codec block_num enricher logs txs
        ≡ extract_activities codec block_num enricher logs txs
  unfolding batch_activities extract_activities
  batch-extract enricher logs txs h =
      let real = log_activities codec enricher logs in
      ap (real ++◌) (
        sym (
          loop-alike (detect codec block_num real) (batch_transaction codec block_num real)
            (detect-batch real) 20000 txs h))

  -- A transaction that moves value.
  abbrev pub Pays : Transaction → Type 0
  Pays tx = (0 < tx.value) × (is_some tx.to ≡ true)

  has_real_log-append :
      (h : String) (xs ys : List Transfer)
      → has_real_log h (xs ++ ys) ≡ (has_real_log h xs || has_real_log h ys)
  unfolding has_real_log
  has_real_log-append h [] ys = refl
  has_real_log-append h (x ∷ xs) ys = ground (arith, has_real_log-append h xs ys)

  detect_some :
      (real : List Transfer) (tx : Transaction) (idx : ℕ)
      → Pays tx
      → has_real_log (codec.hash_hex tx.hash) real ≡ false
      → ¬ (detect codec block_num real tx idx ≡ none)
  unfolding detect or_else detect_faucet detect_deploy detect_eth_transfer
  detect_some real tx idx p h e = ground arith

  pub detect-hash :
      (real : List Transfer) (tx : Transaction) (idx : ℕ) (t : Transfer)
      → detect codec block_num real tx idx ≡ some t
      → t.tx_hash ≡ codec.hash_hex tx.hash
  unfolding detect or_else detect_faucet detect_deploy detect_eth_transfer synthetic
  detect-hash real tx idx t e = ground arith

  -- Each of the transactions that pays is found.
  abbrev pub IsFoundIn : List Transfer → Transaction → Type 0
  IsFoundIn ts tx = has_real_log (codec.hash_hex tx.hash) ts ≡ true

  head-IsFoundIn :
      (t : Transfer) (ts : List Transfer) (tx : Transaction)
      → t.tx_hash ≡ codec.hash_hex tx.hash
      → IsFoundIn (t ∷ ts) tx
  unfolding has_real_log
  head-IsFoundIn t ts tx h =
      let e : str_eq t.tx_hash (codec.hash_hex tx.hash) ≡ true =
        ap (λ x. str_eq x (codec.hash_hex tx.hash)) h ∙ eq_refl (codec.hash_hex tx.hash) in
      ground arith

  tail-IsFoundIn :
      (t : Transfer) (ts : List Transfer) (tx : Transaction)
      → IsFoundIn ts tx
      → IsFoundIn (t ∷ ts) tx
  unfolding has_real_log
  tail-IsFoundIn t ts tx h = ground arith

  loop-IsFoundIn :
      (real : List Transfer) (idx : ℕ) (before : List Transaction) (tx : Transaction)
      (after : List Transaction)
      → Pays tx
      → has_real_log (codec.hash_hex tx.hash) real ≡ false
      → IsFoundIn
          (transaction_loop codec block_num
            (detect codec block_num real)
            idx
            (before ++ tx ∷ after))
          tx
  loop-IsFoundIn real idx [] tx after p h =
      elim (Option-cases (detect codec block_num real tx idx)) [
        | inl e ↦ absurd (detect_some real tx idx p h e)
        | inr (t, e) ↦
            let find = detect codec block_num real in
            subst (λ ts. IsFoundIn ts tx) (sym (loop-some codec block_num find idx tx after t e))
              (head-IsFoundIn t (transaction_loop codec block_num find (idx + 1) after) tx
                (detect-hash real tx idx t e))
      ]
  loop-IsFoundIn real idx (b ∷ before) tx after p h =
      let find = detect codec block_num real in
      elim (Option-cases (find b idx)) [
        | inl e ↦
            subst (λ ts. IsFoundIn ts tx)
              (sym (loop-none codec block_num find idx b (before ++ tx ∷ after) e))
              (loop-IsFoundIn real idx before tx after p h)
        | inr (t, e) ↦
            subst (λ ts. IsFoundIn ts tx)
              (sym (loop-some codec block_num find idx b (before ++ tx ∷ after) t e))
              (tail-IsFoundIn t
                (transaction_loop codec block_num find (idx + 1) (before ++ tx ∷ after)) tx
                (loop-IsFoundIn real (idx + 1) before tx after p h))
      ]

  -- Every transaction of a block that moves value to an address has an activity under its hash, of a
  -- log or of its own.
  pub extract_activities-IsFoundIn :
      (enricher : Option (ℕ → String)) (logs : List Log) (before : List Transaction)
      (tx : Transaction) (after : List Transaction)
      → Pays tx
      → IsFoundIn (extract_activities codec block_num enricher logs (before ++ tx ∷ after)) tx
  unfolding extract_activities
  extract_activities-IsFoundIn enricher logs before tx after p =
      let real = log_activities codec enricher logs in
      let rest =
        transaction_loop codec block_num (detect codec block_num real) 20000
          (before ++ tx ∷ after) in
      let split = has_real_log-append (codec.hash_hex tx.hash) real rest in
      elim (Bool-cases (has_real_log (codec.hash_hex tx.hash) real)) [
        | inl e ↦ split ∙ ap (λ x. x || has_real_log (codec.hash_hex tx.hash) rest) e
        | inr e ↦
            split
            ∙ ap (λ x. x || has_real_log (codec.hash_hex tx.hash) rest) e
            ∙ loop-IsFoundIn real 20000 before tx after p e
      ]
