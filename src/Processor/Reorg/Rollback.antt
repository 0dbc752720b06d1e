-- ===== src/Processor/Reorg/Rollback.antt =====
-- processor_reorg.go: what `HandleDeepReorg` leaves in the database.
use Prim.Native.String.{String}
use web3_indexer_go.Base.{
  ℕ, zero, suc, ◌+◌, ◌-◌, ◌≤◌, ◌≡◌, refl, sym, ap, ◌∙◌, subst, Bool, true, not, List, [], ◌∷◌,
  Option, none, some, arith, ltb, leb, ◌==◌, ==→eq, ◌&&◌, if◌then◌else◌, keep, Bool-cases, inl, inr,
  if_intro,
}
use web3_indexer_go.Processor.Reorg.{
  Db, find_row, upsert, select_hash, Search, ancestor, rpc_failed, db_failed, not_found, least,
  delete_from, Transaction, succeeds, has_any, Handled, resumed_at, transaction_failed, roll_back,
  after_search, handle_deep_reorg, find_common_ancestor,
}
use web3_indexer_go.Processor.Reorg.Ancestor.{
  span, IsAncestor, find_common_ancestor-span, find_common_ancestor_iff,
}

least-span : (c top m : ℕ) → top ≤ m → c ≤ top → least m (span (suc c) top) ≡ top - c
unfolding least
least-span zero top m h g = ground arith
least-span (suc c) top m h g =
    let rest = least-span c (top - 1) (if ltb top m then top else m) (ground arith) (omega arith) in
    rest ∙ omega arith

module _ {ℓ} {V : Type ℓ} where
  find_row-keep :
      (q : ℕ → Bool) (n : ℕ) (rows : List (ℕ × V))
      → find_row n (keep (λ (r : ℕ × V). q r.0) rows) ≡ (if q n then find_row n rows else none)
  unfolding find_row
  find_row-keep q n [] = ground arith
  find_row-keep q n ((m, v) ∷ rows) = elim (Bool-cases (m == n)) [
    | inl e ↦ let e' : m ≡ n = ==→eq m n e in grind (arith, find_row-keep q n rows)
    | inr e ↦ grind (arith, find_row-keep q n rows)
  ]

  find_row-upsert_self :
      (k : ℕ) (v : V) (rows : List (ℕ × V)) → find_row k (upsert k v rows) ≡ some v
  unfolding find_row upsert
  find_row-upsert_self k v [] = ground arith
  find_row-upsert_self k v ((m, w) ∷ rows) = ground (arith, find_row-upsert_self k v rows)

  pub find_row-upsert_ne :
      (k c : ℕ) (v : V) (rows : List (ℕ × V))
      → ¬ (k ≡ c)
      → find_row c (upsert k v rows) ≡ find_row c rows
  unfolding find_row upsert
  find_row-upsert_ne k c v [] ne = ground arith
  find_row-upsert_ne k c v ((m, w) ∷ rows) ne = ground (arith, find_row-upsert_ne k c v rows ne)

module _ {ℓ} {V : Type ℓ} where
  find_row-upsert :
      (k c : ℕ) (v : V) (rows : List (ℕ × V))
      → find_row c (upsert k v rows) ≡ (if k == c then some v else find_row c rows)
  find_row-upsert k c v rows = elim (Bool-cases (k == c)) [
    | inl e ↦ rw e (
        subst (λ x. find_row x (upsert k v rows) ≡ some v) (==→eq k c e)
          (find_row-upsert_self k v rows))
    | inr e ↦ rw e (find_row-upsert_ne k c v rows (ground (arith, e)))
  ]

find_row-delete_span :
    (c b k n : ℕ) (db : Db)
    → k + c ≡ b
    → find_row n (delete_from (span c b) db).blocks
      ≡ (if ltb k b && ltb k n then none else find_row n db.blocks)
unfolding delete_from
find_row-delete_span zero b k n db h = ground arith
find_row-delete_span (suc c) b k n db h = grind (
  arith,
  find_row-keep (λ x. not (leb (least b (span (suc c) b)) x)) n db.blocks,
  least-span c b b (omega arith) (omega arith),
)

abbrev pub all_good : Transaction
all_good = record { begins = true; deletes = true; updates = true; commits = true }

succeeds_all : (d : List ℕ) → succeeds all_good d ≡ true
unfolding succeeds has_any
succeeds_all [] = refl
succeeds_all (n ∷ d) = refl

delete_from-checkpoints : (d : List ℕ) (db : Db) → (delete_from d db).checkpoints ≡ db.checkpoints
unfolding delete_from
delete_from-checkpoints [] db = refl
delete_from-checkpoints (n ∷ d) db = refl

after_search-checkpoint :
    (t : Transaction) (db : Db) (c : ℕ)
    → ¬ (1 ≡ c)
    → (s : Search) → find_row c (after_search t db s).0.checkpoints ≡ find_row c db.checkpoints
unfolding after_search roll_back
after_search-checkpoint t db c ne (ancestor k h d) =
    if_intro
      (λ (r : Db × Option ℕ × Handled). find_row c r.0.checkpoints ≡ find_row c db.checkpoints)
      (succeeds t d) (roll_back k d db, some k, resumed_at k) (db, none, transaction_failed)
      (find_row-upsert_ne 1 c k (delete_from d db).checkpoints ne
        ∙ ap (find_row c) (delete_from-checkpoints d db))
      refl
after_search-checkpoint t db c ne (rpc_failed n) = refl
after_search-checkpoint t db c ne (db_failed n) = refl
after_search-checkpoint t db c ne not_found = refl

module _ (chain : ℕ → Option String) (broken : ℕ → Bool) (t : Transaction) (db : Db) (b : ℕ) where
  -- What a rollback to `k` has done to the block `n`, the checkpoint of the chain `c` and the cursor.
  pub record IsRolledBack (k n c : ℕ) (after : Db) (sent : Option ℕ) : Type 0 where
    pub found : (h : String) × IsAncestor chain (select_hash broken db) b k h
    pub rows : find_row n after.blocks ≡ (if ltb k b && ltb k n then none else find_row n db.blocks)
    pub checkpoint :
        find_row c after.checkpoints ≡ (if 1 == c then some k else find_row c db.checkpoints)
    pub cursor : sent ≡ some k

  -- A call that fails has changed neither the tables nor the cursor.
  abbrev pub IsOutcome : ℕ → ℕ → Db × Option ℕ × Handled → Type 0
  IsOutcome n c (after, sent, resumed_at k) = IsRolledBack k n c after sent
  IsOutcome n c (after, sent, r) = (after ≡ db) × (sent ≡ none)

  roll_back-IsRolledBack :
      (k n c : ℕ) (h : String)
      → IsAncestor chain (select_hash broken db) b k h
      → IsRolledBack k n c (roll_back k (span (b - k) b) db) (some k)
  unfolding roll_back
  roll_back-IsRolledBack k n c h a = record {
    found = (h, a);
    rows = find_row-delete_span (b - k) b k n db (omega (arith, a.within));
    checkpoint =
        find_row-upsert 1 c k (delete_from (span (b - k) b) db).checkpoints
        ∙ ap (λ rows. if 1 == c then some k else find_row c rows)
            (delete_from-checkpoints (span (b - k) b) db);
    cursor = refl;
  }

  IsOutcome-of :
      (n c : ℕ) (s : Search)
      → find_common_ancestor chain (select_hash broken db) b ≡ s
      → IsOutcome n c (after_search t db s)
  unfolding after_search
  IsOutcome-of n c (ancestor k h d) e =
      let (a, q) = find_common_ancestor-span chain (select_hash broken db) b e in
      if_intro (IsOutcome n c) (succeeds t d) (roll_back k d db, some k, resumed_at k)
        (db, none, transaction_failed)
        (subst (λ x. IsRolledBack k n c (roll_back k x db) (some k)) (sym q)
          (roll_back-IsRolledBack k n c h a))
        (refl, refl)
  IsOutcome-of n c (rpc_failed m) e = (refl, refl)
  IsOutcome-of n c (db_failed m) e = (refl, refl)
  IsOutcome-of n c not_found e = (refl, refl)

  -- `HandleDeepReorg` is all or nothing. Either it rolls back to the common ancestor: when that is
  -- below the reported height it removes the blocks above the ancestor and keeps every other one, when
  -- it is the reported height itself it removes none; the checkpoint of the chain with id 1 is set to
  -- the ancestor, that of every other chain stays as it was, and the message that resets the cursor
  -- carries the ancestor. Or it fails, no message is sent and the tables have not changed.
  pub handle_deep_reorg-IsOutcome :
      (n c : ℕ) → IsOutcome n c (handle_deep_reorg chain broken t db b)
  unfolding handle_deep_reorg
  handle_deep_reorg-IsOutcome n c =
      IsOutcome-of n c (find_common_ancestor chain (select_hash broken db) b) refl

  -- With a common ancestor in reach and a transaction that commits, `HandleDeepReorg` succeeds.
  pub handle_deep_reorg-resumes :
      (k : ℕ) (h : String)
      → IsAncestor chain (select_hash broken db) b k h
      → t ≡ all_good
      → (handle_deep_reorg chain broken t db b).2 ≡ resumed_at k
  unfolding handle_deep_reorg after_search find_common_ancestor
  handle_deep_reorg-resumes k h a e =
      ap (λ x. (after_search t db x).2)
        ((find_common_ancestor_iff chain (select_hash broken db) b k h).0 a)
      ∙ ap
          (λ x.
            (if◌then◌else◌ {A = Db × Option ℕ × Handled} x
              (roll_back k (span (b - k) b) db, some k, resumed_at k)
              (db, none, transaction_failed)).2)
          (ap (λ x. succeeds x (span (b - k) b)) e ∙ succeeds_all (span (b - k) b))

  -- The checkpoint of any chain but that with id 1 survives a rollback.
  pub handle_deep_reorg-checkpoint :
      (c : ℕ)
      → ¬ (1 ≡ c)
      → find_row c (handle_deep_reorg chain broken t db b).0.checkpoints ≡ find_row c db.checkpoints
  unfolding handle_deep_reorg
  handle_deep_reorg-checkpoint c ne =
      after_search-checkpoint t db c ne (find_common_ancestor chain (select_hash broken db) b)
