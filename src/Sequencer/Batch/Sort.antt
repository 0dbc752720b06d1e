-- ===== src/Sequencer/Batch/Sort.antt =====
-- `collectBatch`: what it returns is the arrivals, sorted, at most 100 of them.
use mathlib.Core.List.{Perm, perm_middle, append-nil}
use mathlib.Core.List.Perm
use web3_indexer_go.Base.{
  ℕ, ◌+◌, ◌≤◌, ◌≡◌, true, false, Bool-cases, inl, inr, List, [], ◌∷◌, ◌++◌, arith, length, take,
  none, some, length-take,
}
use web3_indexer_go.Sequencer.State.{BlockData, Env, get_block_num}
use web3_indexer_go.Sequencer.Batch.{less, insert_sorted, sort_into, collect_batch}

module _ {Block Log Err : Type 0} (env : Env Block Log Err) where
  -- The place of a block in the order of `less`: no number, or the number.
  abbrev pub rank : BlockData Block Log Err → ℕ
  rank d = elim (get_block_num env d) [ none ↦ 0 | some n ↦ n + 1 ]

  abbrev pub AllFrom : ℕ → List (BlockData Block Log Err) → Type 0
  AllFrom n [] = Unit
  AllFrom n (x ∷ xs) = (n ≤ rank x) × AllFrom n xs

  -- Data without a number first, then by ascending number.
  abbrev pub IsSorted : List (BlockData Block Log Err) → Type 0
  IsSorted [] = Unit
  IsSorted (x ∷ xs) = AllFrom (rank x) xs × IsSorted xs

  AllFrom-le : (m n : ℕ) (xs : List (BlockData Block Log Err)) → m ≤ n → AllFrom n xs → AllFrom m xs
  AllFrom-le m n [] le h = tt
  AllFrom-le m n (x ∷ xs) le h = (omega arith, AllFrom-le m n xs le h.1)

  less-rank : (a b : BlockData Block Log Err) → less env a b ≡ true → rank a ≤ rank b
  unfolding less
  less-rank a b h = ground arith

  not-less-rank : (a b : BlockData Block Log Err) → less env a b ≡ false → rank b ≤ rank a
  unfolding less
  not-less-rank a b h = ground arith

  insert_sorted-AllFrom :
      (n : ℕ) (d : BlockData Block Log Err) (xs : List (BlockData Block Log Err))
      → n ≤ rank d
      → AllFrom n xs
      → AllFrom n (insert_sorted env d xs)
  unfolding insert_sorted
  insert_sorted-AllFrom n d [] le h = (le, tt)
  insert_sorted-AllFrom n d (x ∷ xs) le h = elim (Bool-cases (less env d x)) [
    | inl first ↦ rw first (le, h)
    | inr later ↦ rw later (h.0, insert_sorted-AllFrom n d xs le h.1)
  ]

  insert_sorted-IsSorted :
      (d : BlockData Block Log Err) (xs : List (BlockData Block Log Err))
      → IsSorted xs
      → IsSorted (insert_sorted env d xs)
  unfolding insert_sorted
  insert_sorted-IsSorted d [] h = (tt, tt)
  insert_sorted-IsSorted d (x ∷ xs) h = elim (Bool-cases (less env d x)) [
    | inl first ↦
        let le = less-rank d x first in rw first ((le, AllFrom-le (rank d) (rank x) xs le h.0), h)
    | inr later ↦ rw later (
      insert_sorted-AllFrom (rank x) d xs (not-less-rank d x later) h.0,
      insert_sorted-IsSorted d xs h.1,
    )
  ]

  insert_sorted-perm :
      (d : BlockData Block Log Err) (xs : List (BlockData Block Log Err))
      → Perm (insert_sorted env d xs) (d ∷ xs)
  unfolding insert_sorted
  insert_sorted-perm d [] = Perm.refl (d ∷ [])
  insert_sorted-perm d (x ∷ xs) = elim (Bool-cases (less env d x)) [
    | inl first ↦ rw first (Perm.refl (d ∷ x ∷ xs))
    | inr later ↦ rw later (Perm.trans (Perm.cons x (insert_sorted-perm d xs)) (Perm.swap d x xs))
  ]

  sort_into-IsSorted :
      (sorted ds : List (BlockData Block Log Err))
      → IsSorted sorted
      → IsSorted (sort_into env sorted ds)
  unfolding sort_into
  sort_into-IsSorted sorted [] h = h
  sort_into-IsSorted sorted (d ∷ ds) h =
      sort_into-IsSorted (insert_sorted env d sorted) ds (insert_sorted-IsSorted d sorted h)

  sort_into-perm :
      (sorted ds : List (BlockData Block Log Err)) → Perm (sort_into env sorted ds) (ds ++ sorted)
  unfolding sort_into
  sort_into-perm sorted [] = Perm.refl sorted
  sort_into-perm sorted (d ∷ ds) =
      Perm.trans (sort_into-perm (insert_sorted env d sorted) ds)
        (Perm.trans (Perm.append_left ds (insert_sorted-perm d sorted)) (perm_middle ds sorted))

  length-insert_sorted :
      (d : BlockData Block Log Err) (xs : List (BlockData Block Log Err))
      → length (insert_sorted env d xs) ≡ length xs + 1
  unfolding insert_sorted
  length-insert_sorted d [] = omega arith
  length-insert_sorted d (x ∷ xs) = ground (arith, length-insert_sorted d xs)

  length-sort_into :
      (sorted ds : List (BlockData Block Log Err))
      → length (sort_into env sorted ds) ≡ length sorted + length ds
  unfolding sort_into
  length-sort_into sorted [] = omega arith
  length-sort_into sorted (d ∷ ds) =
      omega (arith, length-sort_into (insert_sorted env d sorted) ds, length-insert_sorted d sorted)

  -- `collectBatch` returns the first block and at most 99 of those that arrived after it, each once,
  -- at most 100 in all, those without a number first and the others by ascending number.
  pub collect_batch-IsSorted :
      (first : BlockData Block Log Err) (later : List (BlockData Block Log Err))
      → IsSorted (collect_batch env first later)
        × Perm (collect_batch env first later) (first ∷ take 99 later)
        × (length (collect_batch env first later) ≤ 100)
  unfolding collect_batch
  collect_batch-IsSorted first later = (
    sort_into-IsSorted [] (first ∷ take 99 later) tt,
    rw append-nil at (sort_into-perm [] (first ∷ take 99 later)),
    omega (arith, length-sort_into [] (first ∷ take 99 later), length-take 99 later),
  )
