-- ===== src/Sequencer/Buffer/Size.antt =====
-- The size of the sequencer's map, and its least key.
use web3_indexer_go.Base.{
  ℕ, ◌+◌, ◌≤◌, ◌<◌, ◌≡◌, refl, inl, inr, List, [], ◌∷◌, none, some, not, ◌==◌, ltb, arith, length,
  length-keep-le, Option-cases, Bool-cases,
}
use web3_indexer_go.Sequencer.Buffer.{lookup, delete, insert, below, min_buffered, min_with}

module _ {V : Type 0} where
  pub length-delete-le : (k : ℕ) (m : List (ℕ × V)) → length (delete k m) ≤ length m
  unfolding delete
  length-delete-le k m = length-keep-le (λ e. not (e.0 == k)) m

  pub length-below-le : (n : ℕ) (m : List (ℕ × V)) → length (below n m) ≤ length m
  unfolding below
  length-below-le n m = length-keep-le (λ e. ltb e.0 n) m

  -- Deleting a key that is there makes the map smaller.
  pub length-delete-lt :
      (k : ℕ) (v : V) (m : List (ℕ × V)) → lookup k m ≡ some v → length (delete k m) < length m
  unfolding lookup delete
  length-delete-lt k v [] h = absurd (ground arith)
  length-delete-lt k v ((i, w) ∷ m) h =
      ground (arith, length-keep-le (λ e. not (e.0 == k)) m, length-delete-lt k v m)

  pub length-insert-le : (k : ℕ) (v : V) (m : List (ℕ × V)) → length (insert k v m) ≤ length m + 1
  unfolding insert
  length-insert-le k v m = omega (arith, length-delete-le k m)

  min_buffered-none : (l : List (ℕ × V)) → min_buffered l ≡ none → (q : ℕ) → lookup q l ≡ none
  unfolding lookup min_buffered
  min_buffered-none [] p q = refl
  min_buffered-none (x ∷ l) p q = absurd (ground arith)

  -- No key lies below the least one.
  pub min_buffered-le :
      (k n : ℕ) (v : V) (m : List (ℕ × V)) → min_buffered m ≡ some n → lookup k m ≡ some v → n ≤ k
  unfolding lookup min_buffered
  min_buffered-le k n v [] e h = absurd (ground arith)
  min_buffered-le k n v ((i, w) ∷ m) e h = elim (Option-cases (min_buffered m)) [
    | inl least ↦ ground (arith, min_buffered-none m least k)
    | inr (j, least) ↦ ground (arith, min_buffered-le k j v m least)
  ]

  -- The least key is a key.
  pub min_buffered-mem :
      (n : ℕ) (m : List (ℕ × V)) → min_buffered m ≡ some n → (v : V) × (lookup n m ≡ some v)
  unfolding lookup min_buffered
  min_buffered-mem n [] e = absurd (ground arith)
  min_buffered-mem n ((i, w) ∷ m) e = elim (Option-cases (min_buffered m)) [
    | inl least ↦ (w, ground arith)
    | inr (j, least) ↦ elim (Bool-cases (ltb i j)) [
      | inl first ↦ (w, ground arith)
      | inr later ↦ elim (Bool-cases (i == j)) [
        | inl same ↦ (w, ground arith)
        | inr other ↦ let (v, found) = min_buffered-mem j m least in (v, ground arith)
      ]
    ]
  ]

  -- Only the empty map has no least key.
  pub min_buffered-some : (m : List (ℕ × V)) → 0 < length m → (n : ℕ) × (min_buffered m ≡ some n)
  unfolding min_buffered
  min_buffered-some [] h = absurd (omega arith)
  min_buffered-some ((i, w) ∷ m) h = (min_with i (min_buffered m), refl)
