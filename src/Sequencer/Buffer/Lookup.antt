-- ===== src/Sequencer/Buffer/Lookup.antt =====
-- What each operation on the sequencer's map does to its entries.
use web3_indexer_go.Base.{ℕ, ◌≡◌, List, [], ◌∷◌, none, some, ltb, ◌==◌, if◌then◌else◌, arith}
use web3_indexer_go.Sequencer.Buffer.{lookup, delete, insert, below}

module _ {V : Type 0} where
  pub lookup-delete :
      (k j : ℕ) (m : List (ℕ × V)) → lookup j (delete k m) ≡ (if k == j then none else lookup j m)
  unfolding lookup delete
  lookup-delete k j [] = ground arith
  lookup-delete k j ((i, v) ∷ m) = ground (arith, lookup-delete k j m)

  pub lookup-insert :
      (k j : ℕ) (v : V) (m : List (ℕ × V))
      → lookup j (insert k v m) ≡ (if k == j then some v else lookup j m)
  unfolding lookup insert
  lookup-insert k j v m = ground (arith, lookup-delete k j m)

  pub lookup-below :
      (n j : ℕ) (m : List (ℕ × V)) → lookup j (below n m) ≡ (if ltb j n then lookup j m else none)
  unfolding lookup below
  lookup-below n j [] = ground arith
  lookup-below n j ((i, v) ∷ m) = ground (arith, lookup-below n j m)
