-- ===== src/Sequencer/Buffer.antt =====
-- The map `buffer` of the sequencer. Its keys are decimal strings of block numbers in the source
-- and the numbers themselves here; the order of the entries has no meaning.
pub mod Lookup
pub mod Size
use web3_indexer_go.Base.{ℕ, not, List, [], ◌∷◌, Option, none, some, ltb, ◌==◌, if◌then◌else◌, keep}

abbrev pub min_with : ℕ → Option ℕ → ℕ
min_with k none = k
min_with k (some n) = if ltb k n then k else n

module _ {V : Type 0} where
  unfoldable pub lookup : ℕ → List (ℕ × V) → Option V
  lookup k [] = none
  lookup k ((j, v) ∷ m) = if j == k then some v else lookup k m

  -- The builtin `delete`.
  unfoldable pub delete : ℕ → List (ℕ × V) → List (ℕ × V)
  delete k m = keep (λ e. not (e.0 == k)) m

  -- Assignment to a key.
  unfoldable pub insert : ℕ → V → List (ℕ × V) → List (ℕ × V)
  unfolding delete
  insert k v m = (k, v) ∷ delete k m

  -- The entries below a height.
  unfoldable pub below : ℕ → List (ℕ × V) → List (ℕ × V)
  below n m = keep (λ e. ltb e.0 n) m

  -- The loop over the keys that looks for the least one.
  unfoldable pub min_buffered : List (ℕ × V) → Option ℕ
  min_buffered [] = none
  min_buffered ((k, v) ∷ m) = some (min_with k (min_buffered m))
