-- ===== src/HotBuffer/Tests.antt =====
-- The buffer on concrete transfers, and the theorems at concrete inputs.
use web3_indexer_go.Base.{ℕ, ◌≡◌, refl, [], ◌∷◌}
use web3_indexer_go.HotBuffer.{HotBuffer, add, write_transfers, get_latest}

abbrev ten : HotBuffer ℕ
ten = record { transfers = 1 ∷ 2 ∷ 3 ∷ 4 ∷ 5 ∷ 6 ∷ 7 ∷ 8 ∷ 9 ∷ 10 ∷ []; max_size = 10 }

abbrev tiny : HotBuffer ℕ
tiny = record { transfers = []; max_size = 2 }

newest_first : get_latest 3 (write_transfers (11 ∷ 12 ∷ []) ten) ≡ 12 ∷ 11 ∷ 10 ∷ []
unfolding get_latest write_transfers add
newest_first = refl
