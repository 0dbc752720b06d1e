-- ===== src/NonceManager/Tests.antt =====
-- Nonces at concrete inputs.
use web3_indexer_go.Base.{◌<◌, ◌≡◌, refl, none, some, List, [], ◌∷◌, All, arith}
use web3_indexer_go.NonceManager.{
  NonceManager, get_next_nonce, rollback_nonce, resync_nonce, Call, gets, rolls_back, resyncs, call,
  or_more, issue, synced,
}
use web3_indexer_go.NonceManager.Issue.{get_next_nonce-issue}

abbrev at_49 : NonceManager
at_49 = record { pending_nonce = 49 }

abbrev calls : List Call
calls = gets (some 60) ∷ gets none ∷ rolls_back 60 ∷ gets none ∷ resyncs (some 55) ∷ gets none ∷ []

drift_is_fixed : (issue (gets none ∷ calls) at_49).1 ≡ 49 ∷ 60 ∷ 61 ∷ 60 ∷ 55 ∷ []
unfolding issue call or_more get_next_nonce rollback_nonce resync_nonce synced
drift_is_fixed = refl

-- The rollback of an earlier nonce gives the later ones a second time too.
rollback_reissues :
    (issue (gets none ∷ gets none ∷ gets none ∷ rolls_back 49 ∷ gets none ∷ gets none ∷ []) at_49).1
    ≡ 49 ∷ 50 ∷ 51 ∷ 49 ∷ 50 ∷ []
unfolding issue call or_more get_next_nonce rollback_nonce synced
rollback_reissues = refl

get_next_nonce-issue_example : All (λ k. 49 < k) (issue calls (record { pending_nonce = 50 })).1
unfolding get_next_nonce synced
get_next_nonce-issue_example =
    get_next_nonce-issue none calls at_49 (omega arith) tt
      (omega arith, (tt, (omega arith, (tt, ((omega arith, omega arith), (tt, tt)))))) (omega arith)
