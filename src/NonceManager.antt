-- ===== src/NonceManager.antt =====
-- internal/emulator/nonce_manager.go: the nonces of an account, numbers of 64 bits. The node's answer to `PendingNonceAt` is given with the call, none an error.
pub mod Issue
mod Tests
use web3_indexer_go.Base.{
  ℕ, ◌+◌, ◌%◌, Bool, true, false, ◌&&◌, List, [], ◌∷◌, Option, none, some, ltb, ◌==◌, if◌then◌else◌,
}

pub record NonceManager : Type 0 where
  pub pending_nonce : ℕ

unfoldable pub new_nonce_manager : Option ℕ → Option NonceManager
new_nonce_manager none = none
new_nonce_manager (some nonce) = some (record { pending_nonce = nonce })

-- Every fiftieth nonce is compared with the node's, which may be ahead.
unfoldable pub synced : Option ℕ → ℕ → ℕ
synced none pending = pending
synced (some chain) pending = if pending % 50 == 0 && ltb pending chain then chain else pending

unfoldable pub get_next_nonce : Option ℕ → NonceManager → NonceManager × ℕ
unfolding synced
get_next_nonce answer m =
    let nonce = synced answer m.pending_nonce in
    (record m { pending_nonce = (nonce + 1) % 18446744073709551616 }, nonce)

unfoldable pub rollback_nonce : ℕ → NonceManager → NonceManager
rollback_nonce failed m = record m {
  pending_nonce = if ltb failed m.pending_nonce then failed else m.pending_nonce;
}

-- The manager, and whether the node answered.
unfoldable pub resync_nonce : Option ℕ → NonceManager → NonceManager × Bool
resync_nonce none m = (m, false)
resync_nonce (some nonce) m = (record m { pending_nonce = nonce }, true)

-- The calls of the emulator, with the answers of the node.
pub data Call : Type 0 where
  gets : Option ℕ → Call
  rolls_back : ℕ → Call
  resyncs : Option ℕ → Call

-- The manager after a call, and the nonce that the call gives, if any.
unfoldable pub call : Call → NonceManager → NonceManager × Option ℕ
unfolding get_next_nonce rollback_nonce resync_nonce
call (gets a) m = let (m', nonce) = get_next_nonce a m in (m', some nonce)
call (rolls_back failed) m = (rollback_nonce failed m, none)
call (resyncs a) m = ((resync_nonce a m).0, none)

unfoldable pub or_more : Option ℕ → List ℕ → List ℕ
or_more none nonces = nonces
or_more (some nonce) nonces = nonce ∷ nonces

-- The nonces of successive calls.
unfoldable pub issue : List Call → NonceManager → NonceManager × List ℕ
unfolding call or_more
issue [] m = (m, [])
issue (c ∷ calls) m =
    let (m', nonce) = call c m in let (m'', nonces) = issue calls m' in (m'', or_more nonce nonces)
