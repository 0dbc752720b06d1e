-- ===== src/NonceManager/Issue.antt =====
-- The order of the nonces, and what a rollback does to it.
use web3_indexer_go.Base.{
  ℕ, ◌+◌, ◌%◌, ◌≤◌, ◌<◌, ◌≡◌, refl, ap, ◌∙◌, List, [], ◌∷◌, All, Option, none, some, arith, ltb,
  if◌then◌else◌, length, ◌⊎◌, ◌≢◌,
}
use web3_indexer_go.NonceManager.{
  NonceManager, synced, get_next_nonce, rollback_nonce, resync_nonce, Call, gets, rolls_back,
  resyncs, call, or_more, issue,
}

-- An answer of the node is below 2 ^ 63.
abbrev pub IsSmall : Option ℕ → Type 0
IsSmall none = Unit
IsSmall (some chain) = chain < 9223372036854775808

-- The call does not set the manager back to `n` or below it.
abbrev pub GoesPast : ℕ → Call → Type 0
GoesPast n (gets a) = IsSmall a
GoesPast n (rolls_back failed) = n < failed
GoesPast n (resyncs none) = Unit
GoesPast n (resyncs (some chain)) = (n < chain) × (chain < 9223372036854775808)

synced-ge : (a : Option ℕ) (pending : ℕ) → pending ≤ synced a pending
unfolding synced
synced-ge none pending = omega arith
synced-ge (some chain) pending = ground arith

synced-le :
    (a : Option ℕ) (pending j : ℕ)
    → IsSmall a
    → pending ≤ 9223372036854775808 + j
    → synced a pending ≤ 9223372036854775808 + j
unfolding synced
synced-le none pending j h k = k
synced-le (some chain) pending j h k = ground (arith, h, k)

-- After `j` calls the manager is past `n`, and below the wrap by what the calls to come need.
abbrev Past : ℕ → ℕ → NonceManager → Type 0
Past n j m = (n < m.pending_nonce) × (m.pending_nonce ≤ 9223372036854775808 + j)

call-Past :
    (c : Call) (n j : ℕ) (m : NonceManager)
    → GoesPast n c
    → j + 1 < 9223372036854775808
    → Past n j m
    → Past n (j + 1) (call c m).0
unfolding call get_next_nonce rollback_nonce resync_nonce
call-Past (gets a) n j m g b (h, k) =
    let up = synced-ge a m.pending_nonce in
    let down = synced-le a m.pending_nonce j g k in
    (omega (arith, up, down, h, b), omega (arith, up, down, h, b))
call-Past (rolls_back failed) n j m g b (h, k) = ground (arith, g, h, k)
call-Past (resyncs none) n j m g b (h, k) = (h, omega (arith, k))
call-Past (resyncs (some chain)) n j m (g, s) b h = (g, omega (arith, s))

call-above :
    (c : Call) (calls : List Call) (n : ℕ) (m : NonceManager)
    → n < m.pending_nonce
    → All (λ k. n < k) (issue calls (call c m).0).1
    → All (λ k. n < k) (issue (c ∷ calls) m).1
unfolding issue call or_more get_next_nonce
call-above (gets a) calls n m h t = (omega (arith, h, synced-ge a m.pending_nonce), t)
call-above (rolls_back failed) calls n m h t = t
call-above (resyncs a) calls n m h t = t

issue-above :
    (calls : List Call) (n j : ℕ) (m : NonceManager)
    → All (GoesPast n) calls
    → j + length calls < 9223372036854775808
    → Past n j m
    → All (λ k. n < k) (issue calls m).1
unfolding issue
issue-above [] n j m g b h = tt
issue-above (c ∷ calls) n j m (g, gs) b h = call-above c calls n m h.0 (
    issue-above calls n (j + 1) (call c m).0 gs (omega (arith, b))
      (call-Past c n j m g (omega (arith, b)) h))

-- Once a nonce has been given, every nonce that later calls give is above it, as long as no rollback
-- names it or a lower one and no resync answers it or a lower one. The pending nonce and the node's
-- answers are below 2 ^ 63, and fewer than 2 ^ 63 - 1 calls follow.
pub get_next_nonce-issue :
    (a : Option ℕ) (calls : List Call) (m : NonceManager)
    → m.pending_nonce < 9223372036854775808
    → IsSmall a
    → All (GoesPast (get_next_nonce a m).1) calls
    → length calls + 1 < 9223372036854775808
    → All (λ k. (get_next_nonce a m).1 < k) (issue calls (get_next_nonce a m).0).1
unfolding get_next_nonce
get_next_nonce-issue a calls m p s g b =
    let down = synced-le a m.pending_nonce 0 s (omega (arith, p)) in
    issue-above calls (synced a m.pending_nonce) 1 (get_next_nonce a m).0 g (omega (arith, b))
      (omega (arith, down), omega (arith, down))

-- The node is not ahead of a nonce, where it is asked.
abbrev pub IsBehind : Option ℕ → ℕ → Type 0
IsBehind none nonce = Unit
IsBehind (some chain) nonce = (nonce % 50 ≢ 0) ⊎ (chain ≤ nonce)

synced_same : (a : Option ℕ) (nonce : ℕ) → IsBehind a nonce → synced a nonce ≡ nonce
unfolding synced
synced_same none nonce h = refl
synced_same (some chain) nonce h = ground arith

-- A nonce below 2 ^ 64 - 1 that is rolled back right after it was given is the next to be given,
-- unless the node has gone past it.
pub rollback-get_next :
    (a b : Option ℕ) (m : NonceManager)
    → (get_next_nonce a m).1 + 1 < 18446744073709551616
    → IsBehind b (get_next_nonce a m).1
    → (get_next_nonce b (rollback_nonce (get_next_nonce a m).1 (get_next_nonce a m).0)).1
      ≡ (get_next_nonce a m).1
unfolding get_next_nonce rollback_nonce
rollback-get_next a b m l h =
    let n = synced a m.pending_nonce in
    let back : (if ltb n ((n + 1) % 18446744073709551616)
          then n
          else (n + 1) % 18446744073709551616)
        ≡ n =
      ground (arith, l) in
    ap (synced b) back ∙ synced_same b n h
