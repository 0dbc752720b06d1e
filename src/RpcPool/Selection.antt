-- ===== src/RpcPool/Selection.antt =====
-- Which node the weighted selection takes.
use native.Mathlib.Nat.{mod-lt}
use web3_indexer_go.Base.{
  ℕ, zero, suc, ◌+◌, ◌-◌, ◌%◌, ◌<◌, ◌≡◌, ◌≢◌, refl, sym, ap, ◌∙◌, subst, true, List, [], ◌∷◌,
  Option, none, some, arith, ltb, Bool-cases, inl, inr,
}
use web3_indexer_go.RpcPool.{
  RpcNode, RpcPool, weight_of, is_eligible, healthy_nodes, total_weight, pick, or_head, choose,
  get_next_healthy_node,
}

abbrev pub node_at : ℕ → List RpcNode → Option RpcNode
node_at i [] = none
node_at zero (n ∷ ns) = some n
node_at (suc i) (n ∷ ns) = node_at i ns

-- `i` is the place, counted from `base`, of a node that may be called.
abbrev pub IsEligibleAt : ℕ → ℕ → List RpcNode → ℕ → Type 0
IsEligibleAt now base ns i =
    (j : ℕ) × (n : RpcNode) × (i ≡ base + j) × (node_at j ns ≡ some n) × (is_eligible now n ≡ true)

weight-pos : (n : RpcNode) → 0 < weight_of n
unfolding weight_of
weight-pos n = ground arith

-- Below the total weight the second loop finds a node: the fallback to the first is not needed.
pick-total :
    (val : ℕ) (ns : List (ℕ × RpcNode)) → val < total_weight ns → (i : ℕ) × (pick val ns ≡ some i)
unfolding pick total_weight
pick-total val [] h = absurd (omega arith)
pick-total val ((i, n) ∷ ns) h = elim (Bool-cases (ltb val (weight_of n))) [
  | inl here ↦ (i, ground arith)
  | inr later ↦ let (j, e) = pick-total (val - weight_of n) ns (ground arith) in (j, ground arith)
]

-- All places of a list satisfy `P`.
abbrev Places : (ℕ → Type 0) → List (ℕ × RpcNode) → Type 0
Places P [] = Unit
Places P ((i, n) ∷ ns) = P i × Places P ns

pick-Places :
    (P : ℕ → Type 0) (val i : ℕ) (ns : List (ℕ × RpcNode))
    → Places P ns
    → pick val ns ≡ some i
    → P i
unfolding pick
pick-Places P val i [] p e = absurd (ground arith)
pick-Places P val i ((j, n) ∷ ns) p e = elim (Bool-cases (ltb val (weight_of n))) [
  | inl here ↦ let same : j ≡ i = ground arith in subst P same p.0
  | inr later ↦ pick-Places P (val - weight_of n) i ns p.1 (ground arith)
]

Places-weaken :
    (P Q : ℕ → Type 0) (ns : List (ℕ × RpcNode)) → ((i : ℕ) → P i → Q i) → Places P ns → Places Q ns
Places-weaken P Q [] f p = tt
Places-weaken P Q ((i, n) ∷ ns) f p = (f i p.0, Places-weaken P Q ns f p.1)

healthy_nodes-Places :
    (now base : ℕ) (ns : List RpcNode)
    → Places (IsEligibleAt now base ns) (healthy_nodes now base ns)
unfolding healthy_nodes
healthy_nodes-Places now base [] = tt
healthy_nodes-Places now base (n ∷ ns) =
    let rest =
      Places-weaken (IsEligibleAt now (base + 1) ns) (IsEligibleAt now base (n ∷ ns))
        (healthy_nodes now (base + 1) ns) (λ i (j, m, e, a, h). (suc j, m, omega arith, a, h))
        (healthy_nodes-Places now (base + 1) ns) in
    elim (Bool-cases (is_eligible now n)) [
      | inl able ↦ rw able ((0, n, omega arith, refl, able), rest)
      | inr unable ↦ rw unable rest
    ]

total-pos : (i : ℕ) (n : RpcNode) (ns : List (ℕ × RpcNode)) → 0 < total_weight ((i, n) ∷ ns)
unfolding total_weight
total-pos i n ns = omega (arith, weight-pos n)

-- A choice is a place of the list, and there is one unless the list is empty.
choose-Places :
    (P : ℕ → Type 0) (count i : ℕ) (ns : List (ℕ × RpcNode))
    → Places P ns
    → (choose count ns).1 ≡ some i
    → P i
unfolding choose or_head
choose-Places P count i [] p e = absurd (ground arith)
choose-Places P count i ((j, n) ∷ ns) p e =
    let total = total_weight ((j, n) ∷ ns) in
    let (k, found) =
      pick-total ((count + 1) % total) ((j, n) ∷ ns) (mod-lt (count + 1) (total-pos j n ns)) in
    let same : some k ≡ some i = sym (ap (or_head ((j, n) ∷ ns)) found) ∙ e in
    pick-Places P ((count + 1) % total) i ((j, n) ∷ ns) p (found ∙ same)

choose-some :
    (count j : ℕ) (n : RpcNode) (ns : List (ℕ × RpcNode))
    → (i : ℕ) × ((choose count ((j, n) ∷ ns)).1 ≡ some i)
unfolding choose or_head
choose-some count j n ns =
    let total = total_weight ((j, n) ∷ ns) in
    let (k, found) =
      pick-total ((count + 1) % total) ((j, n) ∷ ns) (mod-lt (count + 1) (total-pos j n ns)) in
    (k, ap (or_head ((j, n) ∷ ns)) found)

pub get_next-IsEligibleAt :
    (now i : ℕ) (p : RpcPool)
    → (get_next_healthy_node now p).1 ≡ some i
    → IsEligibleAt now 0 p.clients i
unfolding get_next_healthy_node
get_next-IsEligibleAt now i p e =
    choose-Places (IsEligibleAt now 0 p.clients) p.request_count i (healthy_nodes now 0 p.clients)
      (healthy_nodes-Places now 0 p.clients) e

healthy_nodes-some :
    (now base i : ℕ) (n : RpcNode) (ns : List RpcNode)
    → node_at i ns ≡ some n
    → is_eligible now n ≡ true
    → healthy_nodes now base ns ≢ []
unfolding healthy_nodes
healthy_nodes-some now base i n [] a h e = ground arith
healthy_nodes-some now base zero n (m ∷ ns) a h e =
    let same : m ≡ n = ground arith in
    let able : is_eligible now m ≡ true = ap (is_eligible now) same ∙ h in ground arith
healthy_nodes-some now base (suc i) n (m ∷ ns) a h e =
    let rest = healthy_nodes-some now (base + 1) i n ns a h in
    elim (Bool-cases (is_eligible now m)) [
      | inl able ↦ ground arith
      | inr unable ↦ rest (ground arith)
    ]

choose_nonempty :
    (count : ℕ) (ns : List (ℕ × RpcNode)) → ns ≢ [] → (i : ℕ) × ((choose count ns).1 ≡ some i)
choose_nonempty count [] h = absurd (h refl)
choose_nonempty count ((j, n) ∷ ns) h = choose-some count j n ns

-- When some node is healthy or past its waiting time, the selection returns such a node.
pub get_next-some :
    (now i : ℕ) (n : RpcNode) (p : RpcPool)
    → node_at i p.clients ≡ some n
    → is_eligible now n ≡ true
    → (k : ℕ) × ((get_next_healthy_node now p).1 ≡ some k) × IsEligibleAt now 0 p.clients k
unfolding get_next_healthy_node
get_next-some now i n p a h =
    let (k, e) =
      choose_nonempty p.request_count (healthy_nodes now 0 p.clients)
        (healthy_nodes-some now 0 i n p.clients a h) in
    (k, e, get_next-IsEligibleAt now k p e)
