-- ===== src/Processor/Gas/Top.antt =====
-- processor_block_part1.go: which receivers `AnalyzeGas` shows.
use Prim.Native.String.{String}
use text.Mathlib.Text.{◌==◌ as str_eq}
use text.Mathlib.TextEquality.{eq_iff}
use text.Mathlib.TextPositions.{eq_refl}
use native.Mathlib.Nat.{mod-eq_of_lt}
use web3_indexer_go.Base.{
  ℕ, ◌+◌, ◌*◌, ◌^◌, ◌≤◌, ◌<◌, ◌≡◌, refl, sym, ap, ◌∙◌, subst, true, false, if◌then◌else◌, List, [],
  ◌∷◌, ◌++◌, arith, ltb, drop, take-append-drop, Bool-cases, inl, inr, length, length-take,
  if_intro,
}
use web3_indexer_go.Processor.Types.{Transaction, Codec}
use web3_indexer_go.Processor.Gas.{
  GasSpender, spend, receiver, spend_all, insert_spender, sort_spenders, analyze_gas,
}

abbrev pub AllUpTo : ℕ → List GasSpender → Type 0
AllUpTo n [] = Unit
AllUpTo n (s ∷ ss) = (s.total_gas ≤ n) × AllUpTo n ss

-- By descending gas.
abbrev pub IsDescending : List GasSpender → Type 0
IsDescending [] = Unit
IsDescending (s ∷ ss) = AllUpTo s.total_gas ss × IsDescending ss

AllUpTo-le : (m n : ℕ) (ss : List GasSpender) → m ≤ n → AllUpTo m ss → AllUpTo n ss
AllUpTo-le m n [] le h = tt
AllUpTo-le m n (s ∷ ss) le h = (omega arith, AllUpTo-le m n ss le h.1)

insert-AllUpTo :
    (n : ℕ) (s : GasSpender) (ts : List GasSpender)
    → s.total_gas ≤ n
    → AllUpTo n ts
    → AllUpTo n (insert_spender s ts)
unfolding insert_spender
insert-AllUpTo n s [] le h = (le, tt)
insert-AllUpTo n s (t ∷ ts) le h =
    if_intro (AllUpTo n) (ltb s.total_gas t.total_gas) (t ∷ insert_spender s ts) (s ∷ t ∷ ts)
      (h.0, insert-AllUpTo n s ts le h.1) (le, h)

insert-IsDescending :
    (s : GasSpender) (ts : List GasSpender) → IsDescending ts → IsDescending (insert_spender s ts)
unfolding insert_spender
insert-IsDescending s [] h = (tt, tt)
insert-IsDescending s (t ∷ ts) h = elim (Bool-cases (ltb s.total_gas t.total_gas)) [
  | inl less ↦
      rw less (insert-AllUpTo t.total_gas s ts (ground arith) h.0, insert-IsDescending s ts h.1)
  | inr more ↦
      let le : t.total_gas ≤ s.total_gas = ground arith in
      rw more ((le, AllUpTo-le t.total_gas s.total_gas ts le h.0), h)
]

sort-IsDescending : (ss : List GasSpender) → IsDescending (sort_spenders ss)
unfolding sort_spenders
sort-IsDescending [] = tt
sort-IsDescending (s ∷ ss) = insert-IsDescending s (sort_spenders ss) (sort-IsDescending ss)

abbrev pub spent : List GasSpender → ℕ
spent [] = 0
spent (s ∷ ss) = s.total_gas + spent ss

spent-insert :
    (s : GasSpender) (ts : List GasSpender) → spent (insert_spender s ts) ≡ s.total_gas + spent ts
unfolding insert_spender
spent-insert s [] = refl
spent-insert s (t ∷ ts) = ground (arith, spent-insert s ts)

spent-sort : (ss : List GasSpender) → spent (sort_spenders ss) ≡ spent ss
unfolding sort_spenders
spent-sort [] = refl
spent-sort (s ∷ ss) = omega (arith, spent-insert s (sort_spenders ss), spent-sort ss)

abbrev pub gas_of : List Transaction → ℕ
gas_of [] = 0
gas_of (tx ∷ txs) = tx.gas + gas_of txs

spent-spend :
    (to : String) (gas fee : ℕ) (ss : List GasSpender)
    → gas + spent ss < 2 ^ 64
    → spent (spend to gas fee ss) ≡ gas + spent ss
unfolding spend
spent-spend to gas fee [] h = refl
spent-spend to gas fee (s ∷ ss) h =
    let rest = spent-spend to gas fee ss (omega arith) in
    let small = mod-eq_of_lt {n = s.total_gas + gas} {m = 2 ^ 64} (omega arith) in
    ground (arith, rest, small)

spent-spend_all :
    (codec : Codec) (txs : List Transaction) (ss : List GasSpender)
    → gas_of txs + spent ss < 2 ^ 64
    → spent (spend_all codec txs ss) ≡ gas_of txs + spent ss
unfolding spend_all
spent-spend_all codec [] ss h = omega arith
spent-spend_all codec (tx ∷ txs) ss h =
    let one = spent-spend (receiver codec tx) tx.gas (tx.gas * tx.gas_price) ss (omega arith) in
    let rest =
      spent-spend_all codec txs (spend (receiver codec tx) tx.gas (tx.gas * tx.gas_price) ss)
        (omega arith) in
    omega (arith, one, rest)

-- How often a receiver is in the table, and the gas it has there.
abbrev pub occurs : String → List GasSpender → ℕ
occurs a [] = 0
occurs a (s ∷ ss) = if str_eq s.address a then occurs a ss + 1 else occurs a ss

abbrev pub gas_in : String → List GasSpender → ℕ
gas_in a [] = 0
gas_in a (s ∷ ss) = if str_eq s.address a then s.total_gas + gas_in a ss else gas_in a ss

-- The gas of the transactions to a receiver, read off the transactions.
abbrev pub gas_to : Codec → String → List Transaction → ℕ
gas_to codec a [] = 0
gas_to codec a (tx ∷ txs) =
    if str_eq (receiver codec tx) a then tx.gas + gas_to codec a txs else gas_to codec a txs

differs : (s t : String) → str_eq s t ≡ false → str_eq t s ≡ false
differs s t h = ground (arith, h, eq_iff t s, eq_refl t)

same_test : (s t a : String) → str_eq s t ≡ true → str_eq s a ≡ str_eq t a
same_test s t a h = ap (λ x. str_eq x a) ((eq_iff s t).0 h)

occurs-spend_other :
    (a to : String) (gas fee : ℕ) (ss : List GasSpender)
    → str_eq to a ≡ false
    → occurs a (spend to gas fee ss) ≡ occurs a ss
unfolding spend
occurs-spend_other a to gas fee [] h = ground (arith, h)
occurs-spend_other a to gas fee (s ∷ ss) h = elim (Bool-cases (str_eq s.address to)) [
  | inl e ↦ ground (arith, e)
  | inr e ↦ ground (arith, e, occurs-spend_other a to gas fee ss h)
]

occurs-spend :
    (a to : String) (gas fee : ℕ) (ss : List GasSpender)
    → occurs a ss ≤ 1
    → occurs a (spend to gas fee ss) ≤ 1
unfolding spend
occurs-spend a to gas fee [] h = ground (arith, h)
occurs-spend a to gas fee (s ∷ ss) h = elim (Bool-cases (str_eq s.address to)) [
  | inl e ↦ ground (arith, e, h)
  | inr e ↦ elim (Bool-cases (str_eq s.address a)) [
    | inl k ↦
        let other : str_eq to a ≡ false =
          ap (λ x. str_eq to x) (sym ((eq_iff s.address a).0 k)) ∙ differs s.address to e in
        ground (arith, e, k, h, occurs-spend_other a to gas fee ss other)
    | inr k ↦
        let few : occurs a ss ≤ 1 = ground (arith, k, h) in
        ground (arith, e, k, occurs-spend a to gas fee ss few)
  ]
]

gas_in-spend :
    (a to : String) (gas fee : ℕ) (ss : List GasSpender)
    → gas + spent ss < 2 ^ 64
    → gas_in a (spend to gas fee ss) ≡ (if str_eq to a then gas + gas_in a ss else gas_in a ss)
unfolding spend
gas_in-spend a to gas fee [] h = ground arith
gas_in-spend a to gas fee (s ∷ ss) h = elim (Bool-cases (str_eq s.address to)) [
  | inl e ↦
      let small = mod-eq_of_lt {n = s.total_gas + gas} {m = 2 ^ 64} (omega arith) in
      ground (arith, e, small, same_test s.address to a e)
  | inr e ↦ ground (arith, e, gas_in-spend a to gas fee ss (omega arith))
]

occurs-spend_all :
    (codec : Codec) (a : String) (txs : List Transaction) (ss : List GasSpender)
    → occurs a ss ≤ 1
    → occurs a (spend_all codec txs ss) ≤ 1
unfolding spend_all
occurs-spend_all codec a [] ss h = h
occurs-spend_all codec a (tx ∷ txs) ss h =
    occurs-spend_all codec a txs (spend (receiver codec tx) tx.gas (tx.gas * tx.gas_price) ss)
      (occurs-spend a (receiver codec tx) tx.gas (tx.gas * tx.gas_price) ss h)

gas_in-spend_all :
    (codec : Codec) (a : String) (txs : List Transaction) (ss : List GasSpender)
    → gas_of txs + spent ss < 2 ^ 64
    → gas_in a (spend_all codec txs ss) ≡ gas_to codec a txs + gas_in a ss
unfolding spend_all
gas_in-spend_all codec a [] ss h = omega arith
gas_in-spend_all codec a (tx ∷ txs) ss h =
    let to = receiver codec tx in
    let fee = tx.gas * tx.gas_price in
    let all = spent-spend to tx.gas fee ss (omega arith) in
    let one = gas_in-spend a to tx.gas fee ss (omega arith) in
    let rest = gas_in-spend_all codec a txs (spend to tx.gas fee ss) (omega (arith, all, h)) in
    ground (arith, one, rest)

occurs-insert :
    (a : String) (s : GasSpender) (ts : List GasSpender)
    → occurs a (insert_spender s ts) ≡ occurs a (s ∷ ts)
unfolding insert_spender
occurs-insert a s [] = refl
occurs-insert a s (t ∷ ts) = ground (arith, occurs-insert a s ts)

gas_in-insert :
    (a : String) (s : GasSpender) (ts : List GasSpender)
    → gas_in a (insert_spender s ts) ≡ gas_in a (s ∷ ts)
unfolding insert_spender
gas_in-insert a s [] = refl
gas_in-insert a s (t ∷ ts) = ground (arith, gas_in-insert a s ts)

occurs-sort : (a : String) (ss : List GasSpender) → occurs a (sort_spenders ss) ≡ occurs a ss
unfolding sort_spenders
occurs-sort a [] = refl
occurs-sort a (s ∷ ss) = ground (arith, occurs-insert a s (sort_spenders ss), occurs-sort a ss)

gas_in-sort : (a : String) (ss : List GasSpender) → gas_in a (sort_spenders ss) ≡ gas_in a ss
unfolding sort_spenders
gas_in-sort a [] = refl
gas_in-sort a (s ∷ ss) = ground (arith, gas_in-insert a s (sort_spenders ss), gas_in-sort a ss)

-- The receivers that are not shown.
abbrev pub omitted : Codec → List Transaction → List GasSpender
omitted codec txs = drop 5 (sort_spenders (spend_all codec txs []))

-- When the gas of the block's transactions fits into 64 bits, `AnalyzeGas` shows at most five
-- receivers by descending gas, and all others have at most the gas of each of them. Among those shown
-- and those left out no address occurs twice, the one with a given address has exactly the gas of
-- the transactions to it, and the gas of all of them together is that of the block's transactions.
pub analyze_gas-IsDescending :
    (codec : Codec) (txs : List Transaction) (a : String)
    → gas_of txs < 2 ^ 64
    → (length (analyze_gas codec txs) ≤ 5)
      × IsDescending (analyze_gas codec txs ++ omitted codec txs)
      × (occurs a (analyze_gas codec txs ++ omitted codec txs) ≤ 1)
      × (gas_in a (analyze_gas codec txs ++ omitted codec txs) ≡ gas_to codec a txs)
      × (spent (analyze_gas codec txs ++ omitted codec txs) ≡ gas_of txs)
unfolding analyze_gas
analyze_gas-IsDescending codec txs a h =
    let table = spend_all codec txs [] in
    let whole = sym (take-append-drop 5 (sort_spenders table)) in
    (
      omega (arith, length-take 5 (sort_spenders table)),
      subst IsDescending whole (sort-IsDescending table),
      subst (λ ss. occurs a ss ≤ 1) whole
          (omega (arith, occurs-sort a table, occurs-spend_all codec a txs [] (omega arith))),
      subst (λ ss. gas_in a ss ≡ gas_to codec a txs) whole
          (omega (arith, gas_in-sort a table, gas_in-spend_all codec a txs [] (omega arith))),
      subst (λ ss. spent ss ≡ gas_of txs) whole
          (omega (arith, spent-sort table, spent-spend_all codec txs [] (omega arith))),
    )
