-- ===== src/HotBuffer/Eviction.antt =====
-- What the buffer keeps: internal/engine/hot_buffer.go.
use mathlib.Core.List.{append-nil, append_assoc}
use web3_indexer_go.Base.{
  ◌/◌, ◌<◌, ◌≡◌, refl, sym, ap, ◌∙◌, List, [], ◌∷◌, ◌++◌, ltb, length, arith, if_intro,
}
use web3_indexer_go.HotBuffer.{HotBuffer, add, write_transfers}

module _ {T : Type 0} where
  -- The transfers `l` are those of the buffer, after older ones that it dropped.
  abbrev pub IsNewest : List T → HotBuffer T → Type 0
  IsNewest l b = (old : List T) × (l ≡ old ++ b.transfers)

  add-max_size : (t : T) (b : HotBuffer T) → (add t b).max_size ≡ b.max_size
  unfolding add
  add-max_size t b = refl

  add-small :
      (t : T) (b : HotBuffer T) → b.max_size < 10 → (add t b).transfers ≡ b.transfers ++ t ∷ []
  unfolding add
  add-small t b h =
      let none_dropped : b.max_size / 10 ≡ 0 = omega (arith, h) in
      rw none_dropped (
        if_intro (λ (l : List T). l ≡ b.transfers ++ t ∷ [])
          (ltb b.max_size (length (b.transfers ++ t ∷ []))) _ _ refl refl)

  -- A buffer of fewer than ten places never drops a transfer, however many are written.
  pub write_transfers-small :
      (ts : List T) (b : HotBuffer T)
      → b.max_size < 10
      → (write_transfers ts b).transfers ≡ b.transfers ++ ts
  unfolding write_transfers
  write_transfers-small [] b h = sym (append-nil b.transfers)
  write_transfers-small (t ∷ ts) b h =
      write_transfers-small ts (add t b) (omega (arith, h, add-max_size t b))
      ∙ ap (λ l. l ++ ts) (add-small t b h)
      ∙ append_assoc b.transfers (t ∷ []) ts
