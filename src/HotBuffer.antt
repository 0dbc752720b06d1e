-- ===== src/HotBuffer.antt =====
-- internal/engine/hot_buffer.go: the pool of the latest transfers. `T` is the row of package models.
pub mod Eviction
mod Tests
use mathlib.Core.List.{reverse}
use web3_indexer_go.Base.{ℕ, ◌-◌, ◌/◌, List, [], ◌∷◌, ◌++◌, ltb, ◌==◌, if◌then◌else◌, length, drop}

-- `transfers` is oldest first.
pub record HotBuffer (T : Type 0) : Type 0 where
  pub transfers : List T
  pub max_size : ℕ

module _ {T : Type 0} where
  -- A size that is not positive is 50000.
  unfoldable pub new_hot_buffer : ℕ → HotBuffer T
  new_hot_buffer max_size = record {
    transfers = [];
    max_size = if max_size == 0 then 50000 else max_size;
  }

  -- `addLocked`: a tenth of the size goes when the buffer is over it.
  unfoldable pub add : T → HotBuffer T → HotBuffer T
  add t b =
      let more = b.transfers ++ t ∷ [] in
      record b {
        transfers = if ltb b.max_size (length more) then drop (b.max_size / 10) more else more;
      }

  unfoldable pub write_transfers : List T → HotBuffer T → HotBuffer T
  write_transfers [] b = b
  write_transfers (t ∷ ts) b = write_transfers ts (add t b)

  -- The newest `limit` transfers, newest first.
  unfoldable pub get_latest : ℕ → HotBuffer T → List T
  get_latest limit b =
      let n = length b.transfers in
      reverse (drop (n - (if ltb n limit then n else limit)) b.transfers)

  unfoldable pub get_count : HotBuffer T → ℕ
  get_count b = length b.transfers
