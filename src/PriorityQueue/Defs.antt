-- ===== src/PriorityQueue/Defs.antt =====
-- The adapter and its operations (storage-adapters/src/priority_queue.rs). `key` is the number by
-- which the items' `Ord` compares them, as `Bid`'s does by its price.
use mathlib.Core.Logic.{dite}
use mathlib.Core.WellFounded.{Acc}
use native.Mathlib.Decide.{dec_lt}
use substrate_stablecoin.Prelude.{
  ℕ, zero, suc, ◌+◌, ◌-◌, ◌/◌, ◌<◌, Bool, true, false, Option, none, some, List, [], ◌∷◌, length,
  last?, drop_last, insert_at, arith, ltb, if◌then◌else◌,
}
use substrate_stablecoin.Prelude.Order.{lt_wf}

-- `self.items.remove(0)`, the removed item and the rest.
abbrev pub remove_first {ℓ} : {A : Type ℓ} → List A → Option A × List A
remove_first [] = (none, [])
remove_first (x ∷ xs) = (some x, xs)

-- The loop's `size -= half`.
pub half_smaller : (size : ℕ) → 1 < size → size - size / 2 < size
half_smaller size h = omega arith

module _ {ℓ} {A : Type ℓ} (key : A → ℕ) where
  -- The key of the item at an index; the search reads in range only.
  abbrev pub key_at : List A → ℕ → ℕ
  key_at [] i = 0
  key_at (x ∷ xs) zero = key x
  key_at (x ∷ xs) (suc i) = key_at xs i

  -- The loop of `slice::binary_search_by` in `core` (`while size > 1`), at an item of key `k`.
  unfoldable pub search_loop : List A → ℕ → (base size : ℕ) → Acc ◌<◌ size → ℕ
  search_loop xs k base size (Acc.intro _ smaller) =
      dite (dec_lt 1 size)
        (λ h.
          search_loop xs k (if ltb k (key_at xs (base + size / 2)) then base else base + size / 2)
            (size - size / 2) (smaller (size - size / 2) (half_smaller size h)))
        (λ _. base)

  -- `binary_search_by(|it| it.cmp(&item)).unwrap_or_else(|i| i)`: found or not, an index.
  unfoldable pub binary_search : List A → ℕ → ℕ
  binary_search [] k = 0
  binary_search (x ∷ xs) k =
      let base = search_loop (x ∷ xs) k 0 (length (x ∷ xs)) (lt_wf.apply (length (x ∷ xs))) in
      if ltb (key_at (x ∷ xs) base) k then base + 1 else base

  -- `push`, with the evicted item, if any.
  unfoldable pub push : ℕ → List A → A → Option A × List A
  push max_length items item =
      let items' = insert_at (binary_search items (key item)) item items in
      if ltb max_length (length items') then remove_first items' else (none, items')

-- `pop` takes from the end of the `Vec`.
unfoldable pub pop {ℓ} : {A : Type ℓ} → List A → Option A × List A
pop items = (last? items, drop_last items)

unfoldable pub is_empty {ℓ} : {A : Type ℓ} → List A → Bool
is_empty [] = true
is_empty (x ∷ xs) = false
