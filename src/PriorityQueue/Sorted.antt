-- ===== src/PriorityQueue/Sorted.antt =====
-- The order of the queue's items: keys never fall from front to back.
use substrate_stablecoin.Prelude.{
  ℕ, zero, suc, ◌≤◌, ◌<◌, List, [], ◌∷◌, All, length, insert_at, All-insert_at, arith,
}
use substrate_stablecoin.PriorityQueue.Defs.{key_at}

module _ {ℓ} {A : Type ℓ} (key : A → ℕ) where
  abbrev pub IsSorted : List A → Type 0
  IsSorted [] = Unit
  IsSorted (x ∷ xs) = All (λ y. key x ≤ key y) xs × IsSorted xs

  All-key_at :
      (k : ℕ) (xs : List A) (i : ℕ) → All (λ y. k ≤ key y) xs → i < length xs → k ≤ key_at key xs i
  All-key_at k [] i h l = absurd (omega arith)
  All-key_at k (x ∷ xs) zero h l = h.0
  All-key_at k (x ∷ xs) (suc i) h l = All-key_at k xs i h.1 (omega arith)

  pub key_at_mono :
      (xs : List A) (i j : ℕ)
      → IsSorted xs
      → i ≤ j
      → j < length xs
      → key_at key xs i ≤ key_at key xs j
  key_at_mono [] i j s h l = absurd (omega arith)
  key_at_mono (x ∷ xs) zero zero s h l = omega arith
  key_at_mono (x ∷ xs) zero (suc j) s h l = All-key_at (key x) xs j s.0 (omega arith)
  key_at_mono (x ∷ xs) (suc i) zero s h l = absurd (omega arith)
  key_at_mono (x ∷ xs) (suc i) (suc j) s h l = key_at_mono xs i j s.1 (omega arith) (omega arith)

  -- Every item from index `p` on is at least `k`; every item before it at most `k`.
  abbrev pub AtLeastFrom : ℕ → List A → ℕ → Type 0
  AtLeastFrom k xs p = (i : ℕ) → p ≤ i → i < length xs → k ≤ key_at key xs i

  abbrev pub AtMostBefore : ℕ → List A → ℕ → Type 0
  AtMostBefore k xs p = (i : ℕ) → i < p → key_at key xs i ≤ k

  All_of_AtLeastFrom : (k : ℕ) (xs : List A) → AtLeastFrom k xs 0 → All (λ y. k ≤ key y) xs
  All_of_AtLeastFrom k [] h = tt
  All_of_AtLeastFrom k (x ∷ xs) h = (
    h 0 (omega arith) (omega arith),
    All_of_AtLeastFrom k xs (λ i p l. h (suc i) (omega arith) (omega arith)),
  )

  -- An insertion at a place that splits the items by the new key keeps them sorted.
  pub insert_at-IsSorted :
      (p : ℕ) (a : A) (xs : List A)
      → p ≤ length xs
      → AtMostBefore (key a) xs p
      → AtLeastFrom (key a) xs p
      → IsSorted xs
      → IsSorted (insert_at p a xs)
  insert_at-IsSorted zero a xs l before from s = (All_of_AtLeastFrom (key a) xs from, s)
  insert_at-IsSorted (suc p) a [] l before from s = (tt, tt)
  insert_at-IsSorted (suc p) a (x ∷ xs) l before from s = (
    All-insert_at (λ y. key x ≤ key y) p a xs (before 0 (omega arith)) s.0,
    insert_at-IsSorted p a xs (omega arith) (λ i h. before (suc i) (omega arith))
        (λ i h k. from (suc i) (omega arith) (omega arith)) s.1,
  )
