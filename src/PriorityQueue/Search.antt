-- ===== src/PriorityQueue/Search.antt =====
-- The binary search: whatever equal item it meets, the index that it returns splits the items.
use mathlib.Core.Logic.{dif_pos, dif_neg}
use mathlib.Core.WellFounded.{Acc}
use native.Mathlib.Decide.{dec_lt}
use native.Mathlib.Bridge.{le_prop}
use mathlib.Core.Path.{subst}
use substrate_stablecoin.Prelude.{
  ℕ, ◌+◌, ◌-◌, ◌/◌, ◌≤◌, ◌<◌, ◌≡◌, List, [], ◌∷◌, length, arith, ltb, Bool-cases, inl, inr, ◌≡◌,
  if◌then◌else◌,
}
use substrate_stablecoin.Prelude.Order.{lt_wf}
use substrate_stablecoin.PriorityQueue.Defs.{key_at, half_smaller, search_loop, binary_search}
use substrate_stablecoin.PriorityQueue.Sorted.{IsSorted, key_at_mono, AtLeastFrom, AtMostBefore}

module _ {ℓ} {A : Type ℓ} (key : A → ℕ) where
  -- The loop's invariant: the place lies between `base` and `base + size`.
  record Between (xs : List A) (k base size : ℕ) : Type 0 where
    some_left : 0 < size
    inside : base + size ≤ length xs
    before : AtMostBefore key k xs base
    after : AtLeastFrom key k xs (base + size)

  -- One round: look at the middle, and keep the half that holds the place.
  halve-Between :
      (xs : List A) (k base size : ℕ)
      → IsSorted key xs
      → 1 < size
      → Between xs k base size
      → Between xs k
          (if ltb k (key_at key xs (base + size / 2)) then base else base + size / 2)
          (size - size / 2)
  halve-Between xs k base size s h b = elim (Bool-cases (ltb k (key_at key xs (base + size / 2)))) [
    | inl e ↦ rw e (record {
      some_left = omega arith;
      inside = omega (arith, b.inside);
      before = b.before;
      after = λ i p l. ground (arith, key_at_mono key xs (base + size / 2) i s);
    })
    | inr e ↦ rw e (record {
      some_left = omega arith;
      inside = omega (arith, b.inside);
      before = λ i p. ground (arith, key_at_mono key xs i (base + size / 2) s, b.inside);
      after = λ i p l. b.after i (omega arith) l;
    })
  ]

  search_loop-Between :
      (xs : List A) (k base size : ℕ) (w : Acc ◌<◌ size)
      → IsSorted key xs
      → Between xs k base size
      → Between xs k (search_loop key xs k base size w) 1
  unfolding search_loop
  search_loop-Between xs k base size (Acc.intro _ smaller) s b = elim (dec_lt 1 size) [
    | yes h ↦ rw (dif_pos (dec_lt 1 size) le_prop h) (
        search_loop-Between xs k
          (if ltb k (key_at key xs (base + size / 2)) then base else base + size / 2)
          (size - size / 2) (smaller (size - size / 2) (half_smaller size h)) s
          (halve-Between xs k base size s h b))
    | no h ↦
        let one : size ≡ 1 = omega (arith, b.some_left) in
        rw (dif_neg (dec_lt 1 size) h) (subst (λ n. Between xs k base n) one b)
  ]

  -- The last comparison, with the one item that is left.
  abbrev pub Splits : List A → ℕ → ℕ → Type 0
  Splits xs k p = (p ≤ length xs) × AtMostBefore key k xs p × AtLeastFrom key k xs p

  place :
      (xs : List A) (k base : ℕ)
      → IsSorted key xs
      → Between xs k base 1
      → Splits xs k (if ltb (key_at key xs base) k then base + 1 else base)
  place xs k base s b = elim (Bool-cases (ltb (key_at key xs base) k)) [
    | inl e ↦
        rw e (b.inside, (λ i h. ground (arith, key_at_mono key xs i base s, b.inside)), b.after)
    | inr e ↦ rw e (
      omega (arith, b.inside),
      b.before,
      (λ i h l. ground (arith, key_at_mono key xs base i s h l)),
    )
  ]

  -- The index at which `push` inserts splits sorted items by the key: it is inside, no item
  -- before it has a greater key and none from it on a smaller one.
  pub binary_search-Splits :
      (xs : List A) (k : ℕ) → IsSorted key xs → Splits xs k (binary_search key xs k)
  unfolding binary_search
  binary_search-Splits [] k s =
      (omega arith, λ i h. absurd (omega arith), λ i h l. absurd (omega arith))
  binary_search-Splits (x ∷ xs) k s =
      let w = lt_wf.apply (length (x ∷ xs)) in
      let base = search_loop key (x ∷ xs) k 0 (length (x ∷ xs)) w in
      place (x ∷ xs) k base s (
        search_loop-Between (x ∷ xs) k 0 (length (x ∷ xs)) w s (record {
          some_left = omega arith;
          inside = omega arith;
          before = λ i h. absurd (omega arith);
          after = λ i h l. absurd (omega arith);
        }))
