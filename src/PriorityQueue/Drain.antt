-- ===== src/PriorityQueue/Drain.antt =====
-- The queue from its first push to its last pop.
use mathlib.Core.List.{Perm, perm_append_singleton, perm_middle}
use mathlib.Core.List.Perm
use substrate_stablecoin.Prelude.{
  ℕ, zero, suc, ◌+◌, ◌≤◌, ◌<◌, ◌≡◌, refl, Option, none, some, List, [], ◌∷◌, ◌++◌, append-nil, All,
  length, arith,
}
use substrate_stablecoin.PriorityQueue.Defs.{push, pop, is_empty}
use substrate_stablecoin.PriorityQueue.Sorted.{IsSorted}
use substrate_stablecoin.PriorityQueue.Laws.{
  to_list, push_keeps_all, push-length, pop_takes_greatest, pop-All, popped-All, pop-length,
  pop-none,
}

abbrev pub take_all {ℓ} : {A : Type ℓ} → ℕ → List A → List A
take_all zero items = []
take_all (suc n) items = let (out, rest) = pop items in to_list out ++ take_all n rest

take_all-All {ℓ κ} :
    {A : Type ℓ} (P : A → Type κ) (n : ℕ) (items : List A) → All P items → All P (take_all n items)
take_all-All P zero items h = tt
take_all-All P (suc n) items h =
    let rest = take_all-All P n (pop items).1 (pop-All P items h) in
    with_popped (pop items).0 (popped-All P items h) rest
  where
    with_popped :
        (out : Option _)
        → All P (to_list out)
        → All P (take_all n (pop items).1)
        → All P (to_list out ++ take_all n (pop items).1)
    with_popped none o r = r
    with_popped (some x) o r = (o.0, r)

module _ {ℓ} {A : Type ℓ} (key : A → ℕ) where
  abbrev pub IsFalling : List A → Type 0
  IsFalling [] = Unit
  IsFalling (x ∷ xs) = All (λ y. key y ≤ key x) xs × IsFalling xs

  abbrev pub put_all : (max_length : ℕ) → List A → List A → List A
  put_all max_length items [] = items
  put_all max_length items (x ∷ xs) = put_all max_length (push key max_length items x).1 xs

  -- A sorted queue gives up all its items, the greatest first.
  take_all-IsFalling :
      (n : ℕ) (items : List A)
      → length items ≡ n
      → IsSorted key items
      → IsFalling (take_all n items) × Perm (take_all n items) items
  unfolding is_empty
  take_all-IsFalling zero [] e s = (tt, Perm.refl [])
  take_all-IsFalling zero (x ∷ items) e s = absurd (omega (arith, e))
  take_all-IsFalling (suc n) items e s =
      let (sorted, greatest, same) = pop_takes_greatest key items s in
      popped (pop items).0 (pop items).1 refl greatest same
        (λ l. take_all-IsFalling n (pop items).1 l sorted) (pop-length items)
    where
      popped :
          (out : Option A) (rest : List A)
          → (pop items).0 ≡ out
          → All (λ g. All (λ y. key y ≤ key g) rest) (to_list out)
          → rest ++ to_list out ≡ items
          → (length rest ≡ n → IsFalling (take_all n rest) × Perm (take_all n rest) rest)
          → length (to_list out) + length rest ≡ length items
          → IsFalling (to_list out ++ take_all n rest) × Perm (to_list out ++ take_all n rest) items
      popped none rest o g same ih l = absurd (ground (arith, pop-none items o))
      popped (some x) rest o g same ih l =
          let (falling, perm) = ih (omega (arith, e, l)) in
          (
            (take_all-All (λ y. key y ≤ key x) n rest g.0, falling),
            rw (← same) (Perm.trans (Perm.cons x perm) (Perm.symm (perm_append_singleton x rest))),
          )

  -- A push into a queue with room evicts nothing.
  push_room :
      (max_length : ℕ) (items : List A) (item : A)
      → length items < max_length
      → IsSorted key items
      → let items' = (push key max_length items item).1 in
        IsSorted key items' × Perm items' (item ∷ items) × (length items' ≡ suc (length items))
  push_room max_length items item room s =
      let (sorted, _, perm) = push_keeps_all key max_length items item s in
      let (_, counted, grown) = push-length key max_length items item (omega arith) in
      (
        sorted,
        evicted (push key max_length items item).0 (omega (arith, counted, grown room)) perm,
        grown room,
      )
    where
      evicted :
          (out : Option A)
          → length (to_list out) ≡ 0
          → Perm (to_list out ++ (push key max_length items item).1) (item ∷ items)
          → Perm (push key max_length items item).1 (item ∷ items)
      evicted none e p = p
      evicted (some x) e p = absurd (omega (arith, e))

  put_all-IsSorted :
      (max_length : ℕ) (items xs : List A)
      → length items + length xs ≤ max_length
      → IsSorted key items
      → let items' = put_all max_length items xs in
        IsSorted key items' × Perm items' (items ++ xs) × (length items' ≡ length items + length xs)
  put_all-IsSorted max_length items [] room s =
      (s, rw (append-nil items) (Perm.refl items), omega arith)
  put_all-IsSorted max_length items (x ∷ xs) room s =
      let (sorted, perm, grown) = push_room max_length items x (omega arith) s in
      let (all, rest, total) =
        put_all-IsSorted max_length (push key max_length items x).1 xs (omega (arith, grown))
          sorted in
      let moved = Perm.trans rest (Perm.append_right xs perm) in
      (all, Perm.trans moved (Perm.symm (perm_middle items xs)), omega (arith, total, grown))

  -- Items that are pushed into a queue with room for them are popped again, none lost and none made up,
  -- together with the sorted items that were there, and in the order of their keys, the greatest first.
  pub put_all-IsFalling :
      (max_length : ℕ) (items xs : List A)
      → length items + length xs ≤ max_length
      → IsSorted key items
      → let out = take_all (length items + length xs) (put_all max_length items xs) in
        IsFalling out × Perm out (items ++ xs)
  put_all-IsFalling max_length items xs room s =
      let (sorted, perm, total) = put_all-IsSorted max_length items xs room s in
      let (falling, perm') =
        take_all-IsFalling (length items + length xs) (put_all max_length items xs) total sorted in
      (falling, Perm.trans perm' perm)
