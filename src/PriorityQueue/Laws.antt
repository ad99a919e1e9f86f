-- ===== src/PriorityQueue/Laws.antt =====
-- What `push` and `pop` promise: the queue stays sorted and bounded, no item is lost or made up,
-- the least item is the one that is evicted, and the greatest the one that is popped.
use mathlib.Core.Path.{subst}
use mathlib.Core.List.{Perm}
use mathlib.Core.List.Perm
use substrate_stablecoin.Prelude.{
  All-insert_at, Bool, true, false, sum_by, sum_by-insert_at, sym, ap, All-drop_last, All_and, ℕ,
  zero, suc, ◌+◌, ◌≤◌, ◌<◌, ◌≡◌, refl, Option, none, some, List, [], ◌∷◌, ◌++◌, All, length,
  length-insert_at, insert_at, last?, drop_last, arith, ltb, Bool-cases, inl, inr, if◌then◌else◌,
}
use substrate_stablecoin.PriorityQueue.Defs.{remove_first, binary_search, push, pop, is_empty}
use substrate_stablecoin.PriorityQueue.Sorted.{IsSorted, insert_at-IsSorted}
use substrate_stablecoin.PriorityQueue.Search.{binary_search-Splits}

-- What came out, as a list.
abbrev pub to_list {ℓ} : {A : Type ℓ} → Option A → List A
to_list none = []
to_list (some a) = a ∷ []

insert_at-perm {ℓ} : {A : Type ℓ} (p : ℕ) (a : A) (xs : List A) → Perm (insert_at p a xs) (a ∷ xs)
insert_at-perm zero a xs = Perm.refl (a ∷ xs)
insert_at-perm (suc p) a [] = Perm.refl (a ∷ [])
insert_at-perm (suc p) a (x ∷ xs) =
    Perm.trans (Perm.cons x (insert_at-perm p a xs)) (Perm.swap a x xs)

All-last? {ℓ κ} :
    {A : Type ℓ} (P : A → Type κ) (xs : List A) → All P xs → All P (to_list (last? xs))
All-last? P [] h = tt
All-last? P (x ∷ []) h = (h.0, tt)
All-last? P (x ∷ y ∷ xs) h = All-last? P (y ∷ xs) h.1

module _ {ℓ} {A : Type ℓ} (key : A → ℕ) where
  -- The eviction: the least item comes first, so the one removed is at most every other.
  evict_keeps_all :
      (full : Bool) (xs : List A)
      → IsSorted key xs
      → let (out, rest) = if full then remove_first xs else (none, xs) in
        IsSorted key rest
        × All (λ e. All (λ y. key e ≤ key y) rest) (to_list out)
        × (to_list out ++ rest ≡ xs)
  evict_keeps_all false xs s = (s, tt, refl)
  evict_keeps_all true [] s = (tt, tt, refl)
  evict_keeps_all true (x ∷ xs) s = (s.1, (s.0, tt), refl)

  -- On a sorted queue `push` keeps the order, evicts only an item that is at most every item that
  -- stays, and what stays and what is evicted are together the old items and the new one.
  pub push_keeps_all :
      (max_length : ℕ) (items : List A) (item : A)
      → IsSorted key items
      → let (evicted, items') = push key max_length items item in
        IsSorted key items'
        × All (λ e. All (λ y. key e ≤ key y) items') (to_list evicted)
        × Perm (to_list evicted ++ items') (item ∷ items)
  unfolding push
  push_keeps_all max_length items item s =
      let p = binary_search key items (key item) in
      let xs = insert_at p item items in
      let (inside, before, from) = binary_search-Splits key items (key item) s in
      let (sorted, least, same) =
        evict_keeps_all (ltb max_length (length xs)) xs
          (insert_at-IsSorted key p item items inside before from s) in
      (sorted, least, subst (λ l. Perm l (item ∷ items)) (sym same) (insert_at-perm p item items))

  evict-length :
      (full : Bool) (xs : List A)
      → 0 < length xs
      → let (out, rest) = if full then remove_first xs else (none, xs) in
        (length (to_list out) + length rest ≡ length xs)
        × (full ≡ true → suc (length rest) ≡ length xs)
        × (full ≡ false → length rest ≡ length xs)
  evict-length false xs h = (omega arith, (λ e. cc), (λ e. refl))
  evict-length true [] h = absurd (omega arith)
  evict-length true (x ∷ xs) h = (omega arith, (λ e. refl), (λ e. cc))

  -- A queue within its bound stays within it, no item is lost but the one evicted, and none is
  -- evicted while there is room.
  pub push-length :
      (max_length : ℕ) (items : List A) (item : A)
      → length items ≤ max_length
      → let (evicted, items') = push key max_length items item in
        (length items' ≤ max_length)
        × (length (to_list evicted) + length items' ≡ suc (length items))
        × (length items < max_length → length items' ≡ suc (length items))
  unfolding push
  push-length max_length items item h =
      let p = binary_search key items (key item) in
      let xs = insert_at p item items in
      let grown : length xs ≡ suc (length items) = length-insert_at p item items in
      let (all, was_full, had_room) = evict-length (ltb max_length (length xs)) xs (omega arith) in
      elim (Bool-cases (ltb max_length (length xs))) [
        | inl e ↦ (omega (arith, was_full e), omega arith, λ l. absurd (ground arith))
        | inr e ↦ (ground (arith, had_room e), omega arith, λ l. omega (arith, had_room e))
      ]

  -- On a sorted queue `pop` takes an item that is at least every other, or nothing if there is
  -- none; the rest stays sorted, and the item was at its end.
  pub pop_takes_greatest :
      (items : List A)
      → IsSorted key items
      → let (out, items') = pop items in
        IsSorted key items'
        × All (λ e. All (λ y. key y ≤ key e) items') (to_list out)
        × (items' ++ to_list out ≡ items)
  unfolding pop
  pop_takes_greatest [] s = (tt, tt, refl)
  pop_takes_greatest (x ∷ []) s = (tt, (tt, tt), refl)
  pop_takes_greatest (x ∷ y ∷ xs) s =
      let (sorted, greatest, same) = pop_takes_greatest (y ∷ xs) s.1 in
      (
        (All-drop_last (λ z. key x ≤ key z) (y ∷ xs) s.0, sorted),
        All_and (λ e. key x ≤ key e) (λ e. All (λ z. key z ≤ key e) (drop_last (y ∷ xs)))
            (to_list (last? (y ∷ xs))) (All-last? (λ z. key x ≤ key z) (y ∷ xs) s.0) greatest,
        ap (λ l. x ∷ l) same,
      )

  evict-sum_by :
      (w : A → ℕ) (full : Bool) (xs : List A)
      → let (out, rest) = if full then remove_first xs else (none, xs) in
        sum_by w (to_list out) + sum_by w rest ≡ sum_by w xs
  evict-sum_by w false xs = omega arith
  evict-sum_by w true [] = refl
  evict-sum_by w true (x ∷ xs) = omega arith

  -- Whatever is counted of each item, a push adds the new item's share and no more.
  pub push-sum_by :
      (w : A → ℕ) (max_length : ℕ) (items : List A) (item : A)
      → let (evicted, items') = push key max_length items item in
        sum_by w (to_list evicted) + sum_by w items' ≡ w item + sum_by w items
  unfolding push
  push-sum_by w max_length items item =
      let p = binary_search key items (key item) in
      let xs = insert_at p item items in
      omega (arith, evict-sum_by w (ltb max_length (length xs)) xs, sum_by-insert_at w p item items)

-- An item's share leaves with it.
pub pop-sum_by {ℓ} :
    {A : Type ℓ} (w : A → ℕ) (items : List A)
    → let (out, items') = pop items in sum_by w items' + sum_by w (to_list out) ≡ sum_by w items
unfolding pop
pop-sum_by w [] = refl
pop-sum_by w (x ∷ []) = omega arith
pop-sum_by w (x ∷ y ∷ xs) = omega (arith, pop-sum_by w (y ∷ xs))

module _ {ℓ κ} {A : Type ℓ} (P : A → Type κ) where
  evict-All :
      (full : Bool) (xs : List A)
      → All P xs
      → All P (if full then remove_first xs else (none, xs)).1
  evict-All false xs h = h
  evict-All true [] h = tt
  evict-All true (x ∷ xs) h = h.1

  -- What holds of the items and of the new one holds of those that stay.
  pub push-All :
      (key : A → ℕ) (max_length : ℕ) (items : List A) (item : A)
      → P item
      → All P items
      → All P (push key max_length items item).1
  unfolding push
  push-All key max_length items item p h =
      let i = binary_search key items (key item) in
      evict-All (ltb max_length (length (insert_at i item items))) (insert_at i item items)
        (All-insert_at P i item items p h)

  pub pop-All : (items : List A) → All P items → All P (pop items).1
  unfolding pop
  pop-All items h = All-drop_last P items h

  pub popped-All : (items : List A) → All P items → All P (to_list (pop items).0)
  unfolding pop
  popped-All items h = All-last? P items h

pub pop-length {ℓ} :
    {A : Type ℓ} (items : List A)
    → length (to_list (pop items).0) + length (pop items).1 ≡ length items
unfolding pop
pop-length [] = refl
pop-length (x ∷ []) = omega arith
pop-length (x ∷ y ∷ items) = omega (arith, pop-length (y ∷ items))

-- Only an empty queue has nothing to pop.
pub pop-none {ℓ} : {A : Type ℓ} (items : List A) → (pop items).0 ≡ none → is_empty items ≡ true
unfolding pop is_empty
pop-none [] e = refl
pop-none (x ∷ []) e = cc
pop-none (x ∷ y ∷ items) e = cc (pop-none (y ∷ items) e)
