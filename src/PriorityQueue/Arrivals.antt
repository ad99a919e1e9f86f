-- ===== src/PriorityQueue/Arrivals.antt =====
-- The bounded queue against the list of all that has arrived: it holds the greatest of them, in whatever
-- order they came.
use mathlib.Core.List.{Permᴰ}
use substrate_stablecoin.Prelude.{
  ℕ, zero, suc, ◌≤◌, ◌≡◌, ◌≢◌, ◌∙◌, ap, sym, refl, true, false, none, List, [], ◌∷◌, All, length,
  insert_at, arith, ltb, leb, Bool-cases, inl, inr, if◌then◌else◌,
}
use substrate_stablecoin.PriorityQueue.Defs.{push, binary_search, remove_first}
use substrate_stablecoin.PriorityQueue.Sorted.{IsSorted, AtMostBefore, AtLeastFrom}
use substrate_stablecoin.PriorityQueue.Search.{binary_search-Splits}
use substrate_stablecoin.PriorityQueue.Drain.{put_all}
use substrate_stablecoin.PriorityQueue.Insertion.{
  last_of, last_of-short, last_of-long, last_of-All, last_of-length, last_of-IsSorted, insert,
  insert_all, Fresh, length-insert, insert-IsSorted, insert_all-IsSorted, last_of-insert, Apart,
  Fresh-after, Apart-perm, insert_all-perm, insert_all-append,
}

module _ {ℓ} {A : Type ℓ} (key : A → ℕ) where
  -- The place that the binary search finds is the one by the key.
  insert_at-eq :
      (p : ℕ) (x : A) (ys : List A)
      → p ≤ length ys
      → AtMostBefore key (key x) ys p
      → AtLeastFrom key (key x) ys p
      → Fresh key x ys
      → insert_at p x ys ≡ insert key x ys
  insert_at-eq zero x [] l before from f = refl
  insert_at-eq zero x (y ∷ ys) l before from f =
      let first : leb (key x) (key y) ≡ true = ground (arith, from 0 (omega arith) (omega arith)) in
      rw first refl
  insert_at-eq (suc p) x [] l before from f = absurd (omega arith)
  insert_at-eq (suc p) x (y ∷ ys) l before from f =
      let le = before 0 (omega arith) in
      let later : leb (key x) (key y) ≡ false = ground (arith, le, f.0) in
      rw later (
        ap (λ zs. y ∷ zs)
          (insert_at-eq p x ys (omega arith) (λ i h. before (suc i) (omega arith))
            (λ i h k. from (suc i) (omega arith) (omega arith)) f.1))

  -- A push is an insertion that keeps the last ones.
  push-eq :
      (k : ℕ) (items : List A) (x : A)
      → IsSorted key items
      → length items ≤ k
      → Fresh key x items
      → (push key k items x).1 ≡ last_of k (insert key x items)
  unfolding push
  push-eq k items x s h f =
      let p = binary_search key items (key x) in
      let (inside, before, from) = binary_search-Splits key items (key x) s in
      let same : insert_at p x items ≡ insert key x items =
        insert_at-eq p x items inside before from f in
      let longer : length (insert key x items) ≤ suc k = omega (arith, length-insert key x items) in
      rw same (evicted (insert key x items) longer)
    where
      evicted :
          (xs : List A)
          → length xs ≤ suc k
          → (if ltb k (length xs) then remove_first xs else (none, xs)).1 ≡ last_of k xs
      evicted [] l = ground arith
      evicted (y ∷ ys) l = elim (Bool-cases (ltb k (suc (length ys)))) [
        | inl full ↦
            let short = last_of-short k ys (omega arith) in
            let long = last_of-long k y ys (ground arith) in rw full (sym (long ∙ short))
        | inr room ↦ rw room (sym (last_of-short k (y ∷ ys) (ground arith)))
      ]

  put_all-last_of :
      (k : ℕ) (s xs : List A)
      → IsSorted key s
      → All (λ x. Fresh key x s) xs
      → Apart key xs
      → put_all key k (last_of k s) xs ≡ last_of k (insert_all key s xs)
  put_all-last_of k s [] sorted fresh apart = refl
  put_all-last_of k s (x ∷ xs) sorted fresh apart =
      let pushed =
        push-eq k (last_of k s) x (last_of-IsSorted key k s sorted) (last_of-length k s)
          (last_of-All (λ y. key x ≢ key y) k s fresh.0) in
      ap (λ items. put_all key k items xs) (pushed ∙ last_of-insert key k x s sorted)
      ∙ put_all-last_of k (insert key x s) xs (insert-IsSorted key x s sorted)
          (Fresh-after key x s xs fresh.1 apart.0) apart.1

  -- If no two of the arrived items have the same key, then after all of them have been pushed, each in a
  -- use of the queue of its own, an empty queue of k places holds the last k, with the greatest keys, of the
  -- list that has all of them in the order of their keys; and so it does whatever the order they come in.
  pub put_all-HoldsGreatest :
      (k : ℕ) {xs ys : List A}
      → Apart key xs
      → Permᴰ xs ys
      → IsSorted key (insert_all key [] xs)
        × Permᴰ (insert_all key [] xs) xs
        × put_all key k [] xs ≡ last_of k (insert_all key [] xs)
        × put_all key k [] ys ≡ put_all key k [] xs
  put_all-HoldsGreatest k {xs} {ys} apart p =
      let held = put_all-last_of k [] xs tt (none_there xs) apart in
      (
        insert_all-IsSorted key [] xs tt,
        insert_all-append key [] xs,
        held,
        put_all-last_of k [] ys tt (none_there ys) (Apart-perm key p apart)
            ∙ ap (last_of k) (sym (insert_all-perm key [] p apart))
            ∙ sym held,
      )
    where
      none_there : (zs : List A) → All (λ x. Fresh key x []) zs
      none_there [] = tt
      none_there (z ∷ zs) = (tt, none_there zs)
