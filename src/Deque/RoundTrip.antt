-- ===== src/Deque/RoundTrip.antt =====
-- The adapter across its uses: each reads the bounds from storage and writes them back when it is dropped.
use substrate_stablecoin.Prelude.{
  ℕ, zero, suc, ◌+◌, ◌-◌, ◌<◌, ◌≡◌, ◌∙◌, refl, ap, true, Option, some, List, [], ◌∷◌, ◌++◌, map,
  append_assoc, append-nil, sym, length, length-append, ltb, arith,
}
use substrate_stablecoin.Deque.Defs.{Storage, Deque, new, commit, push_back, pop_front}
use substrate_stablecoin.Deque.Refine.{
  IsValid, contents, push_back-IsValid, push_back_refines, pop_front-IsValid, pop_front_refines,
}
use substrate_stablecoin.Deque.Spec

module _ {ℓ} {A : Type ℓ} (m : ℕ) (default : A) where
  -- A ring with room takes an item at its back.
  pub push_back-append :
      (q : Deque A) (x : A)
      → IsValid m default q
      → suc (length (contents m default q)) < m
      → contents m default (push_back m q x) ≡ contents m default q ++ (x ∷ [])
  unfolding Spec.push_back
  push_back-append q x v room =
      let has_room : ltb (length (contents m default q)) (m - 1) ≡ true = ground arith in
      push_back_refines m default q x v ∙ rw has_room refl

  -- One use that pushes an item, and one that pops one.
  abbrev pub put_back : Storage A → A → Storage A
  put_back store x = commit (push_back m (new store) x)

  abbrev pub take_front : Storage A → Option A × Storage A
  take_front store = let (out, q) = pop_front m default (new store) in (out, commit q)

  abbrev pub put_all : Storage A → List A → Storage A
  put_all store [] = store
  put_all store (x ∷ xs) = put_all (put_back store x) xs

  abbrev pub take_all : ℕ → Storage A → List (Option A)
  take_all zero store = []
  take_all (suc n) store = let (out, store') = take_front store in out ∷ take_all n store'

  abbrev pub stored : Storage A → List A
  stored store = contents m default (new store)

  put_all-stored :
      (store : Storage A) (xs : List A)
      → IsValid m default (new store)
      → length (stored store) + length xs < m
      → (stored (put_all store xs) ≡ stored store ++ xs)
        × IsValid m default (new (put_all store xs))
  unfolding new commit
  put_all-stored store [] v room = (sym (append-nil (stored store)), v)
  put_all-stored store (x ∷ xs) v room =
      let one = push_back-append (new store) x v (omega arith) in
      let longer = ap length one ∙ length-append (stored store) (x ∷ []) in
      let valid = push_back-IsValid m default (new store) x v in
      let (all, valid') = put_all-stored (put_back store x) xs valid (omega (arith, longer)) in
      (all ∙ ap (λ ys. ys ++ xs) one ∙ append_assoc (stored store) (x ∷ []) xs, valid')

  take_all-stored :
      (store : Storage A) (xs : List A)
      → IsValid m default (new store)
      → stored store ≡ xs
      → take_all (length xs) store ≡ map some xs
  unfolding new commit Spec.pop_front
  take_all-stored store [] v e = refl
  take_all-stored store (x ∷ xs) v e =
      let q = (pop_front m default (new store)).1 in
      let popped = pop_front_refines m default (new store) v ∙ ap Spec.pop_front e in
      let out : (pop_front m default (new store)).0 ≡ some x = ap (λ p. p.0) popped in
      let left : contents m default q ≡ xs = ap (λ p. p.1) popped in
      let rest = take_all-stored (commit q) xs (pop_front-IsValid m default (new store) v) left in
      rw (out, rest) refl

  -- If the stored bounds are a ring's and it has room, items that are pushed at the back, each in a use of
  -- its own, are popped at the front, each in a use of its own, after those that were there, in the
  -- order in which they were pushed.
  pub put_all-take_all :
      (store : Storage A) (xs : List A)
      → IsValid m default (new store)
      → length (stored store) + length xs < m
      → take_all (length (stored store ++ xs)) (put_all store xs) ≡ map some (stored store ++ xs)
  put_all-take_all store xs v room =
      let (all, valid) = put_all-stored store xs v room in
      take_all-stored (put_all store xs) (stored store ++ xs) valid all
