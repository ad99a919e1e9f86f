-- ===== src/PriorityQueue/Uses.antt =====
-- The adapter over storage (storage-adapters/src/priority_queue.rs): `new` reads the stored `Vec`, the calls
-- change the queue's own, and `commit`, or `drop` which calls it, writes that back.
use mathlib.Core.List.{Perm, perm_append_singleton, perm_middle, append_assoc}
use mathlib.Core.List.Perm
use mathlib.Core.Path.{subst}
use substrate_stablecoin.Prelude.{
  ℕ, ◌≤◌, ◌≡◌, Bool, Option, none, some, List, [], ◌∷◌, ◌++◌, append-nil, length, arith,
}
use substrate_stablecoin.PriorityQueue.Defs
use substrate_stablecoin.PriorityQueue.Sorted.{IsSorted}
use substrate_stablecoin.PriorityQueue.Laws.{
  to_list, push_keeps_all, push-length, pop_takes_greatest, pop-length,
}

-- `BoundedPriorityQueue`, and the `Vec` in storage.
pub record Queue {ℓ} (A : Type ℓ) : Type ℓ where
  pub items : List A
  pub stored : List A

-- A client's calls.
pub data Op {ℓ} (A : Type ℓ) : Type ℓ where
  pushes : A → Op A
  pops asks_is_empty commits : Op A

-- What they answer.
pub data Answer {ℓ} (A : Type ℓ) : Type ℓ where
  gives : Option A → Answer A
  tells : Bool → Answer A
  nothing : Answer A

module _ {ℓ} {A : Type ℓ} where
  unfoldable pub new : List A → Queue A
  new stored = record { items = stored; stored = stored }

  unfoldable pub commit : Queue A → Queue A
  commit q = record q { stored = q.items }

  unfoldable pub drop : Queue A → List A
  unfolding commit
  drop q = (commit q).stored

  -- What a call brings in, and what an answer takes out.
  abbrev pub pushed_by : Op A → List A
  pushed_by (pushes item) = item ∷ []
  pushed_by pops = []
  pushed_by asks_is_empty = []
  pushed_by commits = []

  abbrev pub given_by : Answer A → List A
  given_by (gives out) = to_list out
  given_by (tells b) = []
  given_by nothing = []

  abbrev pub pushed : List (Op A) → List A
  pushed [] = []
  pushed (op ∷ ops) = pushed_by op ++ pushed ops

  abbrev pub given : List (Answer A) → List A
  given [] = []
  given (answer ∷ answers) = given_by answer ++ given answers

module _ {ℓ} {A : Type ℓ} (key : A → ℕ) (max_length : ℕ) where
  unfoldable pub step : Op A → Queue A → Answer A × Queue A
  unfolding commit
  step (pushes item) q =
      let (evicted, items) = Defs.push key max_length q.items item in
      (gives evicted, record q { items = items })
  step pops q = let (out, items) = Defs.pop q.items in (gives out, record q { items = items })
  step asks_is_empty q = (tells (Defs.is_empty q.items), q)
  step commits q = (nothing, commit q)

  unfoldable pub run : List (Op A) → Queue A → List (Answer A) × Queue A
  unfolding step
  run [] q = ([], q)
  run (op ∷ ops) q =
      let (answer, q') = step op q in let (answers, last) = run ops q' in (answer ∷ answers, last)

  -- From `new` to `drop`: the answers, and what is then stored.
  unfoldable pub use_queue : List (Op A) → List A → List (Answer A) × List A
  unfolding new drop run
  use_queue ops stored = let (answers, last) = run ops (new stored) in (answers, drop last)

  -- A call keeps the order and the bound, and no item is lost or made up.
  step-Keeps :
      (op : Op A) (q : Queue A)
      → IsSorted key q.items
      → length q.items ≤ max_length
      → let (answer, q') = step op q in
        IsSorted key q'.items
        × length q'.items ≤ max_length
        × Perm (given_by answer ++ q'.items) (pushed_by op ++ q.items)
  unfolding step
  step-Keeps (pushes item) q s l =
      let (sorted, _, perm) = push_keeps_all key max_length q.items item s in
      (sorted, (push-length key max_length q.items item l).0, perm)
  step-Keeps pops q s l =
      let (sorted, _, same) = pop_takes_greatest key q.items s in
      (sorted, omega (arith, pop-length q.items, l), popped (Defs.pop q.items).0 same)
    where
      popped :
          (out : Option A)
          → (Defs.pop q.items).1 ++ to_list out ≡ q.items
          → Perm (to_list out ++ (Defs.pop q.items).1) q.items
      popped none same =
          subst (Perm (Defs.pop q.items).1) same (rw append-nil (Perm.refl (Defs.pop q.items).1))
      popped (some x) same =
          subst (Perm (x ∷ (Defs.pop q.items).1)) same
            (Perm.symm (perm_append_singleton x (Defs.pop q.items).1))
  step-Keeps asks_is_empty q s l = (s, l, Perm.refl q.items)
  step-Keeps commits q s l = (s, l, Perm.refl q.items)

  -- Past each other at the front of a list.
  fronts-perm : (xs ys zs : List A) → Perm (xs ++ (ys ++ zs)) (ys ++ (xs ++ zs))
  fronts-perm [] ys zs = Perm.refl (ys ++ zs)
  fronts-perm (x ∷ xs) ys zs =
      Perm.trans (Perm.cons x (fronts-perm xs ys zs)) (Perm.symm (perm_middle ys (xs ++ zs)))

  run-Keeps :
      (ops : List (Op A)) (q : Queue A)
      → IsSorted key q.items
      → length q.items ≤ max_length
      → let (answers, last) = run ops q in
        IsSorted key last.items
        × length last.items ≤ max_length
        × Perm (given answers ++ last.items) (pushed ops ++ q.items)
  unfolding run
  run-Keeps [] q s l = (s, l, Perm.refl q.items)
  run-Keeps (op ∷ ops) q s l =
      let (answer, q') = step op q in
      let (answers, last) = run ops q' in
      let (sorted, bounded, perm) = step-Keeps op q s l in
      let (sorted', bounded', perm') = run-Keeps ops q' sorted bounded in
      let moved = Perm.append_left (given_by answer) perm' in
      let past = fronts-perm (given_by answer) (pushed ops) q'.items in
      let back = fronts-perm (pushed ops) (pushed_by op) q.items in
      let all =
        Perm.trans moved (Perm.trans past (Perm.trans (Perm.append_left (pushed ops) perm) back)) in
      (
        sorted',
        bounded',
        rw
            (
              append_assoc (given_by answer) (given answers) last.items,
              append_assoc (pushed_by op) (pushed ops) q.items,
            )
            all,
      )

  -- Let the stored items be sorted by their keys and at most as many as the bound. Then, whatever is
  -- pushed, popped and committed in a use of the queue, what it leaves in storage is sorted and within
  -- the bound, and with the items that the pushes evicted and the pops took, it is just what was stored
  -- and what was pushed.
  pub use_queue-Keeps :
      (ops : List (Op A)) (stored : List A)
      → IsSorted key stored
      → length stored ≤ max_length
      → let (answers, stored') = use_queue ops stored in
        IsSorted key stored'
        × length stored' ≤ max_length
        × Perm (given answers ++ stored') (pushed ops ++ stored)
  unfolding use_queue new drop
  use_queue-Keeps ops stored s l = run-Keeps ops (new stored) s l
