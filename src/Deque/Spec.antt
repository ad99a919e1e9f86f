-- ===== src/Deque/Spec.antt =====
-- What a bounded double-ended queue promises: a list of at most `capacity` items, where a push at
-- one end of a full list drops the item at the other end.
use substrate_stablecoin.Prelude.{
  ℕ, Option, none, some, List, [], ◌∷◌, ◌++◌, length, tail, drop_last, last?, ltb, if◌then◌else◌,
}

-- A client's calls.
pub data Op {ℓ} (A : Type ℓ) : Type ℓ where
  pushes_back pushes_front : A → Op A
  pops_back pops_front : Op A

module _ {ℓ} {A : Type ℓ} where
  unfoldable pub pop_front : List A → Option A × List A
  pop_front [] = (none, [])
  pop_front (x ∷ xs) = (some x, xs)

  unfoldable pub pop_back : List A → Option A × List A
  pop_back xs = (last? xs, drop_last xs)

module _ (capacity : ℕ) where
  unfoldable pub push_back {ℓ} : {A : Type ℓ} → List A → A → List A
  push_back xs x = if ltb (length xs) capacity then xs ++ (x ∷ []) else tail xs ++ (x ∷ [])

  unfoldable pub push_front {ℓ} : {A : Type ℓ} → List A → A → List A
  push_front xs x = if ltb (length xs) capacity then x ∷ xs else x ∷ drop_last xs

  -- One call: what it returns, and the list after it.
  unfoldable pub step {ℓ} : {A : Type ℓ} → List A → Op A → Option A × List A
  unfolding pop_front pop_back
  step xs (Op.pushes_back x) = (none, push_back xs x)
  step xs (Op.pushes_front x) = (none, push_front xs x)
  step xs Op.pops_back = pop_back xs
  step xs Op.pops_front = pop_front xs

  -- What each of a sequence of calls returns.
  unfoldable pub run {ℓ} : {A : Type ℓ} → List A → List (Op A) → List (Option A)
  run xs [] = []
  run xs (op ∷ ops) = let (out, xs') = step xs op in out ∷ run xs' ops
