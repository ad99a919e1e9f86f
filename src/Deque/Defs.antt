-- ===== src/Deque/Defs.antt =====
-- The adapter and its operations (storage-adapters/src/bounded_deque.rs). `index_mod` is
-- `Index::max_value() + 1`, at which the index type wraps, and `default` is what the storage map
-- answers for a key that it does not hold (`Query = Item`).
use substrate_stablecoin.Prelude.{
  ℕ, ◌+◌, ◌-◌, ◌%◌, max, Bool, Option, none, some, List, [], ◌∷◌, ◌==◌, if◌then◌else◌,
}
use substrate_stablecoin.Deque.Spec.{Op}

-- The two storage items that the adapter stands on: `M`, the map, and `B`, the bounds.
pub record Storage {ℓ} (A : Type ℓ) : Type ℓ where
  pub items : ℕ → Option A
  pub bounds : ℕ × ℕ

-- `BoundedDeque`. The map is written eagerly, so the adapter carries it as it stands; the bounds
-- are its own until `commit`.
pub record Deque {ℓ} (A : Type ℓ) : Type ℓ where
  pub start : ℕ
  pub length : ℕ
  pub items : ℕ → Option A

module _ {ℓ} {A : Type ℓ} where
  -- `M::insert` and the removal in `M::take`.
  abbrev pub update : (ℕ → Option A) → ℕ → Option A → ℕ → Option A
  update f i v j = if j == i then v else f j

  -- `M::get`: the default for a key that is not there.
  abbrev pub get_or : Option A → A → A
  get_or none d = d
  get_or (some a) d = a

  -- `new` reads the bounds from storage.
  unfoldable pub new : Storage A → Deque A
  new s = record { start = s.bounds.0; length = s.bounds.1; items = s.items }

  unfoldable pub from_bounds : ℕ → ℕ → (ℕ → Option A) → Deque A
  from_bounds start length items = record { start = start; length = length; items = items }

  -- `commit`, and `drop`, which calls it.
  unfoldable pub commit : Deque A → Storage A
  commit q = record { items = q.items; bounds = (q.start, q.length) }

  unfoldable pub is_empty : Deque A → Bool
  is_empty q = q.length == 0

module _ (index_mod : ℕ) where
  -- `wrapping_add` and `wrapping_sub` of the index type.
  abbrev pub wrapping_add : ℕ → ℕ → ℕ
  wrapping_add a b = (a + b) % index_mod

  abbrev pub wrapping_sub : ℕ → ℕ → ℕ
  wrapping_sub a b = (a + index_mod - b) % index_mod

  unfoldable pub end {ℓ} : {A : Type ℓ} → Deque A → ℕ
  end q = wrapping_add q.start q.length

  unfoldable pub push_back {ℓ} : {A : Type ℓ} → Deque A → A → Deque A
  unfolding end
  push_back q item =
      let index = end q in
      let new_end = wrapping_add index 1 in
      record q {
        items = update q.items index (some item);
        start = if new_end == q.start then wrapping_add q.start 1 else q.start;
        length = max q.length (wrapping_add q.length 1);
      }

  unfoldable pub push_front {ℓ} : {A : Type ℓ} → Deque A → A → Deque A
  push_front q item =
      let index = wrapping_sub q.start 1 in
      record q {
        items = update q.items index (some item);
        start = index;
        length = max q.length (wrapping_add q.length 1);
      }

  -- `length - 1` runs only at a length above zero.
  unfoldable pub pop_back {ℓ} : {A : Type ℓ} → A → Deque A → Option A × Deque A
  unfolding end is_empty
  pop_back default q =
      let index = wrapping_sub (end q) 1 in
      if is_empty q then (none, q) else (
        some (get_or (q.items index) default),
        record q { items = update q.items index none; length = q.length - 1 },
      )

  unfoldable pub pop_front {ℓ} : {A : Type ℓ} → A → Deque A → Option A × Deque A
  unfolding is_empty
  pop_front default q = if is_empty q then (none, q) else (
    some (get_or (q.items q.start) default),
    record q {
      items = update q.items q.start none;
      start = wrapping_add q.start 1;
      length = q.length - 1;
    },
  )

  -- One call of a client, and what a sequence of calls returns.
  unfoldable pub step {ℓ} : {A : Type ℓ} → A → Deque A → Op A → Option A × Deque A
  unfolding push_back push_front pop_back pop_front
  step default q (Op.pushes_back x) = (none, push_back q x)
  step default q (Op.pushes_front x) = (none, push_front q x)
  step default q Op.pops_back = pop_back default q
  step default q Op.pops_front = pop_front default q

  unfoldable pub run {ℓ} : {A : Type ℓ} → A → Deque A → List (Op A) → List (Option A)
  run default q [] = []
  run default q (op ∷ ops) = let (out, q') = step default q op in out ∷ run default q' ops
