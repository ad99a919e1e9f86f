-- ===== src/Prelude/Lists.antt =====
-- Lists measured by the native numbers, under the library's names.
use Prim.Native.Nat.{ℕ, zero, suc, ◌+◌, ◌<◌}
use mathlib.Core.Path.{◌≡◌, refl, ap}
use mathlib.Core.List.{List, [], ◌∷◌, ◌++◌}
use mathlib.Core.Bool.{Bool}
use mathlib.Core.Logic.{◌≢◌}
use mathlib.Core.Option.{Option, none, some}
use substrate_stablecoin.Prelude.Tests.{if◌then◌else◌}
use native.Mathlib.Omega.{arith}

module _ {ℓ} {A : Type ℓ} where
  abbrev pub length : List A → ℕ
  length [] = 0
  length (x ∷ xs) = suc (length xs)

  abbrev pub get_elem? : List A → ℕ → Option A
  get_elem? [] i = none
  get_elem? (x ∷ xs) zero = some x
  get_elem? (x ∷ xs) (suc i) = get_elem? xs i

  -- All but the first, and all but the last.
  abbrev pub tail : List A → List A
  tail [] = []
  tail (x ∷ xs) = xs

  abbrev pub drop_last : List A → List A
  drop_last [] = []
  drop_last (x ∷ []) = []
  drop_last (x ∷ y ∷ xs) = x ∷ drop_last (y ∷ xs)

  abbrev pub last? : List A → Option A
  last? [] = none
  last? (x ∷ []) = some x
  last? (x ∷ y ∷ xs) = last? (y ∷ xs)

  -- `Vec::insert`: past the end it is out of the callers' reach.
  abbrev pub insert_at : ℕ → A → List A → List A
  insert_at zero a xs = a ∷ xs
  insert_at (suc i) a [] = a ∷ []
  insert_at (suc i) a (x ∷ xs) = x ∷ insert_at i a xs

  pub length-append : (xs ys : List A) → length (xs ++ ys) ≡ length xs + length ys
  length-append [] ys = omega arith
  length-append (x ∷ xs) ys = omega (arith, length-append xs ys)

  pub length-insert_at : (i : ℕ) (a : A) (xs : List A) → length (insert_at i a xs) ≡ suc (length xs)
  length-insert_at zero a xs = refl
  length-insert_at (suc i) a [] = refl
  length-insert_at (suc i) a (x ∷ xs) = ap suc (length-insert_at i a xs)

module _ {ℓ} {A : Type ℓ} where
  pub drop_last-append : (xs : List A) (y : A) → drop_last (xs ++ (y ∷ [])) ≡ xs
  drop_last-append [] y = refl
  drop_last-append (x ∷ []) y = refl
  drop_last-append (x ∷ z ∷ xs) y = ap (λ t. x ∷ t) (drop_last-append (z ∷ xs) y)

  pub last?-append : (xs : List A) (y : A) → last? (xs ++ (y ∷ [])) ≡ some y
  last?-append [] y = refl
  last?-append (x ∷ []) y = refl
  last?-append (x ∷ z ∷ xs) y = last?-append (z ∷ xs) y

-- A predicate of every element.
abbrev pub All {ℓ κ} : {A : Type ℓ} → (A → Type κ) → List A → Type κ
All P [] = Unit
All P (x ∷ xs) = P x × All P xs

-- No two elements are equal.
abbrev pub Distinct {ℓ} : {A : Type ℓ} → List A → Type ℓ
Distinct [] = Unit
Distinct (x ∷ xs) = All (λ y. x ≢ y) xs × Distinct xs

module _ {ℓ κ} {A : Type ℓ} (P : A → Type κ) where
  pub All-drop_last : (xs : List A) → All P xs → All P (drop_last xs)
  All-drop_last [] h = tt
  All-drop_last (x ∷ []) h = tt
  All-drop_last (x ∷ y ∷ xs) h = (h.0, All-drop_last (y ∷ xs) h.1)

  pub All-append : (xs ys : List A) → All P xs → All P ys → All P (xs ++ ys)
  All-append [] ys h k = k
  All-append (x ∷ xs) ys h k = (h.0, All-append xs ys h.1 k)

  pub All-insert_at : (i : ℕ) (a : A) (xs : List A) → P a → All P xs → All P (insert_at i a xs)
  All-insert_at zero a xs pa h = (pa, h)
  All-insert_at (suc i) a [] pa h = (pa, tt)
  All-insert_at (suc i) a (x ∷ xs) pa h = (h.0, All-insert_at i a xs pa h.1)

  pub All_and : (Q : A → Type κ) (xs : List A) → All P xs → All Q xs → All (λ a. P a × Q a) xs
  All_and Q [] h k = tt
  All_and Q (x ∷ xs) h k = ((h.0, k.0), All_and Q xs h.1 k.1)

abbrev pub sum : List ℕ → ℕ
sum [] = 0
sum (x ∷ xs) = x + sum xs

pub sum-append : (xs ys : List ℕ) → sum (xs ++ ys) ≡ sum xs + sum ys
sum-append [] ys = omega arith
sum-append (x ∷ xs) ys = omega (arith, sum-append xs ys)

pub tail-append {ℓ} :
    {A : Type ℓ} (xs ys : List A) → 0 < length xs → tail (xs ++ ys) ≡ tail xs ++ ys
tail-append [] ys h = absurd (omega arith)
tail-append (x ∷ xs) ys h = refl

-- The sum of a number at each element.
abbrev pub sum_by {ℓ} : {A : Type ℓ} → (A → ℕ) → List A → ℕ
sum_by w [] = 0
sum_by w (x ∷ xs) = w x + sum_by w xs

pub sum_by-append {ℓ} :
    {A : Type ℓ} (w : A → ℕ) (xs ys : List A) → sum_by w (xs ++ ys) ≡ sum_by w xs + sum_by w ys
sum_by-append w [] ys = omega arith
sum_by-append w (x ∷ xs) ys = omega (arith, sum_by-append w xs ys)

pub sum_by-insert_at {ℓ} :
    {A : Type ℓ} (w : A → ℕ) (i : ℕ) (a : A) (xs : List A)
    → sum_by w (insert_at i a xs) ≡ w a + sum_by w xs
sum_by-insert_at w zero a xs = refl
sum_by-insert_at w (suc i) a [] = refl
sum_by-insert_at w (suc i) a (x ∷ xs) = omega (arith, sum_by-insert_at w i a xs)

-- The elements that pass a test, in their order.
abbrev pub select {ℓ} : {A : Type ℓ} → (A → Bool) → List A → List A
select p [] = []
select p (x ∷ xs) = let rest = select p xs in if p x then x ∷ rest else rest
