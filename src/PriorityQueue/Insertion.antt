-- ===== src/PriorityQueue/Insertion.antt =====
-- A list with its items in the order of a key: the last of them, and where a new item goes.
use mathlib.Core.Path.{subst}
use mathlib.Core.List.{Permᴰ, ◌++◌}
use mathlib.Core.List.Permᴰ
use mathlib.Core.List.Permᴰ.{nil, cons, swap, trans}
use substrate_stablecoin.Prelude.{
  ℕ, suc, ◌≤◌, ◌<◌, ◌≡◌, ◌≢◌, ◌∙◌, ap, sym, refl, true, false, List, [], ◌∷◌, All, length, arith,
  ltb, leb, Bool-cases, inl, inr, if◌then◌else◌,
}
use substrate_stablecoin.PriorityQueue.Sorted.{IsSorted}

-- The last `k` items.
abbrev pub last_of {ℓ} : {A : Type ℓ} → ℕ → List A → List A
last_of k [] = []
last_of k (x ∷ xs) = let rest = last_of k xs in if ltb (length xs) k then x ∷ xs else rest

pub last_of-short {ℓ} : {A : Type ℓ} (k : ℕ) (xs : List A) → length xs ≤ k → last_of k xs ≡ xs
last_of-short k [] h = refl
last_of-short k (x ∷ xs) h = let short : ltb (length xs) k ≡ true = ground arith in rw short refl

pub last_of-long {ℓ} :
    {A : Type ℓ} (k : ℕ) (x : A) (xs : List A) → k ≤ length xs → last_of k (x ∷ xs) ≡ last_of k xs
last_of-long k x xs h = let long : ltb (length xs) k ≡ false = ground arith in rw long refl

pub last_of-All {ℓ κ} :
    {A : Type ℓ} (P : A → Type κ) (k : ℕ) (xs : List A) → All P xs → All P (last_of k xs)
last_of-All P k [] h = tt
last_of-All P k (x ∷ xs) h = elim (Bool-cases (ltb (length xs) k)) [
  | inl short ↦ rw short h
  | inr long ↦ rw long (last_of-All P k xs h.1)
]

pub last_of-length {ℓ} : {A : Type ℓ} (k : ℕ) (xs : List A) → length (last_of k xs) ≤ k
last_of-length k [] = omega arith
last_of-length k (x ∷ xs) = elim (Bool-cases (ltb (length xs) k)) [
  | inl short ↦ rw short (ground arith)
  | inr long ↦ rw long (last_of-length k xs)
]

module _ {ℓ} {A : Type ℓ} (key : A → ℕ) where
  pub last_of-IsSorted : (k : ℕ) (xs : List A) → IsSorted key xs → IsSorted key (last_of k xs)
  last_of-IsSorted k [] h = tt
  last_of-IsSorted k (x ∷ xs) h = elim (Bool-cases (ltb (length xs) k)) [
    | inl short ↦ rw short h
    | inr long ↦ rw long (last_of-IsSorted k xs h.1)
  ]

  -- Into its place by the key.
  abbrev pub insert : A → List A → List A
  insert x [] = x ∷ []
  insert x (y ∷ ys) = let rest = insert x ys in if leb (key x) (key y) then x ∷ y ∷ ys else y ∷ rest

  abbrev pub insert_all : List A → List A → List A
  insert_all sorted [] = sorted
  insert_all sorted (x ∷ xs) = insert_all (insert x sorted) xs

  -- An item whose key none of the others has.
  abbrev pub Fresh : A → List A → Type 0
  Fresh x = All (λ y. key x ≢ key y)

  pub length-insert : (x : A) (ys : List A) → length (insert x ys) ≡ suc (length ys)
  length-insert x [] = refl
  length-insert x (y ∷ ys) = elim (Bool-cases (leb (key x) (key y))) [
    | inl le ↦ rw le refl
    | inr gt ↦ rw gt (ap suc (length-insert x ys))
  ]

  pub insert-All : (P : A → Type 0) (x : A) (ys : List A) → P x → All P ys → All P (insert x ys)
  insert-All P x [] p h = (p, tt)
  insert-All P x (y ∷ ys) p h = elim (Bool-cases (leb (key x) (key y))) [
    | inl le ↦ rw le (p, h)
    | inr gt ↦ rw gt (h.0, insert-All P x ys p h.1)
  ]

  pub All-from : (a b : ℕ) (zs : List A) → a ≤ b → All (λ z. b ≤ key z) zs → All (λ z. a ≤ key z) zs
  All-from a b [] le h = tt
  All-from a b (z ∷ zs) le h = (omega (arith, h.0), All-from a b zs le h.1)

  pub insert-IsSorted : (x : A) (ys : List A) → IsSorted key ys → IsSorted key (insert x ys)
  insert-IsSorted x [] h = (tt, tt)
  insert-IsSorted x (y ∷ ys) h = elim (Bool-cases (leb (key x) (key y))) [
    | inl le ↦ rw le ((ground arith, All-from (key x) (key y) ys (ground arith) h.0), h)
    | inr gt ↦
        rw gt (insert-All (λ z. key y ≤ key z) x ys (ground arith) h.0, insert-IsSorted x ys h.1)
  ]

  pub insert_all-IsSorted : (s xs : List A) → IsSorted key s → IsSorted key (insert_all s xs)
  insert_all-IsSorted s [] h = h
  insert_all-IsSorted s (x ∷ xs) h = insert_all-IsSorted (insert x s) xs (insert-IsSorted x s h)

  pub insert_least : (x : A) (ys : List A) → All (λ y. key x ≤ key y) ys → insert x ys ≡ x ∷ ys
  insert_least x [] h = refl
  insert_least x (y ∷ ys) h = let le : leb (key x) (key y) ≡ true = ground arith in rw le refl

  -- What has been dropped stays dropped.
  pub last_of-insert :
      (k : ℕ) (x : A) (s : List A)
      → IsSorted key s
      → last_of k (insert x (last_of k s)) ≡ last_of k (insert x s)
  last_of-insert k x [] h = refl
  last_of-insert k x (y ∷ ys) h = elim (Bool-cases (ltb (length ys) k)) [
    | inl short ↦ ap (λ zs. last_of k (insert x zs)) (last_of-short k (y ∷ ys) (ground arith))
    | inr long ↦
        ap (λ zs. last_of k (insert x zs)) (last_of-long k y ys (ground arith))
        ∙ last_of-insert k x ys h.1
        ∙ grown (ground arith)
  ]
    where
      grown : k ≤ length ys → last_of k (insert x ys) ≡ last_of k (insert x (y ∷ ys))
      grown l = elim (Bool-cases (leb (key x) (key y))) [
        | inl le ↦ rw le (
            ap (last_of k) (insert_least x ys (All-from (key x) (key y) ys (ground arith) h.0))
            ∙ last_of-long k x ys l
            ∙ sym (last_of-long k y ys l)
            ∙ sym (last_of-long k x (y ∷ ys) (omega arith)))
        | inr gt ↦ rw gt (sym (last_of-long k y (insert x ys) (omega (arith, length-insert x ys))))
      ]

  -- Items no two of which have the same key.
  abbrev pub Apart : List A → Type 0
  Apart [] = Unit
  Apart (x ∷ xs) = Fresh x xs × Apart xs

  pub Fresh-after :
      (x : A) (s xs : List A)
      → All (λ z. Fresh z s) xs
      → Fresh x xs
      → All (λ z. Fresh z (insert x s)) xs
  Fresh-after x s [] h f = tt
  Fresh-after x s (z ∷ xs) h f =
      (insert-All (λ y. key z ≢ key y) x s (λ e. f.0 (sym e)) h.0, Fresh-after x s xs h.1 f.1)

  insert_first : (x y : A) (ys : List A) → key x ≤ key y → insert x (y ∷ ys) ≡ x ∷ y ∷ ys
  insert_first x y ys le = let first : leb (key x) (key y) ≡ true = ground arith in rw first refl

  insert_later : (x y : A) (ys : List A) → key y < key x → insert x (y ∷ ys) ≡ y ∷ insert x ys
  insert_later x y ys lt = let later : leb (key x) (key y) ≡ false = ground arith in rw later refl

  insert_comm_ordered :
      (a b : A) (s : List A) → key a < key b → insert a (insert b s) ≡ insert b (insert a s)
  insert_comm_ordered a b [] lt = insert_first a b [] (omega arith) ∙ sym (insert_later b a [] lt)
  insert_comm_ordered a b (y ∷ ys) lt = elim (Bool-cases (leb (key b) (key y))) [
    | inl le ↦
        ap (insert a) (insert_first b y ys (ground arith))
        ∙ insert_first a b (y ∷ ys) (omega arith)
        ∙ sym (
            ap (insert b) (insert_first a y ys (ground arith))
            ∙ insert_later b a (y ∷ ys) lt
            ∙ ap (λ zs. a ∷ zs) (insert_first b y ys (ground arith)))
    | inr gt ↦
        ap (insert a) (insert_later b y ys (ground arith))
        ∙ elim (Bool-cases (leb (key a) (key y))) [
          | inl le ↦
              insert_first a y (insert b ys) (ground arith)
              ∙ sym (
                  ap (insert b) (insert_first a y ys (ground arith))
                  ∙ insert_later b a (y ∷ ys) lt
                  ∙ ap (λ zs. a ∷ zs) (insert_later b y ys (ground arith)))
          | inr gt' ↦
              insert_later a y (insert b ys) (ground arith)
              ∙ ap (λ zs. y ∷ zs) (insert_comm_ordered a b ys lt)
              ∙ sym (
                  ap (insert b) (insert_later a y ys (ground arith))
                  ∙ insert_later b y (insert a ys) (ground arith))
        ]
  ]

  pub insert_comm :
      (a b : A) (s : List A) → key a ≢ key b → insert a (insert b s) ≡ insert b (insert a s)
  insert_comm a b s ne = elim (Bool-cases (ltb (key a) (key b))) [
    | inl lt ↦ insert_comm_ordered a b s (ground arith)
    | inr ge ↦ sym (insert_comm_ordered b a s (ground (arith, ne)))
  ]

  pub Fresh-perm : (x : A) {xs ys : List A} → Permᴰ xs ys → Fresh x xs → Fresh x ys
  Fresh-perm x nil f = f
  Fresh-perm x (cons e p) f = (subst (λ z. key x ≢ key z) e f.0, Fresh-perm x p f.1)
  Fresh-perm x (swap e₁ e₂) (f₁, (f₂, f)) =
      (subst (λ z. key x ≢ key z) e₂ f₂, (subst (λ z. key x ≢ key z) e₁ f₁, f))
  Fresh-perm x (trans p q) f = Fresh-perm x q (Fresh-perm x p f)

  pub Apart-perm : {xs ys : List A} → Permᴰ xs ys → Apart xs → Apart ys
  Apart-perm nil h = h
  Apart-perm (cons {l₂ = l} e p) h =
      (subst (λ z. Fresh z l) e (Fresh-perm _ p h.0), Apart-perm p h.1)
  Apart-perm (swap {a} {b} {l = l} e₁ e₂) ((ab, fa), (fb, h)) = (
    (λ same. ab (ap key e₁ ∙ sym same ∙ sym (ap key e₂)), subst (λ z. Fresh z l) e₂ fb),
    (subst (λ z. Fresh z l) e₁ fa, h),
  )
  Apart-perm (trans p q) h = Apart-perm q (Apart-perm p h)

  pub insert_all-perm :
      (s : List A) {xs ys : List A} → Permᴰ xs ys → Apart xs → insert_all s xs ≡ insert_all s ys
  insert_all-perm s nil h = refl
  insert_all-perm s (cons {b = b} {l₁ = l} e p) h =
      ap (λ x. insert_all (insert x s) l) e ∙ insert_all-perm (insert b s) p h.1
  insert_all-perm s (swap {a} {b} {a' = a'} {l = l} e₁ e₂) ((ab, fa), h) =
      ap (λ t. insert_all t l) (insert_comm b a s (λ same. ab (sym same)))
      ∙ ap (λ x. insert_all (insert a (insert x s)) l) e₂
      ∙ ap (λ x. insert_all (insert x (insert a' s)) l) e₁
  insert_all-perm s (trans p q) h = insert_all-perm s p h ∙ insert_all-perm s q (Apart-perm p h)

  insert-cons : (x : A) (ys : List A) → Permᴰ (insert x ys) (x ∷ ys)
  insert-cons x [] = cons refl nil
  insert-cons x (y ∷ ys) = elim (Bool-cases (leb (key x) (key y))) [
    | inl le ↦ rw le (Permᴰ.refl (x ∷ y ∷ ys))
    | inr gt ↦ rw gt (trans (cons refl (insert-cons x ys)) (swap refl refl))
  ]

  pub insert_all-append : (s xs : List A) → Permᴰ (insert_all s xs) (s ++ xs)
  insert_all-append s [] = Permᴰ.symm (Permᴰ.append-nil s)
  insert_all-append s (x ∷ xs) =
      trans (insert_all-append (insert x s) xs)
        (trans (Permᴰ.append_right xs (insert-cons x s)) (Permᴰ.symm (Permᴰ.middle x s xs)))
