-- ===== src/Stablecoin/Ledger.antt =====
-- The storage map `Balance`: reading, writing, and the sum of all balances under each write.
use substrate_stablecoin.Prelude.{ℕ, ◌+◌, ◌≤◌, ◌≡◌, ◌≢◌, refl, [], ◌∷◌, arith, ◌==◌, if◌then◌else◌}
use substrate_stablecoin.Stablecoin.Types.{Ledger}

-- `Self::get_balance`: zero for an account that is not there.
abbrev pub get : ℕ → Ledger → ℕ
get k [] = 0
get k ((j, v) ∷ l) = if k == j then v else get k l

-- `<Balance<T>>::insert`.
abbrev pub insert : ℕ → ℕ → Ledger → Ledger
insert k v [] = (k, v) ∷ []
insert k v ((j, w) ∷ l) = if k == j then (k, v) ∷ l else (j, w) ∷ insert k v l

-- All coins that accounts hold.
abbrev pub total : Ledger → ℕ
total [] = 0
total ((j, v) ∷ l) = v + total l

pub get-insert : (j k v : ℕ) (l : Ledger) → get j (insert k v l) ≡ (if j == k then v else get j l)
get-insert j k v [] = refl
get-insert j k v ((i, w) ∷ l) = ground (arith, get-insert j k v l)

pub get-insert_self : (k v : ℕ) (l : Ledger) → get k (insert k v l) ≡ v
get-insert_self k v l = ground (arith, get-insert k k v l)

pub get-insert_ne : (j k v : ℕ) (l : Ledger) → j ≢ k → get j (insert k v l) ≡ get j l
get-insert_ne j k v l h = ground (arith, get-insert j k v l)

-- A write changes the sum by the difference at the account.
pub total-insert : (k v : ℕ) (l : Ledger) → total (insert k v l) + get k l ≡ total l + v
total-insert k v [] = omega arith
total-insert k v ((j, w) ∷ l) = ground (arith, total-insert k v l)

pub get-le-total : (k : ℕ) (l : Ledger) → get k l ≤ total l
get-le-total k [] = omega arith
get-le-total k ((j, w) ∷ l) = ground (arith, get-le-total k l)
