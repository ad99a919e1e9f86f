-- ===== src/Stablecoin/Balances/Laws.antt =====
-- What the balance operations do to one account, to the others and to the sum.
use native.Mathlib.Decide.{dec_lt}
use substrate_stablecoin.Prelude.{
  ℕ, ◌+◌, ◌-◌, ◌≤◌, ◌<◌, ◌≡◌, ◌≢◌, refl, u64_mod, arith, sym, ◌∙◌, ◌==◌, if◌then◌else◌, ◌⊎◌, inl,
  inr,
}
use substrate_stablecoin.Stablecoin.Types.{State, insufficient_balance, balance_overflow}
use substrate_stablecoin.Stablecoin.Monad.{ok, err}
use substrate_stablecoin.Stablecoin.Ledger.{
  get, insert, total, get-insert, get-insert_self, get-insert_ne, total-insert, get-le-total,
}
use substrate_stablecoin.Stablecoin.Balances.{
  get_balance, set_balance, transfer_from_to, add_balance, remove_balance,
}

-- A credit that does not leave the range of a balance raises the sum by its amount.
pub total-add_balance :
    (account amount : ℕ) (s : State)
    → total s.balance + amount < u64_mod
    → total (add_balance account amount s).balance ≡ total s.balance + amount
unfolding add_balance
total-add_balance account amount s h = ground (
  arith,
  get-le-total account s.balance,
  total-insert account (get account s.balance + amount) s.balance,
)

-- It goes to the account, and to no other.
pub get_balance-add_balance :
    (t account amount : ℕ) (s : State)
    → total s.balance + amount < u64_mod
    → get_balance t (add_balance account amount s)
      ≡ (if t == account then get_balance t s + amount else get_balance t s)
unfolding add_balance
get_balance-add_balance t account amount s h = ground (
  arith,
  get-le-total account s.balance,
  get-insert t account (get account s.balance + amount) s.balance,
)

transfer-short :
    (sender receiver amount : ℕ) (s : State)
    → get_balance sender s < amount
    → transfer_from_to sender receiver amount s ≡ (err insufficient_balance, s)
unfolding transfer_from_to
transfer-short sender receiver amount s h = ground arith

transfer-over :
    (sender receiver amount : ℕ) (s : State)
    → amount ≤ get_balance sender s
    → u64_mod ≤ get_balance receiver s + amount
    → transfer_from_to sender receiver amount s ≡ (err balance_overflow, s)
unfolding transfer_from_to
transfer-over sender receiver amount s h k = ground arith

-- The two writes of a transfer that passes both checks, in the order of the code.
pub transfer-moves :
    (sender receiver amount : ℕ) (s : State)
    → amount ≤ get_balance sender s
    → get_balance receiver s + amount < u64_mod
    → transfer_from_to sender receiver amount s ≡ (
      ok tt,
      set_balance receiver
          (get_balance receiver s + amount)
          (set_balance sender (get_balance sender s - amount) s),
    )
unfolding transfer_from_to
transfer-moves sender receiver amount s h k = ground arith

-- Every transfer takes one of three ways.
pub transfer_outcome :
    (sender receiver amount : ℕ) (s : State)
    → let m = transfer_from_to sender receiver amount s in
      ((m ≡ (err insufficient_balance, s)) × (get_balance sender s < amount))
      ⊎ ((m ≡ (err balance_overflow, s)) × (u64_mod ≤ get_balance receiver s + amount))
      ⊎ ((m ≡ (
        ok tt,
        set_balance receiver
            (get_balance receiver s + amount)
            (set_balance sender (get_balance sender s - amount) s),
      ))
          × (amount ≤ get_balance sender s))
unfolding get_balance
transfer_outcome sender receiver amount s = elim (dec_lt (get sender s.balance) amount) [
  | yes short ↦ inl (transfer-short sender receiver amount s short, short)
  | no covered ↦ elim (dec_lt (get receiver s.balance + amount) u64_mod) [
    | no over ↦
        inr (inl (transfer-over sender receiver amount s (omega arith) (omega arith), omega arith))
    | yes fits ↦ inr (inr (transfer-moves sender receiver amount s (omega arith) fits, omega arith))
  ]
]

pub total-moved :
    (sender receiver amount : ℕ) (s : State)
    → sender ≢ receiver
    → amount ≤ get_balance sender s
    → total
        (set_balance receiver
          (get_balance receiver s + amount)
          (set_balance sender (get_balance sender s - amount) s)).balance
      ≡ total s.balance
unfolding get_balance
total-moved sender receiver amount s ne h =
    let b = get sender s.balance - amount in
    omega (
      arith,
      total-insert receiver (get receiver s.balance + amount) (insert sender b s.balance),
      total-insert sender b s.balance,
      get-insert_ne receiver sender b s.balance (λ e. ne (sym e)),
    )

-- How a transfer between two accounts ends: with an error and no change, or with the amount moved
-- and every other account as it was.
pub transfer_from_to_cases :
    (sender receiver amount : ℕ) (s : State)
    → sender ≢ receiver
    → let (r, s') = transfer_from_to sender receiver amount s in
      ((r ≡ err insufficient_balance) × (s' ≡ s) × (get_balance sender s < amount))
      ⊎ ((r ≡ err balance_overflow) × (s' ≡ s) × (u64_mod ≤ get_balance receiver s + amount))
      ⊎ ((r ≡ ok tt)
          × (get_balance sender s' + amount ≡ get_balance sender s)
          × (get_balance receiver s' ≡ get_balance receiver s + amount)
          × (total s'.balance ≡ total s.balance)
          × ((t : ℕ) → t ≢ sender → t ≢ receiver → get_balance t s' ≡ get_balance t s))
unfolding get_balance
transfer_from_to_cases sender receiver amount s ne =
    let b = get sender s.balance - amount in
    let c = get receiver s.balance + amount in
    let l = insert sender b s.balance in
    elim (transfer_outcome sender receiver amount s) [
      | inl (e, short) ↦ rw e (inl (refl, refl, short))
      | inr (inl (e, over)) ↦ rw e (inr (inl (refl, refl, over)))
      | inr (inr (e, covered)) ↦ rw e (
          inr (
            inr (
              refl,
              rw (get-insert_ne sender receiver c l ne, get-insert_self sender b s.balance)
                  (omega arith),
              get-insert_self receiver c l,
              total-moved sender receiver amount s ne covered,
              λ t ts tr. get-insert_ne t receiver c l tr ∙ get-insert_ne t sender b s.balance ts,
            )))
    ]

-- A transfer of an account to itself writes the balance twice, and the second write wins: it adds
-- the amount to the balance, and so to the sum.
pub transfer_to_self :
    (account amount : ℕ) (s : State)
    → amount ≤ get_balance account s
    → get_balance account s + amount < u64_mod
    → let (r, s') = transfer_from_to account account amount s in
      (r ≡ ok tt)
      × (get_balance account s' ≡ get_balance account s + amount)
      × (total s'.balance ≡ total s.balance + amount)
unfolding get_balance
transfer_to_self account amount s h k =
    let b = get account s.balance - amount in
    let c = get account s.balance + amount in
    let l = insert account b s.balance in
    rw (transfer-moves account account amount s h k) (
      refl,
      get-insert_self account c l,
      omega (
        arith,
        total-insert account c l,
        total-insert account b s.balance,
        get-insert_self account b s.balance,
      ),
    )

-- How a debit ends.
pub remove_balance_cases :
    (account amount : ℕ) (s : State)
    → ((remove_balance account amount s ≡ (err insufficient_balance, s))
        × (get_balance account s < amount))
      ⊎ ((remove_balance account amount s
            ≡ (ok tt, set_balance account (get_balance account s - amount) s))
          × (amount ≤ get_balance account s))
unfolding remove_balance
remove_balance_cases account amount s = elim (dec_lt (get account s.balance) amount) [
  | yes short ↦ inl (ground arith, short)
  | no covered ↦ inr (ground arith, omega arith)
]

pub total-debit :
    (account amount : ℕ) (s : State)
    → amount ≤ get_balance account s
    → total (set_balance account (get_balance account s - amount) s).balance + amount
      ≡ total s.balance
unfolding get_balance
total-debit account amount s h =
    omega (arith, total-insert account (get account s.balance - amount) s.balance)
