-- ===== src/Stablecoin/Currency/Slash.antt =====
-- What `slash` takes from an account.
use native.Mathlib.Decide.{dec_lt, ℕ_discrete}
use substrate_stablecoin.Prelude.{
  ℕ, ◌+◌, ◌-◌, ◌≤◌, ◌<◌, ◌≡◌, refl, ◌⊎◌, inl, inr, true, false, arith, min,
}
use substrate_stablecoin.Stablecoin.Types.{State}
use substrate_stablecoin.Stablecoin.Ledger.{
  get, total, total-insert, get-insert_self, get-insert_ne,
}
use substrate_stablecoin.Stablecoin.Balances.{get_balance, set_balance}
use substrate_stablecoin.Stablecoin.Currency.{slash, can_slash, total_issuance}

slash-takes :
    (who amount : ℕ) (s : State)
    → slash who amount s
      ≡ (amount - get_balance who s, set_balance who (get_balance who s - amount) s)
unfolding slash get_balance
slash-takes who amount s = ground arith

can_slash_lem :
    (who amount : ℕ) (s : State)
    → ((can_slash who amount s ≡ true) × (amount ≤ get_balance who s))
      ⊎ ((can_slash who amount s ≡ false) × (get_balance who s < amount))
unfolding can_slash get_balance
can_slash_lem who amount s = elim (dec_lt (get_balance who s) amount) [
  | yes h ↦ inr (ground arith, h)
  | no h ↦ inl (ground arith, omega arith)
]

-- A slash takes the amount from the account, or all of the balance if that is less, and from no other
-- account. It answers the rest, what it could not take, which is zero exactly if `can_slash` holds.
-- The issuance that the pallet reports stays, though the coins are gone.
pub slash_cases :
    (t who amount : ℕ) (s : State)
    → let (rest, s') = slash who amount s in
      (get_balance who s' + min amount (get_balance who s) ≡ get_balance who s)
      × (rest + min amount (get_balance who s) ≡ amount)
      × (((can_slash who amount s ≡ true) × (rest ≡ 0))
          ⊎ ((can_slash who amount s ≡ false) × (0 < rest)))
      × ((t ≡ who) ⊎ (get_balance t s' ≡ get_balance t s))
      × (total s'.balance + min amount (get_balance who s) ≡ total s.balance)
      × (total_issuance s' ≡ total_issuance s)
unfolding get_balance total_issuance
slash_cases t who amount s =
    let b = get who s.balance in
    let left = b - amount in
    rw (slash-takes who amount s) (
      omega (arith, get-insert_self who left s.balance),
      omega arith,
      elim (can_slash_lem who amount s) [
        | inl (can, le) ↦ inl (can, omega arith)
        | inr (cannot, lt) ↦ inr (cannot, omega arith)
      ],
      elim (ℕ_discrete t who) [
        | yes same ↦ inl same
        | no other ↦ inr (get-insert_ne t who left s.balance other)
      ],
      omega (arith, total-insert who left s.balance),
      refl,
    )
