-- ===== src/Stablecoin/HandOut.antt =====
-- `hand_out_coins` (pallets/stablecoin/src/lib.rs): new coins for the shareholders.
pub mod Loop
pub mod Exact
pub mod Split
pub mod Each
pub mod Shortfall
use substrate_stablecoin.Prelude.{
  ℕ, suc, ◌+◌, ◌-◌, ◌*◌, ◌/◌, ◌%◌, Bool, ◌&&◌, List, [], ◌∷◌, length, max, min, checked_add, add64,
  mul64, ltb, leb, ◌==◌, if◌then◌else◌,
}
use substrate_stablecoin.Stablecoin.Types.{State, coin_supply_overflow}
use substrate_stablecoin.Stablecoin.Monad.{
  Result, ok, panic, Action, Done, ok_or, and_then, ◌>>=◌, ◌>>◌,
}
use substrate_stablecoin.Stablecoin.Balances.{add_balance}

-- `shares.iter().map(|(_a, s)| s).sum()`, which wraps in a release build.
abbrev pub share_sum : ℕ → List (ℕ × ℕ) → ℕ
share_sum acc [] = acc
share_sum acc ((account, num_shares) ∷ shares) = share_sum (add64 acc num_shares) shares

-- The values that the loop reads and does not change.
pub record Plan : Type 0 where
  pub amount : ℕ
  pub len : ℕ
  pub coins_per_share : ℕ
  pub pay_extra : Bool

-- `amount_payed + payout` cannot wrap: the payout is at most `amount - amount_payed`.
unfoldable pub payout : Plan → (i amount_payed num_shares : ℕ) → ℕ
payout p i amount_payed num_shares = min (p.amount - amount_payed) (
    add64 (mul64 num_shares p.coins_per_share)
      (if p.pay_extra && ltb i (p.amount % p.len) then 1 else 0))

-- The loop from shareholder `i` on: the amount payed in the end, and the state.
unfoldable pub pay_from : Plan → List (ℕ × ℕ) → (i amount_payed : ℕ) → State → ℕ × State
unfolding payout add_balance
pay_from p [] i amount_payed s = (amount_payed, s)
pay_from p ((account, num_shares) ∷ shares) i amount_payed s =
    let coins = payout p i amount_payed num_shares in
    let rest = pay_from p shares (suc i) (amount_payed + coins) (add_balance account coins s) in
    if leb p.amount amount_payed then (amount_payed, s) else rest

unfoldable pub plan : List (ℕ × ℕ) → (amount share_supply : ℕ) → Plan
plan shares amount share_supply =
    let coins_per_share = max 1 (amount / share_supply) in
    record {
      amount = amount;
      len = length shares;
      coins_per_share = coins_per_share;
      pay_extra = ltb (mul64 coins_per_share (length shares)) amount;
    }

-- From the sum of the shares on; a sum of zero is divided by, and panics. The supply cannot wrap
-- after the check.
unfoldable pub pay_shares : List (ℕ × ℕ) → (amount coin_supply share_supply : ℕ) → Action Done
unfolding pay_from plan
pay_shares shares amount coin_supply share_supply s = if share_supply == 0 then (panic, s) else (
  ok tt,
  record (pay_from (plan shares amount share_supply) shares 0 0 s).1 {
    coin_supply = coin_supply + amount;
  },
)

unfoldable pub hand_out_coins : List (ℕ × ℕ) → (amount coin_supply : ℕ) → Action Done
unfolding pay_shares
hand_out_coins shares amount coin_supply =
    ok_or (checked_add coin_supply amount) coin_supply_overflow >>= λ _.
    pay_shares shares amount coin_supply (share_sum 0 shares)
