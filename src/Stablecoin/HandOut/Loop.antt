-- ===== src/Stablecoin/HandOut/Loop.antt =====
-- The hand-out's loop: it never pays more than the amount, and the balances gain what it pays.
use substrate_stablecoin.Prelude.{
  ℕ, ◌≢◌, ◌∙◌, suc, ◌+◌, ◌-◌, ◌≤◌, ◌<◌, ◌≡◌, refl, List, [], ◌∷◌, u64_mod, arith, Bool-cases, inl,
  inr, leb,
}
use substrate_stablecoin.Stablecoin.Types.{State, coin_supply_overflow}
use substrate_stablecoin.Stablecoin.Monad.{ok, err, panic}
use substrate_stablecoin.Stablecoin.Ledger.{total}
use substrate_stablecoin.Stablecoin.Balances.{add_balance}
use substrate_stablecoin.Stablecoin.Balances.Laws.{total-add_balance}
use substrate_stablecoin.Stablecoin.Frame.{
  Frame, Frame-refl, Frame-trans, add_balance-Frame, bond_bids-add_balance,
}
use substrate_stablecoin.Stablecoin.HandOut.{
  Plan, share_sum, payout, pay_from, plan, pay_shares, hand_out_coins,
}

pub payout-le : (p : Plan) (i payed n : ℕ) → payout p i payed n ≤ p.amount - payed
unfolding payout
payout-le p i payed n = omega arith

-- The payed amount only grows, stays within the amount, and is what the balances gain.
pub pay_from-total :
    (p : Plan) (shares : List (ℕ × ℕ)) (i payed : ℕ) (s : State)
    → payed ≤ p.amount
    → total s.balance + (p.amount - payed) < u64_mod
    → let (payed', s') = pay_from p shares i payed s in
      (payed ≤ payed') × (payed' ≤ p.amount) × (total s'.balance + payed ≡ total s.balance + payed')
unfolding pay_from
pay_from-total p [] i payed s le small = (omega arith, le, omega arith)
pay_from-total p ((account, n) ∷ shares) i payed s le small =
    let coins = payout p i payed n in
    let within = payout-le p i payed n in
    let gained = total-add_balance account coins s in
    let rest = pay_from-total p shares (suc i) (payed + coins) (add_balance account coins s) in
    ground (arith, within, gained, rest)

-- The loop writes balances only.
pub pay_from-Frame :
    (p : Plan) (shares : List (ℕ × ℕ)) (i payed : ℕ) (s : State)
    → let s' = (pay_from p shares i payed s).1 in Frame s s' × (s'.bond_bids ≡ s.bond_bids)
unfolding pay_from
pay_from-Frame p [] i payed s = (Frame-refl s, refl)
pay_from-Frame p ((account, n) ∷ shares) i payed s =
    let coins = payout p i payed n in
    let s' = add_balance account coins s in
    let (frame, bids) = pay_from-Frame p shares (suc i) (payed + coins) s' in
    elim (Bool-cases (leb p.amount payed)) [
      | inl stop ↦ rw (stop, pay_from) (Frame-refl s, refl)
      | inr more ↦
          rw (more, pay_from)
            (
              Frame-trans (add_balance-Frame account coins s) frame,
              bids ∙ bond_bids-add_balance account coins s,
            )
    ]

-- The three ways of a hand-out: an overflow of the supply, a division by no shares, or the loop.
pub hand_out_coins-overflow :
    (shares : List (ℕ × ℕ)) (amount coin_supply : ℕ) (s : State)
    → u64_mod ≤ coin_supply + amount
    → hand_out_coins shares amount coin_supply s ≡ (err coin_supply_overflow, s)
unfolding hand_out_coins
hand_out_coins-overflow shares amount coin_supply s h = ground arith

pub hand_out_coins-panic :
    (shares : List (ℕ × ℕ)) (amount coin_supply : ℕ) (s : State)
    → coin_supply + amount < u64_mod
    → share_sum 0 shares ≡ 0
    → hand_out_coins shares amount coin_supply s ≡ (panic, s)
unfolding hand_out_coins
hand_out_coins-panic shares amount coin_supply s h e = ground arith

pub hand_out_coins-runs :
    (shares : List (ℕ × ℕ)) (amount coin_supply share_supply : ℕ) (s : State)
    → coin_supply + amount < u64_mod
    → share_sum 0 shares ≡ share_supply
    → share_supply ≢ 0
    → hand_out_coins shares amount coin_supply s ≡ (
      ok tt,
      record (pay_from (plan shares amount share_supply) shares 0 0 s).1 {
        coin_supply = coin_supply + amount;
      },
    )
unfolding hand_out_coins pay_shares
hand_out_coins-runs shares amount coin_supply share_supply s h e ne = ground arith
