-- ===== src/Stablecoin/HandOut/Shortfall.antt =====
-- With several shares to a shareholder, a hand-out can fall short of its amount: each share gets the
-- same number of coins, and of the rest of that division only as many coins are given out as the
-- division by the number of shareholders leaves.
use native.Mathlib.Nat.{add-mul, div-add-mod}
use substrate_stablecoin.Prelude.{
  ap, ap₂, ℕ, suc, ◌+◌, ◌-◌, ◌*◌, ◌/◌, ◌%◌, ◌≤◌, ◌<◌, ◌≡◌, refl, List, [], ◌∷◌, length, sum_by,
  u64_mod, arith, ltb, if◌then◌else◌, add64, max,
}
use substrate_stablecoin.Stablecoin.Types.{State}
use substrate_stablecoin.Stablecoin.Monad.{ok}
use substrate_stablecoin.Stablecoin.Ledger.{total}
use substrate_stablecoin.Stablecoin.Balances.{add_balance}
use substrate_stablecoin.Stablecoin.HandOut.{
  Plan, share_sum, payout, pay_from, plan, hand_out_coins,
}
use substrate_stablecoin.Stablecoin.HandOut.Loop.{pay_from-total, hand_out_coins-runs}

-- All shares, as a number that does not wrap.
abbrev pub shares_of : List (ℕ × ℕ) → ℕ
shares_of = sum_by (λ share. share.1)

share_sum-eq :
    (acc : ℕ) (shares : List (ℕ × ℕ))
    → acc + shares_of shares < u64_mod
    → share_sum acc shares ≡ acc + shares_of shares
share_sum-eq acc [] h = omega arith
share_sum-eq acc ((account, n) ∷ shares) h =
    let step : add64 acc n ≡ acc + n = omega arith in
    rw step (omega (arith, share_sum-eq (acc + n) shares))

payout-bound :
    (p : Plan) (i payed n : ℕ)
    → payout p i payed n ≤ n * p.coins_per_share + (if ltb i (p.amount % p.len) then 1 else 0)
unfolding payout
payout-bound p i payed n = ground arith

-- The coins for each share, and one more for each of the first `amount % len`.
pay_from-bound :
    (p : Plan) (shares : List (ℕ × ℕ)) (i payed : ℕ) (s : State)
    → (pay_from p shares i payed s).0
      ≤ payed + shares_of shares * p.coins_per_share + (p.amount % p.len - i)
unfolding pay_from
pay_from-bound p [] i payed s = omega arith
pay_from-bound p ((account, n) ∷ shares) i payed s =
    let coins = payout p i payed n in
    let rest = pay_from-bound p shares (suc i) (payed + coins) (add_balance account coins s) in
    let bound = payout-bound p i payed n in
    let split = add-mul n (shares_of shares) p.coins_per_share in ground (arith, rest, bound, split)

plan_fields :
    (shares : List (ℕ × ℕ)) (amount share_supply : ℕ)
    → let p = plan shares amount share_supply in
      (p.amount ≡ amount)
      × (p.len ≡ length shares)
      × (p.coins_per_share ≡ max 1 (amount / share_supply))
unfolding plan
plan_fields shares amount share_supply = (refl, refl, refl)

-- If an amount that covers every share leaves more when divided by the shares than when divided by
-- the shareholders, and nothing overflows, then the hand-out succeeds, the supply grows by the
-- amount, and the balances grow by less.
pub hand_out_coins_shortfall :
    (shares : List (ℕ × ℕ)) (amount coin_supply : ℕ) (s : State)
    → 0 < shares_of shares
    → shares_of shares ≤ amount
    → amount % length shares < amount % shares_of shares
    → total s.balance + amount < u64_mod
    → coin_supply + amount < u64_mod
    → let (r, s') = hand_out_coins shares amount coin_supply s in
      (r ≡ ok tt)
      × (s'.coin_supply ≡ coin_supply + amount)
      × (total s'.balance < total s.balance + amount)
hand_out_coins_shortfall shares amount coin_supply s some_share covers uneven small fits =
    let n = shares_of shares in
    let p = plan shares amount n in
    let counted : share_sum 0 shares ≡ n = omega (arith, share_sum-eq 0 shares) in
    let (same, len, price) = plan_fields shares amount n in
    let whole : n * (amount / n) + amount % n ≡ amount = div-add-mod amount n in
    let at_least : 1 ≤ amount / n = grind arith in
    let share : p.coins_per_share ≡ amount / n = omega arith in
    let bound = pay_from-bound p shares 0 0 s in
    let payed_less : (pay_from p shares 0 0 s).0 < amount =
      omega (arith, bound, whole, ap (λ k. n * k) share, ap₂ ◌%◌ same len) in
    let (_, _, gained) = pay_from-total p shares 0 0 s (omega arith) (rw same (omega arith)) in
    rw (hand_out_coins-runs shares amount coin_supply n s fits counted (omega arith))
      (refl, refl, omega (arith, gained, payed_less))
