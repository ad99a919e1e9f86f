-- ===== src/Stablecoin/Bids/Remove.antt =====
-- `Bid::remove_coins`: what the partial conversion of a bid into a bond does to the bid.
use native.Mathlib.Decide.{dec_le}
use native.Mathlib.Nat.{mul-add, mul-zero}
use substrate_stablecoin.Prelude.{
  suc, ap, ◌∙◌, ℕ, ◌+◌, ◌-◌, ◌*◌, ◌/◌, ◌≤◌, ◌<◌, ◌≡◌, refl, some, inr, u64_mod, arith,
}
use substrate_stablecoin.Stablecoin.Types.{accuracy, Crates, Env, Bid}
use substrate_stablecoin.Stablecoin.Bids.{payment, remove_coins}

-- num_rational: what `checked_mul` returns is exact, `to_integer` drops the fraction, and a product
-- that fits is returned.
pub record RatioLaws (c : Crates) : Type 0 where
  pub exact : (n d k r : ℕ) → 0 < d → c.ratio_mul n d k ≡ some r → r ≡ n * k / d
  pub fits : (n d k : ℕ) → 0 < d → n * k < u64_mod → c.ratio_mul n d k ≡ some (n * k / d)

-- sp_runtime: `Perbill * n` is the product of the fraction, rounded to the nearest.
pub record PerbillLaws (c : Crates) : Type 0 where
  pub nearest_below :
      (p q : ℕ) → p ≤ accuracy → 2 * (c.perbill_mul p q * accuracy) ≤ 2 * (p * q) + accuracy
  pub nearest_above :
      (p q : ℕ) → p ≤ accuracy → 2 * (p * q) ≤ 2 * (c.perbill_mul p q * accuracy) + accuracy

div_bounds : (n d : ℕ) → 0 < d → (d * (n / d) ≤ n) × (n < d * (n / d) + d)
div_bounds n d h = omega arith

-- The arithmetic, with `m` the payment, `c` the coins taken, `r` the quantity removed at price `p`.
removed-le :
    (p q r c m : ℕ)
    → p * r ≤ accuracy * c
    → c < m
    → 2 * (m * accuracy) ≤ 2 * (p * q) + accuracy
    → r ≤ q
removed-le p q r c m h less below = elim (dec_le r q) [
  | yes le ↦ le
  | no gt ↦
      let over : suc q ≤ r = omega arith in
      let more : p * suc q ≤ p * r = grind arith in absurd (omega arith)
]

drift :
    (p q r c m m' : ℕ)
    → p ≤ accuracy
    → p * r ≤ accuracy * c
    → accuracy * c < p * r + p
    → r ≤ q
    → 2 * (m * accuracy) ≤ 2 * (p * q) + accuracy
    → 2 * (p * q) ≤ 2 * (m * accuracy) + accuracy
    → 2 * (m' * accuracy) ≤ 2 * (p * (q - r)) + accuracy
    → 2 * (p * (q - r)) ≤ 2 * (m' * accuracy) + accuracy
    → (m' + c ≤ m + 1) × (m ≤ m' + c + 1)
drift p q r c m m' unit lo hi le b a b' a' =
    let split : p * q ≡ p * (q - r) + p * r = ap (λ n. p * n) (omega arith) ∙ mul-add p (q - r) r in
    (omega arith, omega arith)

-- What a success of `remove_coins` says.
pub remove_coins_inv :
    (env : Env) (bid rest : Bid) (coins removed : ℕ)
    → remove_coins env bid coins ≡ inr (removed, rest)
    → (env.ratio_mul accuracy bid.price coins ≡ some removed)
      × (removed ≤ bid.quantity)
      × (rest ≡ record bid { quantity = bid.quantity - removed })
unfolding remove_coins
remove_coins_inv env bid rest coins removed e = ground arith

module _ (env : Env) (ratio : RatioLaws env.crates) (perbill : PerbillLaws env.crates) where
  -- Let the crates compute as documented and the price be above zero and at most one. Taking
  -- fewer coins than a bid has paid, and few enough for the conversion not to overflow, succeeds.
  -- The coins are converted at the bid's price, rounded down, and what the reduced bid is then
  -- worth differs from what it had paid, less the coins taken, by at most one coin.
  pub remove_coins_drift :
      (bid : Bid) (coins : ℕ)
      → 0 < bid.price
      → bid.price ≤ accuracy
      → coins < payment env bid
      → accuracy * coins < u64_mod
      → let removed = accuracy * coins / bid.price in
        let rest = record bid { quantity = bid.quantity - removed } in
        (remove_coins env bid coins ≡ inr (removed, rest))
        × (removed ≤ bid.quantity)
        × (payment env rest + coins ≤ payment env bid + 1)
        × (payment env bid ≤ payment env rest + coins + 1)
  unfolding remove_coins payment
  remove_coins_drift bid coins pos unit less small =
      let p = bid.price in
      let q = bid.quantity in
      let r = accuracy * coins / p in
      let m = env.perbill_mul p q in
      let (lo, hi) = div_bounds (accuracy * coins) p pos in
      let below = perbill.nearest_below p q unit in
      let le = removed-le p q r coins m lo less below in
      let (up, down) =
        drift p q r coins m (env.perbill_mul p (q - r)) unit lo hi le below
          (perbill.nearest_above p q unit) (perbill.nearest_below p (q - r) unit)
          (perbill.nearest_above p (q - r) unit) in
      (rw (ratio.fits accuracy p coins pos small, remove_coins) (ground arith), le, up, down)

  -- The same bounds whenever `remove_coins` succeeds, also for all that a bid has paid.
  pub remove_coins_worth :
      (bid rest : Bid) (coins removed : ℕ)
      → 0 < bid.price
      → bid.price ≤ accuracy
      → remove_coins env bid coins ≡ inr (removed, rest)
      → (rest.account ≡ bid.account)
        × (rest.price ≡ bid.price)
        × (payment env rest + coins ≤ payment env bid + 1)
        × (payment env bid ≤ payment env rest + coins + 1)
  unfolding payment
  remove_coins_worth bid rest coins removed pos unit e =
      let p = bid.price in
      let q = bid.quantity in
      let (got, le, same) = remove_coins_inv env bid rest coins removed e in
      let r = accuracy * coins / p in
      let is_r : removed ≡ r = ratio.exact accuracy p coins removed pos got in
      let (lo, hi) = div_bounds (accuracy * coins) p pos in
      let (up, down) =
        drift p q r coins (env.perbill_mul p q) (env.perbill_mul p (q - r)) unit lo hi (omega arith)
          (perbill.nearest_below p q unit) (perbill.nearest_above p q unit)
          (perbill.nearest_below p (q - r) unit) (perbill.nearest_above p (q - r) unit) in
      rw (same, is_r) (refl, refl, up, down)

  -- A bid for nothing has nothing to pay.
  pub payment-zero : (bid : Bid) → bid.price ≤ accuracy → bid.quantity ≡ 0 → payment env bid ≡ 0
  unfolding payment
  payment-zero bid unit e =
      rw e (omega (arith, perbill.nearest_below bid.price 0 unit, mul-zero bid.price))
