-- ===== src/PriceFetch/Average.antt =====
-- The average of `aggregate_pp`: it lies between the least and the greatest price.
use native.Mathlib.Nat.{le-div_iff_mul-le, div-le_of_le-mul, mul_comm, suc-mul}
use substrate_stablecoin.Prelude.{
  ℕ, ◌+◌, ◌*◌, ◌/◌, ◌≤◌, ◌<◌, ◌≡◌, refl, some, List, [], ◌∷◌, All, length, sum_by, add64, u64_mod,
  arith, Bytes, ◌==◌, false,
}
use substrate_stablecoin.PriceFetch.{Point, State, price_sum, aggregate_pp}

-- All prices, as a number that does not wrap.
abbrev pub prices : List Point → ℕ
prices = sum_by (λ point. point.1)

pub price_sum-eq :
    (mem : ℕ) (points : List Point)
    → mem + prices points < u64_mod
    → price_sum mem points ≡ mem + prices points
unfolding price_sum
price_sum-eq mem [] small = omega arith
price_sum-eq mem ((moment, price) ∷ points) small =
    let step : add64 mem price ≡ mem + price = omega arith in
    rw step (omega (arith, price_sum-eq (mem + price) points))

prices_bounds :
    (low high : ℕ) (points : List Point)
    → All (λ point. (low ≤ point.1) × (point.1 ≤ high)) points
    → (length points * low ≤ prices points) × (prices points ≤ length points * high)
prices_bounds low high [] h = (omega arith, omega arith)
prices_bounds low high ((moment, price) ∷ points) h =
    let (below, above) = prices_bounds low high points h.1 in
    (
      omega (arith, suc-mul (length points) low, h.0.0),
      omega (arith, suc-mul (length points) high, h.0.1),
    )

-- If a token has points, whose sum does not overflow, the call that `aggregate_pp` submits for it has
-- a price between any two bounds of the points' prices.
pub aggregate_pp-between :
    (symbol : Bytes) (low high : ℕ) (s : State)
    → 0 < length (s.src symbol)
    → prices (s.src symbol) < u64_mod
    → All (λ point. (low ≤ point.1) × (point.1 ≤ high)) (s.src symbol)
    → (price : ℕ) × (aggregate_pp symbol s ≡ some (symbol, price)) × (low ≤ price) × (price ≤ high)
unfolding aggregate_pp
aggregate_pp-between symbol low high s some_points small h =
    let points = s.src symbol in
    let n = length points in
    let sum = price_sum 0 points in
    let same : sum ≡ prices points = omega (arith, price_sum-eq 0 points) in
    let (below, above) = prices_bounds low high points h in
    let not_zero : (n == 0) ≡ false = ground arith in
    (
      sum / n,
      rw not_zero refl,
      (le-div_iff_mul-le some_points).1 (omega (arith, mul_comm low n, same, below)),
      div-le_of_le-mul n (omega (arith, same, above)),
    )
