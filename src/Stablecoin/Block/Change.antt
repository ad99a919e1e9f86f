-- ===== src/Stablecoin/Block/Change.antt =====
-- The amount of `calculate_supply_change`, with fixed-point numbers of 64 fractional bits.
use native.Mathlib.Decide.{dec_lt}
use native.Mathlib.Nat.{
  mul-le-mul_right, mul-lt-mul_of_pos_right, le_of_mul-le-mul_right, lt_of_mul-lt-mul_left,
  mul_comm, mul_right_comm, div-mul-le_self, add-mul, suc-mul, lt-div-mul-add, div-eq_of_lt-le,
  div-le_self, le-div_iff_mul-le, mul-div-mul_right,
}
use substrate_stablecoin.Prelude.{
  ℕ, suc, ◌+◌, ◌-◌, ◌*◌, ◌/◌, ◌^◌, ◌≤◌, ◌<◌, ◌≡◌, ◌∙◌, sym, ap, refl, ◌⊎◌, inl, inr, min, u64_mod,
  u64_max, arith, false, ◌==◌,
}
use substrate_stablecoin.Stablecoin.Types.{Env, Crates}
use substrate_stablecoin.Stablecoin.Monad.{ok}
use substrate_stablecoin.Stablecoin.Block.{calculate_supply_change}

-- What fixed documents for `FixedU128<U64>` in range: a number is `2^64` times its value; a quotient
-- and a conversion to an integer round down; the product saturates.
pub record FixedLaws (crates : Crates) : Type 0 where
  pub from_num : (n : ℕ) → n < u64_mod → crates.fix_from_num n ≡ n * u64_mod
  pub div : (a b : ℕ) → 0 < b → a * u64_mod / b < 2 ^ 128 → crates.fix_div a b ≡ a * u64_mod / b
  pub sub : (a b : ℕ) → b ≤ a → a < 2 ^ 128 → crates.fix_sub a b ≡ a - b
  pub mul_int :
      (a n : ℕ) → a < 2 ^ 128 → crates.fix_saturating_mul_int a n ≡ min (a * n) (2 ^ 128 - 1)
  pub to_num : (a : ℕ) → a < 2 ^ 128 → crates.fix_to_num a ≡ a / u64_mod

-- The change of the supply in exact arithmetic, times the denominator: how close the result is.
pub record Near (n d s r : ℕ) : Type 0 where
  pub below : r * d ≤ (n - d) * s
  pub above : ((n - d) * s < (r + 2) * d) ⊎ (r ≡ u64_max)

-- The excess `f` of the quotient over one, against its exact value.
excess-bounds :
    (n d w f : ℕ)
    → 0 < d
    → d ≤ n
    → f ≡ n * w / d - w
    → (f * d ≤ (n - d) * w) × ((n - d) * w < f * d + d)
excess-bounds n d w f pos le e =
    let q = n * w / d in
    let low : q * d ≤ n * w = div-mul-le_self (n * w) d in
    let high : n * w < q * d + d = lt-div-mul-add pos in
    let split : (n - d) * w + d * w ≡ n * w =
      sym (add-mul (n - d) d w) ∙ ap (λ x. x * w) (omega arith) in
    let one : w ≤ q = (le-div_iff_mul-le pos).1 (omega (arith, mul_comm w d, split)) in
    let sum : f * d + w * d ≡ q * d = sym (add-mul f w d) ∙ ap (λ x. x * d) (omega arith) in
    (omega (arith, low, split, sum, mul_comm w d), omega (arith, high, split, sum, mul_comm w d))

below-lem : (f d m w s r : ℕ) → f * d ≤ m * w → r * w ≤ f * s → 0 < w → r * d ≤ m * s
below-lem f d m w s r h₁ h₂ pos =
    let a : r * w * d ≤ f * s * d = mul-le-mul_right d h₂ in
    let b : f * d * s ≤ m * w * s = mul-le-mul_right s h₁ in
    le_of_mul-le-mul_right {k = w}
      (omega (arith, a, b, mul_right_comm r w d, mul_right_comm f s d, mul_right_comm m w s)) pos

above-lem :
    (f d m w s r : ℕ)
    → m * w < f * d + d
    → f * s < (r + 1) * w
    → s < w
    → 0 < d
    → m * s < (r + 2) * d
above-lem f d m w s r h₁ h₂ small pos =
    let a : m * w * s ≤ (f * d + d) * s = mul-le-mul_right s (omega arith) in
    let b : f * s * d < (r + 1) * w * d = mul-lt-mul_of_pos_right h₂ pos in
    let c : s * d < w * d = mul-lt-mul_of_pos_right small pos in
    let next : r + 2 ≡ suc (r + 1) = omega arith in
    let e : (r + 2) * d ≡ (r + 1) * d + d = ap (λ x. x * d) next ∙ suc-mul (r + 1) d in
    let g : ((r + 1) * d + d) * w ≡ (r + 1) * d * w + d * w = add-mul ((r + 1) * d) d w in
    let k : (f * d + d) * s ≡ f * d * s + d * s = add-mul (f * d) d s in
    let l : m * s * w < (r + 2) * d * w = rw e (
      omega (
        arith,
        a,
        b,
        c,
        g,
        k,
        mul_right_comm m w s,
        mul_right_comm f s d,
        mul_right_comm (r + 1) w d,
        mul_comm w d,
        mul_comm s d,
      )) in
    lt_of_mul-lt-mul_left w (omega (arith, l, mul_comm w (m * s), mul_comm w ((r + 2) * d)))

-- A product that saturates at the largest number of twice the bits has the largest integer part.
product-bounds :
    (f s w r : ℕ)
    → 0 < w
    → r ≡ min (f * s) (w * w - 1) / w
    → (r * w ≤ f * s) × ((f * s < (r + 1) * w) ⊎ (r ≡ w - 1))
product-bounds f s w r pos e =
    let p = min (f * s) (w * w - 1) in
    let low : p / w * w ≤ p = div-mul-le_self p w in
    let high : p < p / w * w + w = lt-div-mul-add pos in
    let same : r * w ≡ p / w * w = ap (λ x. x * w) e in
    let next : (r + 1) * w ≡ r * w + w = ap (λ x. x * w) (omega arith) ∙ suc-mul r w in
    let back : w ≡ suc (w - 1) = omega arith in
    let back' : w - 1 + 1 ≡ suc (w - 1) = omega arith in
    let whole : w * w ≡ (w - 1) * w + w = ap (λ x. x * w) back ∙ suc-mul (w - 1) w in
    let up : (w - 1 + 1) * w ≡ (w - 1) * w + w = ap (λ x. x * w) back' ∙ suc-mul (w - 1) w in
    let full : (w * w - 1) / w ≡ w - 1 =
      div-eq_of_lt-le w (omega (arith, whole)) (omega (arith, whole, up)) in
    (
      omega (arith, low, same),
      elim (dec_lt (f * s) (w * w)) [
        | yes fits ↦ inl (omega (arith, high, same, next))
        | no over ↦ inr (e ∙ ap (λ x. x / w) (omega arith) ∙ full)
      ],
    )

change_bits :
    (env : Env) (n d s : ℕ)
    → FixedLaws env.crates
    → 0 < d
    → d ≤ n
    → n < u64_mod
    → let f = n * u64_mod / d - u64_mod in
      calculate_supply_change env n d s ≡ ok (min (f * s) (2 ^ 128 - 1) / u64_mod)
unfolding calculate_supply_change
change_bits env n d s laws pos le fits =
    let q = n * u64_mod / d in
    let f = q - u64_mod in
    let w_pos : 0 < u64_mod = omega arith in
    let scaled : n * u64_mod * u64_mod / (d * u64_mod) ≡ q =
      mul-div-mul_right (n * u64_mod) d w_pos in
    let small : q < 2 ^ 128 = omega (arith, div-le_self (n * u64_mod) d) in
    let one : u64_mod ≤ q = (le-div_iff_mul-le pos).1 (omega arith) in
    let quotient : env.fix_div (n * u64_mod) (d * u64_mod) ≡ q =
      laws.div (n * u64_mod) (d * u64_mod) (omega arith) (rw scaled small) ∙ scaled in
    let not_zero : (d == 0) ≡ false = ground arith in
    rw
      (
        not_zero,
        laws.from_num n fits,
        laws.from_num d (omega arith),
        laws.from_num 1 (omega arith),
        quotient,
        laws.sub q u64_mod one small,
        laws.mul_int f s (omega arith),
        laws.to_num (min (f * s) (2 ^ 128 - 1)) (omega arith),
      )
      refl

-- Let fixed compute as documented, the numerator be at least the denominator, that be above zero,
-- and all fit a `u64`. Then the change is what the price's distance from the base unit asks for,
-- rounded down, and short of it by less than two coins, unless it saturates at the largest number.
pub calculate_supply_change-Near :
    (env : Env) (numerator denominator supply : ℕ)
    → FixedLaws env.crates
    → 0 < denominator
    → denominator ≤ numerator
    → numerator < u64_mod
    → supply < u64_mod
    → (change : ℕ) × (calculate_supply_change env numerator denominator supply ≡ ok change)
      × Near numerator denominator supply change
calculate_supply_change-Near env n d s laws pos le fits small =
    let f = n * u64_mod / d - u64_mod in
    let r = min (f * s) (2 ^ 128 - 1) / u64_mod in
    let (under, over) = excess-bounds n d u64_mod f pos le refl in
    let (low, high) = product-bounds f s u64_mod r (omega arith) refl in
    (
      r,
      change_bits env n d s laws pos le fits,
      record {
        below = below-lem f d (n - d) u64_mod s r under low (omega arith);
        above = elim high [
          | inl h ↦ inl (above-lem f d (n - d) u64_mod s r over h small pos)
          | inr top ↦ inr top
        ];
      },
    )
