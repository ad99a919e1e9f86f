-- ===== src/Stablecoin/Sound/Growth.antt =====
-- How much the start of a block can add to the supply: the shortfall of the price, and no more.
use native.Mathlib.Decide.{dec_lt}
use native.Mathlib.Nat.{mul-le-mul, mul-le-mul_left, add-mul, mul_comm}
use substrate_stablecoin.Prelude.{
  ℕ, ◌+◌, ◌-◌, ◌*◌, ◌≤◌, ◌<◌, ◌≡◌, ◌∙◌, sym, ap, inl, inr, arith, u64_mod, ◌%◌,
}
use substrate_stablecoin.Stablecoin.Types.{Env, State}
use substrate_stablecoin.Stablecoin.Block.{expand_or_contract_on_price, on_initialize}
use substrate_stablecoin.Stablecoin.Block.Change.{FixedLaws, calculate_supply_change-Near}
use substrate_stablecoin.Stablecoin.Block.Steering.{
  contract_on_price-eq, expand_on_price-eq, drop_error-Ends, on_price-above, on_price-below,
  on_price-rest, on_block-due, on_block-not_due,
}
use substrate_stablecoin.Stablecoin.Sound.{IsSound}
use substrate_stablecoin.Stablecoin.Sound.Contract.Effect.{contract_supply-supply}
use substrate_stablecoin.Stablecoin.Sound.Expand.Effect.{expand_supply-supply}
use substrate_stablecoin.Stablecoin.Sound.Block.{change_some, on_price-IsSound}

-- A change that the price's shortfall covers makes the supply larger by the ratio of unit and price at most.
grown-lem :
    (s s' change price unit low : ℕ)
    → s' ≤ s + change
    → change * price ≤ (unit - price) * s
    → price ≤ unit
    → low ≤ price
    → s' * low ≤ s * unit
grown-lem s s' change price unit low le near under above =
    let a : s' * low ≤ (s + change) * price = mul-le-mul le above in
    let b : (s + change) * price ≡ s * price + change * price = add-mul s change price in
    let c : price * s + (unit - price) * s ≡ unit * s =
      sym (add-mul price (unit - price) s) ∙ ap (λ x. x * s) (omega arith) in
    omega (arith, a, b, c, mul_comm price s, mul_comm unit s)

module _ (env : Env) (laws : FixedLaws env.crates) (low : ℕ) (low_unit : low ≤ env.base_unit)
    (pos : 0 < env.base_unit) (unit_small : env.base_unit < u64_mod) where
  on_price-supply :
      (price : ℕ) (s : State)
      → low ≤ price
      → IsSound env s
      → (expand_or_contract_on_price env price s).1.coin_supply * low
        ≤ s.coin_supply * env.base_unit
  on_price-supply price s above_low h = elim (dec_lt env.base_unit price) [
    | yes above ↦
        let (change, e) = change_some env price env.base_unit s.coin_supply pos in
        rw (on_price-above env price s above, contract_on_price-eq env price change s e)
          (mul-le-mul (contract_supply-supply env change s h) low_unit)
    | no not_above ↦ elim (dec_lt 0 price) [
      | no none ↦
          let (_, same) = on_price-rest env price s (inl (omega arith)) in
          rw same (mul-le-mul_left s.coin_supply low_unit)
      | yes some_price ↦ elim (dec_lt price env.base_unit) [
        | yes under ↦
            let (change, e, near) =
              calculate_supply_change-Near env env.base_unit price s.coin_supply laws some_price
                (omega arith) unit_small h.fits in
            rw
              (on_price-below env price s some_price under, expand_on_price-eq env price change s e)
              (grown-lem s.coin_supply _ change price env.base_unit low
                (expand_supply-supply env change s h) near.below (omega arith) above_low)
        | no not_under ↦
            let (_, same) = on_price-rest env price s (inr (omega arith)) in
            rw same (mul-le-mul_left s.coin_supply low_unit)
      ]
    ]
  ]

  pub on_initialize-supply :
      (n price : ℕ) (s : State)
      → 0 < env.adjustment_frequency
      → low ≤ price
      → IsSound env s
      → (on_initialize env n price s).1.coin_supply * low ≤ s.coin_supply * env.base_unit
  unfolding on_initialize
  on_initialize-supply n price s freq above_low h = elim (dec_lt 0 (n % env.adjustment_frequency)) [
    | no due ↦
        let (ends, _) = on_price-IsSound env price s pos h in
        rw
          (
            on_block-due env n price s freq (omega arith),
            drop_error-Ends (expand_or_contract_on_price env price s) ends,
          )
          (on_price-supply price s above_low h)
    | yes not_due ↦
        rw (on_block-not_due env n price s freq (omega arith))
          (mul-le-mul_left s.coin_supply low_unit)
  ]
