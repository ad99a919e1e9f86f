-- ===== src/Stablecoin/Sound/Block.antt =====
-- The start of a block keeps a sound state and ends well, at any price.
use native.Mathlib.Decide.{dec_lt}
use substrate_stablecoin.Prelude.{ℕ, ◌<◌, ◌≡◌, ◌%◌, refl, inl, inr, arith, false, ◌==◌}
use substrate_stablecoin.Stablecoin.Types.{Env, State}
use substrate_stablecoin.Stablecoin.Monad.{Result, ok, err, panic, out_of_fuel, Done}
use substrate_stablecoin.Stablecoin.Contract.{contract_supply}
use substrate_stablecoin.Stablecoin.Expand.{expand_supply}
use substrate_stablecoin.Stablecoin.Block.{
  calculate_supply_change, expand_or_contract_on_price, on_initialize,
}
use substrate_stablecoin.Stablecoin.Block.Steering.{
  Ends, contract_on_price-eq, expand_on_price-eq, drop_error-Ends, on_price-above, on_price-below,
  on_price-rest, on_block-due, on_block-not_due,
}
use substrate_stablecoin.Stablecoin.Sound.{IsSound, HasEnded}
use substrate_stablecoin.Stablecoin.Sound.Contract.{contract_supply-IsSound}
use substrate_stablecoin.Stablecoin.Sound.Expand.{expand_supply-IsSound}

-- An end in the one sense is an end in the other.
HasEnded-Ends : (x : Result Done × State) → HasEnded x → Ends x.0
HasEnded-Ends (ok done, s) h = inl refl
HasEnded-Ends (err e, s) h = inr (e, refl)
HasEnded-Ends (panic, s) h = absurd h
HasEnded-Ends (out_of_fuel, s) h = absurd h

module _ (env : Env) where
  pub change_some :
      (n d supply : ℕ) → 0 < d → (change : ℕ) × (calculate_supply_change env n d supply ≡ ok change)
  unfolding calculate_supply_change
  change_some n d supply pos =
      let not_zero : (d == 0) ≡ false = ground arith in
      let fraction =
        env.fix_sub (env.fix_div (env.fix_from_num n) (env.fix_from_num d)) (env.fix_from_num 1) in
      (env.fix_to_num (env.fix_saturating_mul_int fraction supply), rw not_zero refl)

  pub on_price-IsSound :
      (price : ℕ) (s : State)
      → 0 < env.base_unit
      → IsSound env s
      → let out = expand_or_contract_on_price env price s in Ends out.0 × IsSound env out.1
  on_price-IsSound price s pos h = elim (dec_lt env.base_unit price) [
    | yes above ↦
        let (change, e) = change_some price env.base_unit s.coin_supply pos in
        let (ends, sound) = contract_supply-IsSound env change s h in
        rw (on_price-above env price s above, contract_on_price-eq env price change s e)
          (HasEnded-Ends (contract_supply env s.coin_supply change s) ends, sound)
    | no not_above ↦ elim (dec_lt 0 price) [
      | no none ↦ let (r, same) = on_price-rest env price s (inl (omega arith)) in (r, rw same h)
      | yes some_price ↦ elim (dec_lt price env.base_unit) [
        | yes under ↦
            let (change, e) = change_some env.base_unit price s.coin_supply some_price in
            let (ends, sound) = expand_supply-IsSound env change s h in
            rw
              (on_price-below env price s some_price under, expand_on_price-eq env price change s e)
              (HasEnded-Ends (expand_supply s.coin_supply change s) ends, sound)
        | no not_under ↦
            let (r, same) = on_price-rest env price s (inr (omega arith)) in (r, rw same h)
      ]
    ]
  ]

  -- If the frequency and the base unit are not zero, the start of any block at any price, from a sound
  -- state, ends without a panic in a sound state.
  pub on_initialize-IsSound :
      (n price : ℕ) (s : State)
      → 0 < env.adjustment_frequency
      → 0 < env.base_unit
      → IsSound env s
      → let (r, s') = on_initialize env n price s in (r ≡ ok tt) × IsSound env s'
  unfolding on_initialize
  on_initialize-IsSound n price s freq pos h = elim (dec_lt 0 (n % env.adjustment_frequency)) [
    | no due ↦
        let (ends, sound) = on_price-IsSound price s pos h in
        rw
          (
            on_block-due env n price s freq (omega arith),
            drop_error-Ends (expand_or_contract_on_price env price s) ends,
          )
          (refl, sound)
    | yes not_due ↦ rw (on_block-not_due env n price s freq (omega arith)) (refl, h)
  ]
