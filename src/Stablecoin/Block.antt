-- ===== src/Stablecoin/Block.antt =====
-- The adjustment of the supply at the start of a block (pallets/stablecoin/src/lib.rs). The price
-- that `T::CoinPrice::fetch_price()` answers is an argument.
pub mod Change
pub mod Steering
use substrate_stablecoin.Prelude.{ℕ, zero, suc, Bool, ◌%◌, ltb, ◌==◌, if◌then◌else◌}
use substrate_stablecoin.Stablecoin.Types.{Env, State, zero_price}
use substrate_stablecoin.Stablecoin.Monad.{
  Result, ok, err, panic, out_of_fuel, Action, Done, gets, lift, and_then, ◌>>=◌,
}
use substrate_stablecoin.Stablecoin.Contract.{contract_supply}
use substrate_stablecoin.Stablecoin.Expand.{expand_supply}

-- An error is logged and dropped.
unfoldable pub drop_error : Result Done × State → Result Done × State
drop_error (ok a, s) = (ok a, s)
drop_error (err e, s) = (ok tt, s)
drop_error (panic, s) = (panic, s)
drop_error (out_of_fuel, s) = (out_of_fuel, s)

module _ (env : Env) where
  -- A denominator of zero is divided by, and panics.
  unfoldable pub calculate_supply_change : (numerator denominator supply : ℕ) → Result ℕ
  calculate_supply_change numerator denominator supply =
      if denominator == 0
      then panic
      else (let fraction =
            env.fix_sub (env.fix_div (env.fix_from_num numerator) (env.fix_from_num denominator))
              (env.fix_from_num 1) in
          ok (env.fix_to_num (env.fix_saturating_mul_int fraction supply)))

  unfoldable pub contract_on_price : ℕ → Action Done
  unfolding calculate_supply_change
  contract_on_price price = do
    supply ← gets (λ s. s.coin_supply)
    contract_by ← lift (calculate_supply_change price env.base_unit supply)
    contract_supply env supply contract_by

  unfoldable pub expand_on_price : ℕ → Action Done
  unfolding calculate_supply_change
  expand_on_price price = do
    supply ← gets (λ s. s.coin_supply)
    expand_by ← lift (calculate_supply_change env.base_unit price supply)
    expand_supply supply expand_by

  -- The four arms of the `match`, in their order.
  unfoldable pub expand_or_contract_on_price : ℕ → Action Done
  expand_or_contract_on_price price s =
      if price == 0
      then (err zero_price, s)
      else if ltb env.base_unit price
      then contract_on_price price s
      else if ltb price env.base_unit
      then expand_on_price price s
      else (ok tt, s)

  -- A frequency of zero is divided by, and panics.
  unfoldable pub on_block_with_price : (block price : ℕ) → Action Done
  on_block_with_price block price s =
      if env.adjustment_frequency == 0
      then (panic, s)
      else if block % env.adjustment_frequency == 0
      then expand_or_contract_on_price price s
      else (ok tt, s)

  unfoldable pub on_initialize : (n price : ℕ) → Action Done
  unfolding on_block_with_price drop_error
  on_initialize n price s = drop_error (on_block_with_price n price s)
