-- ===== src/Stablecoin/Currency.antt =====
-- `impl BasicCurrency for Module` (pallets/stablecoin/src/lib.rs): how other pallets see the coins.
pub mod Slash
use substrate_stablecoin.Prelude.{ℕ, ◌-◌, Bool, true, saturating_sub, ltb, leb, ◌==◌, if◌then◌else◌}
use substrate_stablecoin.Stablecoin.Types.{State, other}
use substrate_stablecoin.Stablecoin.Monad.{ok, err, Action, Done}
use substrate_stablecoin.Stablecoin.Balances.{get_balance, set_balance, transfer_from_to}

unfoldable pub total_issuance : State → ℕ
total_issuance s = s.coin_supply

unfoldable pub total_balance : ℕ → State → ℕ
unfolding get_balance
total_balance who s = get_balance who s

unfoldable pub free_balance : ℕ → State → ℕ
unfolding get_balance
free_balance who s = get_balance who s

-- The error is `DispatchError::Other`.
unfoldable pub ensure_can_withdraw : (who amount : ℕ) → Action Done
ensure_can_withdraw who amount s = if amount == 0 then (ok tt, s) else (err other, s)

unfoldable pub transfer : (sender receiver amount : ℕ) → Action Done
transfer sender receiver amount = transfer_from_to sender receiver amount

unfoldable pub deposit : (who amount : ℕ) → Action Done
deposit who amount s = (err other, s)

unfoldable pub withdraw : (who amount : ℕ) → Action Done
withdraw who amount s = (err other, s)

unfoldable pub can_slash : (who value : ℕ) → State → Bool
unfolding get_balance
can_slash who value s = if value == 0 then true else leb value (get_balance who s)

-- The answer is what is left of the amount: what could not be slashed.
unfoldable pub slash : (who amount : ℕ) → State → ℕ × State
unfolding get_balance
slash who amount s =
    let b = get_balance who s in
    if ltb b amount
    then (amount - b, set_balance who 0 s)
    else (0, set_balance who (saturating_sub b amount) s)
