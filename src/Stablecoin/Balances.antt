-- ===== src/Stablecoin/Balances.antt =====
-- Balances of the pallet (pallets/stablecoin/src/lib.rs): a transfer, and the two updates that the
-- other parts make.
pub mod Laws
pub mod Payments
use substrate_stablecoin.Prelude.{ℕ, Option, none, some, checked_add, checked_sub, saturating_add}
use substrate_stablecoin.Stablecoin.Types.{State, Error, insufficient_balance, balance_overflow}
use substrate_stablecoin.Stablecoin.Monad.{
  Result, ok, err, Action, Done, gets, ok_or, modify, and_then, ◌>>=◌, ◌>>◌,
}
use substrate_stablecoin.Stablecoin.Ledger.{get, insert}

unfoldable pub get_balance : ℕ → State → ℕ
get_balance account s = get account s.balance

abbrev pub set_balance : ℕ → ℕ → State → State
set_balance account b s = record s { balance = insert account b s.balance }

-- Both balances are read before either is written.
unfoldable pub transfer_from_to : ℕ → ℕ → ℕ → Action Done
unfolding get_balance
transfer_from_to sender receiver amount = do
  from_balance ← gets (get_balance sender)
  updated_from_balance ← ok_or (checked_sub from_balance amount) insufficient_balance
  receiver_balance ← gets (get_balance receiver)
  updated_to_balance ← ok_or (checked_add receiver_balance amount) balance_overflow
  modify (set_balance sender updated_from_balance)
  modify (set_balance receiver updated_to_balance)

-- `mutate` with `saturating_add`.
unfoldable pub add_balance : ℕ → ℕ → State → State
unfolding get_balance
add_balance account amount s = set_balance account (saturating_add (get_balance account s) amount) s

-- `try_mutate`: the map is written only if the subtraction succeeds.
unfoldable pub remove_balance : ℕ → ℕ → Action Done
unfolding get_balance
remove_balance account amount = do
  b ← gets (get_balance account)
  updated ← ok_or (checked_sub b amount) insufficient_balance
  modify (set_balance account updated)
