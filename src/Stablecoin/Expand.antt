-- ===== src/Stablecoin/Expand.antt =====
-- `expand_supply` (pallets/stablecoin/src/lib.rs): new coins pay the oldest bonds first, and what is
-- left of them goes to the shareholders.
pub mod Payment
pub mod Loop
pub mod Supply
pub mod Twice
pub mod Schedule
pub mod Accounts
use substrate_stablecoin.Prelude.{
  ℕ, zero, suc, ◌+◌, ◌-◌, Bool, true, false, Option, none, some, checked_add, ltb, leb, ◌==◌,
  if◌then◌else◌,
}
use substrate_stablecoin.Deque
use substrate_stablecoin.Deque.{Deque}
use substrate_stablecoin.Stablecoin.Types.{
  Bond, State, bond_expired, bond_fulfilled, bond_partially_fulfilled, expanded_supply,
  coin_supply_overflow, bond_index_mod, default_bond,
}
use substrate_stablecoin.Stablecoin.Monad.{
  Result, ok, err, panic, out_of_fuel, Action, Done, gets, ok_or, modify, and_then, ◌>>=◌, ◌>>◌,
}
use substrate_stablecoin.Stablecoin.Balances.{add_balance}
use substrate_stablecoin.Stablecoin.Bids.{emit}
use substrate_stablecoin.Stablecoin.HandOut.{hand_out_coins}

-- The loop's variables: the transient adapter of the bonds, and the coins still to be given out.
pub record Expansion : Type 0 where
  pub bonds : Deque Bond
  pub remaining : ℕ

-- Where a round goes: `continue`, or `break`.
pub data Flow : Type 0 where
  continues breaks : Flow

-- The loop's body on the bond that was popped; `e` has the bonds that are left. In the last case the
-- event carries the payout that is left, and `remaining` stays as it was.
unfoldable pub pay_bond : Expansion → Bond → State → Flow × Expansion × State
unfolding add_balance
pay_bond e bond s =
    if leb bond.expiration s.block_number
    then (continues, e, emit (bond_expired bond.account bond.payout) s)
    else if leb bond.payout e.remaining
    then (
      continues,
      record e { remaining = e.remaining - bond.payout },
      emit (bond_fulfilled bond.account bond.payout) (add_balance bond.account bond.payout s),
    )
    else (
      breaks,
      record e {
        bonds =
            Deque.push_front bond_index_mod e.bonds
              (record bond { payout = bond.payout - e.remaining });
      },
      emit (bond_partially_fulfilled bond.account (bond.payout - e.remaining))
          (add_balance bond.account e.remaining s),
    )

-- `if remaining > 0 { bonds.pop_front() } else { None }`.
unfoldable pub next_bond : Expansion → Option Bond × Expansion
next_bond e =
    let (bond, bonds) = Deque.pop_front bond_index_mod default_bond e.bonds in
    if ltb 0 e.remaining then (bond, record e { bonds = bonds }) else (none, e)

-- The `while let` loop.
unfoldable pub expand_loop : ℕ → Expansion → Action Expansion
expand_loop zero e s = (out_of_fuel, s)
expand_loop (suc fuel) e s = elim (next_bond e).0 [
  | none ↦ (ok (next_bond e).1, s)
  | some bond ↦
      let (flow, e', s') = pay_bond (next_bond e).1 bond s in
      elim flow [ continues ↦ expand_loop fuel e' s' | breaks ↦ (ok e', s') ]
]

-- What follows the loop. `coin_supply + amount` cannot wrap after the check at the start. The
-- `expect` on the hand-out turns its error into a panic.
unfoldable pub expect {ℓ} : {A : Type ℓ} → Result A × State → Result A × State
expect (ok a, s) = (ok a, s)
expect (err e, s) = (panic, s)
expect (panic, s) = (panic, s)
expect (out_of_fuel, s) = (out_of_fuel, s)

unfoldable pub hand_out_rest : (coin_supply amount : ℕ) → Expansion → Action Done
unfolding expect
hand_out_rest coin_supply amount e s =
    let new_supply = coin_supply + amount - e.remaining in
    if ltb 0 e.remaining
    then expect (hand_out_coins s.shares e.remaining new_supply s)
    else (ok tt, record s { coin_supply = new_supply })

-- The adapter writes its bounds back when it is dropped at the end; the map it writes at once.
unfoldable pub store_bonds : Deque Bond → State → State
store_bonds q s = record s { bonds = Deque.commit q }

-- The fuel is one more than the bonds: each round takes one for good, but the last.
unfoldable pub expand_supply : (coin_supply amount : ℕ) → Action Done
unfolding hand_out_rest store_bonds
expand_supply coin_supply amount = do
  ok_or (checked_add coin_supply amount) coin_supply_overflow
  bonds ← gets (λ s. Deque.new s.bonds)
  e ← expand_loop (suc bonds.length) (record { bonds = bonds; remaining = amount })
  hand_out_rest coin_supply amount e
  modify (λ s. emit (expanded_supply amount) (store_bonds e.bonds s))
