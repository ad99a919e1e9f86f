-- ===== src/Examples/Supply.antt =====
-- Contractions, expansions, hand-outs and the start of a block at concrete inputs.
use substrate_stablecoin.Prelude.{
  ℕ, ◌+◌, ◌*◌, ◌≤◌, ◌<◌, ◌≡◌, refl, ◌⊎◌, some, List, [], ◌∷◌, length, u64_mod, arith,
}
use substrate_stablecoin.Deque
use substrate_stablecoin.Deque.Refine.{length-contents}
use substrate_stablecoin.Stablecoin.Types.{
  Bond, coin_supply_underflow, coin_supply_overflow, bond_index_mod, default_bond,
}
use substrate_stablecoin.Stablecoin.Monad.{ok, err, panic}
use substrate_stablecoin.Stablecoin.Ledger.{total}
use substrate_stablecoin.Stablecoin.Contract.{contract_supply}
use substrate_stablecoin.Stablecoin.Contract.Supply.{Burns, contract_supply-Burns}
use substrate_stablecoin.Stablecoin.HandOut.{hand_out_coins}
use substrate_stablecoin.Stablecoin.HandOut.Split.{even_split, hand_out_coins_splits}
use substrate_stablecoin.Stablecoin.Balances.{get_balance}
use substrate_stablecoin.Stablecoin.Balances.Payments.{paid_to}
use substrate_stablecoin.Stablecoin.Contract.Ring.{Adds, contract_supply-Adds}
use substrate_stablecoin.Stablecoin.Expand.Schedule.{pays_out, bonds_in}
use substrate_stablecoin.Stablecoin.Expand.Accounts.{expand_supply_refines}
use substrate_stablecoin.Stablecoin.HandOut.Shortfall.{hand_out_coins_shortfall}
use substrate_stablecoin.Stablecoin.Expand.{expand_supply}
use substrate_stablecoin.Stablecoin.Expand.Supply.{Expands, expand_supply_pays}
use substrate_stablecoin.Stablecoin.Expand.Twice.{expand_supply_pays_twice}
use substrate_stablecoin.Stablecoin.Block.{calculate_supply_change, on_initialize}
use substrate_stablecoin.Stablecoin.Block.Change.{Near, calculate_supply_change-Near}
use substrate_stablecoin.Stablecoin.Block.Steering.{Steers, on_initialize-Steers}
use substrate_stablecoin.Stablecoin.Genesis.{build, build_cases}
use substrate_stablecoin.Examples.Crates.{plain-RatioLaws, plain-PerbillLaws, plain-FixedLaws}
use substrate_stablecoin.Examples.Data.{
  env, state, bond, two_shares, two_bids-IsQueue, held_small, one_bond-BondsValid,
  two_shares-OneShareEach,
}

contract_supply-Burns_example :
    let (r, s') = contract_supply env 8900 600 state in
    ((8900 < 600 + env.minimum_supply) × (r ≡ err coin_supply_underflow) × (s' ≡ state))
    ⊎ ((r ≡ ok tt) × ((burned : ℕ) × Burns env 8900 600 burned state s'))
contract_supply-Burns_example =
    contract_supply-Burns env plain-RatioLaws plain-PerbillLaws 8900 600 state two_bids-IsQueue
      held_small

-- More than the bond is owed, so that the shareholders get the rest.
expand_supply_pays_example :
    let (r, s') = expand_supply 8900 1000 state in
    ((u64_mod ≤ 8900 + 1000) × (r ≡ err coin_supply_overflow) × (s' ≡ state))
    ⊎ ((r ≡ ok tt) × Expands 8900 1000 state s')
expand_supply_pays_example =
    expand_supply_pays 8900 1000 state one_bond-BondsValid two_shares-OneShareEach (omega arith)
      (omega arith) (omega arith)

first_bond : (Deque.pop_front bond_index_mod default_bond (Deque.new state.bonds)).0 ≡ some bond
unfolding Deque.new Deque.pop_front
first_bond = refl

expand_supply_pays_twice_example :
    let (r, s') = expand_supply 8900 300 state in
    (r ≡ ok tt) × (s'.coin_supply ≡ 8900 + 300) × (total s'.balance ≡ total state.balance + 2 * 300)
expand_supply_pays_twice_example =
    expand_supply_pays_twice 8900 300 bond state first_bond (omega arith) (omega arith)
      (omega arith) (omega arith) two_shares-OneShareEach (omega arith) (omega arith) (omega arith)

-- Two shareholders with five shares: 14 coins are two for each share, and four are left over.
abbrev five_shares : List (ℕ × ℕ)
five_shares = (1, 2) ∷ (2, 3) ∷ []

hand_out_coins_shortfall_example :
    let (r, s') = hand_out_coins five_shares 14 8900 state in
    (r ≡ ok tt) × (s'.coin_supply ≡ 8900 + 14) × (total s'.balance < total state.balance + 14)
hand_out_coins_shortfall_example =
    hand_out_coins_shortfall five_shares 14 8900 state (omega arith) (omega arith) (omega arith)
      (omega arith) (omega arith)

calculate_supply_change-Near_example :
    (change : ℕ) × (calculate_supply_change env 1200 1000 8900 ≡ ok change)
    × Near 1200 1000 8900 change
calculate_supply_change-Near_example =
    calculate_supply_change-Near env 1200 1000 8900 plain-FixedLaws (omega arith) (omega arith)
      (omega arith) (omega arith)

room :
    (change : ℕ)
    → 0 < 900
    → Near env.base_unit 900 state.coin_supply change
    → total state.balance + 2 * change < u64_mod
room change pos near = omega (arith, near.below)

on_initialize-Steers_example :
    let (r, s') = on_initialize env 20 900 state in (r ≡ ok tt) × Steers env 20 900 state s'
on_initialize-Steers_example =
    on_initialize-Steers env plain-RatioLaws plain-PerbillLaws plain-FixedLaws 20 900 state
      (omega arith) (omega arith) (omega arith) (omega arith) (omega arith) two_bids-IsQueue
      held_small one_bond-BondsValid two_shares-OneShareEach (omega arith) (omega arith) room

build_cases_example :
    let (r, s') = build env two_shares state in
    ((r ≡ panic)
      × ((env.initial_supply ≤ env.minimum_supply) ⊎ (length two_shares ≡ 0))
      × (s' ≡ state))
    ⊎ ((r ≡ ok tt)
        × (env.minimum_supply < env.initial_supply)
        × (0 < length two_shares)
        × (s'.coin_supply ≡ state.coin_supply + env.initial_supply)
        × (total s'.balance ≡ total state.balance + env.initial_supply)
        × (s'.shares ≡ two_shares))
build_cases_example =
    build_cases env two_shares state two_shares-OneShareEach (omega arith) (omega arith)
      (omega arith)

contract_supply-Adds_example :
    let (r, s') = contract_supply env state.coin_supply 600 state in
    (r ≡ ok tt) × ((bonds : List Bond) × Adds env bonds state s')
unfolding Deque.new
contract_supply-Adds_example =
    contract_supply-Adds env plain-RatioLaws plain-PerbillLaws 600 state two_bids-IsQueue
      one_bond-BondsValid
      (omega (arith, length-contents bond_index_mod default_bond (Deque.new state.bonds)))
      (omega arith)

-- The bond is owed more than the amount.
expand_supply_refines_example :
    let plan = pays_out state.block_number 300 (bonds_in (Deque.new state.bonds)) in
    let (r, end) = expand_supply 8900 300 state in
    (r ≡ ok tt)
    × (end.coin_supply ≡ 8900 + 300)
    × (bonds_in (Deque.new end.bonds) ≡ plan.left)
    × (get_balance 2 end
        ≡ get_balance 2 state
          + paid_to 2 plan.payments
          + paid_to 2 (even_split plan.rest state.shares))
expand_supply_refines_example =
    expand_supply_refines 8900 300 2 state one_bond-BondsValid two_shares-OneShareEach (omega arith)
      (omega arith) (omega arith) (omega arith)

hand_out_coins_splits_example :
    let (r, s') = hand_out_coins two_shares 301 8900 state in
    (r ≡ ok tt) × (get_balance 1 s' ≡ get_balance 1 state + paid_to 1 (even_split 301 two_shares))
hand_out_coins_splits_example =
    hand_out_coins_splits two_shares 301 8900 1 state two_shares-OneShareEach (omega arith)
      (omega arith) (omega arith) (omega arith)

-- The shares and the schedule are computed.
split_301 : even_split 301 two_shares ≡ (1, 151) ∷ (2, 150) ∷ []
split_301 = refl
