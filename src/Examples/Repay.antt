-- ===== src/Examples/Repay.antt =====
-- A contraction and the expansion that pays its bonds, at concrete inputs.
use substrate_stablecoin.Prelude.{◌+◌, ◌≡◌, ◌<◌, refl, List, [], ◌∷◌, ◌++◌, arith, All, length}
use substrate_stablecoin.Deque
use substrate_stablecoin.Deque.Window
use substrate_stablecoin.PriorityQueue
use substrate_stablecoin.PriorityQueue.Defs
use substrate_stablecoin.Stablecoin.Types.{Bond, State, bond_index_mod}
use substrate_stablecoin.Stablecoin.Monad.{ok}
use substrate_stablecoin.Stablecoin.Balances.{get_balance}
use substrate_stablecoin.Stablecoin.Bids.{payment, remove_coins, refund_evicted}
use substrate_stablecoin.Stablecoin.Bids.Queue.{IsQueue}
use substrate_stablecoin.Stablecoin.Contract.{
  contract_supply, contract_loop, round, take_bid, convert, bond_for, goes_on, push_bonds, settle,
  emit_bonds,
}
use substrate_stablecoin.Stablecoin.Contract.Issue.{payouts}
use substrate_stablecoin.Stablecoin.Contract.Ring.{Adds}
use substrate_stablecoin.Stablecoin.Expand.{expand_supply}
use substrate_stablecoin.Stablecoin.Expand.Schedule.{bonds_in}
use substrate_stablecoin.Stablecoin.Repay.{gain, contracted, contract_supply-repays}
use substrate_stablecoin.Examples.Crates.{plain-RatioLaws, plain-PerbillLaws}
use substrate_stablecoin.Examples.Data.{
  env, state, high_bid, one_bond-BondsValid, two_shares-OneShareEach,
}

abbrev bidding : State
bidding = record state { bond_bids = high_bid ∷ [] }

bidding-IsQueue : IsQueue env bidding.bond_bids
bidding-IsQueue = record {
  sorted = (tt, tt);
  bounded = omega arith;
  priced = (record { above_minimum = omega arith; at_most_one = omega arith }, tt);
}

-- The stored bond of 700, and a new one of 600 for 300 coins at the price of a half.
promised : payouts (bonds_in (Deque.new (contracted env 300 bidding).bonds)) ≡ 1300
unfolding contract_supply contract_loop round take_bid convert bond_for goes_on push_bonds settle
    emit_bonds payment remove_coins Deque.new Deque.commit Deque.push_back PriorityQueue.push
    PriorityQueue.pop Window.window PriorityQueue.is_empty refund_evicted Defs.binary_search
promised = refl

old_live : All (λ (b : Bond). 50 < b.expiration) (bonds_in (Deque.new bidding.bonds))
unfolding Deque.new Window.window
old_live = (omega arith, tt)

few_bonds : length (bonds_in (Deque.new bidding.bonds)) + 1 < bond_index_mod
unfolding Deque.new Window.window
few_bonds = omega arith

contract_supply-repays_example :
    let (r, s') = contract_supply env bidding.coin_supply 300 bidding in
    let (r', end) = expand_supply s'.coin_supply 2000 (record s' { block_number = 50 }) in
    (r ≡ ok tt)
    × (r' ≡ ok tt)
    × (bonds_in (Deque.new end.bonds) ≡ [])
    × ((bonds : List Bond) × Adds env bonds bidding s'
        × (get_balance 2 end
            ≡ get_balance 2 s'
              + gain 2 2000 (bonds_in (Deque.new bidding.bonds) ++ bonds) bidding.shares))
unfolding payment
contract_supply-repays_example =
    contract_supply-repays env plain-RatioLaws plain-PerbillLaws 300 2000 50 2 bidding
      bidding-IsQueue one_bond-BondsValid few_bonds (omega arith) two_shares-OneShareEach
      (omega arith) (omega arith) (omega arith) (omega arith) old_live (omega arith)
      (omega (arith, promised))
