-- ===== src/Stablecoin/Contract.antt =====
-- `contract_supply` (pallets/stablecoin/src/lib.rs): bids become bonds, dearest first, until the
-- wanted amount of coins is out of circulation or no bid is left.
pub mod Rounds
pub mod Taking
pub mod Loop
pub mod Supply
pub mod Issue
pub mod Ring
use substrate_stablecoin.Prelude.{
  ℕ, zero, suc, ◌+◌, ◌-◌, Bool, true, false, not, ◌&&◌, Option, none, some, List, [], ◌∷◌, ◌++◌,
  ◌⊎◌, inl, inr, checked_sub, saturating_sub, length, ltb, leb, if◌then◌else◌,
}
use substrate_stablecoin.Deque
use substrate_stablecoin.Deque.{Deque}
use substrate_stablecoin.PriorityQueue.{push, pop, is_empty}
use substrate_stablecoin.Stablecoin.Types.{
  Env, Bid, BidError, Bond, State, Event, new_bond, contracted_supply, coin_supply_underflow,
  bond_index_mod, add_block,
}
use substrate_stablecoin.Stablecoin.Monad.{
  Result, ok, panic, out_of_fuel, Action, Done, gets, ok_or, ensure, modify, and_then, ◌>>=◌, ◌>>◌,
}
use substrate_stablecoin.Stablecoin.Bids.{
  bid_key, emit, payment, remove_coins, refund_bid, refund_evicted,
}

-- The loop's variables: the bids of the transient adapter, the coins still to be taken out, and the
-- bonds made so far.
pub record Contraction : Type 0 where
  pub bids : List Bid
  pub remaining : ℕ
  pub bonds : List Bond

-- `while remaining > 0 && !bids.is_empty()`.
unfoldable pub goes_on : Contraction → Bool
goes_on c = ltb 0 c.remaining && not (is_empty c.bids)

module _ (env : Env) where
  -- `Self::new_bond`, at the block that the state is in.
  unfoldable pub bond_for : ℕ → ℕ → State → Bond
  bond_for account payout s = record {
    account = account;
    payout = payout;
    expiration = add_block s.block_number env.expiration_period;
  }

  -- A bid that covers the rest, once `remove_coins` has answered.
  unfoldable pub convert : Contraction → Bid → BidError ⊎ (ℕ × Bid) → State → Contraction × State
  convert c bid (inl e) s = (c, refund_bid env bid s)
  convert c bid (inr (removed, bid')) s =
      let bonds = c.bonds ++ (bond_for bid.account removed s ∷ []) in
      let (evicted, bids) = push bid_key env.maximum_bids c.bids bid' in
      if ltb 0 bid'.quantity
      then (record { bids = bids; remaining = 0; bonds = bonds }, refund_evicted env evicted s)
      else (record c { remaining = 0; bonds = bonds }, s)

  -- The loop's body on the bid that was popped; `c` has the bids that are left.
  unfoldable pub take_bid : Contraction → Bid → State → Contraction × State
  take_bid c bid s =
      if leb c.remaining (payment env bid)
      then convert c bid (remove_coins env bid c.remaining) s
      else (
        record c {
          remaining = c.remaining - payment env bid;
          bonds = c.bonds ++ (bond_for bid.account bid.quantity s ∷ []);
        },
        s,
      )

  -- One round. The panic is the `expect` on `pop`, which the loop's test rules out.
  unfoldable pub round : Contraction → Action Contraction
  round c s = elim (pop c.bids).0 [
    | none ↦ (panic, s)
    | some bid ↦ let (c', s') = take_bid (record c { bids = (pop c.bids).1 }) bid s in (ok c', s')
  ]

  unfoldable pub contract_loop : ℕ → Contraction → Action Contraction
  contract_loop zero c s = (out_of_fuel, s)
  contract_loop (suc fuel) c s = elim (goes_on c) [
    | false ↦ (ok c, s)
    | true ↦ and_then (round c s) (contract_loop fuel)
  ]

-- The two loops over the new bonds: their events, and their places in the ring.
unfoldable pub emit_bonds : List Bond → State → State
emit_bonds [] s = s
emit_bonds (bond ∷ bonds) s =
    emit_bonds bonds (emit (new_bond bond.account bond.payout bond.expiration) s)

unfoldable pub push_bonds : Deque Bond → List Bond → Deque Bond
push_bonds q [] = q
push_bonds q (bond ∷ bonds) = push_bonds (Deque.push_back bond_index_mod q bond) bonds

-- From the end of the loop on. The two adapters write back when they are dropped at the end.
unfoldable pub settle : ℕ → ℕ → Contraction → State → State
unfolding emit_bonds push_bonds
settle coin_supply amount c s =
    let burned = saturating_sub amount c.remaining in
    let q = push_bonds (Deque.new s.bonds) c.bonds in
    record (emit (contracted_supply burned) (emit_bonds c.bonds s)) {
      coin_supply = saturating_sub coin_supply burned;
      bonds = Deque.commit q;
      bond_bids = c.bids;
    }

-- The fuel is one more than the bids: each round takes one for good, but the last.
unfoldable pub contract_supply : Env → ℕ → ℕ → Action Done
unfolding settle
contract_supply env coin_supply amount = do
  remaining_supply ← ok_or (checked_sub coin_supply amount) coin_supply_underflow
  ensure (not (ltb remaining_supply env.minimum_supply)) coin_supply_underflow
  bids ← gets (λ s. s.bond_bids)
  c ← contract_loop env (suc (length bids)) (record { bids = bids; remaining = amount; bonds = [] })
  modify (settle coin_supply amount c)
