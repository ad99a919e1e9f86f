-- ===== src/Stablecoin/Bids.antt =====
-- Bids (pallets/stablecoin/src/lib.rs): what a bid costs, how it is reduced, and how it enters and
-- leaves the queue. The operations that cannot fail are plain functions on the state.
pub mod Escrow
pub mod Queue
pub mod Remove
use substrate_stablecoin.Prelude.{
  ℕ, ◌-◌, Bool, Option, none, some, List, [], ◌∷◌, ◌++◌, ◌⊎◌, inl, inr, checked_sub, if◌then◌else◌,
}
use substrate_stablecoin.PriorityQueue.{push}
use substrate_stablecoin.Stablecoin.Types.{
  accuracy, Env, Bid, BidError, overflow, underflow, Event, refunded_bid, State,
}
use substrate_stablecoin.Stablecoin.Balances.{add_balance}

-- `Ord for Bid`: bids compare by their price.
abbrev pub bid_key : Bid → ℕ
bid_key bid = bid.price

-- `Self::deposit_event`.
abbrev pub emit : Event → State → State
emit e s = record s { events = s.events ++ (e ∷ []) }

module _ (env : Env) where
  unfoldable pub payment : Bid → ℕ
  payment bid = env.perbill_mul bid.price bid.quantity

  -- The removed quantity and the reduced bid. On an error the bid stays as it was. `Ratio::new`
  -- panics at a price of zero, which no bid of a queue has; what `ratio_mul` answers there is open.
  unfoldable pub remove_coins : Bid → ℕ → BidError ⊎ (ℕ × Bid)
  remove_coins bid coins = elim (env.ratio_mul accuracy bid.price coins) [
    | none ↦ inl overflow
    | some removed ↦ elim (checked_sub bid.quantity removed) [
      | none ↦ inl underflow
      | some rest ↦ inr (removed, record bid { quantity = rest })
    ]
  ]

  unfoldable pub refund_bid : Bid → State → State
  unfolding payment add_balance
  refund_bid bid s =
      emit (refunded_bid bid.account (payment bid)) (add_balance bid.account (payment bid) s)

  -- `.map(|to_refund| Self::refund_bid(&to_refund))` on what a push evicts.
  unfoldable pub refund_evicted : Option Bid → State → State
  unfolding refund_bid
  refund_evicted none s = s
  refund_evicted (some bid) s = refund_bid bid s

  -- The queue is written back when the adapter is dropped, at the end of the statement.
  unfoldable pub add_bid : Bid → State → State
  unfolding refund_evicted
  add_bid bid s =
      let (evicted, bids) = push bid_key env.maximum_bids s.bond_bids bid in
      record (refund_evicted evicted s) { bond_bids = bids }

  -- `bids.retain(…)`, from the front: the bids that stay, and the state after the refunds.
  unfoldable pub retain : (Bid → Bool) → List Bid → State → List Bid × State
  unfolding refund_bid
  retain cancel_for [] s = ([], s)
  retain cancel_for (bid ∷ bids) s =
      let (kept, s') = retain cancel_for bids (if cancel_for bid then refund_bid bid s else s) in
      if cancel_for bid then (kept, s') else (bid ∷ kept, s')

  unfoldable pub cancel_bids : (Bid → Bool) → State → State
  unfolding retain
  cancel_bids cancel_for s =
      let (kept, s') = retain cancel_for s.bond_bids s in record s' { bond_bids = kept }
