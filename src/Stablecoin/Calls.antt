-- ===== src/Stablecoin/Calls.antt =====
-- The dispatchable calls of the pallet (pallets/stablecoin/src/lib.rs). `origin` is what `system`'s
-- `ensure_signed` finds in the call's origin: the signer, or none, which is the error `bad_origin`.
pub mod Safety
pub mod Bidding
use substrate_stablecoin.Prelude.{ℕ, Option, Bool, List, [], ◌∷◌, ◌&&◌, ltb, leb, ◌==◌}
use substrate_stablecoin.Stablecoin.Types.{
  State, accuracy, Env, Bid, Event, new_bid, cancelled_bids_above, cancelled_bids_below,
  cancelled_bids, bond_price_over_100_percent, bond_price_too_low, bond_quantity_too_low,
  bad_origin,
}
use substrate_stablecoin.Stablecoin.Monad.{
  Action, Done, ok_or, ensure, modify, deposit_event, and_then, ◌>>=◌, ◌>>◌,
}
use substrate_stablecoin.Stablecoin.Balances.{transfer_from_to, remove_balance}
use substrate_stablecoin.Stablecoin.Bids.{payment, add_bid, cancel_bids}

unfoldable pub send_coins : Option ℕ → ℕ → ℕ → Action Done
send_coins origin to amount = do
  sender ← ok_or origin bad_origin
  transfer_from_to sender to amount
  deposit_event (Event.transfer sender to amount)

-- `Bid::new`.
abbrev pub new : ℕ → ℕ → ℕ → Bid
new account price quantity = record { account = account; price = price; quantity = quantity }

module _ (env : Env) where
  -- `Perbill::from_percent(100)` is a billion parts.
  unfoldable pub bid_for_bond : Option ℕ → ℕ → ℕ → Action Done
  bid_for_bond origin price quantity = do
    who ← ok_or origin bad_origin
    ensure (leb price accuracy) bond_price_over_100_percent
    ensure (ltb env.minimum_bond_price price) bond_price_too_low
    ensure (leb env.base_unit quantity) bond_quantity_too_low
    let bid = new who price quantity
    remove_balance who (payment env bid)
    modify (add_bid env bid)
    deposit_event (new_bid who price quantity)

  unfoldable pub cancel_bids_at_or_below : Option ℕ → ℕ → Action Done
  cancel_bids_at_or_below origin price = do
    who ← ok_or origin bad_origin
    modify (cancel_bids env (λ bid. (bid.account == who) && leb bid.price price))
    deposit_event (cancelled_bids_below who price)

  unfoldable pub cancel_bids_at_or_above : Option ℕ → ℕ → Action Done
  cancel_bids_at_or_above origin price = do
    who ← ok_or origin bad_origin
    modify (cancel_bids env (λ bid. (bid.account == who) && leb price bid.price))
    deposit_event (cancelled_bids_above who price)

  unfoldable pub cancel_all_bids : Option ℕ → Action Done
  cancel_all_bids origin = do
    who ← ok_or origin bad_origin
    modify (cancel_bids env (λ bid. bid.account == who))
    deposit_event (cancelled_bids who)

-- `enum Call`, and its dispatch.
pub data Call : Type 0 where
  send : ℕ → ℕ → Call
  bid : ℕ → ℕ → Call
  cancel_below cancel_above : ℕ → Call
  cancel_all : Call

unfoldable pub dispatch : Env → Option ℕ → Call → Action Done
unfolding send_coins bid_for_bond cancel_bids_at_or_below cancel_bids_at_or_above cancel_all_bids
dispatch env origin (send to amount) = send_coins origin to amount
dispatch env origin (bid price quantity) = bid_for_bond env origin price quantity
dispatch env origin (cancel_below price) = cancel_bids_at_or_below env origin price
dispatch env origin (cancel_above price) = cancel_bids_at_or_above env origin price
dispatch env origin cancel_all = cancel_all_bids env origin

-- The calls of a block, in order. A call that fails is followed by the next.
unfoldable pub run : Env → List (Option ℕ × Call) → State → State
run env [] s = s
run env ((origin, c) ∷ cs) s = run env cs (dispatch env origin c s).1
