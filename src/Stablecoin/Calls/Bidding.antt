-- ===== src/Stablecoin/Calls/Bidding.antt =====
-- `bid_for_bond` as a whole: when it refuses a bid, and what becomes of one that enters a queue that may be
-- full.
use mathlib.Core.List.{Perm}
use substrate_stablecoin.Prelude.{
  ℕ, ◌+◌, ◌≤◌, ◌<◌, ◌≡◌, ◌⊎◌, List, [], ◌∷◌, ◌++◌, All, length, ◌==◌, select, if◌then◌else◌,
}
use substrate_stablecoin.Stablecoin.Types.{
  accuracy, Env, Bid, State, Error, insufficient_balance, bond_price_over_100_percent,
  bond_price_too_low, bond_quantity_too_low,
}
use substrate_stablecoin.Stablecoin.Balances.{get_balance}
use substrate_stablecoin.Stablecoin.Bids.{payment}
use substrate_stablecoin.Stablecoin.Bids.Escrow.{escrow}
use substrate_stablecoin.Stablecoin.Bids.Queue.{IsQueue}
use substrate_stablecoin.Stablecoin.Frame.{Frame}

module _ (env : Env) where
  -- What a bid at this price, for this quantity, by an account with this balance is refused for. Of several
  -- reasons it is the first.
  pub data IsRefused (price quantity balance : ℕ) (bid : Bid) : Error → Type 0 where
    over_one : accuracy < price → IsRefused price quantity balance bid bond_price_over_100_percent
    too_low :
        price ≤ accuracy
        → price ≤ env.minimum_bond_price
        → IsRefused price quantity balance bid bond_price_too_low
    too_little :
        price ≤ accuracy
        → env.minimum_bond_price < price
        → quantity < env.base_unit
        → IsRefused price quantity balance bid bond_quantity_too_low
    too_poor :
        price ≤ accuracy
        → env.minimum_bond_price < price
        → env.base_unit ≤ quantity
        → balance < payment env bid
        → IsRefused price quantity balance bid insufficient_balance

  -- An accepted bid takes `s` to `s'`: what it evicts, only from a full queue, one bid at most and none dearer
  -- than those that stay, is with what stays all the old bids and the new one; the bidder has paid, and
  -- the account of the evicted bid, which may be the new one itself, has its payment back.
  pub record Enters (bid : Bid) (s s' : State) : Type 0 where
    pub at_most_one : bid.price ≤ accuracy
    pub above_minimum : env.minimum_bond_price < bid.price
    pub enough : env.base_unit ≤ bid.quantity
    pub covered : payment env bid ≤ get_balance bid.account s
    pub evicted : List Bid
    pub few : length evicted ≤ 1
    pub only_if_full : (evicted ≡ []) ⊎ (length s.bond_bids ≡ env.maximum_bids)
    pub cheapest : All (λ e. All (λ b. e.price ≤ b.price) s'.bond_bids) evicted
    pub together : Perm (evicted ++ s'.bond_bids) (bid ∷ s.bond_bids)
    pub balances :
        (t : ℕ)
        → get_balance t s' + (if t == bid.account then payment env bid else 0)
          ≡ get_balance t s + escrow env (select (λ b. t == b.account) evicted)
    pub queue : IsQueue env s'.bond_bids
    pub frame : Frame s s'
