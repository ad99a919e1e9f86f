-- ===== src/Stablecoin/Frame.antt =====
-- What the balance and bid operations leave alone: all storage but balances, bids and events.
use substrate_stablecoin.Prelude.{
  ℕ, ◌≡◌, ◌∙◌, refl, Bool, List, [], ◌∷◌, Option, none, some, Bool-cases, inl, inr,
}
use substrate_stablecoin.Stablecoin.Types.{Env, Bid, State}
use substrate_stablecoin.Stablecoin.Balances.{add_balance}
use substrate_stablecoin.Stablecoin.Bids.{refund_bid, refund_evicted, add_bid, retain, cancel_bids}
use substrate_stablecoin.PriorityQueue.{push}
use substrate_stablecoin.Stablecoin.Bids.{bid_key}

pub record Frame (s s' : State) : Type 0 where
  pub same_shares : s'.shares ≡ s.shares
  pub same_supply : s'.coin_supply ≡ s.coin_supply
  pub same_bonds : s'.bonds ≡ s.bonds
  pub same_block : s'.block_number ≡ s.block_number

pub Frame-trans : {s t u : State} → Frame s t → Frame t u → Frame s u
Frame-trans f g = record {
  same_shares = g.same_shares ∙ f.same_shares;
  same_supply = g.same_supply ∙ f.same_supply;
  same_bonds = g.same_bonds ∙ f.same_bonds;
  same_block = g.same_block ∙ f.same_block;
}

pub Frame-refl : (s : State) → Frame s s
Frame-refl s = record {
  same_shares = refl;
  same_supply = refl;
  same_bonds = refl;
  same_block = refl;
}

pub add_balance-Frame : (account amount : ℕ) (s : State) → Frame s (add_balance account amount s)
unfolding add_balance
add_balance-Frame account amount s = record {
  same_shares = refl;
  same_supply = refl;
  same_bonds = refl;
  same_block = refl;
}

module _ (env : Env) where
  pub refund_bid-Frame : (bid : Bid) (s : State) → Frame s (refund_bid env bid s)
  unfolding refund_bid
  refund_bid-Frame bid s = record {
    same_shares = refl;
    same_supply = refl;
    same_bonds = refl;
    same_block = refl;
  }

  pub same_bids-refund_bid :
      (bid : Bid) (s : State) → (refund_bid env bid s).bond_bids ≡ s.bond_bids
  unfolding refund_bid
  same_bids-refund_bid bid s = refl

  pub refund_evicted-Frame :
      (evicted : Option Bid) (s : State)
      → Frame s (refund_evicted env evicted s)
        × ((refund_evicted env evicted s).bond_bids ≡ s.bond_bids)
  unfolding refund_evicted
  refund_evicted-Frame none s = (Frame-refl s, refl)
  refund_evicted-Frame (some bid) s = (refund_bid-Frame bid s, refl)

  pub add_bid-Frame : (bid : Bid) (s : State) → Frame s (add_bid env bid s)
  unfolding add_bid
  add_bid-Frame bid s =
      let out = (push bid_key env.maximum_bids s.bond_bids bid).0 in
      let f = (refund_evicted-Frame out s).0 in
      record {
        same_shares = f.same_shares;
        same_supply = f.same_supply;
        same_bonds = f.same_bonds;
        same_block = f.same_block;
      }

  retain-Frame : (f : Bid → Bool) (bids : List Bid) (s : State) → Frame s (retain env f bids s).1
  unfolding retain
  retain-Frame f [] s = Frame-refl s
  retain-Frame f (bid ∷ bids) s = elim (Bool-cases (f bid)) [
    | inl e ↦
        rw (e, retain)
          (Frame-trans (refund_bid-Frame bid s) (retain-Frame f bids (refund_bid env bid s)))
    | inr e ↦ rw (e, retain) (retain-Frame f bids s)
  ]

  pub cancel_bids-Frame : (f : Bid → Bool) (s : State) → Frame s (cancel_bids env f s)
  unfolding cancel_bids
  cancel_bids-Frame f s =
      let g = retain-Frame f s.bond_bids s in
      record {
        same_shares = g.same_shares;
        same_supply = g.same_supply;
        same_bonds = g.same_bonds;
        same_block = g.same_block;
      }

pub bond_bids-add_balance :
    (account amount : ℕ) (s : State) → (add_balance account amount s).bond_bids ≡ s.bond_bids
unfolding add_balance
bond_bids-add_balance account amount s = refl
