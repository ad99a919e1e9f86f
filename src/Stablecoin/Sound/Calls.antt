-- ===== src/Stablecoin/Sound/Calls.antt =====
-- Every call, by any origin, keeps a sound state, and ends.
use substrate_stablecoin.Prelude.{ℕ, ◌-◌, ◌≡◌, refl, inl, inr, Option, none, some, Bool}
use substrate_stablecoin.Stablecoin.Types.{Env, State, Bid, Event}
use substrate_stablecoin.Stablecoin.Monad.{Result}
use substrate_stablecoin.Stablecoin.Frame.{Frame, Frame-refl, add_bid-Frame, cancel_bids-Frame}
use substrate_stablecoin.Stablecoin.Balances.{get_balance, set_balance}
use substrate_stablecoin.Stablecoin.Balances.Laws.{transfer_outcome}
use substrate_stablecoin.Stablecoin.Bids.{payment, cancel_bids, emit}
use substrate_stablecoin.Stablecoin.Bids.Queue.{IsQueue, add_bid-IsQueue, cancel_bids-IsQueue}
use substrate_stablecoin.Stablecoin.Calls.{
  send_coins, new, bid_for_bond, Call, send, bid, cancel_below, cancel_above, cancel_all, dispatch,
}
use substrate_stablecoin.Stablecoin.Calls.Safety.{bid_for_bond_cases}
use substrate_stablecoin.Stablecoin.Sound.{IsSound, HasEnded}

-- The queue and all that the frame says.
record Keeps (env : Env) (s s' : State) : Type 0 where
  queue : IsQueue env s'.bond_bids
  frame : Frame s s'

module _ (env : Env) where
  Keeps-refl : (s : State) → IsQueue env s.bond_bids → Keeps env s s
  Keeps-refl s q = record { queue = q; frame = Frame-refl s }

  -- How a call has ended, and what it has kept.
  abbrev Kept : {A : Type 0} → State → Result A × State → Type 0
  Kept s out = HasEnded out × Keeps env s out.1

  send_coins-Kept :
      (sender to amount : ℕ) (s : State)
      → IsQueue env s.bond_bids
      → Kept s (send_coins (some sender) to amount s)
  unfolding send_coins
  send_coins-Kept sender to amount s q = elim (transfer_outcome sender to amount s) [
    | inl (e, _) ↦ rw e (tt, Keeps-refl s q)
    | inr (inl (e, _)) ↦ rw e (tt, Keeps-refl s q)
    | inr (inr (e, _)) ↦ rw e (
      tt,
      record {
        queue = q;
        frame = record {
          same_shares = refl;
          same_supply = refl;
          same_bonds = refl;
          same_block = refl;
        };
      },
    )
  ]

  bid_for_bond-Kept :
      (who price quantity : ℕ) (s : State)
      → IsQueue env s.bond_bids
      → Kept s (bid_for_bond env (some who) price quantity s)
  bid_for_bond-Kept who price quantity s q =
      let b = new who price quantity in
      let paid = set_balance who (get_balance who s - payment env b) s in
      elim (bid_for_bond_cases env who price quantity s) [
        | inl (e, _) ↦ rw e (tt, Keeps-refl s q)
        | inr (inl (e, _, _)) ↦ rw e (tt, Keeps-refl s q)
        | inr (inr (inl (e, _, _, _))) ↦ rw e (tt, Keeps-refl s q)
        | inr (inr (inr (inl (e, _, _, _)))) ↦ rw e (tt, Keeps-refl s q)
        | inr (inr (inr (inr (e, covered, priced, _)))) ↦
            let f = add_bid-Frame env b paid in
            rw e (
              tt,
              record {
                queue = add_bid-IsQueue env b paid q priced;
                frame = record {
                  same_shares = f.same_shares;
                  same_supply = f.same_supply;
                  same_bonds = f.same_bonds;
                  same_block = f.same_block;
                };
              },
            )
      ]

  cancelled-Kept :
      (f : Bid → Bool) (e : Event) (s : State)
      → IsQueue env s.bond_bids
      → Keeps env s (emit e (cancel_bids env f s))
  cancelled-Kept f e s q =
      let g = cancel_bids-Frame env f s in
      record {
        queue = cancel_bids-IsQueue env f s q;
        frame = record {
          same_shares = g.same_shares;
          same_supply = g.same_supply;
          same_bonds = g.same_bonds;
          same_block = g.same_block;
        };
      }

  dispatch-Kept :
      (origin : Option ℕ) (c : Call) (s : State)
      → IsQueue env s.bond_bids
      → Kept s (dispatch env origin c s)
  unfolding dispatch
  dispatch-Kept (some who) (send to amount) s q = send_coins-Kept who to amount s q
  dispatch-Kept (some who) (bid price quantity) s q = bid_for_bond-Kept who price quantity s q
  dispatch-Kept (some who) (cancel_below price) s q = (tt, cancelled-Kept _ _ s q)
  dispatch-Kept (some who) (cancel_above price) s q = (tt, cancelled-Kept _ _ s q)
  dispatch-Kept (some who) cancel_all s q = (tt, cancelled-Kept _ _ s q)
  dispatch-Kept none (send to amount) s q = (tt, Keeps-refl s q)
  dispatch-Kept none (bid price quantity) s q = (tt, Keeps-refl s q)
  dispatch-Kept none (cancel_below price) s q = (tt, Keeps-refl s q)
  dispatch-Kept none (cancel_above price) s q = (tt, Keeps-refl s q)
  dispatch-Kept none cancel_all s q = (tt, Keeps-refl s q)

  -- No call changes the supply.
  pub dispatch-supply :
      (origin : Option ℕ) (c : Call) (s : State)
      → IsSound env s
      → (dispatch env origin c s).1.coin_supply ≡ s.coin_supply
  dispatch-supply origin c s h = (dispatch-Kept origin c s h.queue).1.frame.same_supply

  pub dispatch-IsSound :
      (origin : Option ℕ) (c : Call) (s : State)
      → IsSound env s
      → HasEnded (dispatch env origin c s) × IsSound env (dispatch env origin c s).1
  dispatch-IsSound origin c s h =
      let (ends, k) = dispatch-Kept origin c s h.queue in
      let f = k.frame in
      (
        ends,
        record {
          queue = k.queue;
          bonds = rw f.same_bonds h.bonds;
          shares = rw f.same_shares h.shares;
          fits = rw f.same_supply h.fits;
          minimum = rw f.same_supply h.minimum;
        },
      )
