-- ===== src/Stablecoin/Calls/Safety.antt =====
-- The calls as a whole: a call that fails changes nothing, and no sequence of calls makes or loses a
-- coin or breaks the bidding queue.
use native.Mathlib.Decide.{dec_lt, dec_le}
use substrate_stablecoin.Prelude.{
  ℕ, ◌+◌, ◌-◌, ◌≤◌, ◌<◌, ◌≡◌, ◌≢◌, ◌⊎◌, inl, inr, refl, List, [], ◌∷◌, u64_mod, arith, ◌∙◌, All,
  Option, none, some, Bool,
}
use substrate_stablecoin.Stablecoin.Types.{
  accuracy, Env, Bid, State, insufficient_balance, bond_price_over_100_percent, bond_price_too_low,
  bond_quantity_too_low, Event, new_bid,
}
use substrate_stablecoin.Stablecoin.Monad.{Result, ok, err, panic, out_of_fuel}
use substrate_stablecoin.Stablecoin.Balances.{set_balance, get_balance}
use substrate_stablecoin.Stablecoin.Balances.Laws.{
  transfer_outcome, transfer_to_self, transfer-moves, total-moved, remove_balance_cases,
  total-debit,
}
use substrate_stablecoin.Stablecoin.Bids.{payment, add_bid, cancel_bids, emit}
use substrate_stablecoin.Stablecoin.Bids.Escrow.{held, held-add_bid, cancel_bids_lem}
use substrate_stablecoin.Stablecoin.Bids.Queue.{
  IsQueue, IsPriced, add_bid-IsQueue, cancel_bids-IsQueue,
}
use substrate_stablecoin.Stablecoin.Frame.{
  Frame, Frame-refl, Frame-trans, cancel_bids-Frame, add_bid-Frame,
}
use substrate_stablecoin.Stablecoin.Calls.{
  send_coins, new, bid_for_bond, Call, send, bid, cancel_below, cancel_above, cancel_all, dispatch,
  run,
}

-- What a call has done, by how it ended: a success satisfies `P`; an error leaves the state alone.
abbrev pub Atomic : {A : Type 0} → State → (State → Type 0) → Result A × State → Type 0
Atomic s P (ok a, s') = P s'
Atomic s P (err e, s') = s' ≡ s
Atomic s P (panic, s') = ⊥
Atomic s P (out_of_fuel, s') = ⊥

module _ (env : Env) where
  -- What every call keeps: the coins that exist, a well-formed queue, and the rest of the storage.
  pub record Safe (s s' : State) : Type 0 where
    pub conserved : held env s' ≡ held env s
    pub queue : IsQueue env s'.bond_bids
    pub frame : Frame s s'

  send_coins-Safe :
      (sender to amount : ℕ) (s : State)
      → sender ≢ to
      → IsQueue env s.bond_bids
      → Atomic s (Safe s) (send_coins (some sender) to amount s)
  unfolding send_coins
  send_coins-Safe sender to amount s ne q = elim (transfer_outcome sender to amount s) [
    | inl (e, short) ↦ rw e refl
    | inr (inl (e, over)) ↦ rw e refl
    | inr (inr (e, covered)) ↦ rw e (record {
      conserved = omega (arith, total-moved sender to amount s ne covered);
      queue = q;
      frame = record {
        same_shares = refl;
        same_supply = refl;
        same_bonds = refl;
        same_block = refl;
      };
    })
  ]

  -- A bid is refused for a reason that applies, and changes nothing then; otherwise its
  -- payment moves from the balance into escrow.
  pub bid_for_bond_cases :
      (who price quantity : ℕ) (s : State)
      → let bid = new who price quantity in
        ((bid_for_bond env (some who) price quantity s ≡ (err bond_price_over_100_percent, s))
          × (accuracy < price))
        ⊎ ((bid_for_bond env (some who) price quantity s ≡ (err bond_price_too_low, s))
            × (price ≤ accuracy)
            × (price ≤ env.minimum_bond_price))
        ⊎ ((bid_for_bond env (some who) price quantity s ≡ (err bond_quantity_too_low, s))
            × (price ≤ accuracy)
            × (env.minimum_bond_price < price)
            × (quantity < env.base_unit))
        ⊎ ((bid_for_bond env (some who) price quantity s ≡ (err insufficient_balance, s))
            × IsPriced env bid
            × (env.base_unit ≤ quantity)
            × (get_balance who s < payment env bid))
        ⊎ ((bid_for_bond env (some who) price quantity s ≡ (
          ok tt,
          emit
              (new_bid who price quantity)
              (add_bid env bid (set_balance who (get_balance who s - payment env bid) s)),
        ))
            × (payment env bid ≤ get_balance who s)
            × IsPriced env bid
            × (env.base_unit ≤ quantity))
  unfolding bid_for_bond
  bid_for_bond_cases who price quantity s = elim (dec_le price accuracy) [
    | no dear ↦ inl (ground arith, omega arith)
    | yes one ↦ elim (dec_lt env.minimum_bond_price price) [
      | no cheap ↦ inr (inl (ground arith, one, omega arith))
      | yes above ↦ elim (dec_le env.base_unit quantity) [
        | no little ↦ inr (inr (inl (ground arith, one, above, omega arith)))
        | yes enough ↦ elim (remove_balance_cases who (payment env (new who price quantity)) s) [
          | inl (e, short) ↦ inr (
              inr (
                inr (
                  inl (
                    ground arith,
                    record { above_minimum = above; at_most_one = one },
                    enough,
                    short,
                  ))))
          | inr (e, covered) ↦ inr (
              inr (
                inr (
                  inr (
                    ground arith,
                    covered,
                    record { above_minimum = above; at_most_one = one },
                    enough,
                  ))))
        ]
      ]
    ]
  ]

  bid_for_bond-Safe :
      (who price quantity : ℕ) (s : State)
      → held env s < u64_mod
      → IsQueue env s.bond_bids
      → Atomic s (Safe s) (bid_for_bond env (some who) price quantity s)
  bid_for_bond-Safe who price quantity s small q =
      let bid = new who price quantity in
      let paid = set_balance who (get_balance who s - payment env bid) s in
      elim (bid_for_bond_cases who price quantity s) [
        | inl (e, _) ↦ rw e refl
        | inr (inl (e, _, _)) ↦ rw e refl
        | inr (inr (inl (e, _, _, _))) ↦ rw e refl
        | inr (inr (inr (inl (e, _, _, _)))) ↦ rw e refl
        | inr (inr (inr (inr (e, covered, priced, _)))) ↦ rw e (record {
          conserved =
              omega (arith, total-debit who (payment env bid) s covered, held-add_bid env bid paid);
          queue = add_bid-IsQueue env bid paid q priced;
          frame =
              let f = add_bid-Frame env bid paid in
              record {
                same_shares = f.same_shares;
                same_supply = f.same_supply;
                same_bonds = f.same_bonds;
                same_block = f.same_block;
              };
        })
      ]

  cancelled-Safe :
      (f : Bid → Bool) (e : Event) (s : State)
      → held env s < u64_mod
      → IsQueue env s.bond_bids
      → Safe s (emit e (cancel_bids env f s))
  cancelled-Safe f e s small q = record {
    conserved = (cancel_bids_lem env f s small).2;
    queue = cancel_bids-IsQueue env f s q;
    frame =
        let g = cancel_bids-Frame env f s in
        record {
          same_shares = g.same_shares;
          same_supply = g.same_supply;
          same_bonds = g.same_bonds;
          same_block = g.same_block;
        };
  }

  -- The one call that the theorem leaves out: coins sent to oneself.
  abbrev pub NotToSelf : Option ℕ × Call → Type 0
  NotToSelf (some who, send to amount) = who ≢ to
  NotToSelf (origin, c) = Unit

  -- From a well-formed queue and coins that fit a balance, every call but a transfer to oneself
  -- ends with a value or an error. On an error the storage is as before; a success keeps the
  -- coins that exist, a well-formed queue, and the shares, the supply, the bonds and the block.
  pub dispatch-Safe :
      (origin : Option ℕ) (c : Call) (s : State)
      → NotToSelf (origin, c)
      → held env s < u64_mod
      → IsQueue env s.bond_bids
      → Atomic s (Safe s) (dispatch env origin c s)
  unfolding dispatch
  dispatch-Safe (some who) (send to amount) s ne small q = send_coins-Safe who to amount s ne q
  dispatch-Safe (some who) (bid price quantity) s ne small q =
      bid_for_bond-Safe who price quantity s small q
  dispatch-Safe (some who) (cancel_below price) s ne small q = cancelled-Safe _ _ s small q
  dispatch-Safe (some who) (cancel_above price) s ne small q = cancelled-Safe _ _ s small q
  dispatch-Safe (some who) cancel_all s ne small q = cancelled-Safe _ _ s small q
  dispatch-Safe none (send to amount) s ne small q = refl
  dispatch-Safe none (bid price quantity) s ne small q = refl
  dispatch-Safe none (cancel_below price) s ne small q = refl
  dispatch-Safe none (cancel_above price) s ne small q = refl
  dispatch-Safe none cancel_all s ne small q = refl

  -- The state after a call, whether it succeeded or not.
  pub after-Safe :
      {A : Type 0} (s : State) (out : Result A × State)
      → IsQueue env s.bond_bids
      → Atomic s (Safe s) out
      → Safe s out.1
  after-Safe s (ok a, s') q h = h
  after-Safe s (err e, s') q h = rw h (record { conserved = refl; queue = q; frame = Frame-refl s })
  after-Safe s (panic, s') q h = absurd h
  after-Safe s (out_of_fuel, s') q h = absurd h

  -- From a well-formed queue and coins that fit a balance, no sequence of calls makes or loses a
  -- coin, spoils the queue, or changes the shares, the supply, the bonds or the block, if no
  -- account sends coins to itself.
  pub run-Safe :
      (cs : List (Option ℕ × Call)) (s : State)
      → All NotToSelf cs
      → held env s < u64_mod
      → IsQueue env s.bond_bids
      → Safe s (run env cs s)
  unfolding run
  run-Safe [] s ne small q = record { conserved = refl; queue = q; frame = Frame-refl s }
  run-Safe ((origin, c) ∷ cs) s ne small q =
      let s' = (dispatch env origin c s).1 in
      let one = after-Safe s (dispatch env origin c s) q (dispatch-Safe origin c s ne.0 small q) in
      let rest = run-Safe cs s' ne.1 (omega (arith, one.conserved)) one.queue in
      record {
        conserved = rest.conserved ∙ one.conserved;
        queue = rest.queue;
        frame = Frame-trans one.frame rest.frame;
      }

  -- An amount that the signer has, sent to oneself, is made from nothing if the balance has room:
  -- the signer and the sum gain it, and the supply stays.
  pub send_coins_to_self :
      (who amount : ℕ) (s : State)
      → amount ≤ get_balance who s
      → get_balance who s + amount < u64_mod
      → let (r, s') = dispatch env (some who) (send who amount) s in
        (r ≡ ok tt)
        × (get_balance who s' ≡ get_balance who s + amount)
        × (held env s' ≡ held env s + amount)
        × (s'.coin_supply ≡ s.coin_supply)
  unfolding dispatch get_balance
  send_coins_to_self who amount s covered fits =
      let self =
        rw (transfer-moves who who amount s covered fits) at
          (transfer_to_self who amount s covered fits) in
      rw (transfer-moves who who amount s covered fits) (refl, self.1, omega (arith, self.2), refl)
