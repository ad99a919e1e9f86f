-- ===== src/Stablecoin/Contract/Taking.antt =====
-- What a round of the loop of `contract_supply` (pallets/stablecoin/src/lib.rs) takes out of escrow: it pops from
-- no empty queue, and lowers what remains to be taken.
use mathlib.Core.Path.{subst}
use substrate_stablecoin.Prelude.{
  ℕ, suc, ◌+◌, ◌≤◌, ◌<◌, ◌≡◌, refl, ◌⊎◌, inl, inr, true, Option, none, some, [], ◌∷◌, All, length,
  u64_mod, arith, Bool-cases, ltb, leb,
}
use substrate_stablecoin.PriorityQueue.{push, pop}
use substrate_stablecoin.PriorityQueue.Laws.{push-sum_by, pop-sum_by, pop-length, pop-none}
use substrate_stablecoin.Stablecoin.Types.{Env, Bid, BidError, State}
use substrate_stablecoin.Stablecoin.Monad.{ok}
use substrate_stablecoin.Stablecoin.Ledger.{total}
use substrate_stablecoin.Stablecoin.Bids.{bid_key, payment, remove_coins}
use substrate_stablecoin.Stablecoin.Bids.Escrow.{escrow, total-refund_bid, total-refund_evicted}
use substrate_stablecoin.Stablecoin.Bids.Queue.{
  IsQueue, IsPriced, push-IsQueue, pop-IsQueue, popped-IsPriced,
}
use substrate_stablecoin.Stablecoin.Bids.Remove.{
  RatioLaws, PerbillLaws, remove_coins_worth, payment-zero,
}
use substrate_stablecoin.Stablecoin.Frame.{
  Frame, Frame-refl, refund_bid-Frame, same_bids-refund_bid, refund_evicted-Frame,
}
use substrate_stablecoin.Stablecoin.Contract.Rounds.{round-some}
use substrate_stablecoin.Stablecoin.Contract.{Contraction, convert, take_bid, round, goes_on}

module _ (env : Env) (ratio : RatioLaws env.crates) (perbill : PerbillLaws env.crates) where
  -- Coins in accounts and in the escrow of the loop's bids.
  abbrev pub worth : Contraction → State → ℕ
  worth c s = total s.balance + escrow env c.bids

  -- Taken out so far, against a start at which `w` coins existed and `r` remained: exactly what
  -- `remaining` fell by, or within one coin of it and nothing remains.
  abbrev pub Exact : ℕ → ℕ → Contraction → State → Type 0
  Exact w r c s = worth c s + r ≡ w + c.remaining

  abbrev pub Finished : ℕ → ℕ → Contraction → State → Type 0
  Finished w r c s = (c.remaining ≡ 0) × (worth c s + r ≤ w + 1) × (w ≤ worth c s + r + 1)

  -- What a round or the loop has done, from a state `s` with `w` coins and `r` remaining.
  pub record Took (w r : ℕ) (s : State) (c' : Contraction) (s' : State) : Type 0 where
    pub less : c'.remaining ≤ r
    pub coins : Exact w r c' s' ⊎ Finished w r c' s'
    pub queue : IsQueue env c'.bids
    pub frame : Frame s s'
    pub same_bids : s'.bond_bids ≡ s.bond_bids

  -- The reduced bid goes back into a queue that has room, unless nothing of it is left.
  convert-Took :
      (c : Contraction) (bid : Bid) (s : State) (answer : BidError ⊎ (ℕ × Bid))
      → remove_coins env bid c.remaining ≡ answer
      → 0 < c.remaining
      → IsQueue env c.bids
      → IsPriced env bid
      → worth c s + payment env bid < u64_mod
      → let (c', s') = convert env c bid answer s in
        Took (worth c s + payment env bid) c.remaining s c' s'
        × ((c'.remaining ≡ 0) ⊎ (length c'.bids ≡ length c.bids))
  unfolding convert
  convert-Took c bid s (inl error) e some_left q p small = (
    record {
      less = omega arith;
      coins = inl (omega (arith, total-refund_bid env bid s));
      queue = q;
      frame = refund_bid-Frame env bid s;
      same_bids = same_bids-refund_bid env bid s;
    },
    inr refl,
  )
  convert-Took c bid s (inr (removed, rest)) e some_left q p small =
      let (account, price, up, down) =
        remove_coins_worth env ratio perbill bid rest c.remaining removed (omega arith)
          p.at_most_one e in
      let evicted = (push bid_key env.maximum_bids c.bids rest).0 in
      let (frame, bids) = refund_evicted-Frame env evicted s in
      let shares = push-sum_by bid_key (payment env) env.maximum_bids c.bids rest in
      elim (Bool-cases (ltb 0 rest.quantity)) [
        | inl more ↦
            rw (more, convert)
              (
                record {
                  less = omega arith;
                  coins = inr (
                    refl,
                    omega (arith, total-refund_evicted env evicted s, shares),
                    omega (arith, total-refund_evicted env evicted s, shares),
                  );
                  queue = push-IsQueue env c.bids rest q (record {
                    above_minimum = rw price p.above_minimum;
                    at_most_one = rw price p.at_most_one;
                  });
                  frame = frame;
                  same_bids = bids;
                },
                inl refl,
              )
        | inr none_left ↦
            let zero_paid =
              payment-zero env ratio perbill rest (rw price p.at_most_one) (ground arith) in
            rw (none_left, convert)
              (
                record {
                  less = omega arith;
                  coins = inr (refl, omega (arith, zero_paid), omega (arith, zero_paid));
                  queue = q;
                  frame = Frame-refl s;
                  same_bids = refl;
                },
                inl refl,
              )
      ]

  take_bid-Took :
      (c : Contraction) (bid : Bid) (s : State)
      → 0 < c.remaining
      → IsQueue env c.bids
      → IsPriced env bid
      → worth c s + payment env bid < u64_mod
      → let (c', s') = take_bid env c bid s in
        Took (worth c s + payment env bid) c.remaining s c' s'
        × ((c'.remaining ≡ 0) ⊎ (length c'.bids ≡ length c.bids))
  unfolding take_bid
  take_bid-Took c bid s some_left q p small =
      elim (Bool-cases (leb c.remaining (payment env bid))) [
        | inl e ↦
            rw (e, take_bid)
              (convert-Took c bid s (remove_coins env bid c.remaining) refl some_left q p small)
        | inr e ↦
            rw (e, take_bid)
              (
                record {
                  less = omega arith;
                  coins = inl (ground arith);
                  queue = q;
                  frame = Frame-refl s;
                  same_bids = refl;
                },
                inr refl,
              )
      ]

  -- A round, on the bid that the queue gives up.
  round_on :
      (c : Contraction) (s : State) (out : Option Bid)
      → (pop c.bids).0 ≡ out
      → goes_on c ≡ true
      → IsQueue env c.bids
      → worth c s < u64_mod
      → (c' : Contraction) × (s' : State) × (round env c s ≡ (ok c', s'))
        × Took (worth c s) c.remaining s c' s'
        × ((c'.remaining ≡ 0) ⊎ (suc (length c'.bids) ≡ length c.bids))
  unfolding goes_on
  round_on c s none e on q small = absurd (ground (arith, pop-none c.bids e))
  round_on c s (some bid) e on q small =
      let popped = record c { bids = (pop c.bids).1 } in
      let shares = pop-sum_by (payment env) c.bids in
      let paid : worth popped s + payment env bid ≡ worth c s = omega (arith, rw e at shares) in
      let counted = pop-length c.bids in
      let shorter : suc (length (pop c.bids).1) ≡ length c.bids = omega (arith, rw e at counted) in
      let priced : All (IsPriced env) (bid ∷ []) = rw e at (popped-IsPriced env c.bids q) in
      let (took, ends) =
        take_bid-Took popped bid s (ground arith) (pop-IsQueue env c.bids q) priced.0
          (rw paid small) in
      (
        (take_bid env popped bid s).0,
        (take_bid env popped bid s).1,
        round-some env c bid s e,
        subst
            (λ w. Took w c.remaining s (take_bid env popped bid s).0 (take_bid env popped bid s).1)
            paid took,
        omega arith,
      )

  pub round-Took :
      (c : Contraction) (s : State)
      → goes_on c ≡ true
      → IsQueue env c.bids
      → worth c s < u64_mod
      → (c' : Contraction) × (s' : State) × (round env c s ≡ (ok c', s'))
        × Took (worth c s) c.remaining s c' s'
        × ((c'.remaining ≡ 0) ⊎ (suc (length c'.bids) ≡ length c.bids))
  round-Took c s on q small = round_on c s (pop c.bids).0 refl on q small
