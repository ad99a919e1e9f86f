-- ===== src/Stablecoin/Bids/Queue.antt =====
-- The bidding queue's invariant, and that entering and cancelling keep it.
use substrate_stablecoin.Prelude.{
  ◌≤◌, ◌<◌, Bool, not, List, [], ◌∷◌, All, length, select, arith, Bool-cases, inl, inr,
}
use substrate_stablecoin.PriorityQueue.{push, pop}
use substrate_stablecoin.PriorityQueue.Sorted.{IsSorted}
use substrate_stablecoin.PriorityQueue.Laws.{
  push_keeps_all, to_list, push-length, push-All, pop-length, pop-All, popped-All,
  pop_takes_greatest,
}
use substrate_stablecoin.Stablecoin.Types.{accuracy, Env, Bid, State}
use substrate_stablecoin.Stablecoin.Bids.{bid_key, add_bid, cancel_bids}
use substrate_stablecoin.Stablecoin.Bids.Escrow.{bond_bids-cancel_bids}

module _ (env : Env) where
  -- A price that `bid_for_bond` accepts.
  pub record IsPriced (bid : Bid) : Type 0 where
    pub above_minimum : env.minimum_bond_price < bid.price
    pub at_most_one : bid.price ≤ accuracy

  -- Cheapest first, no more than the maximum, and every price acceptable.
  pub record IsQueue (bids : List Bid) : Type 0 where
    pub sorted : IsSorted bid_key bids
    pub bounded : length bids ≤ env.maximum_bids
    pub priced : All IsPriced bids

  pub push-IsQueue :
      (bids : List Bid) (bid : Bid)
      → IsQueue bids
      → IsPriced bid
      → IsQueue (push bid_key env.maximum_bids bids bid).1
  push-IsQueue bids bid q p = record {
    sorted = (push_keeps_all bid_key env.maximum_bids bids bid q.sorted).0;
    bounded = (push-length bid_key env.maximum_bids bids bid q.bounded).0;
    priced = push-All IsPriced bid_key env.maximum_bids bids bid p q.priced;
  }

  pub add_bid-IsQueue :
      (bid : Bid) (s : State)
      → IsQueue s.bond_bids
      → IsPriced bid
      → IsQueue (add_bid env bid s).bond_bids
  unfolding add_bid
  add_bid-IsQueue bid s q p = push-IsQueue s.bond_bids bid q p

  All-select {ℓ} :
      {A : Type ℓ} (P : A → Type 0) (f : A → Bool) (xs : List A) → All P xs → All P (select f xs)
  All-select P f [] h = tt
  All-select P f (x ∷ xs) h = elim (Bool-cases (f x)) [
    | inl e ↦ rw e (h.0, All-select P f xs h.1)
    | inr e ↦ rw e (All-select P f xs h.1)
  ]

  select-IsSorted :
      (f : Bid → Bool) (bids : List Bid) → IsSorted bid_key bids → IsSorted bid_key (select f bids)
  select-IsSorted f [] s = tt
  select-IsSorted f (b ∷ bids) s = elim (Bool-cases (f b)) [
    | inl e ↦ rw e (All-select (λ c. b.price ≤ c.price) f bids s.0, select-IsSorted f bids s.1)
    | inr e ↦ rw e (select-IsSorted f bids s.1)
  ]

  length-select-le : (f : Bid → Bool) (bids : List Bid) → length (select f bids) ≤ length bids
  length-select-le f [] = omega arith
  length-select-le f (b ∷ bids) = ground (arith, length-select-le f bids)

  pub select-IsQueue : (f : Bid → Bool) (bids : List Bid) → IsQueue bids → IsQueue (select f bids)
  select-IsQueue f bids q = record {
    sorted = select-IsSorted f bids q.sorted;
    bounded = omega (arith, length-select-le f bids, q.bounded);
    priced = All-select IsPriced f bids q.priced;
  }

  pub cancel_bids-IsQueue :
      (f : Bid → Bool) (s : State) → IsQueue s.bond_bids → IsQueue (cancel_bids env f s).bond_bids
  cancel_bids-IsQueue f s q =
      rw (bond_bids-cancel_bids env f s) (select-IsQueue (λ b. not (f b)) s.bond_bids q)

  -- The queue that `pop` leaves.
  pub pop-IsQueue : (bids : List Bid) → IsQueue bids → IsQueue (pop bids).1
  pop-IsQueue bids q = record {
    sorted = (pop_takes_greatest bid_key bids q.sorted).0;
    bounded = omega (arith, pop-length bids, q.bounded);
    priced = pop-All IsPriced bids q.priced;
  }

  pub popped-IsPriced : (bids : List Bid) → IsQueue bids → All IsPriced (to_list (pop bids).0)
  popped-IsPriced bids q = popped-All IsPriced bids q.priced
