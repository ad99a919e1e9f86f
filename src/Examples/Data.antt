-- ===== src/Examples/Data.antt =====
-- A small configuration, and a state with two shareholders, two bids and one bond.
use substrate_stablecoin.Prelude.{
  ℕ, ◌<◌, refl, none, some, List, [], ◌∷◌, ◌==◌, u64_mod, arith, if◌then◌else◌,
}
use substrate_stablecoin.Deque
use substrate_stablecoin.Deque.{Storage}
use substrate_stablecoin.Stablecoin.Types.{Env, Bid, Bond, State}
use substrate_stablecoin.Stablecoin.Bids.{payment}
use substrate_stablecoin.Stablecoin.Bids.Escrow.{held}
use substrate_stablecoin.Stablecoin.Bids.Queue.{IsQueue}
use substrate_stablecoin.Stablecoin.HandOut.Exact.{OneShareEach}
use substrate_stablecoin.Stablecoin.Expand.Payment.{BondsValid}
use substrate_stablecoin.Examples.Crates.{plain}

abbrev pub env : Env
env = record {
  config = record {
    expiration_period = 100;
    maximum_bids = 4;
    minimum_bond_price = 100_000_000;
    adjustment_frequency = 1;
    base_unit = 1000;
    initial_supply = 20_000;
    minimum_supply = 500;
  };
  crates = plain;
}

abbrev pub low_bid : Bid
low_bid = record { account = 1; price = 200_000_000; quantity = 2000 }

abbrev pub high_bid : Bid
high_bid = record { account = 2; price = 500_000_000; quantity = 1000 }

abbrev pub two_bids : List Bid
two_bids = low_bid ∷ high_bid ∷ []

abbrev pub bond : Bond
bond = record { account = 2; payout = 700; expiration = 100 }

abbrev pub one_bond : Storage Bond
one_bond = record { items = λ i. if i == 0 then some bond else none; bounds = (0, 1) }

abbrev pub two_shares : List (ℕ × ℕ)
two_shares = (1, 1) ∷ (2, 1) ∷ []

abbrev pub state : State
state = record {
  shares = two_shares;
  balance = (1, 5000) ∷ (2, 3000) ∷ [];
  coin_supply = 8900;
  bonds = one_bond;
  bond_bids = two_bids;
  events = [];
  block_number = 7;
}

pub two_bids-IsQueue : IsQueue env two_bids
two_bids-IsQueue = record {
  sorted = ((omega arith, tt), (tt, tt));
  bounded = omega arith;
  priced = (
    record { above_minimum = omega arith; at_most_one = omega arith },
    (record { above_minimum = omega arith; at_most_one = omega arith }, tt),
  );
}

pub held_small : held env state < u64_mod
unfolding payment
held_small = omega arith

pub one_bond-BondsValid : BondsValid (Deque.new one_bond)
unfolding Deque.new
one_bond-BondsValid = record { start_in = omega arith; length_in = omega arith; wide = omega arith }

pub two_shares-OneShareEach : OneShareEach two_shares
two_shares-OneShareEach = (refl, (refl, tt))
