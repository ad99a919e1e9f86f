-- ===== src/Examples/Backing.antt =====
-- Blocks and the coins that back the supply: at a price below the base unit, on a chain whose coins and supply
-- are equal; and after the genesis of the development specification.
use substrate_stablecoin.Prelude.{
  ◌+◌, ◌≤◌, ◌<◌, ◌≡◌, true, some, List, [], ◌∷◌, All, arith, u64_mod,
}
use substrate_stablecoin.Stablecoin.Bids.{payment}
use substrate_stablecoin.Stablecoin.Bids.Escrow.{held}
use substrate_stablecoin.Stablecoin.Calls
use substrate_stablecoin.Stablecoin.Backing.{HasRoom}
use substrate_stablecoin.Stablecoin.Sound.{IsSound}
use substrate_stablecoin.Price.{fetch_price}
use substrate_stablecoin.Runtime.{
  Chain, Origin, signed, Call, stablecoin, set_price, get_offchain_price, execute_block,
}
use substrate_stablecoin.Runtime.Sound.{RunsTo-some, execute_block-RunsTo}
use substrate_stablecoin.Runtime.Backing.{MovesAway, Blocks, Blocks-IsBacked}
use substrate_stablecoin.Runtime.Backing.Blocks.{none_yet, one_more}
use substrate_stablecoin.Runtime.Config.{runtime_env}
use substrate_stablecoin.ChainSpec.{development}
use substrate_stablecoin.ChainSpec.Start.{first_chain, load-IsSound}
use substrate_stablecoin.ChainSpec.Backed.{first_chain-held, first_chain-IsBacked}
use substrate_stablecoin.Examples.Chain.{alice, keys}
use substrate_stablecoin.Examples.Workers.{start}
use substrate_stablecoin.Examples.Crates.{
  plain, plain-RatioLaws, plain-PerbillLaws, plain-FixedLaws,
}
use substrate_stablecoin.Examples.Data.{
  env, state, two_bids-IsQueue, one_bond-BondsValid, two_shares-OneShareEach, held_small,
}

abbrev backed : Chain
backed = record {
  stablecoin = state;
  price = record { price = 900; events = [] };
  fetch = record { src = λ symbol. []; agg = λ symbol. (0, 0); events = []; now = 0 };
}

state-IsSound : IsSound env state
state-IsSound = record {
  queue = two_bids-IsQueue;
  bonds = one_bond-BondsValid;
  shares = λ e. omega arith;
  fits = omega arith;
  minimum = omega arith;
}

-- Coins to another account, a bid, and a cancellation.
abbrev extrinsics : List (Origin × Call)
extrinsics =
    (signed 1, stablecoin (Calls.send 2 100))
    ∷ (signed 1, stablecoin (Calls.bid 500_000_000 1000))
    ∷ (signed 2, stablecoin Calls.cancel_all)
    ∷ (signed 2, get_offchain_price)
    ∷ []

extrinsics-MovesAway : All (MovesAway env true) extrinsics
extrinsics-MovesAway = ((λ e. omega arith), (tt, (tt, (tt, tt))))

abbrev next :
    (c' : Chain) × (execute_block env true 20 6 extrinsics backed ≡ some c')
    × IsSound env c'.stablecoin
next =
    RunsTo-some env (execute_block env true 20 6 extrinsics backed) (
      execute_block-RunsTo env true (omega arith) (omega arith) 20 6 extrinsics backed
        state-IsSound)

backed-HasRoom : HasRoom env (fetch_price backed.price) state
unfolding fetch_price payment
backed-HasRoom = record { fits = omega arith; coins = omega arith }

one_block : Blocks env true backed 1 next.0
one_block = one_more 20 6 extrinsics next.0 extrinsics-MovesAway backed-HasRoom next.1 none_yet

state_covered : state.coin_supply ≤ held env state
unfolding payment
state_covered = omega arith

Blocks-IsBacked_example :
    (next.0.stablecoin.coin_supply ≤ held env next.0.stablecoin + 1)
    × (held env next.0.stablecoin < u64_mod)
Blocks-IsBacked_example =
    Blocks-IsBacked env true backed plain-RatioLaws plain-PerbillLaws plain-FixedLaws (omega arith)
      (omega arith) (omega arith) state-IsSound two_shares-OneShareEach (omega arith) (omega arith)
      state_covered held_small one_block

-- The first block after the genesis: a lower price, coins for another account and a bid.
abbrev first_extrinsics : List (Origin × Call)
first_extrinsics =
    (signed alice, set_price 900_000)
    ∷ (signed alice, stablecoin (Calls.send 7 1000))
    ∷ (signed alice, stablecoin (Calls.bid 500_000_000 1000))
    ∷ []

first-MovesAway : All (MovesAway (runtime_env plain) true) first_extrinsics
first-MovesAway = (tt, ((λ e. omega arith), (tt, tt)))

abbrev second :
    (c' : Chain) × (execute_block (runtime_env plain) true 1 6 first_extrinsics start ≡ some c')
    × IsSound (runtime_env plain) c'.stablecoin
unfolding first_chain
second =
    RunsTo-some (runtime_env plain)
      (execute_block (runtime_env plain) true 1 6 first_extrinsics start)
      (execute_block-RunsTo (runtime_env plain) true (omega arith) (omega arith) 1 6
        first_extrinsics start (load-IsSound plain keys development).1)

start-HasRoom : HasRoom (runtime_env plain) (fetch_price start.price) start.stablecoin
unfolding fetch_price first_chain
start-HasRoom =
    let (_, _, supply, _) = load-IsSound plain keys development in
    record {
      fits = omega arith;
      coins = omega (arith, first_chain-held plain keys development, supply);
    }

first_block : Blocks (runtime_env plain) true start 1 second.0
first_block = one_more 1 6 first_extrinsics second.0 first-MovesAway start-HasRoom second.1 none_yet

first_chain-IsBacked_example :
    (second.0.stablecoin.coin_supply ≤ held (runtime_env plain) second.0.stablecoin + 1)
    × (held (runtime_env plain) second.0.stablecoin < u64_mod)
first_chain-IsBacked_example =
    first_chain-IsBacked plain keys development true plain-RatioLaws plain-PerbillLaws
      plain-FixedLaws first_block
