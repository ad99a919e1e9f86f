-- ===== src/Examples/Chain.antt =====
-- The runtime and the chain specifications at concrete inputs.
use substrate_stablecoin.Prelude.{
  ℕ, ◌+◌, ◌*◌, ◌≡◌, true, Option, none, some, List, [], ◌∷◌, length, arith, Bytes, ascii,
}
use substrate_stablecoin.Deque
use substrate_stablecoin.Stablecoin.Types.{State}
use substrate_stablecoin.Stablecoin.Monad.{ok}
use substrate_stablecoin.Stablecoin.Calls
use substrate_stablecoin.Stablecoin.Contract.{Contraction}
use substrate_stablecoin.Stablecoin.Expand.{Expansion, expand_loop}
use substrate_stablecoin.Stablecoin.Sound.{IsSound}
use substrate_stablecoin.Stablecoin.Sound.Expand
use substrate_stablecoin.Stablecoin.Sound.Expand.{expand_loop-Keeps}
use substrate_stablecoin.Runtime.{
  Chain, Origin, root, unsigned, signed, Call, stablecoin, set_price, get_offchain_price,
  record_price, execute_block,
}
use substrate_stablecoin.Runtime.Config.{runtime_env}
use substrate_stablecoin.Runtime.Sound.{RunsTo, here, execute_block-RunsTo}
use substrate_stablecoin.ChainSpec.{Keys, Spec, development, local_testnet, load, load_spec}
use substrate_stablecoin.ChainSpec.Start.{first_chain, load-IsSound, load_spec_runs}
use substrate_stablecoin.ChainSpec.Start.Names.{dev_name}
use substrate_stablecoin.Examples.Crates.{plain}
use substrate_stablecoin.Examples.Data.{state, two_bids, one_bond, one_bond-BondsValid}

abbrev contraction : Contraction
contraction = record { bids = two_bids; remaining = 600; bonds = [] }

abbrev expansion : Expansion
expansion = record { bonds = Deque.new one_bond; remaining = 1000 }

expand_loop-Keeps_example :
    (e' : Expansion) × (s' : State) × (expand_loop 2 expansion state ≡ (ok e', s'))
    × Expand.Keeps expansion.remaining state e' s'
unfolding Deque.new
expand_loop-Keeps_example = expand_loop-Keeps 2 expansion state (omega arith) one_bond-BondsValid

-- Accounts by the first letter of the seed and its length.
abbrev pub account : Bytes → ℕ
account [] = 0
account (letter ∷ letters) = letter * 100 + length letters

abbrev pub keys : Keys
keys = record { account = account; aura = account; grandpa = account }

abbrev no_file : Bytes → Option Spec
no_file path = none

abbrev pub alice : ℕ
alice = account (ascii "Alice")

-- Calls of every pallet, by every kind of origin.
abbrev extrinsics : List (Origin × Call)
extrinsics =
    (unsigned, record_price (ascii "ETH") (ascii "coincap") 1_100_000)
    ∷ (signed alice, set_price 1_100_000)
    ∷ (signed alice, stablecoin (Calls.bid 500_000_000 1000))
    ∷ (root, get_offchain_price)
    ∷ []

load_spec_runs_example :
    let first = first_chain plain (load keys development) in
    (load_spec keys no_file (ascii "dev") ≡ some (load keys development))
    × ((c' : Chain) × (execute_block (runtime_env plain) true 2 12_000 extrinsics first ≡ some c')
        × IsSound (runtime_env plain) c'.stablecoin)
load_spec_runs_example =
    load_spec_runs plain keys no_file true (first_chain plain (load keys development)) 2 12_000
      extrinsics dev_name here

execute_block-RunsTo_example : RunsTo (runtime_env plain) (
    execute_block
      (runtime_env plain)
      true
      4
      24_000
      extrinsics
      (first_chain plain (load keys local_testnet)))
unfolding first_chain
execute_block-RunsTo_example =
    execute_block-RunsTo (runtime_env plain) true (omega arith) (omega arith) 4 24_000 extrinsics
      (first_chain plain (load keys local_testnet)) (load-IsSound plain keys local_testnet).1
