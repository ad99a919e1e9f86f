-- ===== src/ChainSpec/Start.antt =====
-- The chain that a built-in specification starts: it is sound, and every block on it runs.
use substrate_stablecoin.Prelude.{
  ℕ, ◌*◌, ◌<◌, ◌≡◌, ◌≢◌, refl, Bool, Option, none, some, List, [], length, arith, Bytes, ascii,
}
use substrate_stablecoin.Deque
use substrate_stablecoin.Deque.{Storage}
use substrate_stablecoin.Stablecoin.Types
use substrate_stablecoin.Stablecoin.Types.{Crates, Bond}
use substrate_stablecoin.Stablecoin.Monad.{ok}
use substrate_stablecoin.Stablecoin.Bids.Queue.{IsQueue}
use substrate_stablecoin.Stablecoin.Expand.Payment.{BondsValid}
use substrate_stablecoin.Stablecoin.HandOut.{share_sum}
use substrate_stablecoin.Stablecoin.Genesis.{build}
use substrate_stablecoin.Stablecoin.Sound.{IsSound}
use substrate_stablecoin.Stablecoin.Sound.Genesis.{build-IsSound}
use substrate_stablecoin.Runtime.{Chain, Origin, Call, execute_block}
use substrate_stablecoin.Runtime.Config.{runtime_env}
use substrate_stablecoin.Runtime.Sound.{
  Reachable, Reachable-IsSound, RunsTo-some, execute_block-RunsTo,
}
use substrate_stablecoin.ChainSpec.{
  Alternative, development, local_testnet, Keys, Spec, load, from, load_spec,
}

-- Storage before the genesis: the defaults of each item.
abbrev pub no_bonds : Storage Bond
no_bonds = record { items = λ i. none; bounds = (0, 0) }

abbrev pub empty : Types.State
empty = record {
  shares = [];
  balance = [];
  coin_supply = 0;
  bonds = no_bonds;
  bond_bids = [];
  events = [];
  block_number = 0;
}

-- The first chain: the stablecoin's storage is what its genesis makes of the shareholders, and the other
-- two pallets have their defaults.
unfoldable pub first_chain : Crates → Spec → Chain
first_chain crates spec = record {
  stablecoin = (build (runtime_env crates) spec.genesis.shareholders empty).1;
  price = record { price = 1_000_000; events = [] };
  fetch = record { src = λ symbol. []; agg = λ symbol. (0, 0); events = []; now = 0 };
}

-- The names of the built-in specifications, the empty one among them.
pub data Names : Bytes → Alternative → Type 0 where
  dev_name : Names (ascii "dev") development
  local_name : Names (ascii "local") local_testnet
  no_name : Names [] local_testnet

named-from :
    {id : Bytes} {alternative : Alternative} → Names id alternative → from id ≡ some alternative
unfolding from
named-from dev_name = refl
named-from local_name = refl
named-from no_name = refl

module _ (crates : Crates) where
  empty-IsQueue : IsQueue (runtime_env crates) []
  empty-IsQueue = record { sorted = tt; bounded = omega arith; priced = tt }

  empty-BondsValid : BondsValid (Deque.new no_bonds)
  unfolding Deque.new
  empty-BondsValid = record { start_in = omega arith; length_in = omega arith; wide = omega arith }

  -- The shares of a specification: one for each endowed account.
  pub load-shares :
      (keys : Keys) (alternative : Alternative)
      → let shareholders = (load keys alternative).genesis.shareholders in
        (0 < length shareholders) × (share_sum 0 shareholders ≢ 0)
  unfolding load
  load-shares keys development = (omega arith, λ e. omega arith)
  load-shares keys local_testnet = (omega arith, λ e. omega arith)

  -- Both built-in specifications start well: the genesis of the stablecoin ends without a panic in a sound
  -- state, the supply is a thousand base units, and every endowed account has one share.
  pub load-IsSound :
      (keys : Keys) (alternative : Alternative)
      → let shareholders = (load keys alternative).genesis.shareholders in
        let (r, s) = build (runtime_env crates) shareholders empty in
        (r ≡ ok tt)
        × IsSound (runtime_env crates) s
        × (s.coin_supply ≡ 1000 * 1_000_000)
        × (s.shares ≡ shareholders)
  load-IsSound keys alternative =
      let (some_one, ne) = load-shares keys alternative in
      build-IsSound (runtime_env crates) (load keys alternative).genesis.shareholders empty
        empty-IsQueue empty-BondsValid refl (omega arith) (omega arith) some_one ne

  first_chain-IsSound :
      (keys : Keys) (alternative : Alternative)
      → IsSound (runtime_env crates) (first_chain crates (load keys alternative)).stablecoin
  unfolding first_chain
  first_chain-IsSound keys alternative = (load-IsSound keys alternative).1

  -- A chain specification named `dev` is the development one, and one named `local` or by the empty string
  -- is the local testnet. On every chain that blocks have led to from its genesis, whatever their
  -- numbers, times, calls and origins, every next block runs to its end without a panic, and leaves a
  -- sound state: the supply is at least the minimum and the bid queue and the ring of bonds are well
  -- formed.
  pub load_spec_runs :
      (keys : Keys) (from_json_file : Bytes → Option Spec) (logs : Bool) {id : Bytes}
      {alternative : Alternative} (c : Chain) (number now : ℕ) (extrinsics : List (Origin × Call))
      → Names id alternative
      → Reachable (runtime_env crates) logs (first_chain crates (load keys alternative)) c
      → (load_spec keys from_json_file id ≡ some (load keys alternative))
        × ((c' : Chain) × (execute_block (runtime_env crates) logs number now extrinsics c
              ≡ some c')
            × IsSound (runtime_env crates) c'.stablecoin)
  unfolding load_spec
  load_spec_runs keys from_json_file logs {id} {alternative} c number now extrinsics named r =
      let env = runtime_env crates in
      let sound =
        Reachable-IsSound (omega arith) (omega arith) (first_chain-IsSound keys alternative) r in
      (
        rw (named-from named, load_spec) refl,
        RunsTo-some env (execute_block env logs number now extrinsics c) (
            execute_block-RunsTo env logs (omega arith) (omega arith) number now extrinsics c
              sound),
      )
