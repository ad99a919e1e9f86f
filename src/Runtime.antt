-- ===== src/Runtime.antt =====
-- runtime/src/lib.rs: the pallets together. `Config` has the constants, this file the state and the
-- calls of the three pallets of this repository, and a block.
pub mod Config
pub mod Sound
pub mod Blocks
pub mod Feed
pub mod Worker
pub mod Pipeline
pub mod Transaction
pub mod Honest
pub mod Lives
pub mod Growth
pub mod Backing
pub mod Unsigned
use substrate_stablecoin.Prelude.{
  ℕ, Bool, true, false, Option, none, some, List, [], ◌∷◌, Bytes, ascii,
}
use substrate_stablecoin.Stablecoin.Types.{Env}
use substrate_stablecoin.Stablecoin.Types
use substrate_stablecoin.Stablecoin.Monad.{Result, ok, err, panic, out_of_fuel, Done}
use substrate_stablecoin.Stablecoin.Calls
use substrate_stablecoin.Stablecoin.Block.{on_initialize}
use substrate_stablecoin.Price
use substrate_stablecoin.PriceFetch

-- What `construct_runtime` stores for these pallets.
pub record Chain : Type 0 where
  pub stablecoin : Types.State
  pub price : Price.State
  pub fetch : PriceFetch.State

-- An origin, and what system's `ensure_signed` and `ensure_none` find in it. `root` is what sudo
-- dispatches with.
pub data Origin : Type 0 where
  root unsigned : Origin
  signed : (who : ℕ) → Origin

abbrev pub signer : Origin → Option ℕ
signer root = none
signer unsigned = none
signer (signed who) = some who

abbrev pub is_unsigned : Origin → Bool
is_unsigned root = false
is_unsigned unsigned = true
is_unsigned (signed who) = false

-- `Call`, with the calls of these pallets.
pub data Call : Type 0 where
  stablecoin : Calls.Call → Call
  set_price : (new_price : ℕ) → Call
  get_offchain_price : Call
  record_price : (symbol source : Bytes) (price : ℕ) → Call
  record_agg_pp : (symbol : Bytes) (price : ℕ) → Call

-- How a call ends.
pub data End : Type 0 where
  succeeds fails panics : End

abbrev pub end_of : Result Done → End
end_of (ok done) = succeeds
end_of (err e) = fails
end_of panic = panics
end_of out_of_fuel = panics

abbrev pub end_of_error : {E : Type 0} → Option E → End
end_of_error none = succeeds
end_of_error (some e) = fails

-- `stablecoin::Trait` takes its price from `price::Module`. The system pallet has the block's number
-- before the pallets' `on_initialize` run.
unfoldable pub initialize_block : Env → (number : ℕ) → Chain → Option Chain
unfolding on_initialize Price.fetch_price
initialize_block env number c =
    let at_number = record c.stablecoin { block_number = number } in
    let (r, s) = on_initialize env number (Price.fetch_price c.price) at_number in
    elim (end_of r) [
      | succeeds ↦ some (record c { stablecoin = s })
      | fails ↦ some (record c { stablecoin = s })
      | panics ↦ none
    ]

module _ (env : Env) (logs : Bool) where
  -- `price::Trait` takes its offchain price from `price_fetch::Module`, for `b"ETH"`.
  unfoldable pub dispatch : Origin → Call → Chain → End × Chain
  unfolding Calls.dispatch Price.set_price Price.get_offchain_price PriceFetch.get_price_for
      PriceFetch.record_price PriceFetch.record_agg_pp
  dispatch origin (stablecoin call) c =
      let (r, s) = Calls.dispatch env (signer origin) call c.stablecoin in
      (end_of r, record c { stablecoin = s })
  dispatch origin (set_price new_price) c =
      let (e, s) = Price.set_price (signer origin) new_price c.price in
      (end_of_error e, record c { price = s })
  dispatch origin get_offchain_price c =
      let offchain = PriceFetch.get_price_for (ascii "ETH") c.fetch in
      let (e, s) = Price.get_offchain_price (signer origin) offchain c.price in
      (end_of_error e, record c { price = s })
  dispatch origin (record_price symbol source price) c =
      let (e, s) = PriceFetch.record_price logs (is_unsigned origin) symbol source price c.fetch in
      (end_of_error e, record c { fetch = s })
  dispatch origin (record_agg_pp symbol price) c =
      let (e, s) = PriceFetch.record_agg_pp logs (is_unsigned origin) symbol price c.fetch in
      (end_of_error e, record c { fetch = s })

  -- The dispatch of a block's extrinsics in order, which the executive has let pass; one that fails is
  -- followed by the next, and one that panics makes the block invalid.
  unfoldable pub apply_extrinsics : List (Origin × Call) → Chain → Option Chain
  unfolding dispatch
  apply_extrinsics [] c = some c
  apply_extrinsics ((origin, call) ∷ extrinsics) c =
      let (end, c') = dispatch origin call c in
      let rest = apply_extrinsics extrinsics c' in
      elim end [ succeeds ↦ rest | fails ↦ rest | panics ↦ none ]

  -- A block: its number, the time that the timestamp inherent sets, and its extrinsics. `none` is a
  -- panic, by which the block is invalid.
  unfoldable pub execute_block : (number now : ℕ) → List (Origin × Call) → Chain → Option Chain
  unfolding initialize_block apply_extrinsics
  execute_block number now extrinsics c = elim (initialize_block env number c) [
    | none ↦ none
    | some c' ↦ apply_extrinsics extrinsics (record c' { fetch = record c'.fetch { now = now } })
  ]
