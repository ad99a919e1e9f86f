-- ===== src/Stablecoin/Types.antt =====
-- The pallet's configuration, data, storage items, events and errors (pallets/stablecoin/src/lib.rs).
use substrate_stablecoin.Prelude.{ℕ, Option, List, ◌^◌, ◌+◌, ◌%◌}
use substrate_stablecoin.Deque.{Storage}

-- `Perbill` prices and the accuracy of `Perbill`: a price of `p` is `p` parts of a billion.
abbrev pub accuracy : ℕ
accuracy = 1_000_000_000

-- The associated constants of `Trait`. Accounts are only compared, so they are numbers.
pub record Config : Type 0 where
  pub expiration_period : ℕ
  pub maximum_bids : ℕ
  pub minimum_bond_price : ℕ
  pub adjustment_frequency : ℕ
  pub base_unit : ℕ
  pub initial_supply : ℕ
  pub minimum_supply : ℕ

-- The arithmetic that other crates bring. `perbill_mul p q` is sp_runtime's `Perbill * u64`;
-- `ratio_mul n d c` is num_rational's `Ratio::new(n, d).checked_mul(&c.into())` with `to_integer`
-- (`none` on overflow); the last five are the operations of fixed's `FixedU128<U64>`, whose values
-- are given by their bits.
pub record Crates : Type 0 where
  pub perbill_mul : ℕ → ℕ → ℕ
  pub ratio_mul : ℕ → ℕ → ℕ → Option ℕ
  pub fix_from_num : ℕ → ℕ
  pub fix_div : ℕ → ℕ → ℕ
  pub fix_sub : ℕ → ℕ → ℕ
  pub fix_saturating_mul_int : ℕ → ℕ → ℕ
  pub fix_to_num : ℕ → ℕ

pub record Env : Type 0 where
  pub config : Config
  pub open config use *
  pub crates : Crates
  pub open crates use *

pub record Bond : Type 0 where
  pub account : ℕ
  pub payout : ℕ
  pub expiration : ℕ

pub record Bid : Type 0 where
  pub account : ℕ
  pub price : ℕ
  pub quantity : ℕ

pub data BidError : Type 0 where
  overflow underflow : BidError

pub data Event : Type 0 where
  transfer : ℕ → ℕ → ℕ → Event
  new_bid : ℕ → ℕ → ℕ → Event
  refunded_bid : ℕ → ℕ → Event
  new_bond : ℕ → ℕ → ℕ → Event
  bond_fulfilled : ℕ → ℕ → Event
  bond_partially_fulfilled : ℕ → ℕ → Event
  bond_expired : ℕ → ℕ → Event
  cancelled_bids_above : ℕ → ℕ → Event
  cancelled_bids_below : ℕ → ℕ → Event
  cancelled_bids : ℕ → Event
  expanded_supply : ℕ → Event
  contracted_supply : ℕ → Event

-- The pallet's errors, and two that come from outside: what `ensure_signed` answers to another
-- origin, and `DispatchError::Other`.
pub data Error : Type 0 where
  coin_supply_overflow coin_supply_underflow insufficient_balance balance_overflow : Error
  zero_price generic_overflow generic_underflow : Error
  bond_price_over_100_percent bond_price_too_low bond_quantity_too_low : Error
  bad_origin other : Error

-- `From<BidError> for Error`.
unfoldable pub from_bid_error : BidError → Error
from_bid_error overflow = generic_overflow
from_bid_error underflow = generic_underflow

-- A map with the balance of each account; an account that is not there has none.
abbrev pub Ledger : Type 0
Ledger = List (ℕ × ℕ)

-- The storage items, with the events deposited so far and `system`'s block number.
pub record State : Type 0 where
  pub shares : List (ℕ × ℕ)
  pub balance : Ledger
  pub coin_supply : ℕ
  pub bonds : Storage Bond
  pub bond_bids : List Bid
  pub events : List Event
  pub block_number : ℕ

-- What the derived `Default` gives for a bond; `Bonds` answers it for a missing key.
abbrev pub default_bond : Bond
default_bond = record { account = 0; payout = 0; expiration = 0 }

-- `BondIndex` is `u16`, and the runtime's `BlockNumber` is `u32`.
abbrev pub bond_index_mod : ℕ
bond_index_mod = 2 ^ 16

abbrev pub add_block : ℕ → ℕ → ℕ
add_block a b = (a + b) % 2 ^ 32
