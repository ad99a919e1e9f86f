-- ===== src/Runtime/Config.antt =====
-- The constants of runtime/src/lib.rs that the pallets are configured with.
use substrate_stablecoin.Prelude.{ℕ, ◌*◌, ◌/◌}
use substrate_stablecoin.Stablecoin.Types.{Config, Crates, Env}

-- `Perbill::from_percent`.
abbrev from_percent : ℕ → ℕ
from_percent percent = percent * 10_000_000

abbrev pub millisecs_per_block : ℕ
millisecs_per_block = 6000

abbrev pub slot_duration : ℕ
slot_duration = millisecs_per_block

-- Time units, in blocks.
abbrev pub minutes : ℕ
minutes = 60_000 / millisecs_per_block

abbrev pub hours : ℕ
hours = minutes * 60

abbrev pub days : ℕ
days = hours * 24

abbrev pub block_hash_count : ℕ
block_hash_count = 250

abbrev pub minimum_period : ℕ
minimum_period = slot_duration / 2

abbrev pub block_fetch_dur : ℕ
block_fetch_dur = 2

abbrev base_unit : ℕ
base_unit = 1_000_000

abbrev pub stablecoin_config : Config
stablecoin_config = record {
  expiration_period = 100;
  maximum_bids = 1_000;
  adjustment_frequency = 2;
  base_unit = base_unit;
  initial_supply = 1000 * base_unit;
  minimum_supply = base_unit;
  minimum_bond_price = from_percent 10;
}

-- `impl stablecoin::Trait for Runtime`, over the arithmetic of the crates.
abbrev pub runtime_env : Crates → Env
runtime_env crates = record { config = stablecoin_config; crates = crates }
