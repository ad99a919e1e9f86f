-- ===== src/Examples/Crates.antt =====
-- Plain arithmetic in place of the crates that the pallet computes with, and that it has their laws.
use substrate_stablecoin.Prelude.{
  ◌+◌, ◌-◌, ◌*◌, ◌/◌, ◌^◌, refl, some, none, min, ltb, u64_mod, arith, if◌then◌else◌,
}
use substrate_stablecoin.Stablecoin.Types.{Crates}
use substrate_stablecoin.Stablecoin.Bids.Remove.{RatioLaws, PerbillLaws}
use substrate_stablecoin.Stablecoin.Block.Change.{FixedLaws}

abbrev pub plain : Crates
plain = record {
  perbill_mul = λ p q. (p * q + 500_000_000) / 1_000_000_000;
  ratio_mul = λ n d k. if ltb (n * k) u64_mod then some (n * k / d) else none;
  fix_from_num = λ n. n * u64_mod;
  fix_div = λ a b. a * u64_mod / b;
  fix_sub = λ a b. a - b;
  fix_saturating_mul_int = λ a n. min (a * n) (2 ^ 128 - 1);
  fix_to_num = λ a. a / u64_mod;
}

pub plain-RatioLaws : RatioLaws plain
plain-RatioLaws = record {
  exact = λ n d k r pos e. ground arith;
  fits = λ n d k pos small. ground arith;
}

pub plain-PerbillLaws : PerbillLaws plain
plain-PerbillLaws = record {
  nearest_below = λ p q unit. omega arith;
  nearest_above = λ p q unit. omega arith;
}

pub plain-FixedLaws : FixedLaws plain
plain-FixedLaws = record {
  from_num = λ n fits. refl;
  div = λ a b pos fits. refl;
  sub = λ a b le fits. refl;
  mul_int = λ a n fits. refl;
  to_num = λ a fits. refl;
}
