-- ===== src/Stablecoin/Backing.antt =====
-- How the coins in accounts and in escrow follow the supply at the start of a block.
use native.Mathlib.Decide.{dec_lt}
use native.Mathlib.Nat.{mul-le-mul_right, le-mul_of_pos_right}
use substrate_stablecoin.Prelude.{
  ℕ, ◌+◌, ◌-◌, ◌*◌, ◌≤◌, ◌<◌, ◌≡◌, ap, refl, inl, inr, arith, u64_mod, ◌%◌, length,
}
use substrate_stablecoin.Stablecoin.Types.{Env, State}
use substrate_stablecoin.Stablecoin.Bids.Escrow.{escrow, held}
use substrate_stablecoin.Stablecoin.Contract.{contract_supply}
use substrate_stablecoin.Stablecoin.Expand.{expand_supply}
use substrate_stablecoin.Stablecoin.Block.{expand_or_contract_on_price, on_initialize}
use substrate_stablecoin.Stablecoin.Block.Change.{FixedLaws, Near}
use substrate_stablecoin.Stablecoin.Bids.Remove.{RatioLaws, PerbillLaws}
use substrate_stablecoin.Stablecoin.Block.Steering.{
  Steers, contract_on_price-eq, expand_on_price-eq, drop_error-Ends, on_price-above, on_price-below,
  on_price-rest, on_block-due, on_block-not_due, on_initialize-Steers,
}
use substrate_stablecoin.Stablecoin.Block.Steering.Steers.{
  idle, contracts, too_low, expands, too_high,
}
use substrate_stablecoin.Stablecoin.HandOut.Exact.{OneShareEach}
use substrate_stablecoin.Stablecoin.Sound.{IsSound}
use substrate_stablecoin.Stablecoin.Sound.Contract.Effect.{contract_supply-shares}
use substrate_stablecoin.Stablecoin.Sound.Expand.Effect.{expand_supply-shares}
use substrate_stablecoin.Stablecoin.Sound.Block.{change_some, on_price-IsSound}

module _ (env : Env) (unit : 0 < env.base_unit) (P : State → Type 0) (s : State) (h : IsSound env s)
    (stays : P s) (contracted : (change : ℕ) → P (contract_supply env s.coin_supply change s).1)
    (expanded : (change : ℕ) → P (expand_supply s.coin_supply change s).1) where
  on_price-keeps : (price : ℕ) → P (expand_or_contract_on_price env price s).1
  on_price-keeps price = elim (dec_lt env.base_unit price) [
    | yes above ↦
        let (change, e) = change_some env price env.base_unit s.coin_supply unit in
        rw (on_price-above env price s above, contract_on_price-eq env price change s e)
          (contracted change)
    | no not_above ↦ elim (dec_lt 0 price) [
      | no none ↦ rw (on_price-rest env price s (inl (omega arith))).1 stays
      | yes some_price ↦ elim (dec_lt price env.base_unit) [
        | yes under ↦
            let (change, e) = change_some env env.base_unit price s.coin_supply some_price in
            rw
              (on_price-below env price s some_price under, expand_on_price-eq env price change s e)
              (expanded change)
        | no not_under ↦ rw (on_price-rest env price s (inr (omega arith))).1 stays
      ]
    ]
  ]

  -- What a contraction and an expansion by any change keep, the start of a block keeps.
  on_initialize-keeps :
      (n price : ℕ) → 0 < env.adjustment_frequency → P (on_initialize env n price s).1
  unfolding on_initialize
  on_initialize-keeps n price freq = elim (dec_lt 0 (n % env.adjustment_frequency)) [
    | no due ↦
        let (ends, _) = on_price-IsSound env price s unit h in
        rw
          (
            on_block-due env n price s freq (omega arith),
            drop_error-Ends (expand_or_contract_on_price env price s) ends,
          )
          (on_price-keeps price)
    | yes not_due ↦ rw (on_block-not_due env n price s freq (omega arith)) stays
  ]

-- The start of a block leaves the shares alone.
pub on_initialize-shares :
    (env : Env) (n price : ℕ) (s : State)
    → 0 < env.adjustment_frequency
    → 0 < env.base_unit
    → IsSound env s
    → (on_initialize env n price s).1.shares ≡ s.shares
on_initialize-shares env n price s freq unit h =
    on_initialize-keeps env unit (λ s'. s'.shares ≡ s.shares) s h refl
      (λ change. contract_supply-shares env change s h)
      (λ change. expand_supply-shares env change s h) n price freq

-- A price that fits a `u64`, and room for the coins of any expansion, and one more.
pub record HasRoom (env : Env) (price : ℕ) (s : State) : Type 0 where
  pub fits : price < u64_mod
  pub coins : held env s + 2 * (env.base_unit * s.coin_supply) + 1 < u64_mod

-- The change of an expansion is at most the supply, base unit times.
change-bound : (unit price s change : ℕ) → 0 < price → Near unit price s change → change ≤ unit * s
change-bound unit price s change pos near =
    let a : change ≤ change * price = le-mul_of_pos_right change pos in
    let b : (unit - price) * s ≤ unit * s = mul-le-mul_right s (omega arith) in
    omega (arith, a, b, near.below)

-- The supply is backed by the coins in accounts and in escrow, up to `k` coins, and they fit a `u64`.
pub record IsBacked (env : Env) (k : ℕ) (s : State) : Type 0 where
  pub small : held env s < u64_mod
  pub backed : s.coin_supply ≤ held env s + k

pub IsBacked-weaken : (env : Env) (k : ℕ) (s : State) → IsBacked env k s → IsBacked env (k + 1) s
IsBacked-weaken env k s b = record { small = b.small; backed = omega (arith, b.backed) }

module _ (env : Env) where
  Steers-IsBacked :
      (n price k : ℕ) (s s' : State)
      → HasRoom env price s
      → IsBacked env k s
      → Steers env n price s s'
      → IsBacked env (k + 1) s'
  Steers-IsBacked n price k s s' room b (idle why same) = rw same (IsBacked-weaken env k s b)
  Steers-IsBacked n price k s s' room b (contracts above change burned near burns) = record {
    small = omega (arith, burns.no_more_left, room.coins);
    backed = omega (arith, burns.supply, burns.no_more_lost, b.backed);
  }
  Steers-IsBacked n price k s s' room b (too_low above change near low same) =
      rw same (IsBacked-weaken env k s b)
  Steers-IsBacked n price k s s' room b (expands pos under change near x) =
      let bound = change-bound env.base_unit price s.coin_supply change pos near in
      elim x.coins [
        | inl exact ↦ record {
          small = omega (arith, bound, room.coins, exact, ap (escrow env) x.same_bids);
          backed = omega (arith, b.backed, x.supply, exact, ap (escrow env) x.same_bids);
        }
        | inr (excess, _, most, _, more) ↦ record {
          small = omega (arith, bound, room.coins, more, most, ap (escrow env) x.same_bids);
          backed = omega (arith, b.backed, x.supply, more, ap (escrow env) x.same_bids);
        }
      ]
  Steers-IsBacked n price k s s' room b (too_high pos under change near high same) =
      rw same (IsBacked-weaken env k s b)

  pub on_initialize-IsBacked :
      (n price k : ℕ) (s : State)
      → RatioLaws env.crates
      → PerbillLaws env.crates
      → FixedLaws env.crates
      → 0 < env.adjustment_frequency
      → 0 < env.base_unit
      → env.base_unit < u64_mod
      → IsSound env s
      → OneShareEach s.shares
      → 0 < length s.shares
      → length s.shares < u64_mod
      → HasRoom env price s
      → IsBacked env k s
      → IsBacked env (k + 1) (on_initialize env n price s).1
  on_initialize-IsBacked n price k s ratio perbill fixed freq unit small h one some_one few room b =
      let (_, steers) =
        on_initialize-Steers env ratio perbill fixed n price s freq unit small room.fits h.fits
          h.queue b.small h.bonds one some_one few
          (λ change pos near.
            omega (
              arith,
              room.coins,
              change-bound env.base_unit price s.coin_supply change pos near,
            )) in
      Steers-IsBacked n price k s (on_initialize env n price s).1 room b steers
