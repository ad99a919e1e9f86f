-- ===== src/Stablecoin/Block/Steering.antt =====
-- What the start of a block does to the supply, by the block's number and the price.
use native.Mathlib.Decide.{dec_lt}
use substrate_stablecoin.Prelude.{
  ℕ, ◌+◌, ◌*◌, ◌%◌, ◌≤◌, ◌<◌, ◌≡◌, ◌≢◌, refl, ◌⊎◌, inl, inr, length, u64_mod, arith, ltb, true,
  false, ◌==◌,
}
use substrate_stablecoin.Deque
use substrate_stablecoin.Stablecoin.Types.{
  Env, State, zero_price, coin_supply_underflow, coin_supply_overflow,
}
use substrate_stablecoin.Stablecoin.Monad.{Result, ok, err, Done}
use substrate_stablecoin.Stablecoin.Ledger.{total}
use substrate_stablecoin.Stablecoin.Bids.Escrow.{held}
use substrate_stablecoin.Stablecoin.Bids.Queue.{IsQueue}
use substrate_stablecoin.Stablecoin.Bids.Remove.{RatioLaws, PerbillLaws}
use substrate_stablecoin.Stablecoin.Contract.{contract_supply}
use substrate_stablecoin.Stablecoin.Contract.Supply.{Burns, contract_supply-Burns}
use substrate_stablecoin.Stablecoin.HandOut.Exact.{OneShareEach}
use substrate_stablecoin.Stablecoin.Expand.{expand_supply}
use substrate_stablecoin.Stablecoin.Expand.Payment.{BondsValid}
use substrate_stablecoin.Stablecoin.Expand.Supply.{Expands, expand_supply_pays}
use substrate_stablecoin.Stablecoin.Block.{
  calculate_supply_change, contract_on_price, expand_on_price, expand_or_contract_on_price,
  on_block_with_price, drop_error, on_initialize,
}
use substrate_stablecoin.Stablecoin.Block.Change.{FixedLaws, Near, calculate_supply_change-Near}

-- What a block's start does, from `s` to `s'`: nothing off the schedule or at a price that asks for
-- nothing; a contraction above the base unit and an expansion below it, by the change that the price
-- asks for, or nothing where that change is refused.
pub data Steers (env : Env) (n price : ℕ) (s s' : State) : Type 0 where
  idle :
      (n % env.adjustment_frequency ≢ 0) ⊎ (price ≡ 0) ⊎ (price ≡ env.base_unit)
      → s' ≡ s
      → Steers env n price s s'
  contracts :
      env.base_unit < price
      → (change burned : ℕ) → Near price env.base_unit s.coin_supply change
      → Burns env s.coin_supply change burned s s'
      → Steers env n price s s'
  too_low :
      env.base_unit < price
      → (change : ℕ) → Near price env.base_unit s.coin_supply change
      → s.coin_supply < change + env.minimum_supply
      → s' ≡ s
      → Steers env n price s s'
  expands :
      0 < price
      → price < env.base_unit
      → (change : ℕ) → Near env.base_unit price s.coin_supply change
      → Expands s.coin_supply change s s'
      → Steers env n price s s'
  too_high :
      0 < price
      → price < env.base_unit
      → (change : ℕ) → Near env.base_unit price s.coin_supply change
      → u64_mod ≤ s.coin_supply + change
      → s' ≡ s
      → Steers env n price s s'

-- A result that is not a panic, and that `drop_error` makes a success.
abbrev pub Ends : Result Done → Type 0
Ends r = (r ≡ ok tt) ⊎ ((e : _) × (r ≡ err e))

pub drop_error-Ends : (x : Result Done × State) → Ends x.0 → drop_error x ≡ (ok tt, x.1)
unfolding drop_error
drop_error-Ends (r, s) (inl e) = rw e refl
drop_error-Ends (r, s) (inr (x, e)) = rw e refl

pub contract_on_price-eq :
    (env : Env) (price change : ℕ) (s : State)
    → calculate_supply_change env price env.base_unit s.coin_supply ≡ ok change
    → contract_on_price env price s ≡ contract_supply env s.coin_supply change s
unfolding contract_on_price
contract_on_price-eq env price change s e = rw e refl

pub expand_on_price-eq :
    (env : Env) (price change : ℕ) (s : State)
    → calculate_supply_change env env.base_unit price s.coin_supply ≡ ok change
    → expand_on_price env price s ≡ expand_supply s.coin_supply change s
unfolding expand_on_price
expand_on_price-eq env price change s e = rw e refl

-- Which arm a price takes, and which blocks adjust.
pub on_price-above :
    (env : Env) (price : ℕ) (s : State)
    → env.base_unit < price
    → expand_or_contract_on_price env price s ≡ contract_on_price env price s
unfolding expand_or_contract_on_price
on_price-above env price s h = ground arith

pub on_price-below :
    (env : Env) (price : ℕ) (s : State)
    → 0 < price
    → price < env.base_unit
    → expand_or_contract_on_price env price s ≡ expand_on_price env price s
unfolding expand_or_contract_on_price
on_price-below env price s pos h = ground arith

pub on_price-rest :
    (env : Env) (price : ℕ) (s : State)
    → (price ≡ 0) ⊎ (price ≡ env.base_unit)
    → let (r, s') = expand_or_contract_on_price env price s in Ends r × (s' ≡ s)
unfolding expand_or_contract_on_price
on_price-rest env price s h = elim (dec_lt 0 price) [
  | no z ↦ let b : (price == 0) ≡ true = ground arith in rw b (inr (zero_price, refl), refl)
  | yes nz ↦
      let b : (price == 0) ≡ false = ground arith in
      let over : ltb env.base_unit price ≡ false = ground arith in
      let under : ltb price env.base_unit ≡ false = ground arith in
      rw (b, over, under) (inl refl, refl)
]

pub on_block-due :
    (env : Env) (n price : ℕ) (s : State)
    → 0 < env.adjustment_frequency
    → n % env.adjustment_frequency ≡ 0
    → on_block_with_price env n price s ≡ expand_or_contract_on_price env price s
unfolding on_block_with_price
on_block-due env n price s pos due = ground arith

pub on_block-not_due :
    (env : Env) (n price : ℕ) (s : State)
    → 0 < env.adjustment_frequency
    → n % env.adjustment_frequency ≢ 0
    → on_block_with_price env n price s ≡ (ok tt, s)
unfolding on_block_with_price
on_block-not_due env n price s pos due = ground arith

module _ (env : Env) (ratio : RatioLaws env.crates) (perbill : PerbillLaws env.crates)
    (fixed : FixedLaws env.crates) where
  above_unit :
      (n price : ℕ) (s : State)
      → env.base_unit < price
      → 0 < env.base_unit
      → price < u64_mod
      → s.coin_supply < u64_mod
      → IsQueue env s.bond_bids
      → held env s < u64_mod
      → let (r, s') = contract_on_price env price s in Ends r × Steers env n price s s'
  above_unit n price s above pos fits supply queue small =
      let (change, e, near) =
        calculate_supply_change-Near env price env.base_unit s.coin_supply fixed pos (omega arith)
          fits supply in
      rw (contract_on_price-eq env price change s e)
        (elim (contract_supply-Burns env ratio perbill s.coin_supply change s queue small) [
          | inl (low, r, same) ↦
              (inr (coin_supply_underflow, r), too_low above change near low same)
          | inr (r, (burned, b)) ↦ (inl r, contracts above change burned near b)
        ])

  below_unit :
      (n price : ℕ) (s : State)
      → price < env.base_unit
      → 0 < price
      → env.base_unit < u64_mod
      → s.coin_supply < u64_mod
      → BondsValid (Deque.new s.bonds)
      → OneShareEach s.shares
      → 0 < length s.shares
      → length s.shares < u64_mod
      → ((change : ℕ)
          → Near env.base_unit price s.coin_supply change
          → total s.balance + 2 * change < u64_mod)
      → let (r, s') = expand_on_price env price s in Ends r × Steers env n price s s'
  below_unit n price s under pos fits supply bonds one some_one few room =
      let (change, e, near) =
        calculate_supply_change-Near env env.base_unit price s.coin_supply fixed pos (omega arith)
          fits supply in
      rw (expand_on_price-eq env price change s e)
        (elim (expand_supply_pays s.coin_supply change s bonds one some_one few
          (room change near)) [
            | inl (high, r, same) ↦
                (inr (coin_supply_overflow, r), too_high pos under change near high same)
            | inr (r, x) ↦ (inl r, expands pos under change near x)
          ])

  on_price-Steers :
      (n price : ℕ) (s : State)
      → 0 < env.base_unit
      → env.base_unit < u64_mod
      → price < u64_mod
      → s.coin_supply < u64_mod
      → IsQueue env s.bond_bids
      → held env s < u64_mod
      → BondsValid (Deque.new s.bonds)
      → OneShareEach s.shares
      → 0 < length s.shares
      → length s.shares < u64_mod
      → ((change : ℕ)
          → 0 < price
          → Near env.base_unit price s.coin_supply change
          → total s.balance + 2 * change < u64_mod)
      → let (r, s') = expand_or_contract_on_price env price s in Ends r × Steers env n price s s'
  on_price-Steers n price s pos unit fits supply queue small bonds one some_one few room =
      elim (dec_lt env.base_unit price) [
        | yes above ↦
            rw (on_price-above env price s above)
              (above_unit n price s above pos fits supply queue small)
        | no not_above ↦ elim (dec_lt price env.base_unit) [
          | yes under ↦ elim (dec_lt 0 price) [
            | yes some_price ↦ rw (on_price-below env price s some_price under) (
                below_unit n price s under some_price unit supply bonds one some_one few
                  (λ change. room change some_price))
            | no none ↦
                let (r, same) = on_price-rest env price s (inl (omega arith)) in
                (r, idle (inr (inl (omega arith))) same)
          ]
          | no not_under ↦
              let (r, same) = on_price-rest env price s (inr (omega arith)) in
              (r, idle (inr (inr (omega arith))) same)
        ]
      ]

  -- Let the crates compute as documented, the frequency and the base unit not be zero, the queue
  -- and the bonds be well formed, each shareholder have one share and there be one, and the
  -- balances have room for twice the change if there is a price. Then the start of a block ends without a panic, and
  -- steers the supply: nothing happens off the schedule or at a price of zero or of the base
  -- unit; above the base unit the supply contracts and below it expands, by the change that the
  -- price asks for, or stays where the minimum or the largest number refuses the change.
  pub on_initialize-Steers :
      (n price : ℕ) (s : State)
      → 0 < env.adjustment_frequency
      → 0 < env.base_unit
      → env.base_unit < u64_mod
      → price < u64_mod
      → s.coin_supply < u64_mod
      → IsQueue env s.bond_bids
      → held env s < u64_mod
      → BondsValid (Deque.new s.bonds)
      → OneShareEach s.shares
      → 0 < length s.shares
      → length s.shares < u64_mod
      → ((change : ℕ)
          → 0 < price
          → Near env.base_unit price s.coin_supply change
          → total s.balance + 2 * change < u64_mod)
      → let (r, s') = on_initialize env n price s in (r ≡ ok tt) × Steers env n price s s'
  unfolding on_initialize
  on_initialize-Steers n price s freq pos unit fits supply queue small bonds one some_one few room =
      elim (dec_lt 0 (n % env.adjustment_frequency)) [
        | no due ↦
            let (ends, steers) =
              on_price-Steers n price s pos unit fits supply queue small bonds one some_one few
                room in
            rw
              (
                on_block-due env n price s freq (omega arith),
                drop_error-Ends (expand_or_contract_on_price env price s) ends,
              )
              (refl, steers)
        | yes not_due ↦
            rw (on_block-not_due env n price s freq (omega arith))
              (refl, idle (inl (omega arith)) refl)
      ]
