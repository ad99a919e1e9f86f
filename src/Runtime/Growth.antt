-- ===== src/Runtime/Growth.antt =====
-- How far the supply can have grown on a chain among its workers and users: in each block by the ratio of the
-- base unit and the lowest price at most.
use native.Mathlib.Nat.{mul-le-mul_right, mul_assoc, mul_right_comm, pow-zero, pow-suc}
use substrate_stablecoin.Prelude.{
  ℕ, suc, ◌*◌, ◌^◌, ◌≤◌, ◌<◌, ◌≡◌, ◌∙◌, sym, ap, refl, Bool, some, List, arith, u64_mod,
}
use substrate_stablecoin.Stablecoin.Types.{Env}
use substrate_stablecoin.Stablecoin.Block.Change.{FixedLaws}
use substrate_stablecoin.Stablecoin.Sound.{IsSound}
use substrate_stablecoin.Stablecoin.Sound.Block.{on_initialize-IsSound}
use substrate_stablecoin.Stablecoin.Sound.Calls.{dispatch-supply}
use substrate_stablecoin.Stablecoin.Sound.Growth.{on_initialize-supply}
use substrate_stablecoin.Price.{fetch_price}
use substrate_stablecoin.Runtime.{
  Chain, Origin, signer, Call, stablecoin, set_price, get_offchain_price, record_price,
  record_agg_pp, dispatch, execute_block,
}
use substrate_stablecoin.Runtime.Sound.{IsSound-at, dispatch-RunsTo}
use substrate_stablecoin.Runtime.Blocks.{IsAny, all-IsAny, execute_block-keeps}
use substrate_stablecoin.Runtime.Honest.{Within}
use substrate_stablecoin.Runtime.Lives.{Lives, Lives-kept}
use substrate_stablecoin.Runtime.Lives.Lives.{starts, signs, works, executes}

module _ (env : Env) (logs : Bool) where
  dispatch_supply :
      (origin : Origin) (call : Call) (c : Chain)
      → IsSound env c.stablecoin
      → (dispatch env logs origin call c).1.stablecoin.coin_supply ≡ c.stablecoin.coin_supply
  unfolding dispatch
  dispatch_supply origin (stablecoin call) c h =
      dispatch-supply env (signer origin) call c.stablecoin h
  dispatch_supply origin (set_price new_price) c h = refl
  dispatch_supply origin get_offchain_price c h = refl
  dispatch_supply origin (record_price symbol source price) c h = refl
  dispatch_supply origin (record_agg_pp symbol price) c h = refl

  module _ (laws : FixedLaws env.crates) (low : ℕ) (low_unit : low ≤ env.base_unit)
      (unit_small : env.base_unit < u64_mod) (freq : 0 < env.adjustment_frequency)
      (unit : 0 < env.base_unit) where
    -- A block, from a sound state with a price that is not below `low`, makes the supply larger by the ratio
    -- of the base unit and `low` at most.
    execute_block-supply :
        (number now : ℕ) (extrinsics : List (Origin × Call)) (c c' : Chain)
        → IsSound env c.stablecoin
        → low ≤ fetch_price c.price
        → execute_block env logs number now extrinsics c ≡ some c'
        → c'.stablecoin.coin_supply * low ≤ c.stablecoin.coin_supply * env.base_unit
    execute_block-supply number now extrinsics c c' h above e =
        let price = fetch_price c.price in
        let at_number = record c.stablecoin { block_number = number } in
        let here = IsSound-at env number c.stablecoin h in
        let (_, sound) = on_initialize-IsSound env number price at_number freq unit here in
        let grown =
          on_initialize-supply env laws low low_unit unit unit_small number price at_number freq
            above here in
        let limit = c.stablecoin.coin_supply * env.base_unit in
        (execute_block-keeps env logs
          (λ c₁. IsSound env c₁.stablecoin × (c₁.stablecoin.coin_supply * low ≤ limit)) IsAny
          (λ origin call c₁ _ (s, g). (
            (dispatch-RunsTo env logs origin call c₁ s).1,
            rw (dispatch_supply origin call c₁ s) g,
          ))
          number now extrinsics c c' (all-IsAny extrinsics) (λ c₁ h₁. h₁) (sound, grown) e).1

-- The ratio of no block, and of one more.
none-lem : (s low unit : ℕ) → s * low ^ 0 ≤ s * unit ^ 0
none-lem s low unit = omega (arith, ap (λ x. s * x) (pow-zero low), ap (λ x. s * x) (pow-zero unit))

another-lem :
    (first s s' low unit k : ℕ)
    → s' * low ≤ s * unit
    → s * low ^ k ≤ first * unit ^ k
    → s' * low ^ suc k ≤ first * unit ^ suc k
another-lem first s s' low unit k one more =
    let a : s' * low * low ^ k ≤ s * unit * low ^ k = mul-le-mul_right (low ^ k) one in
    let b : s * low ^ k * unit ≤ first * unit ^ k * unit = mul-le-mul_right unit more in
    let c : s' * low ^ suc k ≡ s' * low * low ^ k =
      ap (λ x. s' * x) (pow-suc low k)
      ∙ sym (mul_assoc s' (low ^ k) low)
      ∙ mul_right_comm s' (low ^ k) low in
    let d : s * unit * low ^ k ≡ s * low ^ k * unit = mul_right_comm s unit (low ^ k) in
    let e : first * unit ^ k * unit ≡ first * unit ^ suc k =
      mul_assoc first (unit ^ k) unit ∙ sym (ap (λ x. first * x) (pow-suc unit k)) in
    omega (arith, a, b, c, d, e)

module _ (low high : ℕ) (env : Env) (logs : Bool) where
  -- How many blocks have been made.
  unfoldable pub blocks :
      {first c : Chain} {waiting : List (Origin × Call)}
      → Lives low high env logs first c waiting
      → ℕ
  blocks starts = 0
  blocks (signs who call honest l) = blocks l
  blocks (works host duration block symbols answers small l) = blocks l
  blocks (executes number now extrinsics c' m e l) = suc (blocks l)

  module _ (laws : FixedLaws env.crates) (low_unit : low ≤ env.base_unit)
      (unit_small : env.base_unit < u64_mod) (freq : 0 < env.adjustment_frequency)
      (unit : 0 < env.base_unit) (first : Chain) (sound : IsSound env first.stablecoin)
      (within : Within low high first.price first.fetch) where
    Lives-grown :
        {c : Chain} {waiting : List (Origin × Call)} (l : Lives low high env logs first c waiting)
        → c.stablecoin.coin_supply * low ^ blocks l
          ≤ first.stablecoin.coin_supply * env.base_unit ^ blocks l
    unfolding blocks fetch_price
    Lives-grown starts = none-lem first.stablecoin.coin_supply low env.base_unit
    Lives-grown (signs who call honest l) = Lives-grown l
    Lives-grown (works host duration block symbols answers small l) = Lives-grown l
    Lives-grown (executes {c} number now extrinsics c' m e l) =
        let (s, w, _) = Lives-kept low high env logs freq unit first sound within l in
        another-lem first.stablecoin.coin_supply c.stablecoin.coin_supply c'.stablecoin.coin_supply
          low env.base_unit (blocks l)
          (execute_block-supply env logs laws low low_unit unit_small freq unit number now
            extrinsics c c' s w.price.0 e)
          (Lives-grown l)

    -- Let fixed compute as documented, the frequency and the base unit not be zero, the base unit fit a
    -- `u64`, the first chain be sound and all that it stores of the price of `ETH` be within two bounds, the
    -- lower of them not above the base unit; no user sets the price out of them, no source answers out
    -- of them, and the sum of the points fits whenever a worker runs. Then, whatever users and
    -- workers submit and however blocks are made of it, the supply never falls below the minimum,
    -- and after any number of blocks it is at most the first supply times that power of the ratio
    -- of the base unit and the lower bound.
    pub Lives-growth :
        {c : Chain} {waiting : List (Origin × Call)} (l : Lives low high env logs first c waiting)
        → (env.minimum_supply ≤ c.stablecoin.coin_supply)
          × (c.stablecoin.coin_supply * low ^ blocks l
              ≤ first.stablecoin.coin_supply * env.base_unit ^ blocks l)
    Lives-growth l =
        let (s, _, _) = Lives-kept low high env logs freq unit first sound within l in
        (s.minimum, Lives-grown l)
