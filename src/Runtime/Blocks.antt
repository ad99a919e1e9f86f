-- ===== src/Runtime/Blocks.antt =====
-- What the start of a block and its extrinsics keep, the block keeps.
use mathlib.Core.Path.{subst}
use substrate_stablecoin.Prelude.{ℕ, ◌≡◌, Bool, Option, none, some, List, [], ◌∷◌, All}
use substrate_stablecoin.Stablecoin.Types.{Env}
use substrate_stablecoin.Stablecoin.Types
use substrate_stablecoin.Stablecoin.Monad.{Result, ok, err, panic, out_of_fuel, Done}
use substrate_stablecoin.Stablecoin.Block.{on_initialize}
use substrate_stablecoin.Price.{fetch_price}
use substrate_stablecoin.Runtime.{
  Chain, Origin, Call, End, succeeds, fails, panics, end_of, dispatch, apply_extrinsics,
  initialize_block, execute_block,
}

abbrev pub IsAny : Origin × Call → Type 0
IsAny x = Unit

pub all-IsAny : (extrinsics : List (Origin × Call)) → All IsAny extrinsics
all-IsAny [] = tt
all-IsAny (x ∷ extrinsics) = (tt, all-IsAny extrinsics)

module _ (env : Env) (logs : Bool) (P : Chain → Type 0) where
  -- Of a block that runs to its end, or a part of it.
  abbrev IfRuns : Option Chain → Type 0
  IfRuns none = Unit
  IfRuns (some c) = P c

  apply-one-IfRuns :
      (end : End) (rest : Option Chain)
      → IfRuns rest
      → IfRuns (elim end [ succeeds ↦ rest | fails ↦ rest | panics ↦ none ])
  apply-one-IfRuns succeeds rest h = h
  apply-one-IfRuns fails rest h = h
  apply-one-IfRuns panics rest h = tt

  initialized-IfRuns :
      (r : Result Done) (s : Types.State) (c : Chain)
      → P (record c { stablecoin = s })
      → IfRuns (elim (end_of r) [
        | succeeds ↦ some (record c { stablecoin = s })
        | fails ↦ some (record c { stablecoin = s })
        | panics ↦ none
      ])
  initialized-IfRuns (ok done) s c h = h
  initialized-IfRuns (err e) s c h = h
  initialized-IfRuns panic s c h = tt
  initialized-IfRuns out_of_fuel s c h = tt

  module _ (H : Origin × Call → Type 0)
      (one : (origin : Origin) (call : Call) (c : Chain)
        → H (origin, call)
        → P c
        → P (dispatch env logs origin call c).1) where
    apply_extrinsics-IfRuns :
        (extrinsics : List (Origin × Call)) (c : Chain)
        → All H extrinsics
        → P c
        → IfRuns (apply_extrinsics env logs extrinsics c)
    unfolding apply_extrinsics
    apply_extrinsics-IfRuns [] c each h = h
    apply_extrinsics-IfRuns ((origin, call) ∷ extrinsics) c each h =
        let (end, c') = dispatch env logs origin call c in
        apply-one-IfRuns end (apply_extrinsics env logs extrinsics c')
          (apply_extrinsics-IfRuns extrinsics c' each.1 (one origin call c each.0 h))

    -- What holds of the chain once the block is initialized, whatever the time, and is kept by each extrinsic
    -- holds of the chain after the block.
    pub execute_block-keeps :
        (number now : ℕ) (extrinsics : List (Origin × Call)) (c c' : Chain)
        → All H extrinsics
        → ((c₁ : Chain) → P c₁ → P (record c₁ { fetch = record c₁.fetch { now = now } }))
        → (let at_number = record c.stablecoin { block_number = number } in
            P (record c {
              stablecoin = (on_initialize env number (fetch_price c.price) at_number).1;
            }))
        → execute_block env logs number now extrinsics c ≡ some c'
        → P c'
    unfolding execute_block initialize_block
    execute_block-keeps number now extrinsics c c' each timed start e =
        let at_number = record c.stablecoin { block_number = number } in
        let (r, s) = on_initialize env number (fetch_price c.price) at_number in
        subst IfRuns e (after (initialize_block env number c) (initialized-IfRuns r s c start))
      where
        after :
            (o : Option Chain)
            → IfRuns o
            → IfRuns (elim o [
              | none ↦ none
              | some c₁ ↦
                  apply_extrinsics env logs extrinsics
                    (record c₁ { fetch = record c₁.fetch { now = now } })
            ])
        after none h = tt
        after (some c₁) h =
            apply_extrinsics-IfRuns extrinsics (record c₁ { fetch = record c₁.fetch { now = now } })
              each (timed c₁ h)
