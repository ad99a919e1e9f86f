-- ===== src/Runtime/Sound.antt =====
-- The chain never stops: from a sound genesis every block, with any calls by anybody, runs to its end.
use substrate_stablecoin.Prelude.{
  ℕ, ◌<◌, ◌≡◌, ◌≢◌, refl, Bool, Option, none, some, List, [], ◌∷◌, ascii,
}
use substrate_stablecoin.Stablecoin.Types.{Env}
use substrate_stablecoin.Stablecoin.Types
use substrate_stablecoin.Stablecoin.Monad.{Result, ok, err, panic, out_of_fuel, Done}
use substrate_stablecoin.Stablecoin.Calls
use substrate_stablecoin.Stablecoin.Block.{on_initialize}
use substrate_stablecoin.Stablecoin.Sound.{IsSound, HasEnded}
use substrate_stablecoin.Stablecoin.Sound.Calls.{dispatch-IsSound}
use substrate_stablecoin.Stablecoin.Sound.Block.{on_initialize-IsSound}
use substrate_stablecoin.Price
use substrate_stablecoin.PriceFetch
use substrate_stablecoin.Runtime.{
  Chain, Origin, signer, is_unsigned, Call, End, succeeds, fails, panics, end_of, end_of_error,
  dispatch, apply_extrinsics, initialize_block, execute_block, stablecoin, set_price,
  get_offchain_price, record_price, record_agg_pp,
}

end_of_ended : (x : Result Done × Types.State) → HasEnded x → end_of x.0 ≢ panics
end_of_ended (ok done, s) h e = cc e
end_of_ended (err e', s) h e = cc e
end_of_ended (panic, s) h e = h
end_of_ended (out_of_fuel, s) h e = h

pub end_of_error_ended : {E : Type 0} (e : Option E) → end_of_error e ≢ panics
end_of_error_ended none h = cc h
end_of_error_ended (some e) h = cc h

-- A block, or a part of it, that runs to its end in a sound state.
abbrev pub RunsTo : Env → Option Chain → Type 0
RunsTo env none = ⊥
RunsTo env (some c) = IsSound env c.stablecoin

-- The number of the block does not matter.
pub IsSound-at :
    (env : Env) (number : ℕ) (s : Types.State)
    → IsSound env s
    → IsSound env (record s { block_number = number })
IsSound-at env number s h = record {
  queue = h.queue;
  bonds = h.bonds;
  shares = h.shares;
  fits = h.fits;
  minimum = h.minimum;
}

module _ (env : Env) (logs : Bool) where
  pub dispatch-RunsTo :
      (origin : Origin) (call : Call) (c : Chain)
      → IsSound env c.stablecoin
      → let (end, c') = dispatch env logs origin call c in
        (end ≢ panics) × IsSound env c'.stablecoin
  unfolding dispatch
  dispatch-RunsTo origin (stablecoin call) c h =
      let (ends, sound) = dispatch-IsSound env (signer origin) call c.stablecoin h in
      (end_of_ended (Calls.dispatch env (signer origin) call c.stablecoin) ends, sound)
  dispatch-RunsTo origin (set_price new_price) c h =
      (end_of_error_ended (Price.set_price (signer origin) new_price c.price).0, h)
  dispatch-RunsTo origin get_offchain_price c h =
      let offchain = PriceFetch.get_price_for (ascii "ETH") c.fetch in
      (end_of_error_ended (Price.get_offchain_price (signer origin) offchain c.price).0, h)
  dispatch-RunsTo origin (record_price symbol source price) c h = (
    end_of_error_ended
        (PriceFetch.record_price logs (is_unsigned origin) symbol source price c.fetch).0,
    h,
  )
  dispatch-RunsTo origin (record_agg_pp symbol price) c h = (
    end_of_error_ended (PriceFetch.record_agg_pp logs (is_unsigned origin) symbol price c.fetch).0,
    h,
  )

  initialized :
      (x : Result Done × Types.State) (c : Chain)
      → x.0 ≡ ok tt
      → IsSound env x.1
      → RunsTo env (elim (end_of x.0) [
        | succeeds ↦ some (record c { stablecoin = x.1 })
        | fails ↦ some (record c { stablecoin = x.1 })
        | panics ↦ none
      ])
  initialized (ok done, s) c e h = h
  initialized (err e', s) c e h = h
  initialized (panic, s) c e h = absurd (cc e)
  initialized (out_of_fuel, s) c e h = absurd (cc e)

  apply-one :
      (end : End) (rest : Option Chain)
      → end ≢ panics
      → RunsTo env rest
      → RunsTo env (elim end [ succeeds ↦ rest | fails ↦ rest | panics ↦ none ])
  apply-one succeeds rest ne h = h
  apply-one fails rest ne h = h
  apply-one panics rest ne h = ne refl

  apply_extrinsics-RunsTo :
      (extrinsics : List (Origin × Call)) (c : Chain)
      → IsSound env c.stablecoin
      → RunsTo env (apply_extrinsics env logs extrinsics c)
  unfolding apply_extrinsics
  apply_extrinsics-RunsTo [] c h = h
  apply_extrinsics-RunsTo ((origin, call) ∷ extrinsics) c h =
      let (ends, sound) = dispatch-RunsTo origin call c h in
      let c' = (dispatch env logs origin call c).1 in
      apply-one (dispatch env logs origin call c).0 (apply_extrinsics env logs extrinsics c') ends
        (apply_extrinsics-RunsTo extrinsics c' sound)

  module _ (freq : 0 < env.adjustment_frequency) (unit : 0 < env.base_unit) where
    initialize_block-RunsTo :
        (number : ℕ) (c : Chain)
        → IsSound env c.stablecoin
        → RunsTo env (initialize_block env number c)
    unfolding initialize_block
    initialize_block-RunsTo number c h =
        let at_number = record c.stablecoin { block_number = number } in
        let here = IsSound-at env number c.stablecoin h in
        let (r, sound) =
          on_initialize-IsSound env number (Price.fetch_price c.price) at_number freq unit here in
        initialized (on_initialize env number (Price.fetch_price c.price) at_number) c r sound

    -- If the frequency and the base unit are not zero, then from a sound state every block, whatever its
    -- number, time, calls and origins, runs to its end without a panic, in a sound state.
    pub execute_block-RunsTo :
        (number now : ℕ) (extrinsics : List (Origin × Call)) (c : Chain)
        → IsSound env c.stablecoin
        → RunsTo env (execute_block env logs number now extrinsics c)
    unfolding execute_block
    execute_block-RunsTo number now extrinsics c h =
        after (initialize_block env number c) (initialize_block-RunsTo number c h)
      where
        after :
            (o : Option Chain)
            → RunsTo env o
            → RunsTo env (elim o [
              | none ↦ none
              | some c' ↦
                  apply_extrinsics env logs extrinsics
                    (record c' { fetch = record c'.fetch { now = now } })
            ])
        after none h' = absurd h'
        after (some c') h' =
            apply_extrinsics-RunsTo extrinsics (record c' { fetch = record c'.fetch { now = now } })
              h'

-- The chains that blocks lead to from a first one.
pub data Reachable (env : Env) (logs : Bool) (first : Chain) : Chain → Type 0 where
  here : Reachable env logs first first
  next :
      {c : Chain} (c' : Chain) (number now : ℕ) (extrinsics : List (Origin × Call))
      → Reachable env logs first c
      → execute_block env logs number now extrinsics c ≡ some c'
      → Reachable env logs first c'

pub Reachable-IsSound :
    {env : Env} {logs : Bool} {first c : Chain}
    → 0 < env.adjustment_frequency
    → 0 < env.base_unit
    → IsSound env first.stablecoin
    → Reachable env logs first c
    → IsSound env c.stablecoin
Reachable-IsSound freq unit h here = h
Reachable-IsSound {env} {logs} freq unit h (next {c} c' number now extrinsics r e) =
    let sound = Reachable-IsSound freq unit h r in
    rw e at (execute_block-RunsTo env logs freq unit number now extrinsics c sound)

pub RunsTo-some :
    (env : Env) (o : Option Chain)
    → RunsTo env o
    → (c : Chain) × (o ≡ some c) × IsSound env c.stablecoin
RunsTo-some env none h = absurd h
RunsTo-some env (some c) h = (c, refl, h)
