-- ===== src/Stablecoin/Genesis.antt =====
-- `add_extra_genesis` (pallets/stablecoin/src/lib.rs): the storage that the chain starts with.
use native.Mathlib.Decide.{dec_lt}
use substrate_stablecoin.Prelude.{
  ℕ, ◌+◌, ◌<◌, ◌≤◌, ◌≡◌, refl, ◌⊎◌, inl, inr, List, length, u64_mod, arith, ltb, ◌==◌, true, false,
  if◌then◌else◌,
}
use substrate_stablecoin.Stablecoin.Types.{Env, State}
use substrate_stablecoin.Stablecoin.Monad.{ok, panic, Action, Done, and_then}
use substrate_stablecoin.Stablecoin.Ledger.{total}
use substrate_stablecoin.Stablecoin.HandOut.{hand_out_coins}
use substrate_stablecoin.Stablecoin.HandOut.Exact.{OneShareEach, hand_out_coins_exact}
use substrate_stablecoin.Stablecoin.Expand.{expect}
use substrate_stablecoin.Stablecoin.Expand.Supply.{expect-ok}

unfoldable pub put_shares : List (ℕ × ℕ) → State → State
put_shares shareholders s = record s { shares = shareholders }

-- `build`: the two assertions, the hand-out of the initial supply, and the shareholders.
unfoldable pub build : Env → List (ℕ × ℕ) → Action Done
unfolding put_shares expect
build env shareholders s =
    if ltb env.minimum_supply env.initial_supply
    then (if length shareholders == 0
        then (panic, s)
        else (and_then (expect (hand_out_coins shareholders env.initial_supply s.coin_supply s))
            (λ _ s'. (ok tt, put_shares shareholders s'))))
    else (panic, s)

-- With one share for each shareholder, and room in the supply and the balances, the genesis either
-- panics, because the initial supply is not above the minimum or nobody is a shareholder, or ends
-- well with neither being so: the supply and the balances have grown by the initial supply and the
-- shareholders are stored.
pub build_cases :
    (env : Env) (shareholders : List (ℕ × ℕ)) (s : State)
    → OneShareEach shareholders
    → length shareholders < u64_mod
    → s.coin_supply + env.initial_supply < u64_mod
    → total s.balance + env.initial_supply < u64_mod
    → let (r, s') = build env shareholders s in
      ((r ≡ panic)
        × ((env.initial_supply ≤ env.minimum_supply) ⊎ (length shareholders ≡ 0))
        × (s' ≡ s))
      ⊎ ((r ≡ ok tt)
          × (env.minimum_supply < env.initial_supply)
          × (0 < length shareholders)
          × (s'.coin_supply ≡ s.coin_supply + env.initial_supply)
          × (total s'.balance ≡ total s.balance + env.initial_supply)
          × (s'.shares ≡ shareholders))
unfolding build
build_cases env shareholders s one few fits small =
    elim (dec_lt env.minimum_supply env.initial_supply) [
      | no low ↦
          let b : ltb env.minimum_supply env.initial_supply ≡ false = ground arith in
          rw b (inl (refl, inl (omega arith), refl))
      | yes enough ↦
          let b : ltb env.minimum_supply env.initial_supply ≡ true = ground arith in
          elim (dec_lt 0 (length shareholders)) [
            | no none ↦
                let e : (length shareholders == 0) ≡ true = ground arith in
                rw (b, e) (inl (refl, inr (omega arith), refl))
            | yes some_one ↦
                let e : (length shareholders == 0) ≡ false = ground arith in
                elim (hand_out_coins_exact shareholders env.initial_supply s.coin_supply s one
                  some_one few small) [
                    | inl (_, _, over) ↦ absurd (omega arith)
                    | inr (done, supply, coins, _, _) ↦
                        rw
                          (
                            b,
                            e,
                            expect-ok
                                (hand_out_coins shareholders env.initial_supply s.coin_supply s)
                                done,
                          )
                          (inr (refl, enough, some_one, supply, coins, refl))
                  ]
          ]
    ]
