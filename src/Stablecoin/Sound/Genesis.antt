-- ===== src/Stablecoin/Sound/Genesis.antt =====
-- The genesis makes a sound state.
use substrate_stablecoin.Prelude.{
  ap, ℕ, ◌+◌, ◌<◌, ◌≡◌, ◌≢◌, refl, List, length, u64_mod, arith, ltb, ◌==◌, true, false,
}
use substrate_stablecoin.Deque
use substrate_stablecoin.Stablecoin.Types.{Env, State}
use substrate_stablecoin.Stablecoin.Monad.{ok}
use substrate_stablecoin.Stablecoin.Bids.Queue.{IsQueue}
use substrate_stablecoin.Stablecoin.HandOut.{share_sum, plan, hand_out_coins}
use substrate_stablecoin.Stablecoin.HandOut.Loop.{hand_out_coins-runs, pay_from-Frame}
use substrate_stablecoin.Stablecoin.Expand.Payment.{BondsValid}
use substrate_stablecoin.Stablecoin.Expand.Supply.{expect-ok}
use substrate_stablecoin.Stablecoin.Genesis.{build}
use substrate_stablecoin.Stablecoin.Sound.{IsSound}

-- From storage without coins, with a well-formed queue and ring, a genesis whose initial supply is above
-- the minimum and whose shares do not add up to zero ends well, in a sound state with that supply.
pub build-IsSound :
    (env : Env) (shareholders : List (ℕ × ℕ)) (s : State)
    → IsQueue env s.bond_bids
    → BondsValid (Deque.new s.bonds)
    → s.coin_supply ≡ 0
    → env.minimum_supply < env.initial_supply
    → env.initial_supply < u64_mod
    → 0 < length shareholders
    → share_sum 0 shareholders ≢ 0
    → let (r, s') = build env shareholders s in
      (r ≡ ok tt)
      × IsSound env s'
      × (s'.coin_supply ≡ env.initial_supply)
      × (s'.shares ≡ shareholders)
unfolding build
build-IsSound env shareholders s q v empty above fits some_one ne =
    let b : ltb env.minimum_supply env.initial_supply ≡ true = ground arith in
    let e : (length shareholders == 0) ≡ false = ground arith in
    let n = share_sum 0 shareholders in
    let runs =
      hand_out_coins-runs shareholders env.initial_supply s.coin_supply n s (omega arith) refl ne in
    let (frame, bids) =
      pay_from-Frame (plan shareholders env.initial_supply n) shareholders 0 0 s in
    rw
      (
        b,
        e,
        expect-ok (hand_out_coins shareholders env.initial_supply s.coin_supply s)
            (ap (λ x. x.0) runs),
        runs,
      )
      (
        refl,
        record {
          queue = rw bids q;
          bonds = rw frame.same_bonds v;
          shares = ne;
          fits = omega (arith, empty);
          minimum = omega (arith, empty);
        },
        omega (arith, empty),
        refl,
      )

-- Such a genesis makes no bid.
pub build-bond_bids :
    (env : Env) (shareholders : List (ℕ × ℕ)) (s : State)
    → env.minimum_supply < env.initial_supply
    → s.coin_supply + env.initial_supply < u64_mod
    → 0 < length shareholders
    → share_sum 0 shareholders ≢ 0
    → (build env shareholders s).1.bond_bids ≡ s.bond_bids
unfolding build
build-bond_bids env shareholders s above fits some_one ne =
    let b : ltb env.minimum_supply env.initial_supply ≡ true = ground arith in
    let e : (length shareholders == 0) ≡ false = ground arith in
    let n = share_sum 0 shareholders in
    let runs =
      hand_out_coins-runs shareholders env.initial_supply s.coin_supply n s (omega arith) refl ne in
    let done =
      expect-ok (hand_out_coins shareholders env.initial_supply s.coin_supply s)
        (ap (λ x. x.0) runs) in
    rw (b, e, done, runs)
      (pay_from-Frame (plan shareholders env.initial_supply n) shareholders 0 0 s).1
