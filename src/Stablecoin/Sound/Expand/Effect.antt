-- ===== src/Stablecoin/Sound/Expand/Effect.antt =====
-- What an expansion of a sound state does to the supply and the shares.
use native.Mathlib.Decide.{dec_lt}
use substrate_stablecoin.Prelude.{ℕ, suc, ◌+◌, ◌≤◌, ◌<◌, ◌≡◌, ◌≢◌, ◌∙◌, refl, u64_mod, arith}
use substrate_stablecoin.Deque
use substrate_stablecoin.Deque.{Deque}
use substrate_stablecoin.Stablecoin.Types.{Env, State}
use substrate_stablecoin.Stablecoin.HandOut.{share_sum}
use substrate_stablecoin.Stablecoin.Expand.{Expansion, store_bonds, expand_supply}
use substrate_stablecoin.Stablecoin.Expand.Supply.{
  begin, finish, expand_supply-refuses, expand_supply-runs,
}
use substrate_stablecoin.Stablecoin.Sound.{IsSound}
use substrate_stablecoin.Stablecoin.Sound.Expand.{Keeps, expand_loop-Keeps, hand_out_rest-Keeps}

finish-shares :
    (env : Env) (amount : ℕ) (s s' : State) (e : Expansion)
    → IsSound env s
    → s.coin_supply + amount < u64_mod
    → Keeps amount s e s'
    → (finish s.coin_supply amount e s').1.shares ≡ s.shares
unfolding store_bonds
finish-shares env amount s s' e h fits k =
    let ne : share_sum 0 s'.shares ≢ 0 = rw k.frame.same_shares h.shares in
    let (done, _, shares, _) = hand_out_rest-Keeps s.coin_supply amount e s' fits k.less ne in
    rw done (shares ∙ k.frame.same_shares)

finish-supply :
    (env : Env) (amount : ℕ) (s s' : State) (e : Expansion)
    → IsSound env s
    → s.coin_supply + amount < u64_mod
    → Keeps amount s e s'
    → (finish s.coin_supply amount e s').1.coin_supply ≡ s.coin_supply + amount
unfolding store_bonds
finish-supply env amount s s' e h fits k =
    let ne : share_sum 0 s'.shares ≢ 0 = rw k.frame.same_shares h.shares in
    let (done, supply, _, _) = hand_out_rest-Keeps s.coin_supply amount e s' fits k.less ne in
    rw done supply

-- An expansion adds no more than its amount to the supply.
pub expand_supply-supply :
    (env : Env) (amount : ℕ) (s : State)
    → IsSound env s
    → (expand_supply s.coin_supply amount s).1.coin_supply ≤ s.coin_supply + amount
expand_supply-supply env amount s h = elim (dec_lt (s.coin_supply + amount) u64_mod) [
  | no over ↦ rw (expand_supply-refuses s.coin_supply amount s (omega arith)) (omega arith)
  | yes fits ↦
      let (e, s', l, k) =
        expand_loop-Keeps (suc (Deque.new s.bonds).length) (begin amount s) s (omega arith)
          h.bonds in
      rw (expand_supply-runs s.coin_supply amount s s' e fits l)
        (omega (arith, finish-supply env amount s s' e h fits k))
]

-- An expansion leaves the shares alone.
pub expand_supply-shares :
    (env : Env) (amount : ℕ) (s : State)
    → IsSound env s
    → (expand_supply s.coin_supply amount s).1.shares ≡ s.shares
expand_supply-shares env amount s h = elim (dec_lt (s.coin_supply + amount) u64_mod) [
  | no over ↦ rw (expand_supply-refuses s.coin_supply amount s (omega arith)) refl
  | yes fits ↦
      let (e, s', l, k) =
        expand_loop-Keeps (suc (Deque.new s.bonds).length) (begin amount s) s (omega arith)
          h.bonds in
      rw (expand_supply-runs s.coin_supply amount s s' e fits l)
        (finish-shares env amount s s' e h fits k)
]
