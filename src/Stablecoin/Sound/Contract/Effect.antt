-- ===== src/Stablecoin/Sound/Contract/Effect.antt =====
-- What a contraction of a sound state does to the supply and the shares.
use native.Mathlib.Decide.{dec_lt}
use substrate_stablecoin.Prelude.{ℕ, suc, ◌+◌, ◌≤◌, ◌≡◌, ◌∙◌, refl, [], length, arith}
use substrate_stablecoin.Stablecoin.Types.{Env, State}
use substrate_stablecoin.Stablecoin.Contract.{Contraction, settle, contract_supply}
use substrate_stablecoin.Stablecoin.Contract.Supply.{contract_supply-refuses, contract_supply-runs}
use substrate_stablecoin.Stablecoin.Sound.{IsSound}
use substrate_stablecoin.Stablecoin.Sound.Contract.{contract_loop-Keeps, balance_free-emit_bonds}

-- A contraction adds nothing to the supply.
pub contract_supply-supply :
    (env : Env) (amount : ℕ) (s : State)
    → IsSound env s
    → (contract_supply env s.coin_supply amount s).1.coin_supply ≤ s.coin_supply
unfolding settle
contract_supply-supply env amount s h = elim (dec_lt s.coin_supply (amount + env.minimum_supply)) [
  | yes low ↦ rw (contract_supply-refuses env s.coin_supply amount s low) (omega arith)
  | no enough ↦
      let start : Contraction = record { bids = s.bond_bids; remaining = amount; bonds = [] } in
      let (c, s', e, _, _) =
        contract_loop-Keeps env (suc (length s.bond_bids)) start s (omega arith) h.queue in
      rw (contract_supply-runs env s.coin_supply amount s s' c (omega arith) e) (omega arith)
]

-- A contraction leaves the shares alone.
pub contract_supply-shares :
    (env : Env) (amount : ℕ) (s : State)
    → IsSound env s
    → (contract_supply env s.coin_supply amount s).1.shares ≡ s.shares
unfolding settle
contract_supply-shares env amount s h = elim (dec_lt s.coin_supply (amount + env.minimum_supply)) [
  | yes low ↦ rw (contract_supply-refuses env s.coin_supply amount s low) refl
  | no enough ↦
      let start : Contraction = record { bids = s.bond_bids; remaining = amount; bonds = [] } in
      let (c, s', e, k, _) =
        contract_loop-Keeps env (suc (length s.bond_bids)) start s (omega arith) h.queue in
      rw (contract_supply-runs env s.coin_supply amount s s' c (omega arith) e)
        ((balance_free-emit_bonds env c.bonds s').same_shares ∙ k.frame.same_shares)
]
