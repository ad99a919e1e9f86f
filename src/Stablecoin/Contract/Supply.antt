-- ===== src/Stablecoin/Contract/Supply.antt =====
-- `contract_supply` as a whole: what it refuses, and what a contraction does to the supply, to the
-- coins that exist and to the queue.
use native.Mathlib.Decide.{dec_lt}
use substrate_stablecoin.Prelude.{
  ap, ℕ, suc, ◌+◌, ◌-◌, ◌≤◌, ◌<◌, ◌≡◌, refl, ◌⊎◌, inl, inr, List, [], ◌∷◌, length, u64_mod, arith,
  false,
}
use substrate_stablecoin.PriorityQueue.{is_empty}
use substrate_stablecoin.Stablecoin.Types.{Env, Bond, State, coin_supply_underflow}
use substrate_stablecoin.Stablecoin.Monad.{ok, err}
use substrate_stablecoin.Stablecoin.Ledger.{total}
use substrate_stablecoin.Stablecoin.Bids.Escrow.{held}
use substrate_stablecoin.Stablecoin.Bids.Queue.{IsQueue}
use substrate_stablecoin.Stablecoin.Bids.Remove.{RatioLaws, PerbillLaws}
use substrate_stablecoin.Stablecoin.Contract.{
  Contraction, goes_on, contract_loop, emit_bonds, settle, contract_supply,
}
use substrate_stablecoin.Stablecoin.Contract.Loop.{contract_loop-Ends}
use substrate_stablecoin.Stablecoin.Contract.Taking.{Took}

balance-emit_bonds : (bonds : List Bond) (s : State) → (emit_bonds bonds s).balance ≡ s.balance
unfolding emit_bonds
balance-emit_bonds [] s = refl
balance-emit_bonds (bond ∷ bonds) s = balance-emit_bonds bonds _

goes_on-false : (c : Contraction) → goes_on c ≡ false → (c.remaining ≡ 0) ⊎ (c.bids ≡ [])
unfolding goes_on is_empty
goes_on-false c e = ground arith

pub contract_supply-refuses :
    (env : Env) (coin_supply amount : ℕ) (s : State)
    → coin_supply < amount + env.minimum_supply
    → contract_supply env coin_supply amount s ≡ (err coin_supply_underflow, s)
unfolding contract_supply
contract_supply-refuses env coin_supply amount s h = ground arith

pub contract_supply-runs :
    (env : Env) (coin_supply amount : ℕ) (s s' : State) (c : Contraction)
    → amount + env.minimum_supply ≤ coin_supply
    → contract_loop env
        (suc (length s.bond_bids))
        (record { bids = s.bond_bids; remaining = amount; bonds = [] })
        s
      ≡ (ok c, s')
    → contract_supply env coin_supply amount s ≡ (ok tt, settle coin_supply amount c s')
unfolding contract_supply
contract_supply-runs env coin_supply amount s s' c h e = ground arith

-- A contraction by `amount` that burned `burned` coins, from `s` to `s'`.
pub record Burns (env : Env) (coin_supply amount burned : ℕ) (s s' : State) : Type 0 where
  pub at_most : burned ≤ amount
  pub all_or_no_bids : (burned ≡ amount) ⊎ (s'.bond_bids ≡ [])
  pub supply : s'.coin_supply + burned ≡ coin_supply
  pub minimum : env.minimum_supply ≤ s'.coin_supply
  pub no_more_lost : held env s ≤ held env s' + burned + 1
  pub no_more_left : held env s' + burned ≤ held env s + 1
  pub queue : IsQueue env s'.bond_bids

module _ (env : Env) (ratio : RatioLaws env.crates) (perbill : PerbillLaws env.crates) where
  settle-Burns :
      (coin_supply amount : ℕ) (s s' : State) (c : Contraction)
      → amount + env.minimum_supply ≤ coin_supply
      → Took env ratio perbill (held env s) amount s c s'
      → goes_on c ≡ false
      → Burns env coin_supply amount (amount - c.remaining) s (settle coin_supply amount c s')
  unfolding settle
  settle-Burns coin_supply amount s s' c enough t stop =
      let same = ap total (balance-emit_bonds c.bonds s') in
      record {
        at_most = omega arith;
        all_or_no_bids = elim (goes_on-false c stop) [
          | inl z ↦ inl (omega arith)
          | inr none_left ↦ inr none_left
        ];
        supply = omega arith;
        minimum = omega arith;
        no_more_lost = omega (arith, t.coins, t.less, same);
        no_more_left = omega (arith, t.coins, t.less, same);
        queue = t.queue;
      }

  -- Let the crates compute as documented, the queue be well formed and the coins fit a balance. A
  -- contraction by `amount` that would leave less than the minimum supply is refused and changes
  -- nothing. Any other ends: it burns at most `amount`, all of it unless the queue runs empty;
  -- the supply falls by exactly what is burned, and stays at the minimum at least; the coins in
  -- accounts and in escrow fall by it too, to within one coin of rounding; the queue stays well
  -- formed.
  pub contract_supply-Burns :
      (coin_supply amount : ℕ) (s : State)
      → IsQueue env s.bond_bids
      → held env s < u64_mod
      → let (r, s') = contract_supply env coin_supply amount s in
        ((coin_supply < amount + env.minimum_supply) × (r ≡ err coin_supply_underflow) × (s' ≡ s))
        ⊎ ((r ≡ ok tt) × ((burned : ℕ) × Burns env coin_supply amount burned s s'))
  contract_supply-Burns coin_supply amount s q small =
      elim (dec_lt coin_supply (amount + env.minimum_supply)) [
        | yes low ↦
            rw (contract_supply-refuses env coin_supply amount s low) (inl (low, refl, refl))
        | no enough ↦
            let start : Contraction = record {
              bids = s.bond_bids;
              remaining = amount;
              bonds = [];
            } in
            let (c, s', e, took, stop) =
              contract_loop-Ends env ratio perbill (suc (length s.bond_bids)) start s (omega arith)
                q small in
            rw (contract_supply-runs env coin_supply amount s s' c (omega arith) e) (
              inr (
                refl,
                (
                  amount - c.remaining,
                  settle-Burns coin_supply amount s s' c (omega arith) took stop,
                ),
              ))
      ]
