-- ===== src/Stablecoin/Expand/Twice.antt =====
-- A bond that is paid in part ends the loop of `expand_supply`, and `remaining` keeps what the bond
-- was given: the shareholders are given the same coins again.
use substrate_stablecoin.Prelude.{
  ℕ, ◌+◌, ◌*◌, ◌<◌, ◌≡◌, refl, some, length, u64_mod, arith, ltb, leb, true, false,
}
use substrate_stablecoin.Deque
use substrate_stablecoin.Stablecoin.Types.{Bond, State, bond_index_mod, default_bond}
use substrate_stablecoin.Stablecoin.Monad.{ok}
use substrate_stablecoin.Stablecoin.Ledger.{total}
use substrate_stablecoin.Stablecoin.Balances.{add_balance}
use substrate_stablecoin.Stablecoin.Balances.Laws.{total-add_balance}
use substrate_stablecoin.Stablecoin.HandOut.Exact.{OneShareEach}
use substrate_stablecoin.Stablecoin.Expand.{Expansion, breaks, pay_bond, next_bond, expand_supply}
use substrate_stablecoin.Stablecoin.Expand.Loop.{loop-breaks}
use substrate_stablecoin.Stablecoin.Expand.Supply.{
  begin, hand_out_rest_exact, expand_supply-runs, finish-ok,
}

next_bond-first :
    (e : Expansion) (bond : Bond)
    → 0 < e.remaining
    → (Deque.pop_front bond_index_mod default_bond e.bonds).0 ≡ some bond
    → ((next_bond e).0 ≡ some bond) × ((next_bond e).1.remaining ≡ e.remaining)
unfolding next_bond
next_bond-first e bond h p = let more : ltb 0 e.remaining ≡ true = ground arith in rw more (p, refl)

pay_bond-part :
    (e : Expansion) (bond : Bond) (s : State)
    → s.block_number < bond.expiration
    → e.remaining < bond.payout
    → total s.balance + e.remaining < u64_mod
    → let (flow, e', s') = pay_bond e bond s in
      (flow ≡ breaks)
      × (e'.remaining ≡ e.remaining)
      × (total s'.balance ≡ total s.balance + e.remaining)
      × (s'.shares ≡ s.shares)
unfolding pay_bond add_balance
pay_bond-part e bond s live larger small =
    let not_old : leb bond.expiration s.block_number ≡ false = ground arith in
    let not_covered : leb bond.payout e.remaining ≡ false = ground arith in
    rw (not_old, not_covered, pay_bond)
      (refl, refl, total-add_balance bond.account e.remaining s small, refl)

-- Let each shareholder have one share, at least one be there, and nothing overflow. If the first
-- bond has not expired and is owed more than an amount above zero, then the bondholder is given the
-- whole amount and the shareholders are given it too: the supply grows by the amount and the
-- balances by twice of it.
pub expand_supply_pays_twice :
    (coin_supply amount : ℕ) (bond : Bond) (s : State)
    → (Deque.pop_front bond_index_mod default_bond (Deque.new s.bonds)).0 ≡ some bond
    → s.block_number < bond.expiration
    → 0 < amount
    → amount < bond.payout
    → coin_supply + amount < u64_mod
    → OneShareEach s.shares
    → 0 < length s.shares
    → length s.shares < u64_mod
    → total s.balance + 2 * amount < u64_mod
    → let (r, s') = expand_supply coin_supply amount s in
      (r ≡ ok tt)
      × (s'.coin_supply ≡ coin_supply + amount)
      × (total s'.balance ≡ total s.balance + 2 * amount)
expand_supply_pays_twice coin_supply amount bond s first live some_left larger fits one some_one few
      small =
    let start = begin amount s in
    let (popped, rem) = next_bond-first start bond some_left first in
    let (flow, kept, paid, shares) =
      pay_bond-part (next_bond start).1 bond s live (omega (arith, rem)) (omega (arith, rem)) in
    let e = (pay_bond (next_bond start).1 bond s).1 in
    let s' = (pay_bond (next_bond start).1 bond s).2 in
    let l = loop-breaks (Deque.new s.bonds).length start bond s popped flow in
    let (done, supply, coins, _) =
      hand_out_rest_exact coin_supply amount e s' fits (omega (arith, kept, rem)) (rw shares one)
        (rw shares some_one) (rw shares few) (omega (arith, kept, rem, paid)) in
    let (done', supply', balance', _) = finish-ok coin_supply amount e s' done in
    rw (expand_supply-runs coin_supply amount s s' e fits l)
      (done', omega (arith, supply', supply), rw balance' (omega (arith, coins, kept, rem, paid)))
