-- ===== src/Stablecoin/Expand/Accounts.antt =====
-- `expand_supply` as a whole, account by account: the schedule of the bonds, then an even split of the rest.
use native.Mathlib.Nat.{div-eq_of_lt}
use substrate_stablecoin.Prelude.{
  ap, ℕ, suc, ◌+◌, ◌-◌, ◌*◌, ◌/◌, ◌%◌, ◌≤◌, ◌<◌, ◌≡◌, ◌∙◌, refl, length, u64_mod, arith, Bool-cases,
  inl, inr, ltb,
}
use substrate_stablecoin.Deque
use substrate_stablecoin.Stablecoin.Types.{State}
use substrate_stablecoin.Stablecoin.Monad.{ok}
use substrate_stablecoin.Stablecoin.Ledger.{total}
use substrate_stablecoin.Stablecoin.Balances.{get_balance}
use substrate_stablecoin.Stablecoin.Balances.Payments.{paid_to}
use substrate_stablecoin.Stablecoin.HandOut.{hand_out_coins}
use substrate_stablecoin.Stablecoin.HandOut.Exact.{OneShareEach}
use substrate_stablecoin.Stablecoin.HandOut.Split.{even_split, split-nothing, hand_out_coins_splits}
use substrate_stablecoin.Stablecoin.Expand.{Expansion, hand_out_rest, store_bonds, expand_supply}
use substrate_stablecoin.Stablecoin.Expand.Payment.{BondsValid, Pays, owed}
use substrate_stablecoin.Stablecoin.Expand.Loop.{expand_loop-Ends}
use substrate_stablecoin.Stablecoin.Expand.Supply.{
  begin, finish, finish-ok, expect-ok, hand_out_rest_exact, expand_supply-runs,
}
use substrate_stablecoin.Stablecoin.Expand.Schedule.{
  pays_out, bonds_in, Follows, expand_loop_refines,
}

hand_out_rest-split :
    (coin_supply amount t : ℕ) (e : Expansion) (s : State)
    → coin_supply + amount < u64_mod
    → e.remaining ≤ amount
    → OneShareEach s.shares
    → 0 < length s.shares
    → length s.shares < u64_mod
    → total s.balance + e.remaining < u64_mod
    → get_balance t (hand_out_rest coin_supply amount e s).1
      ≡ get_balance t s + paid_to t (even_split e.remaining s.shares)
unfolding hand_out_rest get_balance
hand_out_rest-split coin_supply amount t e s fits le one some_one few small =
    elim (Bool-cases (ltb 0 e.remaining)) [
      | inl more ↦
          let supply = coin_supply + amount - e.remaining in
          let (done, gained) =
            hand_out_coins_splits s.shares e.remaining supply t s one some_one few small
              (omega arith) in
          rw (more, expect-ok (hand_out_coins s.shares e.remaining supply s) done) gained
      | inr none_left ↦
          let n = length s.shares in
          let less : e.remaining < n = ground arith in
          let none_each = div-eq_of_lt less in
          let whole : e.remaining ≡ e.remaining / n * n + e.remaining % n = omega arith in
          let none_more : e.remaining % n ≤ 0 = ground (arith, whole) in
          rw none_left (
            omega (
              arith,
              split-nothing t (e.remaining / n) (e.remaining % n) 0 s.shares none_each none_more,
            ))
    ]

finish-bonds_in :
    (coin_supply amount : ℕ) (e : Expansion) (s : State)
    → (hand_out_rest coin_supply amount e s).0 ≡ ok tt
    → bonds_in (Deque.new (finish coin_supply amount e s).1.bonds) ≡ bonds_in e.bonds
unfolding store_bonds Deque.new Deque.commit
finish-bonds_in coin_supply amount e s h = rw h refl

finish-accounts :
    (coin_supply amount t : ℕ) (s s' : State) (e : Expansion)
    → coin_supply + amount < u64_mod
    → OneShareEach s.shares
    → 0 < length s.shares
    → length s.shares < u64_mod
    → total s.balance + 2 * amount < u64_mod
    → Pays (total s.balance) amount (owed (Deque.new s.bonds)) s e s'
    → Follows (pays_out s.block_number amount (bonds_in (Deque.new s.bonds))) s e s'
    → let plan = pays_out s.block_number amount (bonds_in (Deque.new s.bonds)) in
      let (r, end) = finish coin_supply amount e s' in
      (r ≡ ok tt)
      × (end.coin_supply ≡ coin_supply + amount)
      × (bonds_in (Deque.new end.bonds) ≡ plan.left)
      × (get_balance t end
          ≡ get_balance t s + paid_to t plan.payments + paid_to t (even_split plan.rest s.shares))
unfolding get_balance
finish-accounts coin_supply amount t s s' e fits one some_one few small p f =
    let same = p.frame.same_shares in
    let paid : total s'.balance ≤ total s.balance + amount = elim p.coins [
      | inl (exact, _) ↦ omega arith
      | inr ((_, part), _) ↦ omega arith
    ] in
    let ones : OneShareEach s'.shares = rw same one in
    let some' : 0 < length s'.shares = rw same some_one in
    let few' : length s'.shares < u64_mod = rw same few in
    let room : total s'.balance + e.remaining < u64_mod = omega (arith, p.less, paid) in
    let (done, supply, _, _) =
      hand_out_rest_exact coin_supply amount e s' fits p.less ones some' few' room in
    let (done', supply', balance', _) = finish-ok coin_supply amount e s' done in
    let split = hand_out_rest-split coin_supply amount t e s' fits p.less ones some' few' room in
    let plan = pays_out s.block_number amount (bonds_in (Deque.new s.bonds)) in
    let same_split : even_split e.remaining s'.shares ≡ even_split plan.rest s.shares =
      ap (λ rest. even_split rest s'.shares) f.rest ∙ ap (even_split plan.rest) same in
    (
      done',
      supply' ∙ supply,
      finish-bonds_in coin_supply amount e s' done ∙ f.bonds,
      rw balance' (omega (arith, split, ap (paid_to t) same_split, f.gains t)),
    )

-- An expansion of a state whose stored bonds are well formed, where there is a shareholder, each has one
-- share, no balance and not the supply can overflow, ends well and does what the schedule of the stored
-- bonds says: the ring is left with the schedule's bonds, and every account gains exactly its payments
-- of the schedule and of the even split of the schedule's rest among the shareholders.
pub expand_supply_refines :
    (coin_supply amount t : ℕ) (s : State)
    → BondsValid (Deque.new s.bonds)
    → OneShareEach s.shares
    → 0 < length s.shares
    → length s.shares < u64_mod
    → total s.balance + 2 * amount < u64_mod
    → coin_supply + amount < u64_mod
    → let plan = pays_out s.block_number amount (bonds_in (Deque.new s.bonds)) in
      let (r, end) = expand_supply coin_supply amount s in
      (r ≡ ok tt)
      × (end.coin_supply ≡ coin_supply + amount)
      × (bonds_in (Deque.new end.bonds) ≡ plan.left)
      × (get_balance t end
          ≡ get_balance t s + paid_to t plan.payments + paid_to t (even_split plan.rest s.shares))
expand_supply_refines coin_supply amount t s v one some_one few small fits =
    let fuel = suc (Deque.new s.bonds).length in
    let (e, s', l, p) = expand_loop-Ends fuel (begin amount s) s (omega arith) v (omega arith) in
    let (e₁, s₁, l₁, f) =
      expand_loop_refines fuel (begin amount s) s (omega arith) v (omega arith) in
    let same_end : e₁ ≡ e = cc (l, l₁) in
    let same_state : s₁ ≡ s' = cc (l, l₁) in
    rw (expand_supply-runs coin_supply amount s s' e fits l) (
      finish-accounts coin_supply amount t s s' e fits one some_one few small p
        (rw (same_end, same_state) at f))
