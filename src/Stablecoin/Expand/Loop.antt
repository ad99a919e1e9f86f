-- ===== src/Stablecoin/Expand/Loop.antt =====
-- The loop of `expand_supply`: it ends, and what it does to the balances.
use substrate_stablecoin.Prelude.{
  ap, ℕ, zero, suc, ◌+◌, ◌≤◌, ◌<◌, ◌≡◌, ◌∙◌, refl, inl, inr, none, some, u64_mod, arith,
  Option-cases,
}
use substrate_stablecoin.Deque.{Deque}
use substrate_stablecoin.Stablecoin.Types.{Bond, State}
use substrate_stablecoin.Stablecoin.Monad.{ok}
use substrate_stablecoin.Stablecoin.Ledger.{total}
use substrate_stablecoin.Stablecoin.Frame.{Frame, Frame-refl, Frame-trans}
use substrate_stablecoin.Stablecoin.Expand.{
  Expansion, continues, breaks, pay_bond, next_bond, expand_loop,
}
use substrate_stablecoin.Stablecoin.Expand.Payment.{
  BondsValid, Exact, owed, Pays, next_bond-none, next_bond-some, owed-next_bond, pay_bond-outcome,
}

Pays-trans :
    {t r d : ℕ} {s s'' : State} {e'' : Expansion} (e' : Expansion) (s' : State)
    → e'.remaining ≤ r
    → r + owed e'.bonds ≤ d + e'.remaining
    → Exact t r e' s'
    → Frame s s'
    → s'.bond_bids ≡ s.bond_bids
    → Pays (total s'.balance) e'.remaining (owed e'.bonds) s' e'' s''
    → Pays t r d s e'' s''
Pays-trans e' s' le debt exact frame bids u = record {
  less = omega (arith, u.less);
  coins = elim u.coins [
    | inl (e, ends) ↦ inl (omega (arith, e, exact), ends)
    | inr ((some_left, e), less) ↦
        inr ((some_left, omega (arith, e, exact)), omega (arith, less, debt))
  ];
  valid = u.valid;
  frame = Frame-trans frame u.frame;
  same_bids = u.same_bids ∙ bids;
}

-- Where the loop ends from: the result, and what it has paid.
abbrev pub Ends : ℕ → Expansion → State → Type 0
Ends fuel e s =
    (e' : Expansion) × (s' : State) × (expand_loop fuel e s ≡ (ok e', s'))
    × Pays (total s.balance) e.remaining (owed e.bonds) s e' s'

pub loop-none :
    (fuel : ℕ) (e : Expansion) (s : State)
    → (next_bond e).0 ≡ none
    → expand_loop (suc fuel) e s ≡ (ok (next_bond e).1, s)
unfolding expand_loop
loop-none fuel e s h = rw (h, expand_loop)

pub loop-continues :
    (fuel : ℕ) (e : Expansion) (bond : Bond) (s : State)
    → (next_bond e).0 ≡ some bond
    → (pay_bond (next_bond e).1 bond s).0 ≡ continues
    → expand_loop (suc fuel) e s
      ≡ expand_loop fuel (pay_bond (next_bond e).1 bond s).1 (pay_bond (next_bond e).1 bond s).2
unfolding expand_loop
loop-continues fuel e bond s h p = rw (h, expand_loop) (rw p refl)

pub loop-breaks :
    (fuel : ℕ) (e : Expansion) (bond : Bond) (s : State)
    → (next_bond e).0 ≡ some bond
    → (pay_bond (next_bond e).1 bond s).0 ≡ breaks
    → expand_loop (suc fuel) e s
      ≡ (ok (pay_bond (next_bond e).1 bond s).1, (pay_bond (next_bond e).1 bond s).2)
unfolding expand_loop
loop-breaks fuel e bond s h p = rw (h, expand_loop) (rw p refl)

-- With one more unit of fuel than there are bonds the loop ends.
pub expand_loop-Ends :
    (fuel : ℕ) (e : Expansion) (s : State)
    → e.bonds.length < fuel
    → BondsValid e.bonds
    → total s.balance + e.remaining < u64_mod
    → Ends fuel e s
expand_loop-Ends zero e s f v small = absurd (omega arith)
expand_loop-Ends (suc fuel) e s f v small = elim (Option-cases (next_bond e).0) [
  | inl h ↦
      let (same, ends) = next_bond-none e h in
      (
        e,
        s,
        loop-none fuel e s h ∙ ap (λ x. (ok x, s)) same,
        record {
          less = omega arith;
          coins = inl (refl, ends);
          valid = v;
          frame = Frame-refl s;
          same_bids = refl;
        },
      )
  | inr (bond, h) ↦
      let popped = (next_bond e).1 in
      let (some_left, rem, shorter, valid) = next_bond-some e bond v h in
      let debt = owed-next_bond e bond v h in
      let (le, out, v', frame, bids) =
        pay_bond-outcome popped bond s valid (omega arith) (omega arith) in
      let e' = (pay_bond popped bond s).1 in
      let s' = (pay_bond popped bond s).2 in
      elim out [
        | inl (flow, same, exact, paid) ↦
            let fewer : e'.bonds.length < fuel =
              omega (arith, ap (λ (q : Deque Bond). q.length) same) in
            let (e'', s'', l, u) = expand_loop-Ends fuel e' s' fewer v' (omega (arith, exact)) in
            (
              e'',
              s'',
              loop-continues fuel e bond s h flow ∙ l,
              Pays-trans e' s' (omega (arith, le)) (omega (arith, debt, paid, rem, ap owed same))
                  (omega (arith, exact, rem)) frame bids u,
            )
        | inr (flow, part, larger) ↦ (
          e',
          s',
          loop-breaks fuel e bond s h flow,
          record {
            less = omega (arith, le);
            coins = inr ((part.0, omega (arith, part.1)), omega (arith, larger, debt, rem));
            valid = v';
            frame = frame;
            same_bids = bids;
          },
        )
      ]
]
