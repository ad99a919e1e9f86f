-- ===== src/Stablecoin/Sound/Expand.antt =====
-- An expansion keeps a sound state, and ends, whatever the balances hold.
pub mod Effect
use native.Mathlib.Decide.{dec_lt}
use substrate_stablecoin.Prelude.{
  ap, ℕ, zero, suc, ◌+◌, ◌-◌, ◌≤◌, ◌<◌, ◌≡◌, ◌≢◌, ◌∙◌, refl, ◌⊎◌, inl, inr, u64_mod, arith,
  Bool-cases, Option-cases, leb, ltb,
}
use substrate_stablecoin.Deque
use substrate_stablecoin.Deque.{Deque}
use substrate_stablecoin.Deque.Refine.{push_front-IsValid}
use substrate_stablecoin.Stablecoin.Types.{Env, Bond, State, bond_index_mod, default_bond}
use substrate_stablecoin.Stablecoin.Monad.{ok}
use substrate_stablecoin.Stablecoin.Frame.{
  Frame, Frame-refl, Frame-trans, add_balance-Frame, bond_bids-add_balance,
}
use substrate_stablecoin.Stablecoin.HandOut.{share_sum, plan, hand_out_coins}
use substrate_stablecoin.Stablecoin.HandOut.Loop.{hand_out_coins-runs, pay_from-Frame}
use substrate_stablecoin.Stablecoin.Expand.{
  Expansion, continues, breaks, pay_bond, next_bond, expand_loop, hand_out_rest, store_bonds,
  expand_supply,
}
use substrate_stablecoin.Stablecoin.Expand.Payment.{
  BondsValid, kept, next_bond-none, next_bond-some,
}
use substrate_stablecoin.Stablecoin.Expand.Loop.{loop-none, loop-continues, loop-breaks}
use substrate_stablecoin.Stablecoin.Expand.Supply.{
  begin, finish, expect-ok, expand_supply-refuses, expand_supply-runs,
}
use substrate_stablecoin.Stablecoin.Sound.{IsSound, HasEnded}

-- What a bond or the loop keeps, from a state `s` with `r` remaining.
pub record Keeps (r : ℕ) (s : State) (e' : Expansion) (s' : State) : Type 0 where
  pub less : e'.remaining ≤ r
  pub valid : BondsValid e'.bonds
  pub frame : Frame s s'
  pub same_bids : s'.bond_bids ≡ s.bond_bids

pay_bond-Keeps :
    (e : Expansion) (bond : Bond) (s : State)
    → BondsValid e.bonds
    → let (flow, e', s') = pay_bond e bond s in
      (((flow ≡ continues) × (e'.bonds ≡ e.bonds)) ⊎ (flow ≡ breaks)) × Keeps e.remaining s e' s'
unfolding pay_bond
pay_bond-Keeps e bond s v = elim (Bool-cases (leb bond.expiration s.block_number)) [
  | inl old ↦
      rw (old, pay_bond)
        (
          inl (refl, refl),
          record { less = omega arith; valid = v; frame = kept _ (Frame-refl s); same_bids = refl },
        )
  | inr live ↦ elim (Bool-cases (leb bond.payout e.remaining)) [
    | inl covered ↦
        rw (live, covered, pay_bond)
          (
            inl (refl, refl),
            record {
              less = omega arith;
              valid = v;
              frame = kept _ (add_balance-Frame bond.account bond.payout s);
              same_bids = bond_bids-add_balance bond.account bond.payout s;
            },
          )
    | inr larger ↦
        rw (live, larger, pay_bond)
          (
            inr refl,
            record {
              less = omega arith;
              valid =
                  push_front-IsValid bond_index_mod default_bond e.bonds
                    (record bond { payout = bond.payout - e.remaining }) v;
              frame = kept _ (add_balance-Frame bond.account e.remaining s);
              same_bids = bond_bids-add_balance bond.account e.remaining s;
            },
          )
  ]
]

Keeps-trans :
    {r : ℕ} {s s'' : State} {e'' : Expansion} (e' : Expansion) (s' : State)
    → Keeps r s e' s'
    → Keeps e'.remaining s' e'' s''
    → Keeps r s e'' s''
Keeps-trans e' s' k l = record {
  less = omega (arith, k.less, l.less);
  valid = l.valid;
  frame = Frame-trans k.frame l.frame;
  same_bids = l.same_bids ∙ k.same_bids;
}

Keeps-weaken : {r t : ℕ} {s s' : State} {e' : Expansion} → r ≤ t → Keeps r s e' s' → Keeps t s e' s'
Keeps-weaken le k = record {
  less = omega (arith, k.less);
  valid = k.valid;
  frame = k.frame;
  same_bids = k.same_bids;
}

-- With one more unit of fuel than there are bonds the loop of `expand_supply` ends, from any valid ring
-- and any state: it takes no more coins than remain, keeps the ring valid, and writes nothing but
-- balances and events.
pub expand_loop-Keeps :
    (fuel : ℕ) (e : Expansion) (s : State)
    → e.bonds.length < fuel
    → BondsValid e.bonds
    → (e' : Expansion) × (s' : State) × (expand_loop fuel e s ≡ (ok e', s'))
      × Keeps e.remaining s e' s'
expand_loop-Keeps zero e s f v = absurd (omega arith)
expand_loop-Keeps (suc fuel) e s f v = elim (Option-cases (next_bond e).0) [
  | inl h ↦ (
    e,
    s,
    loop-none fuel e s h ∙ ap (λ x. (ok x, s)) (next_bond-none e h).0,
    record { less = omega arith; valid = v; frame = Frame-refl s; same_bids = refl },
  )
  | inr (bond, h) ↦
      let popped = (next_bond e).1 in
      let (_, rem, shorter, valid) = next_bond-some e bond v h in
      let (flows, k) = pay_bond-Keeps popped bond s valid in
      let e' = (pay_bond popped bond s).1 in
      let s' = (pay_bond popped bond s).2 in
      let k' : Keeps e.remaining s e' s' = Keeps-weaken (omega (arith, rem)) k in
      elim flows [
        | inl (flow, same) ↦
            let fewer : e'.bonds.length < fuel =
              omega (arith, ap (λ (q : Deque Bond). q.length) same) in
            let (e'', s'', l, k'') = expand_loop-Keeps fuel e' s' fewer k.valid in
            (e'', s'', loop-continues fuel e bond s h flow ∙ l, Keeps-trans e' s' k' k'')
        | inr flow ↦ (e', s', loop-breaks fuel e bond s h flow, k')
      ]
]

-- The rest goes to the shareholders, or stays if there is none of it.
hand_out_rest-Keeps :
    (coin_supply amount : ℕ) (e : Expansion) (s : State)
    → coin_supply + amount < u64_mod
    → e.remaining ≤ amount
    → share_sum 0 s.shares ≢ 0
    → let (r, s') = hand_out_rest coin_supply amount e s in
      (r ≡ ok tt)
      × (s'.coin_supply ≡ coin_supply + amount)
      × (s'.shares ≡ s.shares)
      × (s'.bond_bids ≡ s.bond_bids)
unfolding hand_out_rest
hand_out_rest-Keeps coin_supply amount e s fits le ne = elim (Bool-cases (ltb 0 e.remaining)) [
  | inl more ↦
      let supply = coin_supply + amount - e.remaining in
      let n = share_sum 0 s.shares in
      let runs = hand_out_coins-runs s.shares e.remaining supply n s (omega arith) refl ne in
      let (frame, bids) = pay_from-Frame (plan s.shares e.remaining n) s.shares 0 0 s in
      let done = ap (λ x. x.0) runs in
      rw (more, expect-ok (hand_out_coins s.shares e.remaining supply s) done, runs)
        (refl, omega arith, frame.same_shares, bids)
  | inr none_left ↦
      let zero_left : e.remaining ≡ 0 = ground arith in rw none_left (refl, omega arith, refl, refl)
]

finish-IsSound :
    (env : Env) (amount : ℕ) (s s' : State) (e : Expansion)
    → IsSound env s
    → s.coin_supply + amount < u64_mod
    → Keeps amount s e s'
    → let out = finish s.coin_supply amount e s' in HasEnded out × IsSound env out.1
unfolding store_bonds Deque.new Deque.commit
finish-IsSound env amount s s' e h fits k =
    let ne : share_sum 0 s'.shares ≢ 0 = rw k.frame.same_shares h.shares in
    let (done, supply, shares, bids) =
      hand_out_rest-Keeps s.coin_supply amount e s' fits k.less ne in
    rw done (
      tt,
      record {
        queue = rw (bids, k.same_bids) h.queue;
        bonds = k.valid;
        shares = rw shares ne;
        fits = omega (arith, supply);
        minimum = omega (arith, supply, h.minimum);
      },
    )

pub expand_supply-IsSound :
    (env : Env) (amount : ℕ) (s : State)
    → IsSound env s
    → let out = expand_supply s.coin_supply amount s in HasEnded out × IsSound env out.1
expand_supply-IsSound env amount s h = elim (dec_lt (s.coin_supply + amount) u64_mod) [
  | no over ↦ rw (expand_supply-refuses s.coin_supply amount s (omega arith)) (tt, h)
  | yes fits ↦
      let (e, s', l, k) =
        expand_loop-Keeps (suc (Deque.new s.bonds).length) (begin amount s) s (omega arith)
          h.bonds in
      rw (expand_supply-runs s.coin_supply amount s s' e fits l)
        (finish-IsSound env amount s s' e h fits k)
]
