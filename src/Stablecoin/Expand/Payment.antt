-- ===== src/Stablecoin/Expand/Payment.antt =====
-- What one round of the loop of `expand_supply` (pallets/stablecoin/src/lib.rs) does: the bond that is next, and
-- its payment.
use substrate_stablecoin.Prelude.{
  ap, ℕ, suc, ◌+◌, ◌-◌, ◌≤◌, ◌<◌, ◌≡◌, ◌∙◌, refl, ◌⊎◌, inl, inr, none, some, u64_mod, arith,
  Bool-cases, leb, ltb, Option, List, [], ◌∷◌, sum_by, sym,
}
use substrate_stablecoin.Deque
use substrate_stablecoin.Deque.{Deque}
use substrate_stablecoin.Deque.Refine.{IsValid, push_front-IsValid, contents, pop_front_refines}
use substrate_stablecoin.Deque.Spec
use substrate_stablecoin.Stablecoin.Types.{Bond, Event, State, bond_index_mod, default_bond}
use substrate_stablecoin.Stablecoin.Ledger.{total}
use substrate_stablecoin.Stablecoin.Balances.Laws.{total-add_balance}
use substrate_stablecoin.Stablecoin.Frame.{Frame, add_balance-Frame, bond_bids-add_balance}
use substrate_stablecoin.Stablecoin.Bids.{emit}
use substrate_stablecoin.Stablecoin.Expand.{Expansion, continues, breaks, pay_bond, next_bond}

abbrev pub BondsValid : Deque Bond → Type 0
BondsValid = IsValid bond_index_mod default_bond

-- What went to bondholders is what `remaining` fell by; or a bond took all that remained, and
-- `remaining` still stands at what that bond was given.
abbrev pub Exact : (t r : ℕ) → Expansion → State → Type 0
Exact t r e s = total s.balance + e.remaining ≡ t + r

abbrev pub Partial : (t r : ℕ) → Expansion → State → Type 0
Partial t r e s = (0 < e.remaining) × (total s.balance ≡ t + r)

-- What the bonds in a queue are owed, expired ones counted too.
abbrev pub owed : Deque Bond → ℕ
owed q = sum_by (λ bond. bond.payout) (contents bond_index_mod default_bond q)

-- From a queue that is owed `d`, and a state `s` whose accounts hold `t` coins, with `r` remaining.
pub record Pays (t r d : ℕ) (s : State) (e' : Expansion) (s' : State) : Type 0 where
  pub less : e'.remaining ≤ r
  pub coins :
      (Exact t r e' s' × ((e'.remaining ≡ 0) ⊎ (e'.bonds.length ≡ 0)))
      ⊎ (Partial t r e' s' × (r < d))
  pub valid : BondsValid e'.bonds
  pub frame : Frame s s'
  pub same_bids : s'.bond_bids ≡ s.bond_bids

pub next_bond-none :
    (e : Expansion)
    → (next_bond e).0 ≡ none
    → ((next_bond e).1 ≡ e) × ((e.remaining ≡ 0) ⊎ (e.bonds.length ≡ 0))
unfolding next_bond Deque.pop_front
next_bond-none e h = ground arith

pub next_bond-some :
    (e : Expansion) (bond : Bond)
    → BondsValid e.bonds
    → (next_bond e).0 ≡ some bond
    → (0 < e.remaining)
      × ((next_bond e).1.remaining ≡ e.remaining)
      × (suc (next_bond e).1.bonds.length ≡ e.bonds.length)
      × BondsValid (next_bond e).1.bonds
unfolding next_bond Deque.pop_front
next_bond-some e bond v h = ground arith

payout_of : Option Bond → ℕ
payout_of none = 0
payout_of (some bond) = bond.payout

-- What is owed, by the front bond and by those behind it.
owed-front :
    (bonds rest : List Bond) (out : Option Bond) (bond : Bond)
    → (out, rest) ≡ Spec.pop_front bonds
    → out ≡ some bond
    → sum_by (λ b. b.payout) bonds ≡ bond.payout + sum_by (λ b. b.payout) rest
unfolding Spec.pop_front payout_of
owed-front [] rest out bond e h = cc
owed-front (x ∷ bonds) rest out bond e h =
    let front : x.payout ≡ bond.payout = ap (λ p. payout_of p.0) (sym e) ∙ ap payout_of h in
    let behind : bonds ≡ rest = ap (λ p. p.1) (sym e) in rw behind (omega (arith, front))

pub next_bond-pop :
    (e : Expansion) (bond : Bond)
    → (next_bond e).0 ≡ some bond
    → ((Deque.pop_front bond_index_mod default_bond e.bonds).0 ≡ some bond)
      × ((next_bond e).1.bonds ≡ (Deque.pop_front bond_index_mod default_bond e.bonds).1)
unfolding next_bond
next_bond-pop e bond h = elim (Bool-cases (ltb 0 e.remaining)) [
  | inl more ↦ rw more ((rw more at h), refl)
  | inr none_left ↦ absurd (cc (rw none_left at h))
]

pub owed-next_bond :
    (e : Expansion) (bond : Bond)
    → BondsValid e.bonds
    → (next_bond e).0 ≡ some bond
    → owed e.bonds ≡ bond.payout + owed (next_bond e).1.bonds
owed-next_bond e bond v h =
    let (popped, left) = next_bond-pop e bond h in
    let q = (Deque.pop_front bond_index_mod default_bond e.bonds).1 in
    rw left (
      owed-front (contents bond_index_mod default_bond e.bonds)
        (contents bond_index_mod default_bond q)
        (Deque.pop_front bond_index_mod default_bond e.bonds).0 bond
        (pop_front_refines bond_index_mod default_bond e.bonds v) popped)

pub kept : {s s' : State} (x : Event) → Frame s s' → Frame s (emit x s')
kept x f = record {
  same_shares = f.same_shares;
  same_supply = f.same_supply;
  same_bonds = f.same_bonds;
  same_block = f.same_block;
}

-- One bond: expired, paid in full, or paid in part.
pub pay_bond-outcome :
    (e : Expansion) (bond : Bond) (s : State)
    → BondsValid e.bonds
    → 0 < e.remaining
    → total s.balance + e.remaining < u64_mod
    → let (flow, e', s') = pay_bond e bond s in
      (e'.remaining ≤ e.remaining)
      × (((flow ≡ continues)
            × (e'.bonds ≡ e.bonds)
            × Exact (total s.balance) e.remaining e' s'
            × (e.remaining ≤ e'.remaining + bond.payout))
          ⊎ ((flow ≡ breaks)
              × Partial (total s.balance) e.remaining e' s'
              × (e.remaining < bond.payout)))
      × BondsValid e'.bonds
      × Frame s s'
      × (s'.bond_bids ≡ s.bond_bids)
unfolding pay_bond
pay_bond-outcome e bond s v some_left small =
    elim (Bool-cases (leb bond.expiration s.block_number)) [
      | inl old ↦
          rw (old, pay_bond)
            (
              omega arith,
              inl (refl, refl, refl, omega arith),
              v,
              record {
                same_shares = refl;
                same_supply = refl;
                same_bonds = refl;
                same_block = refl;
              },
              refl,
            )
      | inr live ↦ elim (Bool-cases (leb bond.payout e.remaining)) [
        | inl covered ↦
            rw (live, covered, pay_bond)
              (
                omega arith,
                inl (
                  refl,
                  refl,
                  ground (arith, total-add_balance bond.account bond.payout s),
                  omega arith,
                ),
                v,
                kept _ (add_balance-Frame bond.account bond.payout s),
                bond_bids-add_balance bond.account bond.payout s,
              )
        | inr larger ↦
            rw (live, larger, pay_bond)
              (
                omega arith,
                inr (
                  refl,
                  (some_left, total-add_balance bond.account e.remaining s small),
                  ground arith,
                ),
                push_front-IsValid bond_index_mod default_bond e.bonds
                    (record bond { payout = bond.payout - e.remaining }) v,
                kept _ (add_balance-Frame bond.account e.remaining s),
                bond_bids-add_balance bond.account e.remaining s,
              )
      ]
    ]
