-- ===== src/Stablecoin/Expand/Schedule.antt =====
-- The loop of `expand_supply` against a list of payments: who is paid what, and which bonds are left.
use substrate_stablecoin.Prelude.{
  ap, ℕ, zero, suc, ◌+◌, ◌-◌, ◌≤◌, ◌<◌, ◌≡◌, ◌∙◌, refl, ◌⊎◌, inl, inr, true, false, Option, some,
  u64_mod, arith, Bool-cases, Option-cases, leb, ltb, ◌==◌, List, [], ◌∷◌, length, if◌then◌else◌,
}
use substrate_stablecoin.Deque
use substrate_stablecoin.Deque.{Deque}
use substrate_stablecoin.Deque.Refine.{
  contents, length-contents, pop_front_refines, push_front_refines,
}
use substrate_stablecoin.Deque.Spec
use substrate_stablecoin.Stablecoin.Types.{Bond, State, bond_index_mod, default_bond}
use substrate_stablecoin.Stablecoin.Monad.{ok}
use substrate_stablecoin.Stablecoin.Ledger.{total}
use substrate_stablecoin.Stablecoin.Balances.{get_balance}
use substrate_stablecoin.Stablecoin.Balances.Laws.{total-add_balance, get_balance-add_balance}
use substrate_stablecoin.Stablecoin.Balances.Payments.{paid_to}
use substrate_stablecoin.Stablecoin.Frame.{add_balance-Frame}
use substrate_stablecoin.Stablecoin.Expand.{
  Expansion, continues, breaks, pay_bond, next_bond, expand_loop,
}
use substrate_stablecoin.Stablecoin.Expand.Payment.{
  BondsValid, next_bond-none, next_bond-some, next_bond-pop,
}
use substrate_stablecoin.Stablecoin.Expand.Loop.{loop-none, loop-continues, loop-breaks}

-- What is to be paid, which bonds are left, and how many coins for the shareholders.
pub record Schedule : Type 0 where
  pub payments : List (ℕ × ℕ)
  pub left : List Bond
  pub rest : ℕ

-- From the oldest bond on, at block `now` and with `remaining` coins: an expired bond is dropped, a bond
-- that the coins cover is paid, and the first that they do not cover takes them all and stays in
-- front, with the rest of its payout. As in the code, the coins that this one took are still counted for
-- the shareholders.
abbrev pub pays_out : (now remaining : ℕ) → List Bond → Schedule
pays_out now remaining [] = record { payments = []; left = []; rest = remaining }
pays_out now remaining (bond ∷ bonds) =
    let old = leb bond.expiration now in
    let later = pays_out now (if old then remaining else remaining - bond.payout) bonds in
    if remaining == 0
    then record { payments = []; left = bond ∷ bonds; rest = 0 }
    else if old
    then later
    else if leb bond.payout remaining
    then record later { payments = (bond.account, bond.payout) ∷ later.payments }
    else record {
      payments = (bond.account, remaining) ∷ [];
      left = record bond { payout = bond.payout - remaining } ∷ bonds;
      rest = remaining;
    }

abbrev pub bonds_in : Deque Bond → List Bond
bonds_in = contents bond_index_mod default_bond

-- The loop's end `e'` and `s'`, from `s`, is what the schedule says.
pub record Follows (plan : Schedule) (s : State) (e' : Expansion) (s' : State) : Type 0 where
  pub bonds : bonds_in e'.bonds ≡ plan.left
  pub rest : e'.remaining ≡ plan.rest
  pub gains : (t : ℕ) → get_balance t s' ≡ get_balance t s + paid_to t plan.payments

no_bonds_left : (bonds : List Bond) → length bonds ≡ 0 → bonds ≡ []
no_bonds_left [] e = refl
no_bonds_left (bond ∷ bonds) e = absurd (omega (arith, e))

pays_out-nothing :
    (now : ℕ) (bonds : List Bond)
    → pays_out now 0 bonds ≡ record { payments = []; left = bonds; rest = 0 }
pays_out-nothing now [] = refl
pays_out-nothing now (bond ∷ bonds) = refl

Follows-stop :
    (now : ℕ) (e : Expansion) (s : State)
    → (e.remaining ≡ 0) ⊎ (e.bonds.length ≡ 0)
    → Follows (pays_out now e.remaining (bonds_in e.bonds)) s e s
Follows-stop now e s (inl none_left) =
    rw (none_left, pays_out-nothing now (bonds_in e.bonds))
      (record { bonds = refl; rest = refl; gains = λ t. omega arith })
Follows-stop now e s (inr empty) =
    let none_there : bonds_in e.bonds ≡ [] =
      no_bonds_left (bonds_in e.bonds)
        (length-contents bond_index_mod default_bond e.bonds ∙ empty) in
    rw none_there (record { bonds = none_there; rest = refl; gains = λ t. omega arith })

front_of :
    (bonds rest : List Bond) (out : Option Bond) (bond : Bond)
    → (out, rest) ≡ Spec.pop_front bonds
    → out ≡ some bond
    → bonds ≡ bond ∷ rest
unfolding Spec.pop_front
front_of [] rest out bond e h = absurd (cc (e, h))
front_of (x ∷ bonds) rest out bond e h = cc (e, h)

-- The bond that the loop takes is the first of the list.
bonds_in-next_bond :
    (e : Expansion) (bond : Bond)
    → BondsValid e.bonds
    → (next_bond e).0 ≡ some bond
    → bonds_in e.bonds ≡ bond ∷ bonds_in (next_bond e).1.bonds
bonds_in-next_bond e bond v h =
    let (popped, left) = next_bond-pop e bond h in
    let q = (Deque.pop_front bond_index_mod default_bond e.bonds).1 in
    rw left (
      front_of (bonds_in e.bonds) (bonds_in q)
        (Deque.pop_front bond_index_mod default_bond e.bonds).0 bond
        (pop_front_refines bond_index_mod default_bond e.bonds v) popped)

-- What comes after a bond, from its end `e'` and `s'`, gives what comes from the bond on.
record Leads (now r : ℕ) (bond : Bond) (bonds : List Bond) (s : State) (e' : Expansion) (s' : State)
    : Type 0 where
  same_block : s'.block_number ≡ s.block_number
  fits : total s'.balance + e'.remaining ≤ total s.balance + r
  after :
      (e'' : Expansion) (s'' : State)
      → Follows (pays_out now e'.remaining bonds) s' e'' s''
      → Follows (pays_out now r (bond ∷ bonds)) s e'' s''

-- A bond put back where one was taken is in front of the others.
restored :
    (q : Deque Bond) (bond : Bond)
    → BondsValid q
    → suc q.length < bond_index_mod
    → bonds_in (Deque.push_front bond_index_mod q bond) ≡ bond ∷ bonds_in q
unfolding Spec.push_front
restored q bond v room =
    let counted = length-contents bond_index_mod default_bond q in
    let has_room : ltb (length (bonds_in q)) (bond_index_mod - 1) ≡ true =
      ground (arith, counted) in
    push_front_refines bond_index_mod default_bond q bond v ∙ rw has_room refl

-- One bond that was popped, by its expiration and what is left of the coins.
pay_bond-Follows :
    (e : Expansion) (bond : Bond) (s : State)
    → BondsValid e.bonds
    → suc e.bonds.length < bond_index_mod
    → 0 < e.remaining
    → total s.balance + e.remaining < u64_mod
    → let (flow, e', s') = pay_bond e bond s in
      ((flow ≡ continues)
        × (e'.bonds ≡ e.bonds)
        × Leads s.block_number e.remaining bond (bonds_in e.bonds) s e' s')
      ⊎ ((flow ≡ breaks)
          × Follows (pays_out s.block_number e.remaining (bond ∷ bonds_in e.bonds)) s e' s')
unfolding pay_bond get_balance
pay_bond-Follows e bond s v room some_left small =
    let not_zero : (e.remaining == 0) ≡ false = ground arith in
    elim (Bool-cases (leb bond.expiration s.block_number)) [
      | inl old ↦
          rw (old, pay_bond)
            (inl (
              refl,
              refl,
              record {
                same_block = refl;
                fits = omega arith;
                after = λ e'' s'' f.
                    rw (not_zero, old) (record { bonds = f.bonds; rest = f.rest; gains = f.gains });
              },
            ))
      | inr live ↦ elim (Bool-cases (leb bond.payout e.remaining)) [
        | inl covered ↦
            let fits : total s.balance + bond.payout < u64_mod = ground arith in
            rw (live, covered, pay_bond)
              (inl (
                refl,
                refl,
                record {
                  same_block = (add_balance-Frame bond.account bond.payout s).same_block;
                  fits = ground (arith, total-add_balance bond.account bond.payout s fits);
                  after = λ e'' s'' f.
                      rw (not_zero, live, covered)
                        (record {
                          bonds = f.bonds;
                          rest = f.rest;
                          gains = λ t. ground (
                            arith,
                            f.gains t,
                            get_balance-add_balance t bond.account bond.payout s fits,
                          );
                        });
                },
              ))
        | inr larger ↦
            let rest = record bond { payout = bond.payout - e.remaining } in
            rw (live, larger, pay_bond)
              (inr (
                refl,
                rw not_zero (record {
                  bonds = restored e.bonds rest v room;
                  rest = refl;
                  gains = λ t.
                      ground (arith, get_balance-add_balance t bond.account e.remaining s small);
                }),
              ))
      ]
    ]

Follows-from :
    (now : ℕ) {r r' : ℕ} {bonds bonds' : List Bond} (s : State) (e' : Expansion) (s' : State)
    → bonds ≡ bonds'
    → r' ≡ r
    → Follows (pays_out now r' bonds') s e' s'
    → Follows (pays_out now r bonds) s e' s'
Follows-from now s e' s' same left f = rw (same, ← left) f

-- With one more unit of fuel than there are bonds, from a valid ring and with room in the balances, the
-- loop of `expand_supply` ends, and what it does is what the list of bonds says: from the oldest on,
-- expired bonds are dropped and the others paid until the coins are used up, each account gets
-- exactly the sum of its payments, and the ring holds exactly the bonds that are left, in their order,
-- a bond that was paid in part with the rest of its payout in front.
pub expand_loop_refines :
    (fuel : ℕ) (e : Expansion) (s : State)
    → e.bonds.length < fuel
    → BondsValid e.bonds
    → total s.balance + e.remaining < u64_mod
    → (e' : Expansion) × (s' : State) × (expand_loop fuel e s ≡ (ok e', s'))
      × Follows (pays_out s.block_number e.remaining (bonds_in e.bonds)) s e' s'
expand_loop_refines zero e s f v small = absurd (omega arith)
expand_loop_refines (suc fuel) e s f v small = elim (Option-cases (next_bond e).0) [
  | inl h ↦
      let (same, ends) = next_bond-none e h in
      (e, s, loop-none fuel e s h ∙ ap (λ x. (ok x, s)) same, Follows-stop s.block_number e s ends)
  | inr (bond, h) ↦
      let popped = (next_bond e).1 in
      let (some_left, rem, shorter, valid) = next_bond-some e bond v h in
      let front = bonds_in-next_bond e bond v h in
      let e' = (pay_bond popped bond s).1 in
      let s' = (pay_bond popped bond s).2 in
      let paid =
        pay_bond-Follows popped bond s valid (omega (arith, shorter, v.length_in))
          (omega (arith, rem)) (omega (arith, rem)) in
      elim paid [
        | inl (flow, same, leads) ↦
            let fewer : e'.bonds.length < fuel =
              omega (arith, ap (λ (q : Deque Bond). q.length) same) in
            let (e'', s'', l, follows) =
              expand_loop_refines fuel e' s' fewer (rw same valid)
                (omega (arith, leads.fits, rem)) in
            (
              e'',
              s'',
              loop-continues fuel e bond s h flow ∙ l,
              Follows-from s.block_number s e'' s'' front rem
                  (leads.after e'' s'' (rw (leads.same_block, same) at follows)),
            )
        | inr (flow, follows) ↦ (
          e',
          s',
          loop-breaks fuel e bond s h flow,
          Follows-from s.block_number s e' s' front rem follows,
        )
      ]
]
