-- ===== src/Stablecoin/HandOut/Exact.antt =====
-- With one share for each shareholder a hand-out pays exactly its amount.
use mathlib.Core.Path.{subst}
use native.Mathlib.Decide.{dec_lt}
use native.Mathlib.Nat.{suc-mul, div-eq_of_lt}
use substrate_stablecoin.Prelude.{
  ap, ℕ, suc, ◌+◌, ◌-◌, ◌*◌, ◌/◌, ◌%◌, ◌≤◌, ◌<◌, ◌≡◌, refl, List, [], ◌∷◌, All, length, u64_mod,
  arith, false, Bool-cases, inl, inr, leb, ltb, min, max, ◌&&◌, if◌then◌else◌, add64, mul64, ◌⊎◌,
}
use substrate_stablecoin.Stablecoin.Types.{State, coin_supply_overflow}
use substrate_stablecoin.Stablecoin.Monad.{ok, err}
use substrate_stablecoin.Stablecoin.Ledger.{total}
use substrate_stablecoin.Stablecoin.Balances.{add_balance}
use substrate_stablecoin.Stablecoin.HandOut.{
  Plan, share_sum, payout, pay_from, plan, hand_out_coins,
}
use substrate_stablecoin.Stablecoin.HandOut.Loop.{
  pay_from-total, pay_from-Frame, hand_out_coins-overflow, hand_out_coins-runs,
}

abbrev pub OneShareEach : List (ℕ × ℕ) → Type 0
OneShareEach = All (λ share. share.1 ≡ 1)

pub share_sum-one :
    (acc : ℕ) (shares : List (ℕ × ℕ))
    → OneShareEach shares
    → acc + length shares < u64_mod
    → share_sum acc shares ≡ acc + length shares
share_sum-one acc [] h small = omega arith
share_sum-one acc ((account, n) ∷ shares) h small =
    let step : add64 acc n ≡ suc acc = omega (arith, h.0) in
    rw step (omega (arith, share_sum-one (suc acc) shares h.1))

-- How many of the first `i` shareholders get one coin more.
abbrev pub extra : Plan → ℕ
extra p = if p.pay_extra then p.amount % p.len else 0

abbrev pub bonus : Plan → ℕ
bonus p = if p.pay_extra then 1 else 0

-- What the plan needs: the pay for one share does not wrap, and all shareholders together are due
-- the amount at least.
pub record Fair (p : Plan) : Type 0 where
  pub no_wrap : p.coins_per_share + bonus p < u64_mod
  pub extra_in : extra p ≤ p.len
  pub enough : p.amount ≤ p.len * p.coins_per_share + extra p

-- What the first `i` shareholders are due.
abbrev pub due : Plan → ℕ → ℕ
due p i = min p.amount (i * p.coins_per_share + min i (extra p))

due-step :
    (a k i x : ℕ)
    → min a (i * k + min i x) + min (a - min a (i * k + min i x)) (k + (if ltb i x then 1 else 0))
      ≡ min a (suc i * k + min (suc i) x)
due-step a k i x = elim (dec_lt i x) [
  | yes h ↦ ground (arith, suc-mul i k)
  | no h ↦ ground (arith, suc-mul i k)
]

pay-one :
    (p : Plan) (i : ℕ)
    → Fair p
    → add64 (mul64 1 p.coins_per_share) (if p.pay_extra && ltb i (p.amount % p.len) then 1 else 0)
      ≡ p.coins_per_share + (if ltb i (extra p) then 1 else 0)
pay-one p i f = ground arith

pub payout-due : (p : Plan) (i : ℕ) → Fair p → due p i + payout p i (due p i) 1 ≡ due p (suc i)
unfolding payout
payout-due p i f = rw (pay-one p i f) (due-step p.amount p.coins_per_share i (extra p))

pay_from-exact :
    (p : Plan) (shares : List (ℕ × ℕ)) (i : ℕ) (s : State)
    → Fair p
    → OneShareEach shares
    → i + length shares ≡ p.len
    → (pay_from p shares i (due p i) s).0 ≡ p.amount
unfolding pay_from
pay_from-exact p [] i s f one e = omega (arith, f.enough, ap (λ n. n * p.coins_per_share) e)
pay_from-exact p ((account, n) ∷ shares) i s f one e = elim (Bool-cases (leb p.amount (due p i))) [
  | inl stop ↦ rw (stop, pay_from) (ground arith)
  | inr more ↦
      rw (more, pay_from)
        (rw (one.0, payout-due p i f)
          (pay_from-exact p shares (suc i) (add_balance account (payout p i (due p i) 1) s) f one.1
            (omega arith)))
]

-- With `k` coins for each of `len` shareholders and the rest of the division spread.
plan_for : (amount len k : ℕ) → Plan
plan_for amount len k = record {
  amount = amount;
  len = len;
  coins_per_share = k;
  pay_extra = ltb (mul64 k len) amount;
}

few_coins-Fair : (amount len : ℕ) → amount < len → len < u64_mod → Fair (plan_for amount len 1)
unfolding plan_for
few_coins-Fair amount len less few =
    let none_extra : ltb (mul64 1 len) amount ≡ false = ground arith in
    record {
      no_wrap = rw none_extra (omega arith);
      extra_in = rw none_extra (omega arith);
      enough = rw none_extra (omega arith);
    }

many_coins-Fair :
    (amount len : ℕ)
    → 0 < len
    → len ≤ amount
    → amount < u64_mod
    → Fair (plan_for amount len (amount / len))
unfolding plan_for
many_coins-Fair amount len some_one more small =
    let k = amount / len in
    let whole : amount ≡ k * len + amount % len = omega arith in
    let rem : amount % len < len = omega arith in
    let no_wrap : mul64 k len ≡ k * len = omega arith in
    let le : k ≤ k * len = grind arith in
    elim (Bool-cases (ltb (mul64 k len) amount)) [
      | inl e ↦ record {
        no_wrap = rw e (ground arith);
        extra_in = rw e (omega arith);
        enough = rw e (omega arith);
      }
      | inr e ↦ record {
        no_wrap = rw e (omega arith);
        extra_in = rw e (omega arith);
        enough = rw e (ground arith);
      }
    ]

pub plan-Fair :
    (shares : List (ℕ × ℕ)) (amount : ℕ)
    → 0 < length shares
    → length shares < u64_mod
    → amount < u64_mod
    → Fair (plan shares amount (length shares))
unfolding plan plan_for
plan-Fair shares amount some_one few small = elim (dec_lt amount (length shares)) [
  | yes less ↦
      let one : max 1 (amount / length shares) ≡ 1 = omega (arith, div-eq_of_lt less) in
      rw one (few_coins-Fair amount (length shares) less few)
  | no more ↦
      let k : max 1 (amount / length shares) ≡ amount / length shares = ground arith in
      rw k (many_coins-Fair amount (length shares) some_one (omega arith) small)
]

pub amount-plan :
    (shares : List (ℕ × ℕ)) (amount share_supply : ℕ)
    → ((plan shares amount share_supply).amount ≡ amount)
      × ((plan shares amount share_supply).len ≡ length shares)
unfolding plan
amount-plan shares amount share_supply = (refl, refl)

pay_from-all :
    (p : Plan) (shares : List (ℕ × ℕ)) (s : State)
    → Fair p
    → OneShareEach shares
    → p.len ≡ length shares
    → (pay_from p shares 0 0 s).0 ≡ p.amount
pay_from-all p shares s f one e =
    let start : due p 0 ≡ 0 = omega arith in
    subst (λ payed. (pay_from p shares 0 payed s).0 ≡ p.amount) start
      (pay_from-exact p shares 0 s f one (omega arith))

-- With at least one shareholder, one share for each, and room in the balances, new coins are handed
-- out whole: unless the supply would overflow, which changes nothing, both the supply and the
-- balances grow by exactly the amount, and the bids and the bonds stay.
pub hand_out_coins_exact :
    (shares : List (ℕ × ℕ)) (amount coin_supply : ℕ) (s : State)
    → OneShareEach shares
    → 0 < length shares
    → length shares < u64_mod
    → total s.balance + amount < u64_mod
    → let (r, s') = hand_out_coins shares amount coin_supply s in
      ((r ≡ err coin_supply_overflow) × (s' ≡ s) × (u64_mod ≤ coin_supply + amount))
      ⊎ ((r ≡ ok tt)
          × (s'.coin_supply ≡ coin_supply + amount)
          × (total s'.balance ≡ total s.balance + amount)
          × (s'.bond_bids ≡ s.bond_bids)
          × (s'.bonds ≡ s.bonds))
hand_out_coins_exact shares amount coin_supply s one some_one few small =
    let p = plan shares amount (length shares) in
    elim (dec_lt (coin_supply + amount) u64_mod) [
      | no over ↦
          rw (hand_out_coins-overflow shares amount coin_supply s (omega arith))
            (inl (refl, refl, omega arith))
      | yes fits ↦
          let counted = share_sum-one 0 shares one (omega arith) in
          let runs =
            hand_out_coins-runs shares amount coin_supply (length shares) s fits
              (omega (arith, counted)) (omega arith) in
          let all =
            pay_from-all p shares s (plan-Fair shares amount some_one few (omega arith)) one
              (amount-plan shares amount (length shares)).1 in
          let (_, _, gained) =
            pay_from-total p shares 0 0 s (omega arith)
              (rw (amount-plan shares amount (length shares)).0 (omega arith)) in
          let (frame, bids) = pay_from-Frame p shares 0 0 s in
          rw runs (
            inr (
              refl,
              refl,
              omega (arith, all, gained, (amount-plan shares amount (length shares)).0),
              bids,
              frame.same_bonds,
            ))
    ]
