-- ===== src/Stablecoin/HandOut/Split.antt =====
-- What each shareholder gets of a hand-out: an even split, with the remainder to the first ones.
use mathlib.Core.Path.{subst}
use native.Mathlib.Decide.{dec_lt}
use native.Mathlib.Nat.{suc-mul, div-eq_of_lt, mul-le-mul_right, mul_comm}
use substrate_stablecoin.Prelude.{
  ap, ℕ, suc, ◌+◌, ◌-◌, ◌*◌, ◌/◌, ◌%◌, ◌≤◌, ◌<◌, ◌≡◌, refl, List, [], ◌∷◌, length, u64_mod, arith,
  false, Bool-cases, inl, inr, leb, ltb, min, max, if◌then◌else◌, mul64,
}
use substrate_stablecoin.Stablecoin.Types.{State}
use substrate_stablecoin.Stablecoin.Monad.{ok}
use substrate_stablecoin.Stablecoin.Ledger.{total}
use substrate_stablecoin.Stablecoin.Balances.{get_balance, add_balance}
use substrate_stablecoin.Stablecoin.Balances.Laws.{total-add_balance, get_balance-add_balance}
use substrate_stablecoin.Stablecoin.Balances.Payments.{paid_to}
use substrate_stablecoin.Stablecoin.HandOut.{Plan, payout, pay_from, plan, hand_out_coins}
use substrate_stablecoin.Stablecoin.HandOut.Loop.{hand_out_coins-runs}
use substrate_stablecoin.Stablecoin.HandOut.Exact.{
  OneShareEach, share_sum-one, due, Fair, payout-due, plan-Fair, amount-plan,
}

-- The payments of an even split from shareholder `i` on: `each` for everyone, and one more for those
-- below `more`.
abbrev pub split : (each more i : ℕ) → List (ℕ × ℕ) → List (ℕ × ℕ)
split each more i [] = []
split each more i ((account, n) ∷ shares) =
    (account, each + (if ltb i more then 1 else 0)) ∷ split each more (suc i) shares

-- All of an amount, split evenly.
abbrev pub even_split : (amount : ℕ) → List (ℕ × ℕ) → List (ℕ × ℕ)
even_split amount shares = split (amount / length shares) (amount % length shares) 0 shares

-- The plan's dues are those of an even split.
record Even (p : Plan) (each more : ℕ) : Type 0 where
  fair : Fair p
  dues : (i : ℕ) → i ≤ p.len → due p i ≡ i * each + min i more

pub split-nothing :
    (t each more i : ℕ) (shares : List (ℕ × ℕ))
    → each ≡ 0
    → more ≤ i
    → paid_to t (split each more i shares) ≡ 0
split-nothing t each more i [] z h = refl
split-nothing t each more i ((account, n) ∷ shares) z h =
    ground (arith, split-nothing t each more (suc i) shares z (omega arith))

pay_from-gains :
    (t : ℕ) (p : Plan) (each more : ℕ) (shares : List (ℕ × ℕ)) (i : ℕ) (s : State)
    → Even p each more
    → OneShareEach shares
    → i + length shares ≡ p.len
    → total s.balance + (p.amount - due p i) < u64_mod
    → get_balance t (pay_from p shares i (due p i) s).1
      ≡ get_balance t s + paid_to t (split each more i shares)
unfolding pay_from
pay_from-gains t p each more [] i s v one e small = omega arith
pay_from-gains t p each more ((account, n) ∷ shares) i s v one e small =
    let here = v.dues i (omega arith) in
    let next = v.dues (suc i) (omega arith) in
    let coins = payout p i (due p i) 1 in
    let step : due p i + coins ≡ due p (suc i) = payout-due p i v.fair in
    let due_here : coins ≡ each + (if ltb i more then 1 else 0) = ground (arith, suc-mul i each) in
    elim (Bool-cases (leb p.amount (due p i))) [
      | inl stop ↦
          let none : each + (if ltb i more then 1 else 0) ≡ 0 = ground (arith, suc-mul i each) in
          let no_each : each ≡ 0 = omega (arith, none) in
          let past : more ≤ suc i = ground (arith, none) in
          rw (stop, none) (ground (arith, split-nothing t each more (suc i) shares no_each past))
      | inr more_left ↦
          let room : total s.balance + coins < u64_mod = ground arith in
          let after = add_balance account coins s in
          let left : total after.balance + (p.amount - due p (suc i)) < u64_mod =
            ground (arith, total-add_balance account coins s room) in
          let rest = pay_from-gains t p each more shares (suc i) after v one.1 (omega arith) left in
          rw (more_left, pay_from)
            (rw (one.0, step)
              (ground (arith, rest, due_here, get_balance-add_balance t account coins s room)))
    ]

-- The dues of the plan of a hand-out to `len` shareholders.
plan-Even :
    (shares : List (ℕ × ℕ)) (amount : ℕ)
    → 0 < length shares
    → length shares < u64_mod
    → amount < u64_mod
    → Even (plan shares amount (length shares)) (amount / length shares) (amount % length shares)
unfolding plan
plan-Even shares amount some_one few small =
    let len = length shares in
    let each = amount / len in
    let whole : amount ≡ each * len + amount % len = omega arith in
    record {
      fair = plan-Fair shares amount some_one few small;
      dues = λ i in_range. elim (dec_lt amount len) [
        | yes less ↦
            let none_each : each ≡ 0 = div-eq_of_lt less in
            let one : max 1 each ≡ 1 = omega (arith, none_each) in
            let all : amount % len ≡ amount = omega (arith, whole, ap (λ k. k * len) none_each) in
            let none_extra : ltb (mul64 1 len) amount ≡ false = ground arith in
            rw (one, none_each, none_extra, all) (omega arith)
        | no more ↦
            let k : max 1 each ≡ each = ground arith in
            let part : i * each ≤ len * each = mul-le-mul_right each in_range in
            let commutes = mul_comm len each in
            let no_wrap : mul64 each len ≡ each * len = omega arith in
            rw k (elim (Bool-cases (ltb (mul64 each len) amount)) [
              | inl e ↦ rw e (omega (arith, part, commutes))
              | inr e ↦ rw e (ground (arith, part, commutes))
            ])
      ];
    }

pay_from-split :
    (t : ℕ) (p : Plan) (each more : ℕ) (shares : List (ℕ × ℕ)) (s : State)
    → Even p each more
    → OneShareEach shares
    → p.len ≡ length shares
    → total s.balance + p.amount < u64_mod
    → get_balance t (pay_from p shares 0 0 s).1
      ≡ get_balance t s + paid_to t (split each more 0 shares)
pay_from-split t p each more shares s v one e small =
    let start : due p 0 ≡ 0 = omega arith in
    subst
      (λ payed.
        get_balance t (pay_from p shares 0 payed s).1
        ≡ get_balance t s + paid_to t (split each more 0 shares))
      start (pay_from-gains t p each more shares 0 s v one (omega arith) (omega arith))

-- With one share for each of at least one shareholder and room in the balances and the supply, a hand-out
-- pays the even split: every account gains, for each of its places among the shareholders, the amount
-- divided by their number, and one coin more at the places below the remainder of that division.
pub hand_out_coins_splits :
    (shares : List (ℕ × ℕ)) (amount coin_supply t : ℕ) (s : State)
    → OneShareEach shares
    → 0 < length shares
    → length shares < u64_mod
    → total s.balance + amount < u64_mod
    → coin_supply + amount < u64_mod
    → let (r, s') = hand_out_coins shares amount coin_supply s in
      (r ≡ ok tt) × (get_balance t s' ≡ get_balance t s + paid_to t (even_split amount shares))
unfolding get_balance
hand_out_coins_splits shares amount coin_supply t s one some_one few small fits =
    let n = length shares in
    let counted = share_sum-one 0 shares one (omega arith) in
    let runs =
      hand_out_coins-runs shares amount coin_supply n s fits (omega (arith, counted))
        (omega arith) in
    let p = plan shares amount n in
    let (amount_in, len_in) = amount-plan shares amount n in
    let gained =
      pay_from-split t p (amount / n) (amount % n) shares s
        (plan-Even shares amount some_one few (omega arith)) one len_in
        (omega (arith, amount_in)) in
    rw runs (refl, gained)
