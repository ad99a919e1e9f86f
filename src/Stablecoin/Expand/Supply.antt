-- ===== src/Stablecoin/Expand/Supply.antt =====
-- `expand_supply` as a whole: what it refuses, and what it does to the supply and to the coins that
-- exist.
use native.Mathlib.Decide.{dec_lt}
use substrate_stablecoin.Prelude.{
  ℕ, suc, ◌+◌, ◌-◌, ◌*◌, ◌≤◌, ◌<◌, ◌≡◌, ◌∙◌, refl, ◌⊎◌, inl, inr, length, u64_mod, arith,
  Bool-cases, ltb,
}
use substrate_stablecoin.Deque
use substrate_stablecoin.Stablecoin.Types.{State, coin_supply_overflow, expanded_supply}
use substrate_stablecoin.Stablecoin.Monad.{Result, ok, err, and_then, Done}
use substrate_stablecoin.Stablecoin.Ledger.{total}
use substrate_stablecoin.Stablecoin.Bids.{emit}
use substrate_stablecoin.Stablecoin.HandOut.{hand_out_coins}
use substrate_stablecoin.Stablecoin.HandOut.Exact.{OneShareEach, hand_out_coins_exact}
use substrate_stablecoin.Stablecoin.Expand.{
  Expansion, expand_loop, expect, hand_out_rest, store_bonds, expand_supply,
}
use substrate_stablecoin.Stablecoin.Expand.Payment.{BondsValid, owed, Pays}
use substrate_stablecoin.Stablecoin.Expand.Loop.{expand_loop-Ends}

pub expect-ok : (x : Result Done × State) → x.0 ≡ ok tt → expect x ≡ (ok tt, x.1)
unfolding expect
expect-ok (r, s) h = rw h refl

-- What remains after the bonds goes to the shareholders, whole.
pub hand_out_rest_exact :
    (coin_supply amount : ℕ) (e : Expansion) (s : State)
    → coin_supply + amount < u64_mod
    → e.remaining ≤ amount
    → OneShareEach s.shares
    → 0 < length s.shares
    → length s.shares < u64_mod
    → total s.balance + e.remaining < u64_mod
    → let (r, s') = hand_out_rest coin_supply amount e s in
      (r ≡ ok tt)
      × (s'.coin_supply ≡ coin_supply + amount)
      × (total s'.balance ≡ total s.balance + e.remaining)
      × (s'.bond_bids ≡ s.bond_bids)
unfolding hand_out_rest
hand_out_rest_exact coin_supply amount e s fits le one some_one few small =
    elim (Bool-cases (ltb 0 e.remaining)) [
      | inl more ↦
          elim (hand_out_coins_exact s.shares e.remaining (coin_supply + amount - e.remaining) s one
            some_one few small) [
              | inl (_, _, over) ↦ absurd (omega arith)
              | inr (done, supply, coins, bids, _) ↦
                  rw
                    (
                      more,
                      expect-ok
                          (hand_out_coins s.shares e.remaining (coin_supply + amount - e.remaining)
                            s)
                          done,
                    )
                    (refl, omega (arith, supply), coins, bids)
            ]
      | inr none_left ↦
          let zero_left : e.remaining ≡ 0 = ground arith in
          rw none_left (refl, omega arith, omega arith, refl)
    ]

abbrev pub begin : ℕ → State → Expansion
begin amount s = record { bonds = Deque.new s.bonds; remaining = amount }

-- The end of `expand_supply`, from the loop's on.
abbrev pub finish : ℕ → ℕ → Expansion → State → Result Done × State
finish coin_supply amount e s =
    and_then (hand_out_rest coin_supply amount e s)
      (λ _ s'. (ok tt, emit (expanded_supply amount) (store_bonds e.bonds s')))

pub expand_supply-refuses :
    (coin_supply amount : ℕ) (s : State)
    → u64_mod ≤ coin_supply + amount
    → expand_supply coin_supply amount s ≡ (err coin_supply_overflow, s)
unfolding expand_supply
expand_supply-refuses coin_supply amount s h = ground arith

pub expand_supply-runs :
    (coin_supply amount : ℕ) (s s' : State) (e : Expansion)
    → coin_supply + amount < u64_mod
    → expand_loop (suc (Deque.new s.bonds).length) (begin amount s) s ≡ (ok e, s')
    → expand_supply coin_supply amount s ≡ finish coin_supply amount e s'
unfolding expand_supply
expand_supply-runs coin_supply amount s s' e h l = ground arith

pub finish-ok :
    (coin_supply amount : ℕ) (e : Expansion) (s : State)
    → (hand_out_rest coin_supply amount e s).0 ≡ ok tt
    → let (r, s') = finish coin_supply amount e s in
      let mid = (hand_out_rest coin_supply amount e s).1 in
      (r ≡ ok tt)
      × (s'.coin_supply ≡ mid.coin_supply)
      × (s'.balance ≡ mid.balance)
      × (s'.bond_bids ≡ mid.bond_bids)
unfolding store_bonds
finish-ok coin_supply amount e s h = rw h (refl, refl, refl, refl)

-- An expansion of `coin_supply` by `amount`, from `s` to `s'`.
pub record Expands (coin_supply amount : ℕ) (s s' : State) : Type 0 where
  pub supply : s'.coin_supply ≡ coin_supply + amount
  pub coins :
      (total s'.balance ≡ total s.balance + amount)
      ⊎ ((excess : ℕ) × (0 < excess)
          × (excess ≤ amount)
          × (amount < owed (Deque.new s.bonds))
          × (total s'.balance ≡ total s.balance + amount + excess))
  pub same_bids : s'.bond_bids ≡ s.bond_bids

finish-Expands :
    (coin_supply amount : ℕ) (s s' : State) (e : Expansion)
    → coin_supply + amount < u64_mod
    → OneShareEach s.shares
    → 0 < length s.shares
    → length s.shares < u64_mod
    → total s.balance + 2 * amount < u64_mod
    → Pays (total s.balance) amount (owed (Deque.new s.bonds)) s e s'
    → let (r, end) = finish coin_supply amount e s' in
      (r ≡ ok tt) × Expands coin_supply amount s end
finish-Expands coin_supply amount s s' e fits one some_one few small p =
    let same = p.frame.same_shares in
    let paid : total s'.balance ≤ total s.balance + amount = elim p.coins [
      | inl (exact, _) ↦ omega arith
      | inr ((_, part), _) ↦ omega arith
    ] in
    let (done, supply, coins, bids) =
      hand_out_rest_exact coin_supply amount e s' fits p.less (rw same one) (rw same some_one)
        (rw same few) (omega (arith, p.less)) in
    let (done', supply', balance', bids') = finish-ok coin_supply amount e s' done in
    (
      done',
      record {
        supply = supply' ∙ supply;
        coins = elim p.coins [
          | inl (exact, _) ↦ inl (rw balance' (omega (arith, coins)))
          | inr ((some_left, part), less) ↦
              inr (e.remaining, some_left, p.less, less, rw balance' (omega (arith, coins)))
        ];
        same_bids = bids' ∙ bids ∙ p.same_bids;
      },
    )

-- An expansion of a state whose stored bonds are well formed, where there is a shareholder, each
-- has one share and no balance can overflow, is refused if the supply would overflow, and changes
-- nothing then. Any other ends well: the supply grows by exactly the amount, and the bids stay. The
-- balances grow by the amount too; or by more, and by twice of it at most, but only if the stored
-- bonds are owed more than the amount.
pub expand_supply_pays :
    (coin_supply amount : ℕ) (s : State)
    → BondsValid (Deque.new s.bonds)
    → OneShareEach s.shares
    → 0 < length s.shares
    → length s.shares < u64_mod
    → total s.balance + 2 * amount < u64_mod
    → let (r, s') = expand_supply coin_supply amount s in
      ((u64_mod ≤ coin_supply + amount) × (r ≡ err coin_supply_overflow) × (s' ≡ s))
      ⊎ ((r ≡ ok tt) × Expands coin_supply amount s s')
expand_supply_pays coin_supply amount s v one some_one few small =
    elim (dec_lt (coin_supply + amount) u64_mod) [
      | no over ↦
          rw (expand_supply-refuses coin_supply amount s (omega arith))
            (inl (omega arith, refl, refl))
      | yes fits ↦
          let (e, s', l, p) =
            expand_loop-Ends (suc (Deque.new s.bonds).length) (begin amount s) s (omega arith) v
              (omega arith) in
          rw (expand_supply-runs coin_supply amount s s' e fits l)
            (inr (finish-Expands coin_supply amount s s' e fits one some_one few small p))
    ]
