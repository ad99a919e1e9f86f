-- ===== src/Stablecoin/Contract/Issue.antt =====
-- The bonds that the loop of `contract_supply` makes: what they promise, when they expire, and how many
-- there are.
use native.Mathlib.Nat.{le-div_iff_mul-le, mul-le-mul_left, mul-le-mul_right}
use substrate_stablecoin.Prelude.{
  ℕ, zero, suc, ◌+◌, ◌*◌, ◌/◌, ◌≤◌, ◌<◌, ◌≡◌, ◌∙◌, sym, refl, ◌⊎◌, inl, inr, true, Option, none,
  some, List, [], ◌∷◌, ◌++◌, All, All-append, length, length-append, sum_by, sum_by-append, arith,
  Bool-cases, ltb, leb,
}
use substrate_stablecoin.PriorityQueue.{pop}
use substrate_stablecoin.PriorityQueue.Laws.{pop-length, pop-none}
use substrate_stablecoin.Stablecoin.Types.{Env, Bid, BidError, Bond, State, accuracy, add_block}
use substrate_stablecoin.Stablecoin.Monad.{ok}
use substrate_stablecoin.Stablecoin.Bids.{payment, remove_coins}
use substrate_stablecoin.Stablecoin.Bids.Queue.{IsQueue, IsPriced, popped-IsPriced}
use substrate_stablecoin.Stablecoin.Bids.Remove.{RatioLaws, PerbillLaws, remove_coins_inv}
use substrate_stablecoin.Stablecoin.Contract.{
  Contraction, convert, take_bid, round, goes_on, contract_loop, bond_for,
}
use substrate_stablecoin.Stablecoin.Contract.Rounds.{
  round-some, none_remains, goes_on-bids, loop-stops, loop-goes_on,
}
use substrate_stablecoin.Stablecoin.Sound.Contract.{round_on}

-- What bonds promise to pay.
abbrev pub payouts : List Bond → ℕ
payouts = sum_by (λ bond. bond.payout)

-- A conversion of coins at a price of at most one gives as many at least, and what is paid for a
-- quantity is at most the quantity.
converted-le : (p c : ℕ) → 0 < p → p ≤ accuracy → c ≤ accuracy * c / p
converted-le p c pos unit =
    let le = mul-le-mul_left c unit in (le-div_iff_mul-le pos).1 (omega (arith, le))

paid-le : (p q m : ℕ) → p ≤ accuracy → 2 * (m * accuracy) ≤ 2 * (p * q) + accuracy → m ≤ q
paid-le p q m unit below = let le = mul-le-mul_right q unit in omega (arith, le)

module _ (env : Env) (ratio : RatioLaws env.crates) (perbill : PerbillLaws env.crates) where
  -- The bonds so far, against the amount to be contracted, the block, and the bids that there were.
  pub record Issued (amount block n : ℕ) (c : Contraction) : Type 0 where
    pub covers : amount ≤ c.remaining + payouts c.bonds
    pub expire : All (λ bond. bond.expiration ≡ add_block block env.expiration_period) c.bonds
    pub within : (length c.bonds + length c.bids ≤ n) ⊎ ((c.remaining ≡ 0) × (length c.bonds ≤ n))

  -- One bond more, for an account.
  Issued-bond :
      (amount n account payout : ℕ) (c c' : Contraction) (s : State)
      → Issued amount s.block_number n c
      → c'.bonds ≡ c.bonds ++ (bond_for env account payout s ∷ [])
      → c.remaining ≤ c'.remaining + payout
      → (length c'.bonds + length c'.bids ≤ n) ⊎ ((c'.remaining ≡ 0) × (length c'.bonds ≤ n))
      → Issued amount s.block_number n c'
  unfolding bond_for
  Issued-bond amount n account payout c c' s i e le w =
      let bond = bond_for env account payout s in
      let more = sum_by-append (λ (b : Bond). b.payout) c.bonds (bond ∷ []) in
      record {
        covers = rw e (omega (arith, i.covers, more, le));
        expire = rw e (All-append _ c.bonds (bond ∷ []) i.expire (refl, tt));
        within = w;
      }

  convert-Issued :
      (amount n : ℕ) (c : Contraction) (bid : Bid) (s : State) (answer : BidError ⊎ (ℕ × Bid))
      → remove_coins env bid c.remaining ≡ answer
      → IsPriced env bid
      → suc (length c.bonds + length c.bids) ≤ n
      → Issued amount s.block_number n c
      → Issued amount s.block_number n (convert env c bid answer s).0
  unfolding convert
  convert-Issued amount n c bid s (inl error) e p few i = i
  convert-Issued amount n c bid s (inr (removed, rest)) e p few i =
      let (got, _, _) = remove_coins_inv env bid rest c.remaining removed e in
      let exact =
        ratio.exact accuracy bid.price c.remaining removed (omega (arith, p.above_minimum)) got in
      let le = converted-le bid.price c.remaining (omega (arith, p.above_minimum)) p.at_most_one in
      let longer = length-append c.bonds (bond_for env bid.account removed s ∷ []) in
      elim (Bool-cases (ltb 0 rest.quantity)) [
        | inl more ↦
            rw (more, convert)
              (Issued-bond amount n bid.account removed c _ s i refl (omega (arith, exact, le))
                (inr (refl, omega (arith, longer))))
        | inr none_left ↦
            rw (none_left, convert)
              (Issued-bond amount n bid.account removed c _ s i refl (omega (arith, exact, le))
                (inr (refl, omega (arith, longer))))
      ]

  take_bid-Issued :
      (amount n : ℕ) (c : Contraction) (bid : Bid) (s : State)
      → IsPriced env bid
      → suc (length c.bonds + length c.bids) ≤ n
      → Issued amount s.block_number n c
      → Issued amount s.block_number n (take_bid env c bid s).0
  unfolding take_bid payment
  take_bid-Issued amount n c bid s p few i = elim (Bool-cases (leb c.remaining (payment env bid))) [
    | inl e ↦
        rw (e, take_bid)
          (convert-Issued amount n c bid s (remove_coins env bid c.remaining) refl p few i)
    | inr e ↦
        let longer = length-append c.bonds (bond_for env bid.account bid.quantity s ∷ []) in
        let paid =
          paid-le bid.price bid.quantity (payment env bid) p.at_most_one
            (perbill.nearest_below bid.price bid.quantity p.at_most_one) in
        rw (e, take_bid)
          (Issued-bond amount n bid.account bid.quantity c _ s i refl (omega (arith, paid))
            (inl (omega (arith, longer))))
  ]

  -- The bid that a round pops is counted no longer; a panic has no bonds to count.
  round-Issued :
      (amount n : ℕ) (c c' : Contraction) (s s' : State) (out : Option Bid)
      → (pop c.bids).0 ≡ out
      → round env c s ≡ (ok c', s')
      → goes_on c ≡ true
      → IsQueue env c.bids
      → Issued amount s.block_number n c
      → Issued amount s.block_number n c'
  unfolding round goes_on
  round-Issued amount n c c' s s' none e r on q i = absurd (ground (arith, pop-none c.bids e))
  round-Issued amount n c c' s s' (some bid) e r on q i =
      let popped = record c { bids = (pop c.bids).1 } in
      let counted = pop-length c.bids in
      let shorter : suc (length (pop c.bids).1) ≡ length c.bids = omega (arith, rw e at counted) in
      let priced : All (IsPriced env) (bid ∷ []) = rw e at (popped-IsPriced env c.bids q) in
      let few : suc (length c.bonds + length popped.bids) ≤ n = ground (arith, shorter, i.within) in
      let before : Issued amount s.block_number n popped = record {
        covers = i.covers;
        expire = i.expire;
        within = inl (omega (arith, few));
      } in
      let same : (take_bid env popped bid s).0 ≡ c' = cc (round-some env c bid s e, r) in
      rw (← same) (take_bid-Issued amount n popped bid s priced.0 few before)

  -- The end of the loop.
  pub contract_loop-Issued :
      (amount n fuel : ℕ) (c c' : Contraction) (s s' : State)
      → length c.bids < fuel
      → IsQueue env c.bids
      → contract_loop env fuel c s ≡ (ok c', s')
      → Issued amount s.block_number n c
      → Issued amount s.block_number n c'
  contract_loop-Issued amount n zero c c' s s' f q l i = absurd (omega arith)
  contract_loop-Issued amount n (suc fuel) c c' s s' f q l i = elim (Bool-cases (goes_on c)) [
    | inr stop ↦
        let same : c ≡ c' = cc (loop-stops env (suc fuel) c s (omega arith) stop, l) in
        rw (← same) i
    | inl on ↦
        let (c₁, s₁, r, keeps, ends) = round_on env c s (pop c.bids).0 refl on q in
        let i₁ = round-Issued amount n c c₁ s s₁ (pop c.bids).0 refl r on q i in
        let again = sym (loop-goes_on env fuel c c₁ s s₁ on r) ∙ l in
        let some_bid = goes_on-bids env c on in
        elim ends [
          | inl z ↦
              let stopped = loop-stops env fuel c₁ s₁ (omega arith) (none_remains env c₁ z) in
              let same : c₁ ≡ c' = cc (stopped, again) in rw (← same) i₁
          | inr shorter ↦ rw keeps.frame.same_block at (
              contract_loop-Issued amount n fuel c₁ c' s₁ s' (omega arith) keeps.queue again
                (rw keeps.frame.same_block i₁))
        ]
  ]
