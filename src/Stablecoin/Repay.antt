-- ===== src/Stablecoin/Repay.antt =====
-- pallets/stablecoin/src/lib.rs: the life of a bond, from the contraction that makes it to the expansion that
-- pays it.
use substrate_stablecoin.Prelude.{
  ap, ℕ, ◌+◌, ◌*◌, ◌-◌, ◌≤◌, ◌<◌, ◌≡◌, ◌∙◌, refl, inl, inr, List, [], ◌∷◌, ◌++◌, map, All,
  All-append, length, u64_mod, arith, leb, ◌==◌, true, false,
}
use substrate_stablecoin.Deque
use substrate_stablecoin.Stablecoin.Types.{Env, Bond, State, bond_index_mod, add_block}
use substrate_stablecoin.Stablecoin.Monad.{ok}
use substrate_stablecoin.Stablecoin.Ledger.{total}
use substrate_stablecoin.Stablecoin.Balances.{get_balance}
use substrate_stablecoin.Stablecoin.Balances.Payments.{paid_to}
use substrate_stablecoin.Stablecoin.Bids.Escrow.{held}
use substrate_stablecoin.Stablecoin.Bids.Queue.{IsQueue}
use substrate_stablecoin.Stablecoin.Bids.Remove.{RatioLaws, PerbillLaws}
use substrate_stablecoin.Stablecoin.Contract.{contract_supply}
use substrate_stablecoin.Stablecoin.Contract.Supply.{contract_supply-Burns}
use substrate_stablecoin.Stablecoin.Contract.Issue.{payouts}
use substrate_stablecoin.Stablecoin.Contract.Ring.{Adds, contract_supply-Adds}
use substrate_stablecoin.Stablecoin.Expand.{expand_supply}
use substrate_stablecoin.Stablecoin.Expand.Payment.{BondsValid}
use substrate_stablecoin.Stablecoin.Expand.Schedule.{pays_out, bonds_in}
use substrate_stablecoin.Stablecoin.Expand.Accounts.{expand_supply_refines}
use substrate_stablecoin.Stablecoin.HandOut.Exact.{OneShareEach}
use substrate_stablecoin.Stablecoin.HandOut.Split.{even_split}

-- What each bond promises, and to whom.
abbrev pub dues : List Bond → List (ℕ × ℕ)
dues = map (λ bond. (bond.account, bond.payout))

-- Bonds that have not expired, and more coins than they promise: all are paid in full.
pays_out-all :
    (now r : ℕ) (bonds : List Bond)
    → All (λ bond. now < bond.expiration) bonds
    → payouts bonds < r
    → pays_out now r bonds ≡ record { payments = dues bonds; left = []; rest = r - payouts bonds }
pays_out-all now r [] live enough = let same : r - 0 ≡ r = omega arith in rw same refl
pays_out-all now r (bond ∷ bonds) live enough =
    let some_left : (r == 0) ≡ false = ground arith in
    let not_old : leb bond.expiration now ≡ false = ground (arith, live.0) in
    let covered : leb bond.payout r ≡ true = ground arith in
    let rest = pays_out-all now (r - bond.payout) bonds live.1 (omega arith) in
    let less : r - bond.payout - payouts bonds ≡ r - (bond.payout + payouts bonds) = omega arith in
    rw (some_left, not_old, covered) (rw (rest, less) refl)

live-at :
    (now end : ℕ) (bonds : List Bond)
    → now < end
    → All (λ bond. bond.expiration ≡ end) bonds
    → All (λ bond. now < bond.expiration) bonds
live-at now end [] lt h = tt
live-at now end (bond ∷ bonds) lt h = (omega (arith, h.0), live-at now end bonds lt h.1)

-- What an expansion pays to one account: the bonds' promises, and its part of what the bonds leave.
abbrev pub gain : (t amount : ℕ) → List Bond → (shares : List (ℕ × ℕ)) → ℕ
gain t amount bonds shares =
    paid_to t (dues bonds) + paid_to t (even_split (amount - payouts bonds) shares)

-- An expansion in block `now` on live bonds that promise less than it.
expand_supply-pays_all :
    (amount now t : ℕ) (s : State)
    → BondsValid (Deque.new s.bonds)
    → OneShareEach s.shares
    → 0 < length s.shares
    → length s.shares < u64_mod
    → total s.balance + 2 * amount < u64_mod
    → s.coin_supply + amount < u64_mod
    → All (λ bond. now < bond.expiration) (bonds_in (Deque.new s.bonds))
    → payouts (bonds_in (Deque.new s.bonds)) < amount
    → let (r, end) = expand_supply s.coin_supply amount (record s { block_number = now }) in
      (r ≡ ok tt)
      × (bonds_in (Deque.new end.bonds) ≡ [])
      × (get_balance t end
          ≡ get_balance t s + gain t amount (bonds_in (Deque.new s.bonds)) s.shares)
unfolding get_balance
expand_supply-pays_all amount now t s v one some_one few small fits live enough =
    let bonds = bonds_in (Deque.new s.bonds) in
    let (r, _, left, gained) =
      expand_supply_refines s.coin_supply amount t (record s { block_number = now }) v one some_one
        few small fits in
    let plan = pays_out-all now amount bonds live enough in
    (
      r,
      left ∙ ap (λ p. p.left) plan,
      gained
          ∙ ap
              (λ p. get_balance t s + paid_to t p.payments + paid_to t (even_split p.rest s.shares))
              plan
          ∙ omega arith,
    )

-- The state after a contraction.
abbrev pub contracted : Env → (amount : ℕ) → State → State
contracted env amount s = (contract_supply env s.coin_supply amount s).1

module _ (env : Env) (ratio : RatioLaws env.crates) (perbill : PerbillLaws env.crates) where
  contract_supply-burns :
      (amount : ℕ) (s : State)
      → IsQueue env s.bond_bids
      → held env s < u64_mod
      → amount + env.minimum_supply ≤ s.coin_supply
      → let s' = contracted env amount s in
        (s'.coin_supply ≤ s.coin_supply) × (total s'.balance ≤ held env s + 1)
  contract_supply-burns amount s q small enough =
      elim (contract_supply-Burns env ratio perbill s.coin_supply amount s q small) [
        | inl (low, _, _) ↦ absurd (omega (arith, low))
        | inr (_, (burned, b)) ↦ (omega (arith, b.supply), omega (arith, b.no_more_left))
      ]

  -- Let the crates compute as documented, the queue and the stored bonds be well formed, the ring have a
  -- place for each bid, each shareholder have one share, and balances and supply have room. If a
  -- contraction leaves the minimum supply, and in a block in which neither the stored bonds nor its
  -- own have expired an expansion by more than all of them promise follows it, then both end well, no
  -- bond is left, and every account gains exactly what its bonds promised and its part of an even
  -- split of the rest; and what the contraction's own bonds have paid together is at least what the
  -- supply had fallen by.
  pub contract_supply-repays :
      (amount later now t : ℕ) (s : State)
      → IsQueue env s.bond_bids
      → BondsValid (Deque.new s.bonds)
      → length (bonds_in (Deque.new s.bonds)) + length s.bond_bids < bond_index_mod
      → amount + env.minimum_supply ≤ s.coin_supply
      → OneShareEach s.shares
      → 0 < length s.shares
      → length s.shares < u64_mod
      → held env s + 1 + 2 * later < u64_mod
      → s.coin_supply + later < u64_mod
      → All (λ bond. now < bond.expiration) (bonds_in (Deque.new s.bonds))
      → now < add_block s.block_number env.expiration_period
      → payouts (bonds_in (Deque.new (contracted env amount s).bonds)) < later
      → let (r, s') = contract_supply env s.coin_supply amount s in
        let (r', end) = expand_supply s'.coin_supply later (record s' { block_number = now }) in
        (r ≡ ok tt)
        × (r' ≡ ok tt)
        × (bonds_in (Deque.new end.bonds) ≡ [])
        × ((bonds : List Bond) × Adds env bonds s s'
            × (get_balance t end
                ≡ get_balance t s' + gain t later (bonds_in (Deque.new s.bonds) ++ bonds) s.shares))
  contract_supply-repays amount later now t s q v room enough one some_one few small fits live_old
        live_new covered =
      let (r, (bonds, adds)) = contract_supply-Adds env ratio perbill amount s q v room enough in
      let s' = contracted env amount s in
      let (supply, balances) = contract_supply-burns amount s q (omega arith) enough in
      let old = bonds_in (Deque.new s.bonds) in
      let live : All (λ bond. now < bond.expiration) (bonds_in (Deque.new s'.bonds)) =
        rw adds.appended (
          All-append (λ bond. now < bond.expiration) old bonds live_old
            (live-at now (add_block s.block_number env.expiration_period) bonds live_new
              adds.expire)) in
      let (r', left, gained) =
        expand_supply-pays_all later now t s' adds.ring (rw adds.same_shares one)
          (rw adds.same_shares some_one) (rw adds.same_shares few) (omega arith) (omega arith) live
          covered in
      (
        r,
        r',
        left,
        (
          bonds,
          adds,
          gained
              ∙ ap (λ bs. get_balance t s' + gain t later bs s'.shares) adds.appended
              ∙ ap (λ shares. get_balance t s' + gain t later (old ++ bonds) shares)
                  adds.same_shares,
        ),
      )
