-- ===== src/Stablecoin/Bids/Escrow.antt =====
-- The coins that the queue holds in escrow, and that entering and leaving it loses none.
use substrate_stablecoin.Prelude.{
  ℕ, ◌+◌, ◌<◌, ◌≡◌, refl, Bool, not, List, [], ◌∷◌, Option, none, some, sum_by, select, u64_mod,
  arith, Bool-cases, inl, inr, if◌then◌else◌, ◌==◌, ◌&&◌,
}
use substrate_stablecoin.PriorityQueue.{push}
use substrate_stablecoin.PriorityQueue.Laws.{to_list, push-sum_by}
use substrate_stablecoin.Stablecoin.Types.{Env, Bid, State}
use substrate_stablecoin.Stablecoin.Ledger.{total}
use substrate_stablecoin.Stablecoin.Balances.{get_balance}
use substrate_stablecoin.Stablecoin.Balances.Laws.{total-add_balance, get_balance-add_balance}
use substrate_stablecoin.Stablecoin.Bids.{
  bid_key, payment, refund_bid, refund_evicted, add_bid, retain, cancel_bids,
}

module _ (env : Env) where
  -- What the bids of a queue have paid, and all coins that are in accounts or in escrow.
  abbrev pub escrow : List Bid → ℕ
  escrow = sum_by (payment env)

  abbrev pub held : State → ℕ
  held s = total s.balance + escrow s.bond_bids

  pub total-refund_bid :
      (bid : Bid) (s : State)
      → total s.balance + payment env bid < u64_mod
      → total (refund_bid env bid s).balance ≡ total s.balance + payment env bid
  unfolding refund_bid
  total-refund_bid bid s h = total-add_balance bid.account (payment env bid) s h

  pub get_balance-refund_bid :
      (t : ℕ) (bid : Bid) (s : State)
      → total s.balance + payment env bid < u64_mod
      → get_balance t (refund_bid env bid s)
        ≡ (if t == bid.account then get_balance t s + payment env bid else get_balance t s)
  unfolding refund_bid get_balance
  get_balance-refund_bid t bid s h = get_balance-add_balance t bid.account (payment env bid) s h

  pub total-refund_evicted :
      (evicted : Option Bid) (s : State)
      → total s.balance + escrow (to_list evicted) < u64_mod
      → total (refund_evicted env evicted s).balance ≡ total s.balance + escrow (to_list evicted)
  unfolding refund_evicted
  total-refund_evicted none s h = omega arith
  total-refund_evicted (some bid) s h = omega (arith, total-refund_bid bid s)

  -- A bid that enters the queue brings its payment, whether or not another is evicted for it, if
  -- the coins and the payment together fit a balance.
  pub held-add_bid :
      (bid : Bid) (s : State)
      → held s + payment env bid < u64_mod
      → held (add_bid env bid s) ≡ held s + payment env bid
  unfolding add_bid
  held-add_bid bid s h =
      let (evicted, bids) = push bid_key env.maximum_bids s.bond_bids bid in
      omega (
        arith,
        total-refund_evicted evicted s,
        push-sum_by bid_key (payment env) env.maximum_bids s.bond_bids bid,
      )

  -- Cancelling keeps exactly the bids that the test does not pick.
  retain-select :
      (f : Bid → Bool) (bids : List Bid) (s : State)
      → (retain env f bids s).0 ≡ select (λ b. not (f b)) bids
  unfolding retain
  retain-select f [] s = refl
  retain-select f (bid ∷ bids) s =
      ground (arith, retain-select f bids (refund_bid env bid s), retain-select f bids s)

  held-retain :
      (f : Bid → Bool) (bids : List Bid) (s : State)
      → total s.balance + escrow bids < u64_mod
      → let (kept, s') = retain env f bids s in
        total s'.balance + escrow kept ≡ total s.balance + escrow bids
  unfolding retain
  held-retain f [] s h = refl
  held-retain f (bid ∷ bids) s h = elim (Bool-cases (f bid)) [
    | inl e ↦
        rw (e, retain)
          (omega (arith, held-retain f bids (refund_bid env bid s), total-refund_bid bid s))
    | inr e ↦ rw (e, retain) (omega (arith, held-retain f bids s))
  ]

  -- What the cancelled bids of one account had paid goes back to it.
  get_balance-retain :
      (f : Bid → Bool) (t : ℕ) (bids : List Bid) (s : State)
      → total s.balance + escrow bids < u64_mod
      → get_balance t (retain env f bids s).1
        ≡ get_balance t s + escrow (select (λ b. f b && t == b.account) bids)
  unfolding retain
  get_balance-retain f t [] s h = omega arith
  get_balance-retain f t (bid ∷ bids) s h = elim (Bool-cases (f bid)) [
    | inl e ↦ ground (
      arith,
      get_balance-retain f t bids (refund_bid env bid s),
      get_balance-refund_bid t bid s,
      total-refund_bid bid s,
    )
    | inr e ↦ ground (arith, get_balance-retain f t bids s)
  ]

  -- If the coins fit a balance, `cancel_bids` keeps exactly the bids that the test does not pick,
  -- in their order; every account gets back what its cancelled bids had paid; no coin is lost or
  -- made.
  pub cancel_bids_lem :
      (f : Bid → Bool) (s : State)
      → held s < u64_mod
      → let s' = cancel_bids env f s in
        (s'.bond_bids ≡ select (λ b. not (f b)) s.bond_bids)
        × ((t : ℕ)
            → get_balance t s'
              ≡ get_balance t s + escrow (select (λ b. f b && t == b.account) s.bond_bids))
        × (held s' ≡ held s)
  unfolding cancel_bids get_balance
  cancel_bids_lem f s h = (
    retain-select f s.bond_bids s,
    (λ t. get_balance-retain f t s.bond_bids s h),
    held-retain f s.bond_bids s h,
  )

  pub bond_bids-cancel_bids :
      (f : Bid → Bool) (s : State)
      → (cancel_bids env f s).bond_bids ≡ select (λ b. not (f b)) s.bond_bids
  unfolding cancel_bids
  bond_bids-cancel_bids f s = retain-select f s.bond_bids s
