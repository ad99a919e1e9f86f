-- ===== src/Stablecoin/Contract/Rounds.antt =====
-- How the loop of `contract_supply` goes on and stops.
use substrate_stablecoin.Prelude.{ℕ, zero, suc, ◌<◌, ◌≡◌, refl, true, false, some, length, arith}
use substrate_stablecoin.PriorityQueue.{pop, is_empty}
use substrate_stablecoin.Stablecoin.Types.{Env, Bid, State}
use substrate_stablecoin.Stablecoin.Monad.{ok}
use substrate_stablecoin.Stablecoin.Contract.{Contraction, take_bid, round, goes_on, contract_loop}

module _ (env : Env) where
  pub round-some :
      (c : Contraction) (bid : Bid) (s : State)
      → (pop c.bids).0 ≡ some bid
      → let (c', s') = take_bid env (record c { bids = (pop c.bids).1 }) bid s in
        round env c s ≡ (ok c', s')
  unfolding round
  round-some c bid s e = rw (e, round)

  pub none_remains : (c : Contraction) → c.remaining ≡ 0 → goes_on c ≡ false
  unfolding goes_on
  none_remains c e = ground arith

  pub goes_on-bids : (c : Contraction) → goes_on c ≡ true → 0 < length c.bids
  unfolding goes_on is_empty
  goes_on-bids c e = ground arith

  -- Once the test fails the loop returns, with any fuel.
  pub loop-stops :
      (fuel : ℕ) (c : Contraction) (s : State)
      → 0 < fuel
      → goes_on c ≡ false
      → contract_loop env fuel c s ≡ (ok c, s)
  unfolding contract_loop
  loop-stops zero c s f stop = absurd (omega arith)
  loop-stops (suc fuel) c s f stop = rw (stop, contract_loop)

  pub loop-goes_on :
      (fuel : ℕ) (c c' : Contraction) (s s' : State)
      → goes_on c ≡ true
      → round env c s ≡ (ok c', s')
      → contract_loop env (suc fuel) c s ≡ contract_loop env fuel c' s'
  unfolding contract_loop
  loop-goes_on fuel c c' s s' on e = rw (on, contract_loop) (rw e refl)
