-- ===== src/Stablecoin/Contract/Loop.antt =====
-- The loop of `contract_supply`: it ends, and takes what its rounds take.
use substrate_stablecoin.Prelude.{
  ℕ, zero, suc, ◌<◌, ◌≡◌, ◌∙◌, refl, inl, inr, false, length, u64_mod, arith, Bool-cases,
}
use substrate_stablecoin.Stablecoin.Types.{Env, State}
use substrate_stablecoin.Stablecoin.Monad.{ok}
use substrate_stablecoin.Stablecoin.Bids.Queue.{IsQueue}
use substrate_stablecoin.Stablecoin.Bids.Remove.{RatioLaws, PerbillLaws}
use substrate_stablecoin.Stablecoin.Frame.{Frame-refl, Frame-trans}
use substrate_stablecoin.Stablecoin.Contract.Rounds.{
  none_remains, goes_on-bids, loop-stops, loop-goes_on,
}
use substrate_stablecoin.Stablecoin.Contract.{Contraction, goes_on, contract_loop}
use substrate_stablecoin.Stablecoin.Contract.Taking.{worth, Exact, Took, round-Took}

module _ (env : Env) (ratio : RatioLaws env.crates) (perbill : PerbillLaws env.crates) where
  -- An exact round, and what follows it.
  Took-trans :
      {w r : ℕ} {s s' s'' : State} {c' c'' : Contraction}
      → Took env ratio perbill w r s c' s'
      → Exact env ratio perbill w r c' s'
      → Took env ratio perbill (worth env ratio perbill c' s') c'.remaining s' c'' s''
      → Took env ratio perbill w r s c'' s''
  Took-trans t exact u = record {
    less = omega (arith, t.less, u.less);
    coins = elim u.coins [
      | inl e ↦ inl (omega (arith, e, exact, t.less))
      | inr (z, up, down) ↦ inr (z, omega (arith, exact, t.less), omega (arith, exact, t.less))
    ];
    queue = u.queue;
    frame = Frame-trans t.frame u.frame;
    same_bids = u.same_bids ∙ t.same_bids;
  }

  -- Where the loop ends from: the result, and what it has taken.
  abbrev pub Ends : ℕ → Contraction → State → Type 0
  Ends fuel c s =
      (c' : Contraction) × (s' : State) × (contract_loop env fuel c s ≡ (ok c', s'))
      × Took env ratio perbill (worth env ratio perbill c s) c.remaining s c' s'
      × (goes_on c' ≡ false)

  -- With one more unit of fuel than there are bids the loop ends: nothing remains to be taken, or no
  -- bid is left.
  pub contract_loop-Ends :
      (fuel : ℕ) (c : Contraction) (s : State)
      → length c.bids < fuel
      → IsQueue env c.bids
      → worth env ratio perbill c s < u64_mod
      → Ends fuel c s
  contract_loop-Ends zero c s f q small = absurd (omega arith)
  contract_loop-Ends (suc fuel) c s f q small = elim (Bool-cases (goes_on c)) [
    | inr stop ↦ (
      c,
      s,
      loop-stops env (suc fuel) c s (omega arith) stop,
      record {
        less = omega arith;
        coins = inl refl;
        queue = q;
        frame = Frame-refl s;
        same_bids = refl;
      },
      stop,
    )
    | inl on ↦
        let (c', s', e, took, ends) = round-Took env ratio perbill c s on q small in
        let some_bid = goes_on-bids env c on in
        let stopped : c'.remaining ≡ 0 → Ends (suc fuel) c s = λ z. (
          c',
          s',
          loop-goes_on env fuel c c' s s' on e
              ∙ loop-stops env fuel c' s' (omega arith) (none_remains env c' z),
          took,
          none_remains env c' z,
        ) in
        elim took.coins [
          | inr (z, _, _) ↦ stopped z
          | inl exact ↦ elim ends [
            | inl z ↦ stopped z
            | inr shorter ↦
                let (c'', s'', e', took', stop) =
                  contract_loop-Ends fuel c' s' (omega arith) took.queue
                    (omega (arith, took.less)) in
                (
                  c'',
                  s'',
                  loop-goes_on env fuel c c' s s' on e ∙ e',
                  Took-trans took exact took',
                  stop,
                )
          ]
        ]
  ]
