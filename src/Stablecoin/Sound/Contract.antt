-- ===== src/Stablecoin/Sound/Contract.antt =====
-- A contraction keeps a sound state, and ends, whatever the crates' arithmetic answers.
pub mod Effect
use native.Mathlib.Decide.{dec_lt}
use substrate_stablecoin.Prelude.{
  ap, ℕ, zero, suc, ◌+◌, ◌≤◌, ◌<◌, ◌≡◌, ◌∙◌, refl, ◌⊎◌, inl, inr, true, false, Option, none, some,
  List, [], ◌∷◌, All, length, arith, Bool-cases, ltb, leb,
}
use substrate_stablecoin.Deque
use substrate_stablecoin.Deque.{Deque}
use substrate_stablecoin.Deque.Refine.{push_back-IsValid}
use substrate_stablecoin.PriorityQueue.{push, pop}
use substrate_stablecoin.PriorityQueue.Laws.{pop-length, pop-none}
use substrate_stablecoin.Stablecoin.Types.{
  Env, Bid, BidError, Bond, State, bond_index_mod, default_bond,
}
use substrate_stablecoin.Stablecoin.Monad.{ok}
use substrate_stablecoin.Stablecoin.Bids.{bid_key, payment, remove_coins}
use substrate_stablecoin.Stablecoin.Bids.Queue.{
  IsQueue, IsPriced, push-IsQueue, pop-IsQueue, popped-IsPriced,
}
use substrate_stablecoin.Stablecoin.Bids.Remove.{remove_coins_inv}
use substrate_stablecoin.Stablecoin.Frame.{
  Frame, Frame-refl, Frame-trans, refund_bid-Frame, refund_evicted-Frame,
}
use substrate_stablecoin.Stablecoin.Contract.{
  Contraction, convert, take_bid, round, goes_on, contract_loop, emit_bonds, push_bonds, settle,
  contract_supply,
}
use substrate_stablecoin.Stablecoin.Contract.Rounds.{
  round-some, loop-stops, loop-goes_on, none_remains, goes_on-bids,
}
use substrate_stablecoin.Stablecoin.Contract.Supply.{contract_supply-refuses, contract_supply-runs}
use substrate_stablecoin.Stablecoin.Expand.Payment.{BondsValid}
use substrate_stablecoin.Stablecoin.Sound.{IsSound, HasEnded}

-- What a round or the loop keeps, from a state `s` with `r` remaining.
pub record Keeps (env : Env) (r : ℕ) (s : State) (c' : Contraction) (s' : State) : Type 0 where
  pub less : c'.remaining ≤ r
  pub queue : IsQueue env c'.bids
  pub frame : Frame s s'

module _ (env : Env) where
  convert-Keeps :
      (c : Contraction) (bid : Bid) (s : State) (answer : BidError ⊎ (ℕ × Bid))
      → remove_coins env bid c.remaining ≡ answer
      → IsQueue env c.bids
      → IsPriced env bid
      → let (c', s') = convert env c bid answer s in
        Keeps env c.remaining s c' s' × ((c'.remaining ≡ 0) ⊎ (length c'.bids ≡ length c.bids))
  unfolding convert
  convert-Keeps c bid s (inl error) e q p =
      (record { less = omega arith; queue = q; frame = refund_bid-Frame env bid s }, inr refl)
  convert-Keeps c bid s (inr (removed, rest)) e q p =
      let (_, _, same) = remove_coins_inv env bid rest c.remaining removed e in
      let price : rest.price ≡ bid.price = ap (λ (b : Bid). b.price) same in
      let priced : IsPriced env rest = record {
        above_minimum = rw price p.above_minimum;
        at_most_one = rw price p.at_most_one;
      } in
      let evicted = (push bid_key env.maximum_bids c.bids rest).0 in
      elim (Bool-cases (ltb 0 rest.quantity)) [
        | inl more ↦
            rw (more, convert)
              (
                record {
                  less = omega arith;
                  queue = push-IsQueue env c.bids rest q priced;
                  frame = (refund_evicted-Frame env evicted s).0;
                },
                inl refl,
              )
        | inr none_left ↦
            rw (none_left, convert)
              (record { less = omega arith; queue = q; frame = Frame-refl s }, inl refl)
      ]

  take_bid-Keeps :
      (c : Contraction) (bid : Bid) (s : State)
      → IsQueue env c.bids
      → IsPriced env bid
      → let (c', s') = take_bid env c bid s in
        Keeps env c.remaining s c' s' × ((c'.remaining ≡ 0) ⊎ (length c'.bids ≡ length c.bids))
  unfolding take_bid
  take_bid-Keeps c bid s q p = elim (Bool-cases (leb c.remaining (payment env bid))) [
    | inl e ↦ rw (e, take_bid) (convert-Keeps c bid s (remove_coins env bid c.remaining) refl q p)
    | inr e ↦
        rw (e, take_bid) (record { less = omega arith; queue = q; frame = Frame-refl s }, inr refl)
  ]

  -- A round, on what the queue gives up; a queue with bids gives one up.
  pub round_on :
      (c : Contraction) (s : State) (out : Option Bid)
      → (pop c.bids).0 ≡ out
      → goes_on c ≡ true
      → IsQueue env c.bids
      → (c' : Contraction) × (s' : State) × (round env c s ≡ (ok c', s'))
        × Keeps env c.remaining s c' s'
        × ((c'.remaining ≡ 0) ⊎ (suc (length c'.bids) ≡ length c.bids))
  unfolding goes_on
  round_on c s none e on q = absurd (ground (arith, pop-none c.bids e))
  round_on c s (some bid) e on q =
      let popped = record c { bids = (pop c.bids).1 } in
      let counted = pop-length c.bids in
      let shorter : suc (length (pop c.bids).1) ≡ length c.bids = omega (arith, rw e at counted) in
      let priced : All (IsPriced env) (bid ∷ []) = rw e at (popped-IsPriced env c.bids q) in
      let (keeps, ends) = take_bid-Keeps popped bid s (pop-IsQueue env c.bids q) priced.0 in
      (
        (take_bid env popped bid s).0,
        (take_bid env popped bid s).1,
        round-some env c bid s e,
        keeps,
        omega (arith, ends),
      )

  Keeps-trans :
      {r : ℕ} {s s' s'' : State} {c' c'' : Contraction}
      → Keeps env r s c' s'
      → Keeps env c'.remaining s' c'' s''
      → Keeps env r s c'' s''
  Keeps-trans k l = record {
    less = omega (arith, k.less, l.less);
    queue = l.queue;
    frame = Frame-trans k.frame l.frame;
  }

  -- With one more unit of fuel than there are bids the loop of `contract_supply` ends, from any
  -- well-formed queue and whatever the crates' arithmetic answers: then nothing remains or no bid is
  -- left, no more remains than before, the queue is well formed, and the shares, the supply, the stored
  -- bonds and the block number are as before.
  pub contract_loop-Keeps :
      (fuel : ℕ) (c : Contraction) (s : State)
      → length c.bids < fuel
      → IsQueue env c.bids
      → (c' : Contraction) × (s' : State) × (contract_loop env fuel c s ≡ (ok c', s'))
        × Keeps env c.remaining s c' s'
        × (goes_on c' ≡ false)
  contract_loop-Keeps zero c s f q = absurd (omega arith)
  contract_loop-Keeps (suc fuel) c s f q = elim (Bool-cases (goes_on c)) [
    | inr stop ↦ (
      c,
      s,
      loop-stops env (suc fuel) c s (omega arith) stop,
      record { less = omega arith; queue = q; frame = Frame-refl s },
      stop,
    )
    | inl on ↦
        let (c', s', e, keeps, ends) = round_on c s (pop c.bids).0 refl on q in
        let some_bid = goes_on-bids env c on in
        let again = loop-goes_on env fuel c c' s s' on e in
        elim ends [
          | inl z ↦
              let stop = none_remains env c' z in
              (c', s', again ∙ loop-stops env fuel c' s' (omega arith) stop, keeps, stop)
          | inr shorter ↦
              let (c'', s'', e', keeps', stop) =
                contract_loop-Keeps fuel c' s' (omega arith) keeps.queue in
              (c'', s'', again ∙ e', Keeps-trans keeps keeps', stop)
        ]
  ]

  pub balance_free-emit_bonds : (bonds : List Bond) (s : State) → Frame s (emit_bonds bonds s)
  unfolding emit_bonds
  balance_free-emit_bonds [] s = Frame-refl s
  balance_free-emit_bonds (bond ∷ bonds) s =
      let f = balance_free-emit_bonds bonds _ in
      record {
        same_shares = f.same_shares;
        same_supply = f.same_supply;
        same_bonds = f.same_bonds;
        same_block = f.same_block;
      }

pub push_bonds-BondsValid :
    (q : Deque Bond) (bonds : List Bond) → BondsValid q → BondsValid (push_bonds q bonds)
unfolding push_bonds
push_bonds-BondsValid q [] v = v
push_bonds-BondsValid q (bond ∷ bonds) v =
    push_bonds-BondsValid (Deque.push_back bond_index_mod q bond) bonds
      (push_back-IsValid bond_index_mod default_bond q bond v)

pub new-commit : {A : Type 0} (q : Deque A) → Deque.new (Deque.commit q) ≡ q
unfolding Deque.new Deque.commit
new-commit q = refl

settle-IsSound :
    (env : Env) (coin_supply amount : ℕ) (c : Contraction) (s s' : State)
    → IsSound env s
    → s.coin_supply ≡ coin_supply
    → amount + env.minimum_supply ≤ coin_supply
    → Keeps env amount s c s'
    → IsSound env (settle coin_supply amount c s')
unfolding settle
settle-IsSound env coin_supply amount c s s' h e enough k =
    let f = balance_free-emit_bonds env c.bonds s' in
    let bonds : BondsValid (Deque.new s'.bonds) = rw k.frame.same_bonds h.bonds in
    record {
      queue = k.queue;
      bonds = rw new-commit (push_bonds-BondsValid (Deque.new s'.bonds) c.bonds bonds);
      shares = rw (f.same_shares, k.frame.same_shares) h.shares;
      fits = omega (arith, h.fits, e);
      minimum = omega (arith, k.less);
    }

pub contract_supply-IsSound :
    (env : Env) (amount : ℕ) (s : State)
    → IsSound env s
    → let out = contract_supply env s.coin_supply amount s in HasEnded out × IsSound env out.1
contract_supply-IsSound env amount s h = elim (dec_lt s.coin_supply (amount + env.minimum_supply)) [
  | yes low ↦ rw (contract_supply-refuses env s.coin_supply amount s low) (tt, h)
  | no enough ↦
      let start : Contraction = record { bids = s.bond_bids; remaining = amount; bonds = [] } in
      let (c, s', e, keeps, _) =
        contract_loop-Keeps env (suc (length s.bond_bids)) start s (omega arith) h.queue in
      rw (contract_supply-runs env s.coin_supply amount s s' c (omega arith) e)
        (tt, settle-IsSound env s.coin_supply amount c s s' h refl (omega arith) keeps)
]
