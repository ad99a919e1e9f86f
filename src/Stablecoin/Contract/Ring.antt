-- ===== src/Stablecoin/Contract/Ring.antt =====
-- `contract_supply` as a whole: the bonds that it adds to the stored ring.
use substrate_stablecoin.Prelude.{
  ap, ℕ, suc, ◌+◌, ◌≤◌, ◌<◌, ◌≡◌, ◌∙◌, sym, refl, inl, inr, List, [], ◌∷◌, ◌++◌, append_assoc,
  append-nil, All, length, length-append, arith,
}
use substrate_stablecoin.Deque
use substrate_stablecoin.Deque.{Deque}
use substrate_stablecoin.Deque.Refine.{push_back-IsValid}
use substrate_stablecoin.Deque.RoundTrip.{push_back-append}
use substrate_stablecoin.Stablecoin.Types.{
  Env, Bond, State, bond_index_mod, default_bond, add_block,
}
use substrate_stablecoin.Stablecoin.Monad.{ok}
use substrate_stablecoin.Stablecoin.Bids.Queue.{IsQueue}
use substrate_stablecoin.Stablecoin.Bids.Remove.{RatioLaws, PerbillLaws}
use substrate_stablecoin.Stablecoin.Contract.{Contraction, push_bonds, settle, contract_supply}
use substrate_stablecoin.Stablecoin.Contract.Supply.{contract_supply-runs}
use substrate_stablecoin.Stablecoin.Contract.Issue.{Issued, payouts, contract_loop-Issued}
use substrate_stablecoin.Stablecoin.Expand.Payment.{BondsValid}
use substrate_stablecoin.Stablecoin.Expand.Schedule.{bonds_in}
use substrate_stablecoin.Stablecoin.Sound.Contract.{
  Keeps, contract_loop-Keeps, push_bonds-BondsValid, balance_free-emit_bonds,
}

-- A ring with room takes the bonds at its back, in their order.
bonds_in-push_bonds :
    (q : Deque Bond) (bonds : List Bond)
    → BondsValid q
    → length (bonds_in q) + length bonds < bond_index_mod
    → bonds_in (push_bonds q bonds) ≡ bonds_in q ++ bonds
unfolding push_bonds
bonds_in-push_bonds q [] v room = sym (append-nil (bonds_in q))
bonds_in-push_bonds q (bond ∷ bonds) v room =
    let pushed = Deque.push_back bond_index_mod q bond in
    let one = push_back-append bond_index_mod default_bond q bond v (omega arith) in
    let longer = ap length one ∙ length-append (bonds_in q) (bond ∷ []) in
    bonds_in-push_bonds pushed bonds (push_back-IsValid bond_index_mod default_bond q bond v)
      (omega (arith, longer))
    ∙ ap (λ bs. bs ++ bonds) one
    ∙ append_assoc (bonds_in q) (bond ∷ []) bonds

-- What a contraction adds to the ring, from `s` to `s'`.
pub record Adds (env : Env) (bonds : List Bond) (s s' : State) : Type 0 where
  pub appended : bonds_in (Deque.new s'.bonds) ≡ bonds_in (Deque.new s.bonds) ++ bonds
  pub expire : All (λ bond. bond.expiration ≡ add_block s.block_number env.expiration_period) bonds
  pub promised : s.coin_supply ≤ s'.coin_supply + payouts bonds
  pub at_most_bids : length bonds ≤ length s.bond_bids
  pub ring : BondsValid (Deque.new s'.bonds)
  pub same_shares : s'.shares ≡ s.shares

module _ (env : Env) (ratio : RatioLaws env.crates) (perbill : PerbillLaws env.crates) where
  settle-Adds :
      (amount : ℕ) (c : Contraction) (s s' : State)
      → amount + env.minimum_supply ≤ s.coin_supply
      → BondsValid (Deque.new s.bonds)
      → length (bonds_in (Deque.new s.bonds)) + length s.bond_bids < bond_index_mod
      → Keeps env amount s c s'
      → Issued env ratio perbill amount s.block_number (length s.bond_bids) c
      → Adds env c.bonds s (settle s.coin_supply amount c s')
  unfolding settle Deque.new Deque.commit
  settle-Adds amount c s s' enough v room k i =
      let few : length c.bonds ≤ length s.bond_bids = elim i.within [
        | inl w ↦ omega (arith, w)
        | inr (_, w) ↦ w
      ] in
      record {
        appended =
            rw k.frame.same_bonds (bonds_in-push_bonds (Deque.new s.bonds) c.bonds v (omega arith));
        expire = i.expire;
        promised = omega (arith, i.covers, k.less);
        at_most_bids = few;
        ring = push_bonds-BondsValid (Deque.new s'.bonds) c.bonds (rw k.frame.same_bonds v);
        same_shares = (balance_free-emit_bonds env c.bonds s').same_shares ∙ k.frame.same_shares;
      }

  -- Let the crates compute as documented, the queue and the stored bonds be well formed, the ring have a
  -- place for each bid, and the contraction leave the minimum supply. Then it ends well, and puts new
  -- bonds behind the stored ones, which stay: at most one for each bid, all of which expire one
  -- expiration period after the present block, and which together promise at least as many coins as the
  -- supply has fallen by. The ring stays valid and the shares stay.
  pub contract_supply-Adds :
      (amount : ℕ) (s : State)
      → IsQueue env s.bond_bids
      → BondsValid (Deque.new s.bonds)
      → length (bonds_in (Deque.new s.bonds)) + length s.bond_bids < bond_index_mod
      → amount + env.minimum_supply ≤ s.coin_supply
      → let (r, s') = contract_supply env s.coin_supply amount s in
        (r ≡ ok tt) × ((bonds : List Bond) × Adds env bonds s s')
  contract_supply-Adds amount s q v room enough =
      let start : Contraction = record { bids = s.bond_bids; remaining = amount; bonds = [] } in
      let fuel = suc (length s.bond_bids) in
      let (c, s', e, keeps, _) = contract_loop-Keeps env fuel start s (omega arith) q in
      let none_yet : Issued env ratio perbill amount s.block_number (length s.bond_bids) start =
        record { covers = omega arith; expire = tt; within = inl (omega arith) } in
      let issued =
        contract_loop-Issued env ratio perbill amount (length s.bond_bids) fuel start c s s'
          (omega arith) q e none_yet in
      rw (contract_supply-runs env s.coin_supply amount s s' c enough e)
        (refl, (c.bonds, settle-Adds amount c s s' enough v room keeps issued))
