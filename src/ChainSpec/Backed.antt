-- ===== src/ChainSpec/Backed.antt =====
-- The supply of the chains that the built-in specifications start, and the coins that back it.
use substrate_stablecoin.Prelude.{
  ap, ℕ, ◌+◌, ◌*◌, ◌≤◌, ◌<◌, ◌≡◌, inl, inr, Bool, length, arith, u64_mod,
}
use substrate_stablecoin.Stablecoin.Types.{Crates}
use substrate_stablecoin.Stablecoin.Bids.Escrow.{escrow, held}
use substrate_stablecoin.Stablecoin.Bids.Remove.{RatioLaws, PerbillLaws}
use substrate_stablecoin.Stablecoin.Block.Change.{FixedLaws}
use substrate_stablecoin.Stablecoin.HandOut.Exact.{OneShareEach}
use substrate_stablecoin.Stablecoin.Genesis.{build_cases}
use substrate_stablecoin.Stablecoin.Sound.Genesis.{build-bond_bids}
use substrate_stablecoin.Runtime.Config.{runtime_env}
use substrate_stablecoin.Runtime.Backing.{Blocks, Blocks-IsBacked}
use substrate_stablecoin.ChainSpec.{Alternative, Keys, load}
use substrate_stablecoin.ChainSpec.Endowed.{
  endowed, one_share_each-OneShareEach, endowed-length, shareholders-eq,
}
use substrate_stablecoin.ChainSpec.Start.{empty, first_chain, load-shares, load-IsSound}

load-OneShareEach :
    (keys : Keys) (alternative : Alternative)
    → let shareholders = (load keys alternative).genesis.shareholders in
      OneShareEach shareholders × (length shareholders < u64_mod)
load-OneShareEach keys alternative =
    let accounts = endowed keys alternative in
    let (counted, _, few) = endowed-length keys alternative in
    rw (shareholders-eq keys alternative)
      (one_share_each-OneShareEach accounts, omega (arith, counted, few))

module _ (crates : Crates) where
  -- On the first chain there are as many coins as the supply says.
  pub first_chain-held :
      (keys : Keys) (alternative : Alternative)
      → held (runtime_env crates) (first_chain crates (load keys alternative)).stablecoin
        ≡ 1000 * 1_000_000
  unfolding first_chain
  first_chain-held keys alternative =
      let env = runtime_env crates in
      let shareholders = (load keys alternative).genesis.shareholders in
      let (one, few) = load-OneShareEach keys alternative in
      let (some_one, ne) = load-shares crates keys alternative in
      let bids = build-bond_bids env shareholders empty (omega arith) (omega arith) some_one ne in
      elim (build_cases env shareholders empty one few (omega arith) (omega arith)) [
        | inl (_, inl low, _) ↦ absurd (omega arith)
        | inl (_, inr none, _) ↦ absurd (omega arith)
        | inr (_, _, _, _, coins, _) ↦ omega (arith, coins, ap (escrow env) bids)
      ]

  -- Let the crates compute as documented. Then on every chain that blocks have led to from the genesis
  -- of a built-in specification, if nobody in them sends coins to himself and each starts with room
  -- for the coins of an expansion, the supply is at most the coins in accounts and in escrow and one
  -- coin for each block, and these coins fit a `u64`.
  pub first_chain-IsBacked :
      (keys : Keys) (alternative : Alternative) (logs : Bool) {k : ℕ} {c : _}
      → RatioLaws crates
      → PerbillLaws crates
      → FixedLaws crates
      → Blocks (runtime_env crates) logs (first_chain crates (load keys alternative)) k c
      → let env = runtime_env crates in
        (c.stablecoin.coin_supply ≤ held env c.stablecoin + k) × (held env c.stablecoin < u64_mod)
  unfolding first_chain
  first_chain-IsBacked keys alternative logs ratio perbill fixed l =
      let (_, sound, supply, shares) = load-IsSound crates keys alternative in
      let (one, few) = load-OneShareEach keys alternative in
      let (some_one, _) = load-shares crates keys alternative in
      let coins = first_chain-held keys alternative in
      Blocks-IsBacked (runtime_env crates) logs (first_chain crates (load keys alternative)) ratio
        perbill fixed (omega arith) (omega arith) (omega arith) sound (rw shares one)
        (rw shares some_one) (rw shares few) (omega (arith, coins, supply)) (omega (arith, coins)) l
