-- ===== src/ChainSpec/Endowed.antt =====
-- What the accounts that a built-in specification endows own on the first chain.
use mathlib.Core.Path.{subst}
use native.Mathlib.Nat.{zero-add}
use substrate_stablecoin.Prelude.{
  ap, ℕ, ◌+◌, ◌*◌, ◌/◌, ◌<◌, ◌≡◌, ◌≢◌, ◌∙◌, refl, true, false, some, List, [], ◌∷◌, map, All,
  Distinct, length, arith, u64_mod, ltb, ◌==◌, Bytes,
}
use substrate_stablecoin.Stablecoin.Types
use substrate_stablecoin.Stablecoin.Types.{Crates, Env}
use substrate_stablecoin.Stablecoin.Ledger.{total}
use substrate_stablecoin.Stablecoin.Balances.{get_balance}
use substrate_stablecoin.Stablecoin.Balances.Payments.{paid_to}
use substrate_stablecoin.Stablecoin.HandOut.{hand_out_coins}
use substrate_stablecoin.Stablecoin.HandOut.Exact.{OneShareEach}
use substrate_stablecoin.Stablecoin.HandOut.Split.{even_split, hand_out_coins_splits}
use substrate_stablecoin.Stablecoin.HandOut.Each.{AboutEach, accounts_of, even_split-each}
use substrate_stablecoin.Stablecoin.Expand.Supply.{expect-ok}
use substrate_stablecoin.Stablecoin.Genesis.{build}
use substrate_stablecoin.Runtime.Config.{runtime_env}
use substrate_stablecoin.ChainSpec.{
  Alternative, development, local_testnet, Keys, load, endowed_seeds, genesis_of,
}
use substrate_stablecoin.ChainSpec.Start.{empty, first_chain}
use substrate_stablecoin.ChainSpec.Seeds.{
  Keyring, KeyringLaws, keys_of, genesis_from_seeds, genesis_from_seeds-eq, endowed-Distinct,
}

-- A genesis pays the even split of the initial supply.
build_splits :
    (env : Env) (shareholders : List (ℕ × ℕ)) (t : ℕ) (s : Types.State)
    → env.minimum_supply < env.initial_supply
    → OneShareEach shareholders
    → 0 < length shareholders
    → length shareholders < u64_mod
    → total s.balance + env.initial_supply < u64_mod
    → s.coin_supply + env.initial_supply < u64_mod
    → get_balance t (build env shareholders s).1
      ≡ get_balance t s + paid_to t (even_split env.initial_supply shareholders)
unfolding build get_balance
build_splits env shareholders t s above one some_one few small fits =
    let b : ltb env.minimum_supply env.initial_supply ≡ true = ground arith in
    let e : (length shareholders == 0) ≡ false = ground arith in
    let (done, gained) =
      hand_out_coins_splits shareholders env.initial_supply s.coin_supply t s one some_one few small
        fits in
    rw (b, e, expect-ok (hand_out_coins shareholders env.initial_supply s.coin_supply s) done)
      gained

-- The endowed accounts of keys, and one share for each.
abbrev pub endowed : Keys → Alternative → List ℕ
endowed keys alternative = map keys.account (endowed_seeds alternative)

abbrev pub one_share_each : List ℕ → List (ℕ × ℕ)
one_share_each = map (λ account. (account, 1))

pub one_share_each-OneShareEach : (accounts : List ℕ) → OneShareEach (one_share_each accounts)
one_share_each-OneShareEach [] = tt
one_share_each-OneShareEach (account ∷ accounts) = (refl, one_share_each-OneShareEach accounts)

accounts_of-one_share_each : (accounts : List ℕ) → accounts_of (one_share_each accounts) ≡ accounts
accounts_of-one_share_each [] = refl
accounts_of-one_share_each (account ∷ accounts) =
    ap (λ ks. account ∷ ks) (accounts_of-one_share_each accounts)

pub endowed-length :
    (keys : Keys) (alternative : Alternative)
    → (length (one_share_each (endowed keys alternative)) ≡ length (endowed_seeds alternative))
      × (0 < length (endowed_seeds alternative))
      × (length (endowed_seeds alternative) < u64_mod)
endowed-length keys development = (refl, omega arith, omega arith)
endowed-length keys local_testnet = (refl, omega arith, omega arith)

pub shareholders-eq :
    (keys : Keys) (alternative : Alternative)
    → (load keys alternative).genesis.shareholders ≡ one_share_each (endowed keys alternative)
unfolding load genesis_of
shareholders-eq keys development = refl
shareholders-eq keys local_testnet = refl

genesis_load :
    (keys : Keys) (alternative : Alternative)
    → genesis_of keys alternative ≡ (load keys alternative).genesis
unfolding load
genesis_load keys development = refl
genesis_load keys local_testnet = refl

-- The initial supply.
abbrev pub initial_coins : ℕ
initial_coins = 1000 * 1_000_000

first_chain-splits :
    (crates : Crates) (keys : Keys) (alternative : Alternative) (t : ℕ)
    → get_balance t (first_chain crates (load keys alternative)).stablecoin
      ≡ paid_to t (even_split initial_coins (one_share_each (endowed keys alternative)))
unfolding first_chain get_balance
first_chain-splits crates keys alternative t =
    let env = runtime_env crates in
    let shareholders = one_share_each (endowed keys alternative) in
    let (counted, some_one, few) = endowed-length keys alternative in
    ap (λ shares. get_balance t (build env shares empty).1) (shareholders-eq keys alternative)
    ∙ build_splits env shareholders t empty (omega arith)
        (one_share_each-OneShareEach (endowed keys alternative)) (omega (arith, counted, some_one))
        (omega (arith, counted, few)) (omega arith) (omega arith)
    ∙ zero-add (paid_to t (even_split initial_coins shareholders))

all_balances :
    (each : ℕ) (keys : Keys) (paid balance : ℕ → ℕ) (seeds : List Bytes)
    → ((t : ℕ) → balance t ≡ paid t)
    → All (λ t. AboutEach each (paid t)) (map keys.account seeds)
    → All (λ seed. AboutEach each (balance (keys.account seed))) seeds
all_balances each keys paid balance [] same h = tt
all_balances each keys paid balance (seed ∷ seeds) same h =
    let here = same (keys.account seed) in
    (omega (arith, here, h.0), all_balances each keys paid balance seeds same h.1)

-- If the paths that a built-in specification names yield key pairs, and different ones different accounts,
-- then the closure of the genesis does not panic, and builds the genesis that `load` is modelled by; on
-- the first chain each endowed account owns a thousand base units divided by the number of the endowed
-- accounts, or one coin more, and any other account owns nothing.
pub first_chain-AboutEach :
    (crates : Crates) (ring : Keyring) (alternative : Alternative)
    → KeyringLaws ring alternative
    → let keys = keys_of ring in
      let spec = load keys alternative in
      let s = (first_chain crates spec).stablecoin in
      (genesis_from_seeds ring alternative ≡ some spec.genesis)
      × All
          (λ seed.
            AboutEach
              (initial_coins / length (endowed_seeds alternative))
              (get_balance (keys.account seed) s))
          (endowed_seeds alternative)
      × ((t : ℕ) → All (λ account. t ≢ account) (endowed keys alternative) → get_balance t s ≡ 0)
first_chain-AboutEach crates ring alternative laws =
    let keys = keys_of ring in
    let accounts = endowed keys alternative in
    let shareholders = one_share_each accounts in
    let s = (first_chain crates (load keys alternative)).stablecoin in
    let named = accounts_of-one_share_each accounts in
    let (counted, _, _) = endowed-length keys alternative in
    let distinct : Distinct (accounts_of shareholders) =
      rw named (endowed-Distinct ring alternative laws) in
    let (each, others) = even_split-each initial_coins shareholders distinct in
    let paid : ℕ → ℕ = λ t. paid_to t (even_split initial_coins shareholders) in
    let split = first_chain-splits crates keys alternative in
    (
      genesis_from_seeds-eq ring alternative laws ∙ ap some (genesis_load keys alternative),
      subst
          (λ n.
            All (λ seed. AboutEach (initial_coins / n) (get_balance (keys.account seed) s))
              (endowed_seeds alternative))
          counted
          (all_balances (initial_coins / length shareholders) keys paid (λ t. get_balance t s)
            (endowed_seeds alternative) split
            (subst (All (λ t. AboutEach (initial_coins / length shareholders) (paid t))) named
              each)),
      λ t outside. split t ∙ others t (rw named outside),
    )
