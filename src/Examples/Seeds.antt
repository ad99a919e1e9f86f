-- ===== src/Examples/Seeds.antt =====
-- Keys from seeds, and unsigned calls, at concrete inputs.
use mathlib.Core.Option.{some-injective}
use substrate_stablecoin.Prelude.{
  ℕ, ◌≡◌, ◌≢◌, ◌/◌, refl, true, some, All, length, arith, tail, Bytes, ascii,
}
use substrate_stablecoin.Stablecoin.Balances.{get_balance}
use substrate_stablecoin.Stablecoin.HandOut.Each.{AboutEach}
use substrate_stablecoin.PriceFetch.{converts}
use substrate_stablecoin.Runtime.{Call, record_price}
use substrate_stablecoin.Runtime.Config.{runtime_env}
use substrate_stablecoin.Runtime.Unsigned.{
  Agrees, validate_transaction, validate_transaction-Agrees,
}
use substrate_stablecoin.ChainSpec.{development, load, endowed_seeds}
use substrate_stablecoin.ChainSpec.Start.{first_chain}
use substrate_stablecoin.ChainSpec.Seeds.{
  Pairs, Keyring, KeyringLaws, keys_of, genesis_from_seeds, get_from_seed, get_account_id_from_seed,
}
use substrate_stablecoin.ChainSpec.Endowed.{endowed, initial_coins, first_chain-AboutEach}
use substrate_stablecoin.Examples.Crates.{plain}
use substrate_stablecoin.Examples.Chain.{account}
use substrate_stablecoin.Examples.Fetch.{lengths}
use substrate_stablecoin.Examples.Workers.{eth, start}

-- Each string is a key pair, with its letters after the junction as the key.
abbrev strings : Pairs
strings = record {
  Pair = Bytes;
  from_string = λ path. some path;
  public = λ path. account (tail (tail path));
}

abbrev ring : Keyring
ring = record { sr25519 = strings; aura = strings; grandpa = strings; into_account = λ key. key }

differ : (a b : ℕ) → a ≢ b → some a ≢ some b
differ a b ne e = ne (some-injective a b e)

ring-KeyringLaws : KeyringLaws ring development
unfolding get_from_seed get_account_id_from_seed
ring-KeyringLaws = record {
  account = ((λ e. cc e), ((λ e. cc e), ((λ e. cc e), ((λ e. cc e), tt))));
  aura = ((λ e. cc e), tt);
  grandpa = ((λ e. cc e), tt);
  different = (
    (
      differ _ _ (λ e. omega (arith, e)),
      (differ _ _ (λ e. omega (arith, e)), (differ _ _ (λ e. omega (arith, e)), tt)),
    ),
    (
      (differ _ _ (λ e. omega (arith, e)), (differ _ _ (λ e. omega (arith, e)), tt)),
      ((differ _ _ (λ e. omega (arith, e)), tt), (tt, tt)),
    ),
  );
}

first_chain-AboutEach_example :
    let spec = load (keys_of ring) development in
    let s = (first_chain plain spec).stablecoin in
    (genesis_from_seeds ring development ≡ some spec.genesis)
    × All
        (λ seed.
          AboutEach
            (initial_coins / length (endowed_seeds development))
            (get_balance ((keys_of ring).account seed) s))
        (endowed_seeds development)
    × ((t : ℕ)
        → All (λ account. t ≢ account) (endowed (keys_of ring) development)
        → get_balance t s ≡ 0)
first_chain-AboutEach_example = first_chain-AboutEach plain ring development ring-KeyringLaws

-- A price that nobody signs, from a worker.
abbrev workers : Call
workers = record_price eth (ascii "coincap") 30_000

validate_transaction-Agrees_example :
    Agrees
      (runtime_env plain)
      true
      workers
      start
      (validate_transaction lengths 4 (ascii "https://api.coincap.io") workers)
unfolding converts
validate_transaction-Agrees_example =
    validate_transaction-Agrees (runtime_env plain) true lengths 4 (ascii "https://api.coincap.io")
      workers start (refl, refl)
