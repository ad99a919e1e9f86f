-- ===== src/ChainSpec.antt =====
-- node/src/chain_spec.rs: the two chain specifications, and the storage that a chain starts with. Keys
-- are derived from seeds by sp_core, and a specification file is read by sc_service: both are parameters.
pub mod Start
pub mod Seeds
pub mod Endowed
pub mod Backed
use substrate_stablecoin.Prelude.{
  ℕ, ◌^◌, Option, none, some, List, [], ◌∷◌, map, Bytes, ascii, same_bytes, if◌then◌else◌, ◌||◌,
}

pub data Alternative : Type 0 where
  development local_testnet : Alternative

-- `get_account_id_from_seed`, and the two halves of `get_authority_keys_from_seed`.
pub record Keys : Type 0 where
  pub account : Bytes → ℕ
  pub aura : Bytes → ℕ
  pub grandpa : Bytes → ℕ

-- The parts of `GenesisConfig` that `testnet_genesis` computes; the code and the changes trie are fixed.
pub record GenesisConfig : Type 0 where
  pub balances : List (ℕ × ℕ)
  pub aura : List ℕ
  pub grandpa : List (ℕ × ℕ)
  pub sudo_key : ℕ
  pub shareholders : List (ℕ × ℕ)

pub record Spec : Type 0 where
  pub name : Bytes
  pub id : Bytes
  pub genesis : GenesisConfig

unfoldable pub testnet_genesis :
    (initial_authorities : List (ℕ × ℕ)) (root_key : ℕ) (endowed_accounts : List ℕ) → GenesisConfig
testnet_genesis initial_authorities root_key endowed_accounts = record {
  balances = map (λ k. (k, 2 ^ 60)) endowed_accounts;
  aura = map (λ x. x.0) initial_authorities;
  grandpa = map (λ x. (x.1, 1)) initial_authorities;
  sudo_key = root_key;
  shareholders = map (λ account. (account, 1)) endowed_accounts;
}

-- The seeds of the authorities and of the endowed accounts.
abbrev pub authority_seeds : Alternative → List Bytes
authority_seeds development = ascii "Alice" ∷ []
authority_seeds local_testnet = ascii "Alice" ∷ ascii "Bob" ∷ []

abbrev pub endowed_seeds : Alternative → List Bytes
endowed_seeds development =
    ascii "Alice" ∷ ascii "Bob" ∷ ascii "Alice//stash" ∷ ascii "Bob//stash" ∷ []
endowed_seeds local_testnet =
    ascii "Alice"
    ∷ ascii "Bob"
    ∷ ascii "Charlie"
    ∷ ascii "Dave"
    ∷ ascii "Eve"
    ∷ ascii "Ferdie"
    ∷ ascii "Alice//stash"
    ∷ ascii "Bob//stash"
    ∷ ascii "Charlie//stash"
    ∷ ascii "Dave//stash"
    ∷ ascii "Eve//stash"
    ∷ ascii "Ferdie//stash"
    ∷ []

module _ (keys : Keys) where
  unfoldable pub genesis_of : Alternative → GenesisConfig
  unfolding testnet_genesis
  genesis_of alternative =
      testnet_genesis
        (map (λ seed. (keys.aura seed, keys.grandpa seed)) (authority_seeds alternative))
        (keys.account (ascii "Alice")) (map keys.account (endowed_seeds alternative))

  -- `Alternative::load`.
  unfoldable pub load : Alternative → Spec
  unfolding genesis_of
  load development = record {
    name = ascii "Development";
    id = ascii "dev";
    genesis = genesis_of development;
  }
  load local_testnet = record {
    name = ascii "Local Testnet";
    id = ascii "local_testnet";
    genesis = genesis_of local_testnet;
  }

-- `Alternative::from`.
unfoldable pub from : Bytes → Option Alternative
from s =
    if same_bytes s (ascii "dev")
    then some development
    else if same_bytes s [] || same_bytes s (ascii "local")
    then some local_testnet
    else none

-- `from_json_file` may fail, which is `none`.
unfoldable pub load_spec : Keys → (from_json_file : Bytes → Option Spec) → Bytes → Option Spec
unfolding load from
load_spec keys from_json_file id = elim (from id) [
  | some spec ↦ some (load keys spec)
  | none ↦ from_json_file id
]
