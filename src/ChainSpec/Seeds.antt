-- ===== src/ChainSpec/Seeds.antt =====
-- node/src/chain_spec.rs: keys from seeds. sp_core's derivation of a key pair from a string is a parameter; the
-- `expect`s panic, which is `none`.
use substrate_stablecoin.Prelude.{
  ℕ, ◌≡◌, ◌≢◌, ◌∙◌, ap, sym, refl, Option, none, some, List, [], ◌∷◌, ◌++◌, map, All, Distinct,
  Bytes, ascii,
}
use substrate_stablecoin.ChainSpec.{
  Alternative, development, local_testnet, Keys, GenesisConfig, testnet_genesis, authority_seeds,
  endowed_seeds, genesis_of,
}

-- The key pairs of one kind: `Pair::from_string` without a password, and `public`.
pub record Pairs : Type 1 where
  pub Pair : Type 0
  pub from_string : Bytes → Option Pair
  pub public : Pair → ℕ

-- The kinds that the specifications use, and `into_account`.
pub record Keyring : Type 1 where
  pub sr25519 : Pairs
  pub aura : Pairs
  pub grandpa : Pairs
  pub into_account : ℕ → ℕ

abbrev or_expect : {A B : Type 0} → Option A → (A → Option B) → Option B
or_expect none f = none
or_expect (some a) f = f a

unfoldable pub get_from_seed : Pairs → Bytes → Option ℕ
get_from_seed pairs seed =
    or_expect (pairs.from_string (ascii "//" ++ seed)) (λ pair. some (pairs.public pair))

unfoldable pub get_account_id_from_seed : Keyring → Bytes → Option ℕ
unfolding get_from_seed
get_account_id_from_seed ring seed =
    or_expect (get_from_seed ring.sr25519 seed) (λ key. some (ring.into_account key))

unfoldable pub get_authority_keys_from_seed : Keyring → Bytes → Option (ℕ × ℕ)
unfolding get_from_seed
get_authority_keys_from_seed ring s =
    or_expect (get_from_seed ring.aura s)
      (λ aura. or_expect (get_from_seed ring.grandpa s) (λ grandpa. some (aura, grandpa)))

-- The elements of a `vec!`, in their order.
abbrev pub each_or_expect : {A B : Type 0} → (A → Option B) → List A → Option (List B)
each_or_expect f [] = some []
each_or_expect f (x ∷ xs) =
    or_expect (f x) (λ y. or_expect (each_or_expect f xs) (λ ys. some (y ∷ ys)))

-- The closure that `load` gives to `from_genesis`.
unfoldable pub genesis_from_seeds : Keyring → Alternative → Option GenesisConfig
unfolding get_account_id_from_seed get_authority_keys_from_seed testnet_genesis
genesis_from_seeds ring alternative =
    or_expect (each_or_expect (get_authority_keys_from_seed ring) (authority_seeds alternative))
      (λ authorities. or_expect (get_account_id_from_seed ring (ascii "Alice")) (λ root.
        or_expect (each_or_expect (get_account_id_from_seed ring) (endowed_seeds alternative))
          (λ endowed. some (testnet_genesis authorities root endowed))))

-- The derived keys as functions; zero where a seed yields none.
abbrev or_zero : Option ℕ → ℕ
or_zero none = 0
or_zero (some k) = k

unfoldable pub keys_of : Keyring → Keys
unfolding get_from_seed get_account_id_from_seed
keys_of ring = record {
  account = λ seed. or_zero (get_account_id_from_seed ring seed);
  aura = λ seed. or_zero (get_from_seed ring.aura seed);
  grandpa = λ seed. or_zero (get_from_seed ring.grandpa seed);
}

-- The paths that a specification names yield pairs, and different ones different accounts.
pub record KeyringLaws (ring : Keyring) (alternative : Alternative) : Type 0 where
  pub account : All (λ seed. get_account_id_from_seed ring seed ≢ none) (endowed_seeds alternative)
  pub aura : All (λ seed. get_from_seed ring.aura seed ≢ none) (authority_seeds alternative)
  pub grandpa : All (λ seed. get_from_seed ring.grandpa seed ≢ none) (authority_seeds alternative)
  pub different : Distinct (map (get_account_id_from_seed ring) (endowed_seeds alternative))

or_zero-some : (o : Option ℕ) → o ≢ none → o ≡ some (or_zero o)
or_zero-some none ne = absurd (ne refl)
or_zero-some (some k) ne = refl

each_or_expect-some :
    {A B : Type 0} (f : A → Option B) (g : A → B) (xs : List A)
    → All (λ x. f x ≡ some (g x)) xs
    → each_or_expect f xs ≡ some (map g xs)
each_or_expect-some f g [] h = refl
each_or_expect-some f g (x ∷ xs) h = rw (h.0, each_or_expect-some f g xs h.1) refl

module _ (ring : Keyring) where
  account-some :
      (seeds : List Bytes)
      → All (λ seed. get_account_id_from_seed ring seed ≢ none) seeds
      → All (λ seed. get_account_id_from_seed ring seed ≡ some ((keys_of ring).account seed)) seeds
  unfolding keys_of
  account-some [] h = tt
  account-some (seed ∷ seeds) h =
      (or_zero-some (get_account_id_from_seed ring seed) h.0, account-some seeds h.1)

  authority-some :
      (seeds : List Bytes)
      → All (λ seed. get_from_seed ring.aura seed ≢ none) seeds
      → All (λ seed. get_from_seed ring.grandpa seed ≢ none) seeds
      → All
          (λ seed.
            get_authority_keys_from_seed ring seed
            ≡ some ((keys_of ring).aura seed, (keys_of ring).grandpa seed))
          seeds
  unfolding keys_of get_authority_keys_from_seed
  authority-some [] h k = tt
  authority-some (seed ∷ seeds) h k = (
    rw
        (
          or_zero-some (get_from_seed ring.aura seed) h.0,
          or_zero-some (get_from_seed ring.grandpa seed) k.0,
        )
        refl,
    authority-some seeds h.1 k.1,
  )

  -- With the laws the closure does not panic, and builds the genesis of the derived keys.
  pub genesis_from_seeds-eq :
      (alternative : Alternative)
      → KeyringLaws ring alternative
      → genesis_from_seeds ring alternative ≡ some (genesis_of (keys_of ring) alternative)
  unfolding genesis_from_seeds genesis_of
  genesis_from_seeds-eq alternative laws =
      let endowed = account-some (endowed_seeds alternative) laws.account in
      let authorities = authority-some (authority_seeds alternative) laws.aura laws.grandpa in
      let root : get_account_id_from_seed ring (ascii "Alice")
          ≡ some ((keys_of ring).account (ascii "Alice")) =
        first_endowed alternative endowed in
      rw
        (
          each_or_expect-some (get_authority_keys_from_seed ring)
              (λ seed. ((keys_of ring).aura seed, (keys_of ring).grandpa seed))
              (authority_seeds alternative) authorities,
          root,
          each_or_expect-some (get_account_id_from_seed ring) (keys_of ring).account
              (endowed_seeds alternative) endowed,
        )
        refl
    where
      first_endowed :
          (alternative : Alternative)
          → All
              (λ seed. get_account_id_from_seed ring seed ≡ some ((keys_of ring).account seed))
              (endowed_seeds alternative)
          → get_account_id_from_seed ring (ascii "Alice")
            ≡ some ((keys_of ring).account (ascii "Alice"))
      first_endowed development h = h.0
      first_endowed local_testnet h = h.0

  -- And the endowed accounts are different ones.
  different-account :
      (seed : Bytes) (seeds : List Bytes)
      → get_account_id_from_seed ring seed ≡ some ((keys_of ring).account seed)
      → All (λ s. get_account_id_from_seed ring s ≡ some ((keys_of ring).account s)) seeds
      → All
          (λ o. get_account_id_from_seed ring seed ≢ o)
          (map (get_account_id_from_seed ring) seeds)
      → All (λ k. (keys_of ring).account seed ≢ k) (map (keys_of ring).account seeds)
  different-account seed [] e h d = tt
  different-account seed (s ∷ seeds) e h d =
      ((λ same. d.0 (e ∙ ap some same ∙ sym h.0)), different-account seed seeds e h.1 d.1)

  different-accounts :
      (seeds : List Bytes)
      → All (λ s. get_account_id_from_seed ring s ≡ some ((keys_of ring).account s)) seeds
      → Distinct (map (get_account_id_from_seed ring) seeds)
      → Distinct (map (keys_of ring).account seeds)
  different-accounts [] h d = tt
  different-accounts (seed ∷ seeds) h d =
      (different-account seed seeds h.0 h.1 d.0, different-accounts seeds h.1 d.1)

  pub endowed-Distinct :
      (alternative : Alternative)
      → KeyringLaws ring alternative
      → Distinct (map (keys_of ring).account (endowed_seeds alternative))
  endowed-Distinct alternative laws =
      let seeds = endowed_seeds alternative in
      different-accounts seeds (account-some seeds laws.account) laws.different
