-- ===== src/Examples/Workers.antt =====
-- The offchain worker in the runtime at concrete inputs: what a host's answers do to the chain, and a signed
-- transaction.
use substrate_stablecoin.Prelude.{
  ℕ, ◌+◌, ◌*◌, ◌≤◌, ◌≡◌, refl, true, none, some, [], ◌∷◌, ◌++◌, length, arith, Bytes, ascii,
  same_bytes, ◌==◌, if◌then◌else◌,
}
use substrate_stablecoin.Stablecoin.Sound.{IsSound}
use substrate_stablecoin.Price.{fetch_price}
use substrate_stablecoin.PriceFetch
use substrate_stablecoin.PriceFetch.{converts, aggregate_all}
use substrate_stablecoin.PriceFetch.Offchain.{
  Host, no_response, responded, fetch_json, price_from, submit_record, fetch_price_from_coincap,
}
use substrate_stablecoin.PriceFetch.Offchain
use substrate_stablecoin.Runtime.{Chain, signed, Call, set_price, get_offchain_price, execute_block}
use substrate_stablecoin.Runtime.Config.{runtime_env}
use substrate_stablecoin.Runtime.Worker.{worker_extrinsics}
use substrate_stablecoin.Runtime.Pipeline.{IsLive, host_price-between}
use substrate_stablecoin.Runtime.Transaction.{
  Signing, SigningLaws, SignedExtra, create_transaction, Carries, create_transaction-Carries,
  extra_at,
}
use substrate_stablecoin.ChainSpec.{development, load}
use substrate_stablecoin.ChainSpec.Start.{first_chain, load-IsSound}
use substrate_stablecoin.Examples.Crates.{plain}
use substrate_stablecoin.Examples.Chain.{keys}

abbrev pub eth : Bytes
eth = ascii "ETH"

-- One source answers, with a price that has as many units as its text has characters.
abbrev pub ether_only : Host
ether_only = record {
  Json = Bytes;
  Float = ℕ;
  request = λ url.
      if same_bytes url (ascii "https://api.coincap.io/v2/assets/ethereum")
      then responded 200 (ascii "***")
      else no_response;
  parse_json = λ body. some body;
  get_object = λ json. some ((ascii "priceUsd", json) ∷ []);
  get_number = λ json. some (length json);
  get_bytes = λ json. some json;
  parse_f64 = λ text. some (length text);
  scaled = λ v. v * 10_000;
  accepts_record = λ call. true;
  accepts_aggregate = λ call. true;
}

ether_only-IsLive : IsLive ether_only true (eth ∷ [])
unfolding Offchain.fetch_price fetch_json price_from submit_record fetch_price_from_coincap converts
ether_only-IsLive = record {
  answers = (λ e. cc e, (λ e. cc e, (λ e. cc e, (λ e. cc e, (λ e. cc e, (λ e. cc e, tt))))));
  accepts = λ call. refl;
  text = (refl, tt);
}

abbrev pub start : Chain
start = first_chain plain (load keys development)

-- The chain, and what the worker read of it before two more points came.
abbrev at_read : PriceFetch.State
at_read = record start.fetch { src = λ symbol. (1, 20_000) ∷ [] }

abbrev later : Chain
later = record start {
  fetch = record start.fetch { src = λ symbol. (1, 20_000) ∷ (2, 40_000) ∷ [] };
}

host_price-between_example :
    let x₁ = (worker_extrinsics ether_only true 2 4 (eth ∷ []) start.fetch).0 in
    (c₁ : Chain) × (execute_block (runtime_env plain) true 5 30 x₁ start ≡ some c₁)
    × (let x₂ = (worker_extrinsics ether_only true 2 5 (eth ∷ []) c₁.fetch).0 in
        let x₂' = x₂ ++ (signed 1, get_offchain_price) ∷ [] in
        (c₂ : Chain) × (execute_block (runtime_env plain) true 6 36 x₂' c₁ ≡ some c₂)
        × (20_000 ≤ fetch_price c₂.price)
        × (fetch_price c₂.price ≤ 40_000)
        × IsSound (runtime_env plain) c₂.stablecoin)
unfolding first_chain Offchain.fetch_price fetch_json price_from submit_record
    fetch_price_from_coincap
host_price-between_example =
    host_price-between (runtime_env plain) true (omega arith) (omega arith) ether_only ether_only 2
      4 5 30 6 36 1 20_000 40_000 (eth ∷ []) (eth ∷ []) start
      (load-IsSound plain keys development).1 refl ether_only-IsLive ether_only-IsLive refl
      (omega arith) (omega arith) (omega arith) ((omega arith, omega arith), tt)

-- Payloads that keep what they are made of, and a signer that has the key of account 1 only.
abbrev signing : Signing
signing = record {
  Era = ℕ × ℕ;
  Payload = Call × SignedExtra (ℕ × ℕ);
  Signature = ℕ;
  mortal = λ period current. (period, current);
  new_payload = λ call extra. some (call, extra);
  sign = λ public payload. if public == 1 then some (payload.1.nonce + 1) else none;
  deconstruct = λ payload. payload;
}

signing-SigningLaws : SigningLaws signing
signing-SigningLaws = record { deconstruct-new = λ call extra payload e. cc e }

create_transaction-Carries_example :
    Carries signing 9 (set_price 5) 1 100 3 (set_price 5, 100, 4, extra_at signing 9 3)
unfolding create_transaction
create_transaction-Carries_example =
    create_transaction-Carries signing signing-SigningLaws 9 1 100 3 (set_price 5)
      (set_price 5, 100, 4, extra_at signing 9 3) refl
