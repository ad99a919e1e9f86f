-- ===== src/Examples/Fetch.antt =====
-- The price-fetch pallet at concrete inputs: stored prices, the worker and the transaction pool.
use substrate_stablecoin.Prelude.{
  Distinct, ℕ, ◌%◌, ◌*◌, ◌≡◌, refl, true, ◌&&◌, some, List, [], ◌∷◌, ◌++◌, map, length, arith, All,
  ltb, ◌==◌, if◌then◌else◌, Bytes, ascii, same_bytes,
}
use substrate_stablecoin.PriceFetch.{State, Point, get_price_for, run_aggregates}
use substrate_stablecoin.PriceFetch.Offchain.{
  Host, no_response, responded, fetched_cryptos, fetch_price, fetch_all, fetch_task, fetch_json,
  price_from, submit_record, fetch_price_from_coincap,
}
use substrate_stablecoin.PriceFetch.Answers.{IsAnswered, fetch_all-IsAnswered}
use substrate_stablecoin.PriceFetch.Fetching.{successes, fetch_task_lem}
use substrate_stablecoin.PriceFetch.Tags.{told, fetch_task-Distinct}
use substrate_stablecoin.PriceFetch.Unsigned.{Codec, CodecLaws}

abbrev points : List Point
points = (3, 2_100_000) ∷ (4, 2_300_000) ∷ []

abbrev eth : Bytes
eth = ascii "ETH"

-- One symbol has two points and every other none.
abbrev stored : State
stored = record {
  src = λ symbol. if same_bytes symbol eth then points else [];
  agg = λ symbol. (0, 0);
  events = [];
  now = 9;
}

-- The price that is then served.
served : get_price_for eth (run_aggregates true ((eth, 2_200_000) ∷ []) stored) ≡ some 2_200_000
unfolding get_price_for run_aggregates
served = refl

-- A host on which one source answers, with a price that has as many units as its text has characters.
abbrev bitcoin_only : Host
bitcoin_only = record {
  Json = Bytes;
  Float = ℕ;
  request = λ url.
      if same_bytes url (ascii "https://api.coincap.io/v2/assets/bitcoin")
      then responded 200 (ascii "***")
      else no_response;
  parse_json = λ body. some body;
  get_object = λ json. some ((ascii "priceUsd", json) ∷ []);
  get_number = λ json. some (length json);
  get_bytes = λ json. some json;
  parse_f64 = λ text. some (length text);
  scaled = λ v. v * 10_000;
  accepts_record = λ call. true;
  accepts_aggregate = λ call. true;
}

fetch_task_lem_example : fetch_task bitcoin_only true 2 4 ≡ (
  if ltb 0 2 && 4 % 2 == 0
      then successes (map (fetch_price bitcoin_only true) fetched_cryptos)
      else [],
  true,
)
unfolding fetch_price fetch_json price_from submit_record fetch_price_from_coincap
fetch_task_lem_example =
    fetch_task_lem bitcoin_only true 2 4
      (λ e. cc e, (λ e. cc e, (λ e. cc e, (λ e. cc e, (λ e. cc e, (λ e. cc e, tt))))))

fetch_all-IsAnswered_example :
    All (IsAnswered bitcoin_only fetched_cryptos) (fetch_all bitcoin_only true fetched_cryptos).0
fetch_all-IsAnswered_example = fetch_all-IsAnswered bitcoin_only true fetched_cryptos

-- The task submits the one price.
bitcoin_fetched :
    (fetch_task bitcoin_only true 2 4).0
    ≡ (ascii "BTC", ascii "coincap", ascii "https://api.coincap.io/v2/assets/bitcoin", 30_000) ∷ []
unfolding fetch_task
bitcoin_fetched = refl

-- An encoding that writes the length of the first of two byte strings.
abbrev with_length : Bytes → Bytes → Bytes
with_length xs ys = length xs ∷ xs ++ ys

append-injective :
    (xs xs' ys ys' : Bytes)
    → length xs ≡ length xs'
    → xs ++ ys ≡ xs' ++ ys'
    → (xs ≡ xs') × (ys ≡ ys')
append-injective [] [] ys ys' l e = (refl, e)
append-injective [] (x' ∷ xs') ys ys' l e = absurd (omega (arith, l))
append-injective (x ∷ xs) [] ys ys' l e = absurd (omega (arith, l))
append-injective (x ∷ xs) (x' ∷ xs') ys ys' l e =
    let rest : xs ++ ys ≡ xs' ++ ys' = cc e in
    let head : x ≡ x' = cc e in
    let (same, tails) = append-injective xs xs' ys ys' (omega (arith, l)) rest in
    (cc (head, same), tails)

abbrev pub lengths : Codec
lengths = record {
  encode_record = λ t. t.0 ∷ t.3 ∷ with_length t.1 t.2;
  encode_aggregate = λ t. t.0 ∷ t.2 ∷ t.1;
}

lengths-CodecLaws : CodecLaws lengths
lengths-CodecLaws = record {
  record_injective = λ a b e.
      let (symbols, sources) = append-injective a.1 b.1 a.2 b.2 (cc e) (cc e) in
      let block : a.0 ≡ b.0 = cc e in
      let price : a.3 ≡ b.3 = cc e in cc (block, symbols, sources, price);
  aggregate_injective = λ a b e.
      let block : a.0 ≡ b.0 = cc e in
      let price : a.2 ≡ b.2 = cc e in let symbol : a.1 ≡ b.1 = cc e in cc (block, symbol, price);
}

fetch_task-Distinct_example : Distinct (map (told lengths 4) (fetch_task bitcoin_only true 2 4).0)
fetch_task-Distinct_example = fetch_task-Distinct bitcoin_only true lengths lengths-CodecLaws 4 2
