-- ===== src/PriceFetch/Offchain.antt =====
-- The offchain worker of pallets/price-fetch/src/lib.rs. What it gets from the host and from other
-- crates is a record: HTTP, the JSON values of simple_json, floating-point numbers, and whether the
-- transaction pool accepts a call.
use substrate_stablecoin.Prelude.{
  ℕ, ◌%◌, Bool, true, false, ◌&&◌, Option, none, some, List, [], ◌∷◌, map, ltb, ◌==◌, if◌then◌else◌,
  Bytes, ascii, same_bytes, from_utf8,
}
use substrate_stablecoin.PriceFetch.{State, converts, aggregate_all}

-- How a request ends: it is not sent, no response comes, or one comes with a code and a body.
pub data Response : Type 0 where
  not_sent no_response : Response
  responded : (code : ℕ) (body : Bytes) → Response

-- A getter of `JsonValue` that meets another kind of value answers `none`, and the worker panics.
-- Keys of an object are lists of `char`. `scaled v` is `(v * 10000.).round() as u64`.
pub record Host : Type 1 where
  pub Json : Type 0
  pub Float : Type 0
  pub request : Bytes → Response
  pub parse_json : Bytes → Option Json
  pub get_object : Json → Option (List (List ℕ × Json))
  pub get_number : Json → Option Float
  pub get_bytes : Json → Option Bytes
  pub parse_f64 : Bytes → Option Float
  pub scaled : Float → ℕ
  pub accepts_record : Bytes × Bytes × Bytes × ℕ → Bool
  pub accepts_aggregate : Bytes × ℕ → Bool

-- The messages of the errors, one constructor each.
pub data FetchError : Type 0 where
  url_not_text not_sent_error no_response_error bad_status body_not_text bad_json : FetchError
  no_price_key price_not_text price_not_number unknown_source not_submitted : FetchError
  coincap_error cryptocompare_error : FetchError

pub data Fetched (A : Type 0) : Type 0 where
  fetched : A → Fetched A
  failed : FetchError → Fetched A
  panicked : Fetched A

-- What follows a result, and an option whose `none` is an error, or a panic.
abbrev pub on_fetched : {A B : Type 0} → Fetched A → (A → Fetched B) → Fetched B
on_fetched (fetched a) f = f a
on_fetched (failed e) f = failed e
on_fetched panicked f = panicked

abbrev pub or_fail : {A B : Type 0} → Option A → FetchError → (A → Fetched B) → Fetched B
or_fail none e f = failed e
or_fail (some a) e f = f a

abbrev pub or_panic : {A B : Type 0} → Option A → (A → Fetched B) → Fetched B
or_panic none f = panicked
or_panic (some a) f = f a

-- `map_err` to another message.
abbrev pub map_err : {A : Type 0} → Fetched A → FetchError → Fetched A
map_err (fetched a) e = fetched a
map_err (failed e') e = failed e
map_err panicked e = panicked

-- `FETCHED_CRYPTOS`.
abbrev pub fetched_cryptos : List (Bytes × Bytes × Bytes)
fetched_cryptos =
    (ascii "BTC", ascii "coincap", ascii "https://api.coincap.io/v2/assets/bitcoin")
    ∷ (
      ascii "BTC",
      ascii "cryptocompare",
      ascii "https://min-api.cryptocompare.com/data/price?fsym=BTC&tsyms=USD",
    )
    ∷ (ascii "ETH", ascii "coincap", ascii "https://api.coincap.io/v2/assets/ethereum")
    ∷ (
      ascii "ETH",
      ascii "cryptocompare",
      ascii "https://min-api.cryptocompare.com/data/price?fsym=ETH&tsyms=USD",
    )
    ∷ (ascii "DAI", ascii "coincap", ascii "https://api.coincap.io/v2/assets/dai")
    ∷ (
      ascii "DAI",
      ascii "cryptocompare",
      ascii "https://min-api.cryptocompare.com/data/price?fsym=DAI&tsyms=USD",
    )
    ∷ []

-- `c as u8` on each character.
unfoldable pub vecchars_to_vecbytes : List ℕ → Bytes
vecchars_to_vecbytes chars = map (λ c. c % 256) chars

-- `[0]` on the entries of an object, which panics if there are none.
abbrev pub first_value : {J : Type 0} → List (List ℕ × J) → Option J
first_value [] = none
first_value ((key, v) ∷ entries) = some v

-- `filter(…).nth(0)`: the first entry with this key.
unfoldable pub find_key : {J : Type 0} → Bytes → List (List ℕ × J) → Option J
unfolding vecchars_to_vecbytes
find_key wanted [] = none
find_key wanted ((key, v) ∷ entries) =
    let rest = find_key wanted entries in
    if same_bytes wanted (vecchars_to_vecbytes key) then some v else rest

module _ (host : Host) where
  unfoldable pub read_body : Bytes → Fetched host.Json
  unfolding from_utf8
  read_body body =
      if from_utf8 body
      then or_fail (host.parse_json body) bad_json fetched
      else failed body_not_text

  unfoldable pub read_response : Response → Fetched host.Json
  unfolding read_body
  read_response not_sent = failed not_sent_error
  read_response no_response = failed no_response_error
  read_response (responded code body) = if code == 200 then read_body body else failed bad_status

  unfoldable pub fetch_json : Bytes → Fetched host.Json
  unfolding read_response from_utf8
  fetch_json remote_url =
      if from_utf8 remote_url then read_response (host.request remote_url) else failed url_not_text

  unfoldable pub fetch_price_from_cryptocompare : host.Json → Fetched ℕ
  fetch_price_from_cryptocompare json = or_panic (host.get_object json) λ entries.
      or_panic (first_value entries)
        λ v. or_panic (host.get_number v) λ val_f64. fetched (host.scaled val_f64)

  unfoldable pub fetch_price_from_coincap : host.Json → Fetched ℕ
  unfolding find_key from_utf8
  fetch_price_from_coincap json = or_panic (host.get_object json) λ entries.
      or_panic (first_value entries) λ v. or_panic (host.get_object v) λ fields.
        or_fail (find_key (ascii "priceUsd") fields) no_price_key λ price.
          or_panic (host.get_bytes price) λ val_u8.
            if from_utf8 val_u8
            then or_fail (host.parse_f64 val_u8) price_not_number
                (λ val_f64. fetched (host.scaled val_f64))
            else failed price_not_text

  unfoldable pub price_from : Bytes → host.Json → Fetched ℕ
  unfolding fetch_price_from_cryptocompare fetch_price_from_coincap
  price_from remote_src json =
      if same_bytes remote_src (ascii "coincap")
      then map_err (fetch_price_from_coincap json) coincap_error
      else if same_bytes remote_src (ascii "cryptocompare")
      then map_err (fetch_price_from_cryptocompare json) cryptocompare_error
      else failed unknown_source

  -- The call that is submitted: the symbol, the source, the URL and the price. It also carries the
  -- block of the worker, which the chain does not read.
  unfoldable pub submit_record : Bytes × Bytes × Bytes × ℕ → Fetched (Bytes × Bytes × Bytes × ℕ)
  submit_record call = if host.accepts_record call then fetched call else failed not_submitted

  unfoldable pub fetch_price :
      (logs : Bool) → Bytes × Bytes × Bytes → Fetched (Bytes × Bytes × Bytes × ℕ)
  unfolding converts fetch_json price_from submit_record
  fetch_price logs (sym, remote_src, remote_url) =
      if converts logs sym && converts logs remote_src
      then (on_fetched (fetch_json remote_url) λ json.
          on_fetched (price_from remote_src json)
            λ price. submit_record (sym, remote_src, remote_url, price))
      else panicked

  -- The `for` loop: an error is logged, with the symbol and the source as text. What was submitted, and
  -- whether the loop came to its end.
  unfoldable pub fetch_all :
      (logs : Bool) → List (Bytes × Bytes × Bytes) → List (Bytes × Bytes × Bytes × ℕ) × Bool
  unfolding fetch_price converts
  fetch_all logs [] = ([], true)
  fetch_all logs ((sym, remote_src, remote_url) ∷ cryptos) =
      let (calls, ends) = fetch_all logs cryptos in
      elim (fetch_price logs (sym, remote_src, remote_url)) [
        | fetched call ↦ (call ∷ calls, ends)
        | failed e ↦
            if converts logs sym && converts logs remote_src then (calls, ends) else ([], false)
        | panicked ↦ ([], false)
      ]

  -- `duration` is `BlockFetchDur`; at zero nothing is fetched, and nothing is divided by it.
  unfoldable pub fetch_task :
      (logs : Bool) (duration block : ℕ) → List (Bytes × Bytes × Bytes × ℕ) × Bool
  unfolding fetch_all
  fetch_task logs duration block =
      if ltb 0 duration && block % duration == 0 then fetch_all logs fetched_cryptos else ([], true)

  -- Both tasks: a panic in the first leaves out the second. The calls of each, and whether the worker
  -- came to its end.
  unfoldable pub offchain_worker :
      (logs : Bool) (duration block : ℕ) (symbols : List Bytes)
      → State
      → List (Bytes × Bytes × Bytes × ℕ) × List (Bytes × ℕ) × Bool
  unfolding fetch_task aggregate_all
  offchain_worker logs duration block symbols s =
      let (records, fetched_all) = fetch_task logs duration block in
      let (aggregates, ends) = aggregate_all logs host.accepts_aggregate symbols s in
      if fetched_all then (records, aggregates, ends) else (records, [], false)
