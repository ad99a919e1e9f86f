-- ===== src/PriceFetch/Answers.antt =====
-- Where the prices that the first task of the offchain worker submits come from: what the two sources
-- document of the shape of their answers.
use mathlib.Core.List.{Memᴰ}
use mathlib.Core.List.Memᴰ.{head, tail}
use mathlib.Core.Path.{subst}
use substrate_stablecoin.Prelude.{
  ℕ, ◌%◌, ◌≡◌, refl, ◌⊎◌, Bool, true, false, ◌&&◌, inl, inr, Option, none, some, List, [], ◌∷◌, All,
  map, Bool-cases, ◌==◌, if◌then◌else◌, Bytes, ascii, same_bytes, same_bytes-eq, from_utf8, arith,
}
use substrate_stablecoin.PriceFetch.{converts}
use substrate_stablecoin.PriceFetch.Offchain.{
  Host, Response, not_sent, no_response, responded, Fetched, fetched, failed, panicked, FetchError,
  on_fetched, or_fail, or_panic, map_err, first_value, vecchars_to_vecbytes, find_key, read_body,
  read_response, fetch_json, fetch_price_from_coincap, fetch_price_from_cryptocompare, price_from,
  submit_record, fetch_price, fetch_all,
}

-- What has been fetched at the end has been fetched at each step.
on_fetched-inv :
    {A B : Type 0} (r : Fetched A) (f : A → Fetched B) {b : B}
    → on_fetched r f ≡ fetched b
    → (a : A) × (r ≡ fetched a) × (f a ≡ fetched b)
on_fetched-inv (fetched a) f e = (a, refl, e)
on_fetched-inv (failed error) f e = absurd (cc e)
on_fetched-inv panicked f e = absurd (cc e)

or_fail-inv :
    {A B : Type 0} (o : Option A) (error : FetchError) (f : A → Fetched B) {b : B}
    → or_fail o error f ≡ fetched b
    → (a : A) × (o ≡ some a) × (f a ≡ fetched b)
or_fail-inv none error f e = absurd (cc e)
or_fail-inv (some a) error f e = (a, refl, e)

or_panic-inv :
    {A B : Type 0} (o : Option A) (f : A → Fetched B) {b : B}
    → or_panic o f ≡ fetched b
    → (a : A) × (o ≡ some a) × (f a ≡ fetched b)
or_panic-inv none f e = absurd (cc e)
or_panic-inv (some a) f e = (a, refl, e)

map_err-inv :
    {A : Type 0} (r : Fetched A) (error : FetchError) {a : A}
    → map_err r error ≡ fetched a
    → r ≡ fetched a
map_err-inv (fetched a) error e = e
map_err-inv (failed error') error e = absurd (cc e)
map_err-inv panicked error e = absurd (cc e)

if-inv :
    {A : Type 0} (b : Bool) (r : Fetched A) (error : FetchError) {a : A}
    → (if b then r else failed error) ≡ fetched a
    → (b ≡ true) × (r ≡ fetched a)
if-inv true r error e = (refl, e)
if-inv false r error e = absurd (cc e)

first_value-inv :
    {J : Type 0} (entries : List (List ℕ × J)) {v : J}
    → first_value entries ≡ some v
    → (key : List ℕ) × (rest : List (List ℕ × J)) × (entries ≡ (key, v) ∷ rest)
first_value-inv [] e = absurd (cc e)
first_value-inv ((key, w) ∷ rest) e = (key, rest, cc e)

-- A value that is found under a key is an entry's, whose key has these bytes.
find_key-inv :
    {J : Type 0} (wanted : Bytes) (entries : List (List ℕ × J)) {v : J}
    → find_key wanted entries ≡ some v
    → (key : List ℕ) × Memᴰ (key, v) entries × (map (λ c. c % 256) key ≡ wanted)
unfolding find_key vecchars_to_vecbytes
find_key-inv wanted [] e = absurd (cc e)
find_key-inv wanted ((key, w) ∷ entries) {v} e =
    elim (Bool-cases (same_bytes wanted (map (λ c. c % 256) key))) [
      | inl same ↦ (key, head (cc (rw same at e)), cc (same_bytes-eq wanted _ same))
      | inr other ↦
          let (key', m, bytes) = find_key-inv wanted entries (rw other at e) in
          (key', tail m, bytes)
    ]

module _ (host : Host) where
  -- `{"data":{"priceUsd":"8172.26"}}`: the object of the first entry has the price as text, under `priceUsd`.
  pub record IsCoincap (json : host.Json) (price : ℕ) : Type 0 where
    pub key : List ℕ
    pub datum : host.Json
    pub rest : List (List ℕ × host.Json)
    pub object : host.get_object json ≡ some ((key, datum) ∷ rest)
    pub fields : List (List ℕ × host.Json)
    pub inner : host.get_object datum ≡ some fields
    pub price_key : List ℕ
    pub value : host.Json
    pub entry : Memᴰ (price_key, value) fields
    pub named : map (λ c. c % 256) price_key ≡ ascii "priceUsd"
    pub text : Bytes
    pub bytes : host.get_bytes value ≡ some text
    pub number : host.Float
    pub parsed : host.parse_f64 text ≡ some number
    pub same : price ≡ host.scaled number

  -- `{"USD":7064.16}`: the first entry has the price as a number.
  pub record IsCryptocompare (json : host.Json) (price : ℕ) : Type 0 where
    pub key : List ℕ
    pub value : host.Json
    pub rest : List (List ℕ × host.Json)
    pub object : host.get_object json ≡ some ((key, value) ∷ rest)
    pub number : host.Float
    pub float : host.get_number value ≡ some number
    pub same : price ≡ host.scaled number

  -- Where a submitted call comes from: an entry with its symbol, source and URL; a response of this URL with
  -- the status 200; and the price in the answer, of the shape that the source has.
  pub record IsAnswered (cryptos : List (Bytes × Bytes × Bytes)) (call : Bytes × Bytes × Bytes × ℕ)
      : Type 0 where
    pub listed : Memᴰ (call.0, call.1, call.2) cryptos
    pub body : Bytes
    pub response : host.request call.2 ≡ responded 200 body
    pub json : host.Json
    pub is_json : host.parse_json body ≡ some json
    pub read :
        ((call.1 ≡ ascii "coincap") × IsCoincap json call.3)
        ⊎ ((call.1 ≡ ascii "cryptocompare") × IsCryptocompare json call.3)
    pub accepted : host.accepts_record call ≡ true

  fetch_price_from_coincap-IsCoincap :
      (json : host.Json) (price : ℕ)
      → fetch_price_from_coincap host json ≡ fetched price
      → IsCoincap json price
  unfolding fetch_price_from_coincap
  fetch_price_from_coincap-IsCoincap json price e =
      let (entries, object, e₁) = or_panic-inv (host.get_object json) _ e in
      let (v, is_first, e₂) = or_panic-inv (first_value entries) _ e₁ in
      let (key, rest, split) = first_value-inv entries is_first in
      let (fields, inner, e₃) = or_panic-inv (host.get_object v) _ e₂ in
      let (value, found, e₄) = or_fail-inv (find_key (ascii "priceUsd") fields) _ _ e₃ in
      let (price_key, entry, named) = find_key-inv (ascii "priceUsd") fields found in
      let (text, bytes, e₅) = or_panic-inv (host.get_bytes value) _ e₄ in
      let (_, e₆) = if-inv (from_utf8 text) _ _ e₅ in
      let (number, parsed, e₇) = or_fail-inv (host.parse_f64 text) _ _ e₆ in
      record {
        key = key;
        datum = v;
        rest = rest;
        object = rw (← split) object;
        fields = fields;
        inner = inner;
        price_key = price_key;
        value = value;
        entry = entry;
        named = named;
        text = text;
        bytes = bytes;
        number = number;
        parsed = parsed;
        same = cc e₇;
      }

  fetch_price_from_cryptocompare-IsCryptocompare :
      (json : host.Json) (price : ℕ)
      → fetch_price_from_cryptocompare host json ≡ fetched price
      → IsCryptocompare json price
  unfolding fetch_price_from_cryptocompare
  fetch_price_from_cryptocompare-IsCryptocompare json price e =
      let (entries, object, e₁) = or_panic-inv (host.get_object json) _ e in
      let (v, is_first, e₂) = or_panic-inv (first_value entries) _ e₁ in
      let (key, rest, split) = first_value-inv entries is_first in
      let (number, float, e₃) = or_panic-inv (host.get_number v) _ e₂ in
      record {
        key = key;
        value = v;
        rest = rest;
        object = rw (← split) object;
        number = number;
        float = float;
        same = cc e₃;
      }

  read-lem :
      (remote_src : Bytes) (json : host.Json) (price : ℕ)
      → price_from host remote_src json ≡ fetched price
      → ((remote_src ≡ ascii "coincap") × IsCoincap json price)
        ⊎ ((remote_src ≡ ascii "cryptocompare") × IsCryptocompare json price)
  unfolding price_from
  read-lem remote_src json price e = elim (Bool-cases (same_bytes remote_src (ascii "coincap"))) [
    | inl coincap ↦
        let e₁ = map_err-inv (fetch_price_from_coincap host json) _ (rw coincap at e) in
        inl (same_bytes-eq remote_src _ coincap, fetch_price_from_coincap-IsCoincap json price e₁)
    | inr other ↦
        let e₁ = rw other at e in
        let (compare, e₂) =
          if-inv (same_bytes remote_src (ascii "cryptocompare"))
            (map_err (fetch_price_from_cryptocompare host json) _) _ e₁ in
        let e₃ = map_err-inv (fetch_price_from_cryptocompare host json) _ e₂ in
        inr (
          same_bytes-eq remote_src _ compare,
          fetch_price_from_cryptocompare-IsCryptocompare json price e₃,
        )
  ]

  body-lem :
      (response : Response) (json : host.Json)
      → read_response host response ≡ fetched json
      → (body : Bytes) × (response ≡ responded 200 body) × (host.parse_json body ≡ some json)
  unfolding read_response read_body
  body-lem not_sent json e = absurd (cc e)
  body-lem no_response json e = absurd (cc e)
  body-lem (responded code body) json e =
      let (status, e₁) = if-inv (code == 200) (read_body host body) _ e in
      let (_, e₂) = if-inv (from_utf8 body) _ _ e₁ in
      let (json', parsed, e₃) = or_fail-inv (host.parse_json body) _ _ e₂ in
      let ok_status : code ≡ 200 = ground arith in
      let same : json' ≡ json = cc e₃ in (body, rw ok_status refl, rw (← same) parsed)

  module _ (logs : Bool) where
    fetch_price-IsAnswered :
        (crypto : Bytes × Bytes × Bytes) (cryptos : List (Bytes × Bytes × Bytes))
        (call : Bytes × Bytes × Bytes × ℕ)
        → fetch_price host logs crypto ≡ fetched call
        → IsAnswered (crypto ∷ cryptos) call
    unfolding fetch_price fetch_json submit_record
    fetch_price-IsAnswered (sym, remote_src, remote_url) cryptos call e =
        elim (Bool-cases (converts logs sym && converts logs remote_src)) [
          | inl text ↦
              let (json, got, e₁) = on_fetched-inv (fetch_json host remote_url) _ (rw text at e) in
              let (price, read, e₂) = on_fetched-inv (price_from host remote_src json) _ e₁ in
              let (_, got') = if-inv (from_utf8 remote_url) _ _ got in
              let (body, response, is_json) = body-lem (host.request remote_url) json got' in
              let (accepted, e₃) =
                if-inv (host.accepts_record (sym, remote_src, remote_url, price)) _ _ e₂ in
              let same : (sym, remote_src, remote_url, price) ≡ call = cc e₃ in
              subst (IsAnswered ((sym, remote_src, remote_url) ∷ cryptos)) same (record {
                listed = head refl;
                body = body;
                response = response;
                json = json;
                is_json = is_json;
                read = read-lem remote_src json price read;
                accepted = accepted;
              })
          | inr not_text ↦ absurd (cc (rw not_text at e))
        ]

    IsAnswered-more :
        (crypto : Bytes × Bytes × Bytes) (cryptos : List (Bytes × Bytes × Bytes))
        (calls : List (Bytes × Bytes × Bytes × ℕ))
        → All (IsAnswered cryptos) calls
        → All (IsAnswered (crypto ∷ cryptos)) calls
    IsAnswered-more crypto cryptos [] h = tt
    IsAnswered-more crypto cryptos (call ∷ calls) (h, rest) = (
      record {
        listed = tail h.listed;
        body = h.body;
        response = h.response;
        json = h.json;
        is_json = h.is_json;
        read = h.read;
        accepted = h.accepted;
      },
      IsAnswered-more crypto cryptos calls rest,
    )

    all-IsAnswered :
        (crypto : Bytes × Bytes × Bytes) (cryptos : List (Bytes × Bytes × Bytes))
        (r : Fetched (Bytes × Bytes × Bytes × ℕ))
        → fetch_price host logs crypto ≡ r
        → All (IsAnswered (crypto ∷ cryptos)) (fetch_all host logs cryptos).0
        → All (IsAnswered (crypto ∷ cryptos)) (fetch_all host logs (crypto ∷ cryptos)).0
    unfolding fetch_all
    all-IsAnswered (sym, remote_src, remote_url) cryptos (fetched call) e rest =
        let first = fetch_price-IsAnswered (sym, remote_src, remote_url) cryptos call e in
        rw (e, fetch_all) (first, rest)
    all-IsAnswered (sym, remote_src, remote_url) cryptos (failed error) e rest =
        elim (Bool-cases (converts logs sym && converts logs remote_src)) [
          | inl text ↦ rw (e, fetch_all) (rw text rest)
          | inr not_text ↦ rw (e, fetch_all) (rw not_text tt)
        ]
    all-IsAnswered (sym, remote_src, remote_url) cryptos panicked e rest = rw (e, fetch_all) tt

    -- However the first task ends, each call that it has submitted was accepted by the pool, has the symbol,
    -- the source and the URL of an entry, and the price in a response of that URL with the status 200:
    -- for coincap the text under `priceUsd` in the object that the answer has first, read as a
    -- number, and for cryptocompare the number that the answer has first, both scaled and rounded.
    pub fetch_all-IsAnswered :
        (cryptos : List (Bytes × Bytes × Bytes))
        → All (IsAnswered cryptos) (fetch_all host logs cryptos).0
    unfolding fetch_all
    fetch_all-IsAnswered [] = tt
    fetch_all-IsAnswered (crypto ∷ cryptos) =
        all-IsAnswered crypto cryptos (fetch_price host logs crypto) refl (
          IsAnswered-more crypto cryptos (fetch_all host logs cryptos).0
            (fetch_all-IsAnswered cryptos))
