-- ===== src/PriceFetch/Tags.antt =====
-- The tags of the calls that the worker's first task submits: the transaction pool can hold all of them.
use substrate_stablecoin.Prelude.{
  ℕ, ◌%◌, ◌≡◌, ◌≢◌, ap, sym, refl, Bool, true, false, ◌&&◌, inl, inr, Option, List, [], ◌∷◌, All,
  Distinct, map, Bool-cases, ltb, ◌==◌, Bytes, same_bytes, same_bytes_refl,
}
use substrate_stablecoin.PriceFetch.{converts}
use substrate_stablecoin.PriceFetch.Offchain.{
  Host, Fetched, fetched, failed, panicked, on_fetched, fetched_cryptos, fetch_json, price_from,
  submit_record, fetch_price, fetch_all, fetch_task,
}
use substrate_stablecoin.PriceFetch.Unsigned.{
  Codec, CodecLaws, ValidTransaction, record_price, validate_unsigned, validate_unsigned_lem,
}

-- What the pool is told of a call that was submitted at `block`.
abbrev pub told : Codec → (block : ℕ) → Bytes × Bytes × Bytes × ℕ → Option ValidTransaction
told codec block (symbol, source, url, price) =
    validate_unsigned codec (record_price block symbol source url price)

-- Whether an entry, or a call, is for this symbol and source.
abbrev is_for : Bytes → Bytes → Bytes → Bytes → Bool
is_for symbol source symbol' source' = same_bytes symbol symbol' && same_bytes source source'

-- No two entries are for the same symbol and source.
abbrev Apart : List (Bytes × Bytes × Bytes) → Type 0
Apart [] = Unit
Apart ((symbol, source, url) ∷ cryptos) =
    All (λ c. is_for symbol source c.0 c.1 ≡ false) cryptos × Apart cryptos

fetched_cryptos-Apart : Apart fetched_cryptos
fetched_cryptos-Apart = (
  (refl, (refl, (refl, (refl, (refl, tt))))),
  (
    (refl, (refl, (refl, (refl, tt)))),
    ((refl, (refl, (refl, tt))), ((refl, (refl, tt)), ((refl, tt), (tt, tt)))),
  ),
)

module _ (host : Host) (logs : Bool) where
  -- A call is for the symbol and the source of its entry.
  submitted-same :
      (symbol source url : Bytes) (price : ℕ) (call : Bytes × Bytes × Bytes × ℕ)
      → submit_record host (symbol, source, url, price) ≡ fetched call
      → (call.0 ≡ symbol) × (call.1 ≡ source)
  unfolding submit_record
  submitted-same symbol source url price call e =
      elim (Bool-cases (host.accepts_record (symbol, source, url, price))) [
        | inl accepted ↦
            let same : (symbol, source, url, price) ≡ call = cc (rw accepted at e) in
            (sym (ap (λ t. t.0) same), sym (ap (λ t. t.1) same))
        | inr refused ↦ absurd (cc (rw refused at e))
      ]

  priced-same :
      (symbol source url : Bytes) (call : Bytes × Bytes × Bytes × ℕ) (p : Fetched ℕ)
      → on_fetched p (λ price. submit_record host (symbol, source, url, price)) ≡ fetched call
      → (call.0 ≡ symbol) × (call.1 ≡ source)
  priced-same symbol source url call (fetched price) e =
      submitted-same symbol source url price call e
  priced-same symbol source url call (failed error) e = absurd (cc e)
  priced-same symbol source url call panicked e = absurd (cc e)

  read-same :
      (symbol source url : Bytes) (call : Bytes × Bytes × Bytes × ℕ) (j : Fetched host.Json)
      → on_fetched j (λ json.
        on_fetched
          (price_from host source json)
          (λ price. submit_record host (symbol, source, url, price)))
        ≡ fetched call
      → (call.0 ≡ symbol) × (call.1 ≡ source)
  read-same symbol source url call (fetched json) e =
      priced-same symbol source url call (price_from host source json) e
  read-same symbol source url call (failed error) e = absurd (cc e)
  read-same symbol source url call panicked e = absurd (cc e)

  fetch_price-same :
      (symbol source url : Bytes) (call : Bytes × Bytes × Bytes × ℕ)
      → fetch_price host logs (symbol, source, url) ≡ fetched call
      → (call.0 ≡ symbol) × (call.1 ≡ source)
  unfolding fetch_price
  fetch_price-same symbol source url call e =
      elim (Bool-cases (converts logs symbol && converts logs source)) [
        | inl text ↦ read-same symbol source url call (fetch_json host url) (rw text at e)
        | inr not_text ↦ absurd (cc (rw not_text at e))
      ]

  -- What holds of every entry's symbol and source holds of every call's.
  all-entry :
      (P : Bytes → Bytes → Type 0) (symbol source url : Bytes)
      (cryptos : List (Bytes × Bytes × Bytes)) (r : Fetched (Bytes × Bytes × Bytes × ℕ))
      → fetch_price host logs (symbol, source, url) ≡ r
      → P symbol source
      → All (λ call. P call.0 call.1) (fetch_all host logs cryptos).0
      → All (λ call. P call.0 call.1) (fetch_all host logs ((symbol, source, url) ∷ cryptos)).0
  unfolding fetch_all
  all-entry P symbol source url cryptos (fetched call) e h rest =
      let (same_symbol, same_source) = fetch_price-same symbol source url call e in
      let here : P call.0 call.1 = rw (same_symbol, same_source) h in rw (e, fetch_all) (here, rest)
  all-entry P symbol source url cryptos (failed error) e h rest =
      elim (Bool-cases (converts logs symbol && converts logs source)) [
        | inl text ↦ rw (e, fetch_all) (rw text rest)
        | inr not_text ↦ rw (e, fetch_all) (rw not_text tt)
      ]
  all-entry P symbol source url cryptos panicked e h rest = rw (e, fetch_all) tt

  pub fetch_all-All :
      (P : Bytes → Bytes → Type 0) (cryptos : List (Bytes × Bytes × Bytes))
      → All (λ c. P c.0 c.1) cryptos
      → All (λ call. P call.0 call.1) (fetch_all host logs cryptos).0
  unfolding fetch_all
  fetch_all-All P [] h = tt
  fetch_all-All P ((symbol, source, url) ∷ cryptos) h =
      all-entry P symbol source url cryptos (fetch_price host logs (symbol, source, url)) refl h.0
        (fetch_all-All P cryptos h.1)

  module _ (codec : Codec) (laws : CodecLaws codec) (block : ℕ) where
    told-ne :
        (call call' : Bytes × Bytes × Bytes × ℕ)
        → is_for call.0 call.1 call'.0 call'.1 ≡ false
        → told codec block call ≢ told codec block call'
    told-ne (symbol, source, url, price) (symbol', source', url', price') other e =
        let (_, same_symbol, same_source, _) =
          validate_unsigned_lem codec block block symbol symbol' source source' url url' price
            price' laws e in
        let both : is_for symbol source symbol' source' ≡ true =
          rw (← same_symbol, ← same_source, same_bytes_refl symbol, same_bytes_refl source) refl in
        cc (both, other)

    told-all :
        (call : Bytes × Bytes × Bytes × ℕ) (calls : List (Bytes × Bytes × Bytes × ℕ))
        → All (λ call'. is_for call.0 call.1 call'.0 call'.1 ≡ false) calls
        → All (λ y. told codec block call ≢ y) (map (told codec block) calls)
    told-all call [] h = tt
    told-all call (call' ∷ calls) h = (told-ne call call' h.0, told-all call calls h.1)

    entry-Distinct :
        (symbol source url : Bytes) (cryptos : List (Bytes × Bytes × Bytes))
        (r : Fetched (Bytes × Bytes × Bytes × ℕ))
        → fetch_price host logs (symbol, source, url) ≡ r
        → All (λ c. is_for symbol source c.0 c.1 ≡ false) cryptos
        → Distinct (map (told codec block) (fetch_all host logs cryptos).0)
        → Distinct
            (map (told codec block) (fetch_all host logs ((symbol, source, url) ∷ cryptos)).0)
    unfolding fetch_all
    entry-Distinct symbol source url cryptos (fetched call) e h rest =
        let (same_symbol, same_source) = fetch_price-same symbol source url call e in
        let others = fetch_all-All (λ s r. is_for symbol source s r ≡ false) cryptos h in
        let here =
          told-all call (fetch_all host logs cryptos).0 (rw (same_symbol, same_source) others) in
        rw (e, fetch_all) (here, rest)
    entry-Distinct symbol source url cryptos (failed error) e h rest =
        elim (Bool-cases (converts logs symbol && converts logs source)) [
          | inl text ↦ rw (e, fetch_all) (rw text rest)
          | inr not_text ↦ rw (e, fetch_all) (rw not_text tt)
        ]
    entry-Distinct symbol source url cryptos panicked e h rest = rw (e, fetch_all) tt

    fetch_all-Distinct :
        (cryptos : List (Bytes × Bytes × Bytes))
        → Apart cryptos
        → Distinct (map (told codec block) (fetch_all host logs cryptos).0)
    unfolding fetch_all
    fetch_all-Distinct [] h = tt
    fetch_all-Distinct ((symbol, source, url) ∷ cryptos) h =
        entry-Distinct symbol source url cryptos (fetch_price host logs (symbol, source, url)) refl
          h.0 (fetch_all-Distinct cryptos h.1)

    -- If the codec's encodings can be told apart, then whatever the sources answer, the pool is told a
    -- different thing of each of the calls that the worker's first task submits in a block: none takes
    -- the place of another.
    pub fetch_task-Distinct :
        (duration : ℕ) → Distinct (map (told codec block) (fetch_task host logs duration block).0)
    unfolding fetch_task
    fetch_task-Distinct duration = elim (Bool-cases (ltb 0 duration && block % duration == 0)) [
      | inl due ↦ rw due (fetch_all-Distinct fetched_cryptos fetched_cryptos-Apart)
      | inr not_due ↦ rw not_due tt
    ]
