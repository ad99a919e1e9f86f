-- ===== src/Runtime/Feed.antt =====
-- How a price gets from the stored points to the stablecoin: the worker's aggregation, and the call that
-- takes the aggregated price over.
use substrate_stablecoin.Prelude.{
  ℕ, ◌≤◌, ◌<◌, ◌≡◌, ◌≢◌, ◌∙◌, ap, refl, Bool, true, false, some, List, [], ◌∷◌, ◌++◌, map, All,
  length, ◌==◌, arith, u64_mod, Bytes, ascii,
}
use substrate_stablecoin.Stablecoin.Types.{Env}
use substrate_stablecoin.Price
use substrate_stablecoin.Price.{fetch_price}
use substrate_stablecoin.PriceFetch
use substrate_stablecoin.PriceFetch.{
  aggregate_pp, aggregate_all, run_aggregates, converts, get_price_for,
}
use substrate_stablecoin.PriceFetch.Average.{prices, aggregate_pp-between}
use substrate_stablecoin.PriceFetch.Worker.{is_in, has_points, average, aggregate_all_lem}
use substrate_stablecoin.Runtime.{
  Chain, Origin, unsigned, signed, Call, record_agg_pp, get_offchain_price, End, succeeds, fails,
  panics, end_of_error, dispatch, apply_extrinsics,
}
use substrate_stablecoin.Runtime.Sound.{end_of_error_ended}

-- The unsigned extrinsics that the worker's calls become.
abbrev pub aggregate_extrinsics : List (Bytes × ℕ) → List (Origin × Call)
aggregate_extrinsics calls = map (λ call. (unsigned, record_agg_pp call.0 call.1)) calls

-- An average between two bounds, the lower of which is not zero.
pub average_bounds :
    (symbol : Bytes) (low high : ℕ) (s : PriceFetch.State)
    → 0 < length (s.src symbol)
    → prices (s.src symbol) < u64_mod
    → All (λ point. (low ≤ point.1) × (point.1 ≤ high)) (s.src symbol)
    → (low ≤ average symbol s) × (average symbol s ≤ high)
unfolding aggregate_pp
average_bounds symbol low high s some_points small h =
    let (price, e, below, above) = aggregate_pp-between symbol low high s some_points small h in
    let not_zero : (length (s.src symbol) == 0) ≡ false = ground arith in
    let same : average symbol s ≡ price = cc (rw not_zero at e) in rw same (below, above)

module _ (env : Env) (logs : Bool) where
  -- A call that does not panic is followed by the next.
  pub apply-next :
      (origin : Origin) (call : Call) (rest : List (Origin × Call)) (c c' : Chain) (end : End)
      → dispatch env logs origin call c ≡ (end, c')
      → end ≢ panics
      → apply_extrinsics env logs ((origin, call) ∷ rest) c ≡ apply_extrinsics env logs rest c'
  unfolding apply_extrinsics
  apply-next origin call rest c c' succeeds e ne = rw (e, apply_extrinsics) (rw e refl)
  apply-next origin call rest c c' fails e ne = rw (e, apply_extrinsics) (rw e refl)
  apply-next origin call rest c c' panics e ne = absurd (ne refl)

  pub aggregates-run :
      (calls : List (Bytes × ℕ)) (rest : List (Origin × Call)) (c : Chain)
      → apply_extrinsics env logs (aggregate_extrinsics calls ++ rest) c
        ≡ apply_extrinsics env logs rest (record c { fetch = run_aggregates logs calls c.fetch })
  unfolding dispatch run_aggregates
  aggregates-run [] rest c = refl
  aggregates-run ((symbol, price) ∷ calls) rest c =
      let (error, fetch) = PriceFetch.record_agg_pp logs true symbol price c.fetch in
      apply-next unsigned (record_agg_pp symbol price) (aggregate_extrinsics calls ++ rest) c
        (record c { fetch = fetch }) (end_of_error error) refl (end_of_error_ended error)
      ∙ aggregates-run calls rest (record c { fetch = fetch })

  pub takes_over :
      (who : ℕ) (c : Chain)
      → (c.fetch.agg (ascii "ETH")).1 ≢ 0
      → (c' : Chain) × (apply_extrinsics env logs ((signed who, get_offchain_price) ∷ []) c
          ≡ some c')
        × (fetch_price c'.price ≡ (c.fetch.agg (ascii "ETH")).1)
        × (c'.stablecoin ≡ c.stablecoin)
  unfolding apply_extrinsics dispatch Price.get_offchain_price get_price_for fetch_price Price.put
  takes_over who c ne =
      let price = (c.fetch.agg (ascii "ETH")).1 in
      let not_zero : (price == 0) ≡ false = ground arith in
      let served : get_price_for (ascii "ETH") c.fetch ≡ some price = rw not_zero refl in
      let c' = record c { price = Price.put price c.price } in
      let taken : dispatch env logs (signed who) get_offchain_price c ≡ (succeeds, c') =
        rw served refl in
      (
        c',
        apply-next (signed who) get_offchain_price [] c c' succeeds taken (λ e. cc e),
        refl,
        refl,
      )

  -- If the points of `ETH` lie between two bounds, the lower of which is not zero, and their sum does not
  -- overflow, and the symbols that the worker meets, `ETH` among them, convert to text and its calls are
  -- accepted, then a block with these calls, after which anyone signs `get_offchain_price`, runs to
  -- its end, the price that the stablecoin is then given lies between the two bounds, and the
  -- stablecoin's storage is as before.
  pub feed-between :
      (accepts : Bytes × ℕ → Bool) (symbols : List Bytes) (who low high : ℕ) (c : Chain)
      → ((call : Bytes × ℕ) → accepts call ≡ true)
      → All (λ k. converts logs k ≡ true) symbols
      → is_in (ascii "ETH") symbols ≡ true
      → 0 < low
      → 0 < length (c.fetch.src (ascii "ETH"))
      → prices (c.fetch.src (ascii "ETH")) < u64_mod
      → All (λ point. (low ≤ point.1) × (point.1 ≤ high)) (c.fetch.src (ascii "ETH"))
      → let calls = (aggregate_all logs accepts symbols c.fetch).0 in
        let extrinsics = aggregate_extrinsics calls ++ (signed who, get_offchain_price) ∷ [] in
        (c' : Chain) × (apply_extrinsics env logs extrinsics c ≡ some c')
        × (low ≤ fetch_price c'.price)
        × (fetch_price c'.price ≤ high)
        × (c'.stablecoin ≡ c.stablecoin)
  feed-between accepts symbols who low high c all text here pos some_points small h =
      let eth = ascii "ETH" in
      let calls = (aggregate_all logs accepts symbols c.fetch).0 in
      let fed = record c { fetch = run_aggregates logs calls c.fetch } in
      let (_, _, agg) = aggregate_all_lem logs accepts symbols c.fetch eth all text in
      let full : has_points eth c.fetch ≡ true = ground arith in
      let price : (fed.fetch.agg eth).1 ≡ average eth c.fetch =
        ap (λ p. p.1) (rw (here, full) at agg) in
      let (below, above) = average_bounds eth low high c.fetch some_points small h in
      let (c', e, served, same) = takes_over who fed (λ z. omega (arith, z, price, below)) in
      (
        c',
        aggregates-run calls ((signed who, get_offchain_price) ∷ []) c ∙ e,
        omega (arith, served, price, below),
        omega (arith, served, price, above),
        same,
      )
