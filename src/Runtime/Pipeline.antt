-- ===== src/Runtime/Pipeline.antt =====
-- A price on its whole way: fetched by the offchain worker after one block, recorded in a second, averaged
-- by the worker after it, and taken over by the price pallet in a third.
use substrate_stablecoin.Prelude.{
  ℕ, ◌≤◌, ◌<◌, ◌≡◌, ◌≢◌, ◌∙◌, ap, refl, Bool, true, false, ◌&&◌, some, List, [], ◌∷◌, ◌++◌,
  append-nil, All, length, if◌then◌else◌, arith, u64_mod, Bytes, ascii,
}
use substrate_stablecoin.Stablecoin.Types.{Env}
use substrate_stablecoin.Stablecoin.Types
use substrate_stablecoin.Stablecoin.Block.{on_initialize}
use substrate_stablecoin.Stablecoin.Sound.{IsSound}
use substrate_stablecoin.Stablecoin.Sound.Block.{on_initialize-IsSound}
use substrate_stablecoin.Price.{fetch_price}
use substrate_stablecoin.PriceFetch
use substrate_stablecoin.PriceFetch.{Point, converts}
use substrate_stablecoin.PriceFetch.Offchain
use substrate_stablecoin.PriceFetch.Offchain.{Host, panicked, fetched_cryptos}
use substrate_stablecoin.PriceFetch.Average.{prices}
use substrate_stablecoin.PriceFetch.Record.{points_for}
use substrate_stablecoin.PriceFetch.Worker.{is_in, has_points, average}
use substrate_stablecoin.Runtime.{
  Chain, Origin, signed, Call, get_offchain_price, initialize_block, apply_extrinsics,
  execute_block,
}
use substrate_stablecoin.Runtime.Sound.{IsSound-at}
use substrate_stablecoin.Runtime.Feed.{average_bounds, takes_over}
use substrate_stablecoin.Runtime.Worker.{
  worker_extrinsics, fetched_at, without_urls, Fed, worker_extrinsics_lem,
}

-- What a source of prices must do for a worker to come to its end: a host that makes it panic nowhere
-- and takes its aggregates.
pub record IsLive (host : Host) (logs : Bool) (symbols : List Bytes) : Type 0 where
  pub answers : All (λ crypto. Offchain.fetch_price host logs crypto ≢ panicked) fetched_cryptos
  pub accepts : (call : Bytes × ℕ) → host.accepts_aggregate call ≡ true
  pub text : All (λ k. converts logs k ≡ true) symbols

-- The points of `ETH` that a run of the worker brings.
abbrev pub answers : Host → (logs : Bool) (duration block now : ℕ) → List Point
answers host logs duration block now =
    points_for now (ascii "ETH") (without_urls (fetched_at host logs duration block))

module _ (env : Env) (logs : Bool) (freq : 0 < env.adjustment_frequency)
    (unit : 0 < env.base_unit) where
  -- A block on a sound chain: the start of it writes the stablecoin only, and its extrinsics follow.
  block-runs :
      (number now : ℕ) (extrinsics : List (Origin × Call)) (c : Chain)
      → IsSound env c.stablecoin
      → (s : Types.State) × IsSound env s
        × (execute_block env logs number now extrinsics c
            ≡ apply_extrinsics env logs extrinsics
                (record c { stablecoin = s; fetch = record c.fetch { now = now } }))
  unfolding execute_block initialize_block
  block-runs number now extrinsics c h =
      let at_number = record c.stablecoin { block_number = number } in
      let price = fetch_price c.price in
      let (r, sound) =
        on_initialize-IsSound env number price at_number freq unit
          (IsSound-at env number c.stablecoin h) in
      (
        (on_initialize env number price at_number).1,
        sound,
        rw (r, execute_block, initialize_block) refl,
      )

  -- A block that contains the worker's calls, and others after them.
  worker_block-runs :
      (host : Host) (duration block : ℕ) (symbols : List Bytes) (read : PriceFetch.State)
      (number now : ℕ) (rest : List (Origin × Call)) (c : Chain)
      → IsLive host logs symbols
      → IsSound env c.stablecoin
      → (s : Types.State) × (fed : PriceFetch.State) × IsSound env s
        × ((j : Bytes)
            → Fed
                (fetched_at host logs duration block)
                symbols
                read
                (record c.fetch { now = now })
                fed
                j)
        × (execute_block env logs number now
              ((worker_extrinsics host logs duration block symbols read).0 ++ rest)
              c
            ≡ apply_extrinsics env logs rest (record c { stablecoin = s; fetch = fed }))
  worker_block-runs host duration block symbols read number now rest c live h =
      let extrinsics = (worker_extrinsics host logs duration block symbols read).0 in
      let (s, sound, runs) = block-runs number now (extrinsics ++ rest) c h in
      let at_now = record c { stablecoin = s; fetch = record c.fetch { now = now } } in
      let (_, (fed, applied, each)) =
        worker_extrinsics_lem env logs host duration block symbols read rest at_now live.answers
          live.accepts live.text in
      (s, fed, sound, each, runs ∙ applied)

  no_points : (j : Bytes) (s : PriceFetch.State) → s.src j ≡ [] → has_points j s ≡ false
  no_points j s e = rw e refl

  -- Without waiting points a symbol gets what was fetched for it; with some, their average.
  Fed-fresh :
      (records : List (Bytes × Bytes × Bytes × ℕ)) (symbols : List Bytes) (s : PriceFetch.State)
      (now : ℕ) (fed : PriceFetch.State) (j : Bytes)
      → s.src j ≡ []
      → Fed records symbols s (record s { now = now }) fed j
      → fed.src j ≡ points_for now j (without_urls records)
  Fed-fresh records symbols s now fed j e f = f.src ∙ none_waiting (is_in j symbols)
    where
      none_waiting :
          (b : Bool)
          → (if b && has_points j s then [] else s.src j ++ points_for now j (without_urls records))
            ≡ points_for now j (without_urls records)
      none_waiting true = rw (no_points j s e) (rw e refl)
      none_waiting false = rw e refl

  -- On a sound chain where no points wait for `ETH`, let the worker run after block `d` with a live host
  -- whose answers for `ETH`, at least one of them, lie between two bounds above zero and have a sum
  -- that fits, and its calls make up the next block; and let the worker run again, on any live host,
  -- meeting `ETH`, and its calls, with a signed `get_offchain_price`, make up the block after that.
  -- Then both blocks run to their ends, the price that the stablecoin is given is between the two
  -- bounds, and the stablecoin is sound.
  pub host_price-between :
      (host host' : Host) (duration d number₁ now₁ number₂ now₂ who low high : ℕ)
      (symbols symbols' : List Bytes) (c : Chain)
      → IsSound env c.stablecoin
      → c.fetch.src (ascii "ETH") ≡ []
      → IsLive host logs symbols
      → IsLive host' logs symbols'
      → is_in (ascii "ETH") symbols' ≡ true
      → 0 < low
      → 0 < length (answers host logs duration d now₁)
      → prices (answers host logs duration d now₁) < u64_mod
      → All (λ point. (low ≤ point.1) × (point.1 ≤ high)) (answers host logs duration d now₁)
      → let x₁ = (worker_extrinsics host logs duration d symbols c.fetch).0 in
        (c₁ : Chain) × (execute_block env logs number₁ now₁ x₁ c ≡ some c₁)
        × (let x₂ = (worker_extrinsics host' logs duration number₁ symbols' c₁.fetch).0 in
            let x₂' = x₂ ++ (signed who, get_offchain_price) ∷ [] in
            (c₂ : Chain) × (execute_block env logs number₂ now₂ x₂' c₁ ≡ some c₂)
            × (low ≤ fetch_price c₂.price)
            × (fetch_price c₂.price ≤ high)
            × IsSound env c₂.stablecoin)
  unfolding apply_extrinsics
  host_price-between host host' duration d number₁ now₁ number₂ now₂ who low high symbols symbols' c
        h empty live live' here pos some_answer small within =
      let eth = ascii "ETH" in
      let x₁ = (worker_extrinsics host logs duration d symbols c.fetch).0 in
      let (s₁, fed₁, sound₁, each₁, runs₁) =
        worker_block-runs host duration d symbols c.fetch number₁ now₁ [] c live h in
      let c₁ = record c { stablecoin = s₁; fetch = fed₁ } in
      let points =
        Fed-fresh (fetched_at host logs duration d) symbols c.fetch now₁ fed₁ eth empty
          (each₁ eth) in
      let some_points : 0 < length (fed₁.src eth) = rw points some_answer in
      let (below, above) =
        average_bounds eth low high fed₁ some_points (rw points small) (rw points within) in
      let (s₂, fed₂, sound₂, each₂, runs₂) =
        worker_block-runs host' duration number₁ symbols' fed₁ number₂ now₂
          ((signed who, get_offchain_price) ∷ []) c₁ live' sound₁ in
      let full : has_points eth fed₁ ≡ true = ground arith in
      let stored : (fed₂.agg eth).1 ≡ average eth fed₁ =
        ap (λ p. p.1) (rw (here, full) at (each₂ eth).agg) in
      let (c₂, taken, served, same) =
        takes_over env logs who (record c₁ { stablecoin = s₂; fetch = fed₂ })
          (λ z. omega (arith, z, stored, below)) in
      (
        c₁,
        rw append-nil at runs₁,
        (
          c₂,
          runs₂ ∙ taken,
          omega (arith, served, stored, below),
          omega (arith, served, stored, above),
          rw same sound₂,
        ),
      )
