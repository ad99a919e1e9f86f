-- ===== src/Runtime/Lives.antt =====
-- The chain among its workers and users: what they submit waits, and blocks are made of what waits, in any
-- order.
use mathlib.Core.List.{Memᴰ}
use mathlib.Core.List.Memᴰ.{head, tail}
use mathlib.Core.Path.{subst}
use substrate_stablecoin.Prelude.{
  ℕ, ◌<◌, ◌≡◌, sym, refl, Bool, true, some, List, [], ◌∷◌, ◌++◌, All, All-append, ◌==◌, length,
  Bool-cases, inl, inr, arith, Bytes, same_bytes, same_bytes-eq, u64_mod,
}
use substrate_stablecoin.Stablecoin.Types.{Env}
use substrate_stablecoin.Stablecoin.Sound.{IsSound}
use substrate_stablecoin.Price.{fetch_price}
use substrate_stablecoin.PriceFetch
use substrate_stablecoin.PriceFetch.{aggregate_all, aggregate_pp}
use substrate_stablecoin.PriceFetch.Average.{prices}
use substrate_stablecoin.PriceFetch.Worker.{average}
use substrate_stablecoin.PriceFetch.Offchain.{Host, fetch_task, offchain_worker}
use substrate_stablecoin.Runtime.{Chain, Origin, signed, Call, execute_block}
use substrate_stablecoin.Runtime.Sound.{RunsTo-some, execute_block-RunsTo}
use substrate_stablecoin.Runtime.Feed.{aggregate_extrinsics, average_bounds}
use substrate_stablecoin.Runtime.Worker.{record_extrinsics, worker_extrinsics}
use substrate_stablecoin.Runtime.Honest.{eth, InBounds, IsHonest, Within, execute_block-Within}

-- A call with the average of its symbol's points.
abbrev pub IsAverage : PriceFetch.State → Bytes × ℕ → Type 0
IsAverage s call = (0 < length (s.src call.0)) × (call.1 ≡ average call.0 s)

module _ (logs : Bool) (s : PriceFetch.State) where
  -- Whatever is accepted, the worker's second task submits averages only.
  aggregate_all-IsAverage :
      (accepts : Bytes × ℕ → Bool) (ks : List Bytes)
      → All (IsAverage s) (aggregate_all logs accepts ks s).0
  unfolding aggregate_all aggregate_pp
  aggregate_all-IsAverage accepts [] = tt
  aggregate_all-IsAverage accepts (k ∷ ks) =
      let rest = aggregate_all-IsAverage accepts ks in
      elim (Bool-cases (length (s.src k) == 0)) [
        | inl empty ↦ rw empty rest
        | inr some_points ↦ rw some_points (elim (Bool-cases (accepts (k, average k s))) [
          | inl accepted ↦ rw accepted ((ground arith, refl), rest)
          | inr refused ↦ rw refused (elim (Bool-cases (PriceFetch.converts logs k)) [
            | inl text ↦ rw text rest
            | inr no_text ↦ rw no_text tt
          ])
        ])
      ]

module _ (low high : ℕ) where
  -- A price for `ETH` that a worker has fetched is within the bounds.
  abbrev pub AnswersWithin : Bytes × Bytes × Bytes × ℕ → Type 0
  AnswersWithin call = same_bytes eth call.0 ≡ true → InBounds low high call.3

  records-IsHonest :
      (calls : List (Bytes × Bytes × Bytes × ℕ))
      → All AnswersWithin calls
      → All (IsHonest low high) (record_extrinsics calls)
  records-IsHonest [] h = tt
  records-IsHonest (call ∷ calls) h = ((λ _. h.0), records-IsHonest calls h.1)

  aggregates-IsHonest :
      (s : PriceFetch.State) (calls : List (Bytes × ℕ))
      → All (λ point. InBounds low high point.1) (s.src eth)
      → prices (s.src eth) < u64_mod
      → All (IsAverage s) calls
      → All (IsHonest low high) (aggregate_extrinsics calls)
  aggregates-IsHonest s [] within small h = tt
  aggregates-IsHonest s ((symbol, price) ∷ calls) within small h = (
    λ _ same.
        subst (λ k. IsAverage s (k, price) → InBounds low high price)
          (same_bytes-eq eth symbol same) bounded h.0,
    aggregates-IsHonest s calls within small h.1,
  )
    where
      bounded : IsAverage s (eth, price) → InBounds low high price
      bounded (some_points, same) =
          let (below, above) = average_bounds eth low high s some_points small within in
          rw same (below, above)

module _ (low high : ℕ) (env : Env) (logs : Bool) where
  -- On a chain whose prices for `ETH` are within the bounds, and their sum fits, a worker whose
  -- sources' answers are within them submits honest extrinsics only.
  worker_extrinsics-IsHonest :
      (host : Host) (duration block : ℕ) (symbols : List Bytes) (c : Chain)
      → All (AnswersWithin low high) (fetch_task host logs duration block).0
      → Within low high c.price c.fetch
      → prices (c.fetch.src eth) < u64_mod
      → All (IsHonest low high) (worker_extrinsics host logs duration block symbols c.fetch).0
  unfolding worker_extrinsics offchain_worker
  worker_extrinsics-IsHonest host duration block symbols c answers h small =
      let (records, fetched_all) = fetch_task host logs duration block in
      let aggregates = (aggregate_all logs host.accepts_aggregate symbols c.fetch).0 in
      let first = records-IsHonest low high records answers in
      elim (Bool-cases fetched_all) [
        | inl all ↦ rw all (
            All-append (IsHonest low high) (record_extrinsics records)
              (aggregate_extrinsics aggregates) first
              (aggregates-IsHonest low high c.fetch aggregates h.points small
                (aggregate_all-IsAverage logs c.fetch host.accepts_aggregate symbols)))
        | inr not_all ↦
            rw not_all (All-append (IsHonest low high) (record_extrinsics records) [] first tt)
      ]

  -- What has become of a first chain, and what waits to be put into blocks: users have signed calls, workers
  -- have run on the chain of the time, and blocks have been made of what waits, of any of it and in
  -- any order. The users set no price out of the bounds, and the workers' sources answer within them.
  pub data Lives (first : Chain) : Chain → List (Origin × Call) → Type 1 where
    starts : Lives first first []
    signs :
        {c : Chain} {waiting : List (Origin × Call)} (who : ℕ) (call : Call)
        → IsHonest low high (signed who, call)
        → Lives first c waiting
        → Lives first c (waiting ++ ((signed who, call) ∷ []))
    works :
        {c : Chain} {waiting : List (Origin × Call)} (host : Host) (duration block : ℕ)
        (symbols : List Bytes)
        → All (AnswersWithin low high) (fetch_task host logs duration block).0
        → prices (c.fetch.src eth) < u64_mod
        → Lives first c waiting
        → Lives first c (waiting ++ (worker_extrinsics host logs duration block symbols c.fetch).0)
    executes :
        {c : Chain} {waiting : List (Origin × Call)} (number now : ℕ)
        (extrinsics : List (Origin × Call)) (c' : Chain)
        → All (λ x. Memᴰ x waiting) extrinsics
        → execute_block env logs number now extrinsics c ≡ some c'
        → Lives first c waiting
        → Lives first c' waiting

  IsHonest-member :
      (x : Origin × Call) {waiting : List (Origin × Call)}
      → Memᴰ x waiting
      → All (IsHonest low high) waiting
      → IsHonest low high x
  IsHonest-member x (head e) h = subst (IsHonest low high) (sym e) h.0
  IsHonest-member x (tail m) h = IsHonest-member x m h.1

  IsHonest-members :
      (waiting extrinsics : List (Origin × Call))
      → All (λ x. Memᴰ x waiting) extrinsics
      → All (IsHonest low high) waiting
      → All (IsHonest low high) extrinsics
  IsHonest-members waiting [] m h = tt
  IsHonest-members waiting (x ∷ extrinsics) m h =
      (IsHonest-member x m.0 h, IsHonest-members waiting extrinsics m.1 h)

  module _ (freq : 0 < env.adjustment_frequency) (unit : 0 < env.base_unit) (first : Chain)
      (sound : IsSound env first.stablecoin)
      (within : Within low high first.price first.fetch) where
    -- Whatever has become of the chain, it is sound and its price within the bounds, and what waits is honest.
    pub Lives-kept :
        {c : Chain} {waiting : List (Origin × Call)}
        → Lives first c waiting
        → IsSound env c.stablecoin
          × Within low high c.price c.fetch
          × All (IsHonest low high) waiting
    Lives-kept starts = (sound, within, tt)
    Lives-kept (signs {waiting = waiting} who call honest l) =
        let (s, w, all) = Lives-kept l in
        (s, w, All-append (IsHonest low high) waiting ((signed who, call) ∷ []) all (honest, tt))
    Lives-kept (works {c} {waiting} host duration block symbols answers small l) =
        let (s, w, all) = Lives-kept l in
        let submitted = (worker_extrinsics host logs duration block symbols c.fetch).0 in
        (
          s,
          w,
          All-append (IsHonest low high) waiting submitted all
              (worker_extrinsics-IsHonest host duration block symbols c answers w small),
        )
    Lives-kept (executes {c} {waiting} number now extrinsics c' m e l) =
        let (s, w, all) = Lives-kept l in
        let honest = IsHonest-members waiting extrinsics m all in
        (
          rw e at (execute_block-RunsTo env logs freq unit number now extrinsics c s),
          execute_block-Within low high env logs number now extrinsics c c' honest w e,
          all,
        )

    -- If the frequency and the base unit are not zero, the first chain is sound, all that it stores of the
    -- price of `ETH` is within two bounds, no user sets the price out of them, no source answers out of them, and
    -- the sum of the points fits whenever a worker runs, then whatever users and workers submit
    -- and however blocks are made of it, the price that the stablecoin is given stays within the
    -- bounds; and every next block that is made of what waits runs to its end, in a sound state with the
    -- price within the bounds.
    pub Lives-InBounds :
        {c : Chain} {waiting : List (Origin × Call)} (number now : ℕ)
        (extrinsics : List (Origin × Call))
        → Lives first c waiting
        → All (λ x. Memᴰ x waiting) extrinsics
        → InBounds low high (fetch_price c.price)
          × ((c' : Chain) × (execute_block env logs number now extrinsics c ≡ some c')
              × IsSound env c'.stablecoin
              × InBounds low high (fetch_price c'.price))
    unfolding fetch_price
    Lives-InBounds {c} number now extrinsics l m =
        let (s, w, all) = Lives-kept l in
        let (c', e, s') =
          RunsTo-some env (execute_block env logs number now extrinsics c)
            (execute_block-RunsTo env logs freq unit number now extrinsics c s) in
        let (_, w', _) = Lives-kept (executes number now extrinsics c' m e l) in
        (w.price, (c', e, s', w'.price))
