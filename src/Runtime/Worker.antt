-- ===== src/Runtime/Worker.antt =====
-- `OffchainWorkerApi` of runtime/src/lib.rs: the extrinsics that the offchain worker of price-fetch submits
-- after a block, and what they do when a later block contains them.
use substrate_stablecoin.Prelude.{
  ℕ, ◌%◌, ◌≡◌, ◌∙◌, ap, refl, Bool, true, ◌&&◌, List, [], ◌∷◌, ◌++◌, append_assoc, map, All, ltb,
  ◌==◌, if◌then◌else◌, Bool-cases, inl, inr, ◌≢◌, Bytes,
}
use substrate_stablecoin.Stablecoin.Types.{Env}
use substrate_stablecoin.PriceFetch
use substrate_stablecoin.PriceFetch.{converts, aggregate_all, run_records, run_aggregates}
use substrate_stablecoin.PriceFetch.Offchain.{
  Host, panicked, fetched_cryptos, fetch_price, fetch_task, offchain_worker,
}
use substrate_stablecoin.PriceFetch.Fetching.{successes, fetched_cryptos-IsText, fetch_task_lem}
use substrate_stablecoin.PriceFetch.Record
use substrate_stablecoin.PriceFetch.Record.{points_for, run_records_lem}
use substrate_stablecoin.PriceFetch.Tags.{fetch_all-All}
use substrate_stablecoin.PriceFetch.Worker.{
  is_in, has_points, average, calls_for, aggregate_all-calls, run_calls,
}
use substrate_stablecoin.Runtime.{
  Chain, Origin, unsigned, Call, record_price, end_of_error, dispatch, apply_extrinsics,
}
use substrate_stablecoin.Runtime.Sound.{end_of_error_ended}
use substrate_stablecoin.Runtime.Feed.{aggregate_extrinsics, apply-next, aggregates-run}

-- The unsigned extrinsics that the calls of the first task become.
abbrev pub record_extrinsics : List (Bytes × Bytes × Bytes × ℕ) → List (Origin × Call)
record_extrinsics calls = map (λ call. (unsigned, record_price call.0 call.1 call.3)) calls

-- Of both tasks, in the order in which they are submitted, and whether the worker came to its end.
unfoldable pub worker_extrinsics :
    Host
    → (logs : Bool) (duration block : ℕ) (symbols : List Bytes) → PriceFetch.State
    → List (Origin × Call) × Bool
unfolding offchain_worker
worker_extrinsics host logs duration block symbols s =
    let (records, aggregates, ends) = offchain_worker host logs duration block symbols s in
    (record_extrinsics records ++ aggregate_extrinsics aggregates, ends)

-- The calls without their URLs, which the chain does not read.
abbrev pub without_urls : List (Bytes × Bytes × Bytes × ℕ) → List (Bytes × Bytes × ℕ)
without_urls = map (λ call. (call.0, call.1, call.3))

-- What the first task submits at a block.
abbrev pub fetched_at : Host → (logs : Bool) (duration block : ℕ) → List (Bytes × Bytes × Bytes × ℕ)
fetched_at host logs duration block =
    if ltb 0 duration && block % duration == 0
    then successes (map (fetch_price host logs) fetched_cryptos)
    else []

-- What the worker's calls leave for a symbol: `read` is what the worker read, and `s` what its calls
-- run on.
pub record Fed (records : List (Bytes × Bytes × Bytes × ℕ)) (symbols : List Bytes)
    (read s s' : PriceFetch.State) (j : Bytes) : Type 0 where
  pub src : s'.src j ≡ (
      if is_in j symbols && has_points j read
      then []
      else s.src j ++ points_for s.now j (without_urls records))
  pub agg :
      s'.agg j ≡ (if is_in j symbols && has_points j read then (s.now, average j read) else s.agg j)
  pub now : s'.now ≡ s.now

module _ (env : Env) (logs : Bool) where
  records-run :
      (calls : List (Bytes × Bytes × Bytes × ℕ)) (rest : List (Origin × Call)) (c : Chain)
      → apply_extrinsics env logs (record_extrinsics calls ++ rest) c
        ≡ apply_extrinsics env logs rest
            (record c { fetch = run_records logs (without_urls calls) c.fetch })
  unfolding dispatch run_records
  records-run [] rest c = refl
  records-run ((symbol, source, url, price) ∷ calls) rest c =
      let (error, fetch) = PriceFetch.record_price logs true symbol source price c.fetch in
      apply-next env logs unsigned (record_price symbol source price)
        (record_extrinsics calls ++ rest) c (record c { fetch = fetch }) (end_of_error error) refl
        (end_of_error_ended error)
      ∙ records-run calls rest (record c { fetch = fetch })

  -- The calls of the first task are text.
  fetched-IsText :
      (host : Host) (duration block : ℕ)
      → All
          (λ call. Record.IsText logs (call.0, call.1, call.3))
          (fetch_task host logs duration block).0
  unfolding fetch_task
  fetched-IsText host duration block = elim (Bool-cases (ltb 0 duration && block % duration == 0)) [
    | inl due ↦ rw due (
        fetch_all-All host logs
          (λ symbol source. (converts logs symbol ≡ true) × (converts logs source ≡ true))
          fetched_cryptos (fetched_cryptos-IsText logs))
    | inr not_due ↦ rw not_due tt
  ]

  without_urls-IsText :
      (calls : List (Bytes × Bytes × Bytes × ℕ))
      → All (λ call. Record.IsText logs (call.0, call.1, call.3)) calls
      → All (Record.IsText logs) (without_urls calls)
  without_urls-IsText [] h = tt
  without_urls-IsText (call ∷ calls) h = (h.0, without_urls-IsText calls h.1)

  -- Records, then the aggregates of what the worker read.
  calls-Fed :
      (records : List (Bytes × Bytes × Bytes × ℕ)) (symbols : List Bytes)
      (read s : PriceFetch.State) (j : Bytes)
      → All (Record.IsText logs) (without_urls records)
      → All (λ k. converts logs k ≡ true) symbols
      → Fed records symbols read s
          (run_aggregates logs (calls_for symbols read) (run_records logs (without_urls records) s))
          j
  calls-Fed records symbols read s j text symbols_text =
      let recorded = run_records logs (without_urls records) s in
      let (src, agg, now) = run_records_lem logs (without_urls records) s j text in
      let l = run_calls logs symbols read recorded j symbols_text in
      record {
        src =
            l.src ∙ ap (λ points. if is_in j symbols && has_points j read then [] else points) src;
        agg =
            l.agg
            ∙ ap
                (λ t.
                  if is_in j symbols && has_points j read
                  then (t, average j read)
                  else recorded.agg j)
                now
            ∙ ap
                (λ f. if is_in j symbols && has_points j read then (s.now, average j read) else f j)
                agg;
        now = l.now ∙ now;
      }

  -- What the worker submits, once its calls are known.
  worker_extrinsics-eq :
      (host : Host) (duration block : ℕ) (symbols : List Bytes) (read : PriceFetch.State)
      → All (λ crypto. fetch_price host logs crypto ≢ panicked) fetched_cryptos
      → ((call : Bytes × ℕ) → host.accepts_aggregate call ≡ true)
      → worker_extrinsics host logs duration block symbols read ≡ (
        record_extrinsics (fetched_at host logs duration block)
            ++ aggregate_extrinsics (calls_for symbols read),
        true,
      )
  unfolding worker_extrinsics offchain_worker
  worker_extrinsics-eq host duration block symbols read live accepted =
      rw
        (
          fetch_task_lem host logs duration block live,
          aggregate_all-calls logs host.accepts_aggregate symbols read accepted,
        )
        refl

  pub worker_extrinsics_lem :
      (host : Host) (duration block : ℕ) (symbols : List Bytes) (read : PriceFetch.State)
      (rest : List (Origin × Call)) (c : Chain)
      → All (λ crypto. fetch_price host logs crypto ≢ panicked) fetched_cryptos
      → ((call : Bytes × ℕ) → host.accepts_aggregate call ≡ true)
      → All (λ k. converts logs k ≡ true) symbols
      → let (extrinsics, ends) = worker_extrinsics host logs duration block symbols read in
        (ends ≡ true)
        × ((s' : PriceFetch.State) × (apply_extrinsics env logs (extrinsics ++ rest) c
              ≡ apply_extrinsics env logs rest (record c { fetch = s' }))
            × ((j : Bytes) → Fed (fetched_at host logs duration block) symbols read c.fetch s' j))
  worker_extrinsics_lem host duration block symbols read rest c live accepted text =
      let records = fetched_at host logs duration block in
      let calls = calls_for symbols read in
      let recorded = run_records logs (without_urls records) c.fetch in
      let same = fetch_task_lem host logs duration block live in
      let records_text : All (λ call. Record.IsText logs (call.0, call.1, call.3)) records =
        rw same at (fetched-IsText host duration block) in
      rw
        (
          worker_extrinsics-eq host duration block symbols read live accepted,
          append_assoc (record_extrinsics records) (aggregate_extrinsics calls) rest,
        )
        (
          refl,
          (
            run_aggregates logs calls recorded,
            records-run records (aggregate_extrinsics calls ++ rest) c
                ∙ aggregates-run env logs calls rest (record c { fetch = recorded }),
            λ j.
                calls-Fed records symbols read c.fetch j (without_urls-IsText records records_text)
                  text,
          ),
        )
