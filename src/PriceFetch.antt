-- ===== src/PriceFetch.antt =====
-- pallets/price-fetch/src/lib.rs: the price points that the chain stores for each token, and their
-- aggregation. `logs` tells whether the log lines are evaluated: a conversion of bytes to text stands in
-- their arguments, and its failure ends the call.
pub mod Average
pub mod Worker
pub mod Offchain
pub mod Record
pub mod Fetching
pub mod Answers
pub mod Unsigned
pub mod Tags
use substrate_stablecoin.Prelude.{
  ℕ, zero, suc, ◌+◌, ◌/◌, Bool, true, false, Option, none, some, List, [], ◌∷◌, ◌++◌, length, add64,
  ◌==◌, if◌then◌else◌, not, ◌||◌, Bytes, same_bytes, from_utf8,
}

-- `(T::Moment, u64)`.
abbrev pub Point : Type 0
Point = ℕ × ℕ

pub data Event : Type 0 where
  fetched_price : (symbol source : Bytes) (moment price : ℕ) → Event
  aggregated_price : (symbol : Bytes) (moment price : ℕ) → Event

pub data Error : Type 0 where
  bad_origin conversion : Error

-- `TokenSrcPPMap` and `TokenAggPPMap`, with what each answers for a missing key; the events, and the
-- time of the timestamp pallet.
pub record State : Type 0 where
  pub src : Bytes → List Point
  pub agg : Bytes → Point
  pub events : List Event
  pub now : ℕ

abbrev pub Outcome : Type 0
Outcome = Option Error × State

-- `insert` and `remove` on a map.
abbrev pub set {ℓ} : {A : Type ℓ} → (Bytes → A) → Bytes → A → Bytes → A
set f k v j = if same_bytes j k then v else f j

-- `FetchPriceFor::get_price_for`.
unfoldable pub get_price_for : Bytes → State → Option ℕ
get_price_for symbol s = let price = (s.agg symbol).1 in if price == 0 then none else some price

unfoldable pub store_point : (symbol source : Bytes) (price : ℕ) → State → State
store_point symbol source price s = record s {
  src = set s.src symbol (s.src symbol ++ ((s.now, price) ∷ []));
  events = s.events ++ (fetched_price symbol source s.now price ∷ []);
}

unfoldable pub store_aggregate : (symbol : Bytes) (price : ℕ) → State → State
store_aggregate symbol price s = record s {
  agg = set s.agg symbol (s.now, price);
  src = set s.src symbol [];
  events = s.events ++ (aggregated_price symbol s.now price ∷ []);
}

-- The fold that sums the prices, which wraps in a release build.
unfoldable pub price_sum : ℕ → List Point → ℕ
price_sum mem [] = mem
price_sum mem ((moment, price) ∷ points) = price_sum (add64 mem price) points

-- `aggregate_pp`: the symbol and the price of the call that it submits. No points are divided by, and
-- panic, which is `none`.
unfoldable pub aggregate_pp : Bytes → State → Option (Bytes × ℕ)
unfolding price_sum
aggregate_pp symbol s =
    let count = length (s.src symbol) in
    if count == 0 then none else some (symbol, price_sum 0 (s.src symbol) / count)

module _ (logs : Bool) where
  -- Whether a log line that converts these bytes lets the call go on.
  unfoldable pub converts : Bytes → Bool
  unfolding from_utf8
  converts b = not logs || from_utf8 b

  -- `unsigned` is what `ensure_none` asks of the origin.
  unfoldable pub record_price :
      (unsigned : Bool) (symbol source : Bytes) (price : ℕ) → State → Outcome
  unfolding store_point converts
  record_price unsigned symbol source price s =
      if unsigned
      then (if converts symbol
          then (if converts source
              then (none, store_point symbol source price s)
              else (some conversion, s))
          else (some conversion, s))
      else (some bad_origin, s)

  -- The log line comes before the test of the origin here.
  unfoldable pub record_agg_pp : (unsigned : Bool) (symbol : Bytes) (price : ℕ) → State → Outcome
  unfolding store_aggregate converts
  record_agg_pp unsigned symbol price s =
      if converts symbol
      then (if unsigned then (none, store_aggregate symbol price s) else (some bad_origin, s))
      else (some conversion, s)

  -- The submitted calls, run on chain one after the other.
  unfoldable pub run_aggregates : List (Bytes × ℕ) → State → State
  unfolding record_agg_pp
  run_aggregates [] s = s
  run_aggregates ((symbol, price) ∷ calls) s =
      run_aggregates calls (record_agg_pp true symbol price s).1

  unfoldable pub run_records : List (Bytes × Bytes × ℕ) → State → State
  unfolding record_price
  run_records [] s = s
  run_records ((symbol, source, price) ∷ calls) s =
      run_records calls (record_price true symbol source price s).1

  -- The second task of `offchain_worker`: the calls that are submitted, and whether it runs to its end.
  -- `symbols` are the keys in the order in which `iter` meets them. A call that `submit_unsigned`
  -- does not accept is logged, with the symbol as text; a conversion that fails there panics.
  unfoldable pub aggregate_all :
      (accepts : Bytes × ℕ → Bool) (symbols : List Bytes) → State → List (Bytes × ℕ) × Bool
  unfolding aggregate_pp converts
  aggregate_all accepts [] s = ([], true)
  aggregate_all accepts (symbol ∷ symbols) s =
      let (calls, ends) = aggregate_all accepts symbols s in
      if length (s.src symbol) == 0 then (calls, ends) else elim (aggregate_pp symbol s) [
        | none ↦ ([], false)
        | some call ↦
            if accepts call
            then (call ∷ calls, ends)
            else if converts symbol
            then (calls, ends)
            else ([], false)
      ]
