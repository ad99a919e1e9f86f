-- ===== src/PriceFetch/Worker.antt =====
-- The worker's aggregation, once the calls that it submits have run.
use mathlib.Core.Path.{subst}
use substrate_stablecoin.Prelude.{
  ℕ, ◌/◌, ◌≡◌, ◌∙◌, sym, refl, Bool, true, false, ◌&&◌, ◌||◌, List, [], ◌∷◌, All, length, ltb,
  arith, Bool-cases, inl, inr, ◌==◌, if◌then◌else◌, Bytes, same_bytes, same_bytes_refl,
  same_bytes-eq,
}
use substrate_stablecoin.PriceFetch.{
  Point, State, price_sum, store_aggregate, aggregate_all, converts, record_agg_pp, run_aggregates,
}

abbrev pub is_in : Bytes → List Bytes → Bool
is_in j [] = false
is_in j (k ∷ ks) = same_bytes j k || is_in j ks

abbrev pub has_points : Bytes → State → Bool
has_points j s = ltb 0 (length (s.src j))

abbrev pub average : Bytes → State → ℕ
average j s = price_sum 0 (s.src j) / length (s.src j)

-- The calls for the symbols that have points, in their order.
abbrev pub calls_for : List Bytes → State → List (Bytes × ℕ)
calls_for [] s = []
calls_for (k ∷ ks) s =
    let rest = calls_for ks s in if has_points k s then (k, average k s) ∷ rest else rest

and-false : (b : Bool) → (b && false) ≡ false
and-false true = refl
and-false false = refl

-- A symbol without points has none to remove.
no_points-src :
    (ks : List Bytes) (s : State) (j : Bytes)
    → (if is_in j ks && has_points j s then [] else s.src j) ≡ (if is_in j ks then [] else s.src j)
no_points-src ks s j = no_points (is_in j ks) (s.src j)
  where
    no_points :
        (b : Bool) (points : List Point)
        → (if b && ltb 0 (length points) then [] else points) ≡ (if b then [] else points)
    no_points false points = refl
    no_points true [] = refl
    no_points true (x ∷ points) = ground arith

-- What the calls leave for one symbol.
pub record Leaves (ks : List Bytes) (s₀ : State) (j : Bytes) (s s' : State) : Type 0 where
  pub src : s'.src j ≡ (if is_in j ks && has_points j s₀ then [] else s.src j)
  pub agg : s'.agg j ≡ (if is_in j ks && has_points j s₀ then (s.now, average j s₀) else s.agg j)
  pub now : s'.now ≡ s.now

module _ (logs : Bool) where
  pub aggregate_all-calls :
      (accepts : Bytes × ℕ → Bool) (ks : List Bytes) (s : State)
      → ((call : Bytes × ℕ) → accepts call ≡ true)
      → aggregate_all logs accepts ks s ≡ (calls_for ks s, true)
  unfolding aggregate_all
  aggregate_all-calls accepts [] s all = refl
  aggregate_all-calls accepts (k ∷ ks) s all = elim (Bool-cases (length (s.src k) == 0)) [
    | inl none ↦
        let empty : has_points k s ≡ false = ground arith in
        rw (none, empty, aggregate_all-calls accepts ks s all) refl
    | inr some_points ↦
        let full : has_points k s ≡ true = ground arith in
        rw (some_points, full, all (k, average k s), aggregate_all-calls accepts ks s all) refl
  ]

  run-store :
      (k : Bytes) (price : ℕ) (calls : List (Bytes × ℕ)) (s : State)
      → converts logs k ≡ true
      → run_aggregates logs ((k, price) ∷ calls) s
        ≡ run_aggregates logs calls (store_aggregate k price s)
  unfolding run_aggregates record_agg_pp
  run-store k price calls s h = rw h refl

  store-same :
      (k : Bytes) (ks : List Bytes) (s₀ s s' : State)
      → has_points k s₀ ≡ true
      → Leaves ks s₀ k (store_aggregate k (average k s₀) s) s'
      → Leaves (k ∷ ks) s₀ k s s'
  unfolding store_aggregate
  store-same k ks s₀ s s' p l =
      let same = same_bytes_refl k in
      elim (Bool-cases (is_in k ks)) [
        | inl here ↦ record {
          src = rw (same, p) (rw (same, here, p) at l.src);
          agg = rw (same, p) (rw (same, here, p) at l.agg);
          now = l.now;
        }
        | inr not_here ↦ record {
          src = rw (same, p) (rw (same, not_here) at l.src);
          agg = rw (same, p) (rw (same, not_here) at l.agg);
          now = l.now;
        }
      ]

  store-here :
      (k : Bytes) (ks : List Bytes) (s₀ s s' : State) (j : Bytes)
      → has_points k s₀ ≡ true
      → Leaves ks s₀ j (store_aggregate k (average k s₀) s) s'
      → Leaves (k ∷ ks) s₀ j s s'
  unfolding store_aggregate
  store-here k ks s₀ s s' j p l = elim (Bool-cases (same_bytes j k)) [
    | inl same ↦
        subst
          (λ i. Leaves ks s₀ i (store_aggregate k (average k s₀) s) s' → Leaves (k ∷ ks) s₀ i s s')
          (sym (same_bytes-eq j k same)) (store-same k ks s₀ s s' p) l
    | inr other ↦ record {
      src = rw other (rw other at l.src);
      agg = rw other (rw other at l.agg);
      now = l.now;
    }
  ]

  skip-here :
      (k : Bytes) (ks : List Bytes) (s₀ s s' : State) (j : Bytes)
      → has_points k s₀ ≡ false
      → Leaves ks s₀ j s s'
      → Leaves (k ∷ ks) s₀ j s s'
  skip-here k ks s₀ s s' j p l = elim (Bool-cases (same_bytes j k)) [
    | inl same ↦
        let none_here : has_points j s₀ ≡ false = rw (same_bytes-eq j k same) p in
        let drop = and-false (is_in j ks) in
        record {
          src = rw (none_here, and-false (is_in j (k ∷ ks))) (rw (none_here, drop) at l.src);
          agg = rw (none_here, and-false (is_in j (k ∷ ks))) (rw (none_here, drop) at l.agg);
          now = l.now;
        }
    | inr other ↦ record { src = rw other l.src; agg = rw other l.agg; now = l.now }
  ]

  pub run_calls :
      (ks : List Bytes) (s₀ s : State) (j : Bytes)
      → All (λ k. converts logs k ≡ true) ks
      → Leaves ks s₀ j s (run_aggregates logs (calls_for ks s₀) s)
  unfolding run_aggregates
  run_calls [] s₀ s j h = record { src = refl; agg = refl; now = refl }
  run_calls (k ∷ ks) s₀ s j h = elim (Bool-cases (has_points k s₀)) [
    | inl p ↦
        rw (p, run-store k (average k s₀) (calls_for ks s₀) s h.0)
          (store-here k ks s₀ s _ j p (run_calls ks s₀ (store_aggregate k (average k s₀) s) j h.1))
    | inr p ↦ rw p (skip-here k ks s₀ s _ j p (run_calls ks s₀ s j h.1))
  ]

  -- If every symbol that the worker meets converts to text and every call that it submits is accepted,
  -- the worker's aggregation runs to its end, and its calls, run on the state that it read, give each of
  -- these symbols that had points the sum of their prices, which may wrap, divided by their number, at
  -- the present time, and leave it none of them; every other symbol stays as it was.
  pub aggregate_all_lem :
      (accepts : Bytes × ℕ → Bool) (symbols : List Bytes) (s : State) (symbol : Bytes)
      → ((call : Bytes × ℕ) → accepts call ≡ true)
      → All (λ k. converts logs k ≡ true) symbols
      → let (calls, ends) = aggregate_all logs accepts symbols s in
        let s' = run_aggregates logs calls s in
        (ends ≡ true)
        × (s'.src symbol ≡ (if is_in symbol symbols then [] else s.src symbol))
        × (s'.agg symbol ≡ (
            if is_in symbol symbols && has_points symbol s
            then (s.now, average symbol s)
            else s.agg symbol))
  aggregate_all_lem accepts symbols s j all h =
      let l = run_calls symbols s s j h in
      rw (aggregate_all-calls accepts symbols s all)
        (refl, l.src ∙ no_points-src symbols s j, l.agg)
