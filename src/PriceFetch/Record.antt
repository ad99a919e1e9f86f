-- ===== src/PriceFetch/Record.antt =====
-- What a sequence of `record_price` calls leaves on chain.
use substrate_stablecoin.Prelude.{
  ℕ, ◌≡◌, ◌∙◌, sym, ap, refl, Bool, true, List, [], ◌∷◌, ◌++◌, append_assoc, append-nil, All,
  Bool-cases, inl, inr, if◌then◌else◌, Bytes, same_bytes, same_bytes-eq,
}
use substrate_stablecoin.PriceFetch.{Point, State, store_point, converts, record_price, run_records}

-- The points that the calls bring for one symbol, in their order.
abbrev pub points_for : (moment : ℕ) → Bytes → List (Bytes × Bytes × ℕ) → List Point
points_for moment j [] = []
points_for moment j ((symbol, source, price) ∷ calls) =
    let rest = points_for moment j calls in
    if same_bytes j symbol then (moment, price) ∷ rest else rest

module _ (logs : Bool) where
  abbrev pub IsText : Bytes × Bytes × ℕ → Type 0
  IsText (symbol, source, price) = (converts logs symbol ≡ true) × (converts logs source ≡ true)

  record-one :
      (symbol source : Bytes) (price : ℕ) (calls : List (Bytes × Bytes × ℕ)) (s : State)
      → IsText (symbol, source, price)
      → run_records logs ((symbol, source, price) ∷ calls) s
        ≡ run_records logs calls (store_point symbol source price s)
  unfolding run_records record_price
  record-one symbol source price calls s (h, k) = rw (h, k) refl

  store_point-src :
      (symbol source : Bytes) (price : ℕ) (s : State) (j : Bytes)
      → (store_point symbol source price s).src j
        ≡ s.src j ++ (if same_bytes j symbol then (s.now, price) ∷ [] else [])
  unfolding store_point
  store_point-src symbol source price s j = elim (Bool-cases (same_bytes j symbol)) [
    | inl same ↦ rw (same, same_bytes-eq j symbol same) refl
    | inr other ↦ rw other (sym (append-nil (s.src j)))
  ]

  store_point-now :
      (symbol source : Bytes) (price : ℕ) (s : State)
      → ((store_point symbol source price s).now ≡ s.now)
        × ((store_point symbol source price s).agg ≡ s.agg)
  unfolding store_point
  store_point-now symbol source price s = (refl, refl)

  -- Unsigned calls whose symbols and sources convert to text add, for each symbol, exactly the prices
  -- that were submitted for it, with the present time and in their order, after those that were there;
  -- no aggregated price changes.
  pub run_records_lem :
      (calls : List (Bytes × Bytes × ℕ)) (s : State) (j : Bytes)
      → All IsText calls
      → let s' = run_records logs calls s in
        (s'.src j ≡ s.src j ++ points_for s.now j calls) × (s'.agg ≡ s.agg) × (s'.now ≡ s.now)
  unfolding run_records
  run_records_lem [] s j h = (sym (append-nil (s.src j)), refl, refl)
  run_records_lem ((symbol, source, price) ∷ calls) s j h =
      let s₁ = store_point symbol source price s in
      let (src, agg, now) = run_records_lem calls s₁ j h.1 in
      let (now₁, agg₁) = store_point-now symbol source price s in
      let here = store_point-src symbol source price s j in
      let first =
        src
        ∙ ap (λ xs. xs ++ points_for s₁.now j calls) here
        ∙ append_assoc (s.src j) (if same_bytes j symbol then (s.now, price) ∷ [] else [])
            (points_for s₁.now j calls) in
      rw (record-one symbol source price calls s h.0) (
        elim (Bool-cases (same_bytes j symbol)) [
          | inl same ↦ rw same (rw (same, now₁) at first)
          | inr other ↦ rw other (rw (other, now₁) at first)
        ],
        agg ∙ agg₁,
        now ∙ now₁,
      )
