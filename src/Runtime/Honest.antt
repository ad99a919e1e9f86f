-- ===== src/Runtime/Honest.antt =====
-- The price of the chain while nobody submits a price for `ETH` out of bounds: each extrinsic of the three
-- pallets, and a block of them.
use substrate_stablecoin.Prelude.{
  ℕ, ◌≤◌, ◌≡◌, ◌≢◌, refl, Bool, true, false, Option, none, some, List, [], ◌∷◌, ◌++◌, All, ◌==◌,
  Bool-cases, inl, inr, if◌then◌else◌, arith, Bytes, ascii, same_bytes, same_bytes-eq,
}
use substrate_stablecoin.Stablecoin.Types.{Env}
use substrate_stablecoin.Price
use substrate_stablecoin.PriceFetch
use substrate_stablecoin.PriceFetch.{
  Point, Error, conversion, bad_origin, get_price_for, converts, store_point, store_aggregate,
}
use substrate_stablecoin.Runtime.Blocks.{execute_block-keeps}
use substrate_stablecoin.Runtime.{
  Chain, Origin, signer, is_unsigned, Call, stablecoin, set_price, get_offchain_price, record_price,
  record_agg_pp, dispatch, execute_block,
}

abbrev pub eth : Bytes
eth = ascii "ETH"

module _ (low high : ℕ) where
  abbrev pub InBounds : ℕ → Type 0
  InBounds p = (low ≤ p) × (p ≤ high)

  -- An extrinsic that brings no price for `ETH` out of bounds.
  abbrev pub IsHonest : Origin × Call → Type 0
  IsHonest (origin, stablecoin call) = Unit
  IsHonest (origin, set_price new_price) = InBounds new_price
  IsHonest (origin, get_offchain_price) = Unit
  IsHonest (origin, record_price symbol source price) =
      is_unsigned origin ≡ true → same_bytes eth symbol ≡ true → InBounds price
  IsHonest (origin, record_agg_pp symbol price) =
      is_unsigned origin ≡ true → same_bytes eth symbol ≡ true → InBounds price

  -- All that the chain stores of the price of `ETH`; an aggregated price of zero is none.
  pub record Within (p : Price.State) (f : PriceFetch.State) : Type 0 where
    pub price : InBounds p.price
    pub points : All (λ point. InBounds point.1) (f.src eth)
    pub agg : (f.agg eth).1 ≢ 0 → InBounds (f.agg eth).1

  set_price-Within :
      (origin : Option ℕ) (new_price : ℕ) (p : Price.State) (f : PriceFetch.State)
      → InBounds new_price
      → Within p f
      → Within (Price.set_price origin new_price p).1 f
  unfolding Price.set_price Price.put
  set_price-Within none new_price p f honest h = h
  set_price-Within (some who) new_price p f honest h = record {
    price = honest;
    points = h.points;
    agg = h.agg;
  }

  get_offchain_price-Within :
      (origin : Option ℕ) (p : Price.State) (f : PriceFetch.State)
      → Within p f
      → Within (Price.get_offchain_price origin (get_price_for eth f) p).1 f
  unfolding Price.get_offchain_price Price.put get_price_for
  get_offchain_price-Within none p f h = h
  get_offchain_price-Within (some who) p f h = elim (Bool-cases ((f.agg eth).1 == 0)) [
    | inl zero ↦ rw zero h
    | inr some_price ↦
        rw some_price (record { price = h.agg (ground arith); points = h.points; agg = h.agg })
  ]

  All-append-one :
      (xs : List Point) (x : Point)
      → All (λ point. InBounds point.1) xs
      → InBounds x.1
      → All (λ point. InBounds point.1) (xs ++ (x ∷ []))
  All-append-one [] x h b = (b, tt)
  All-append-one (y ∷ xs) x h b = (h.0, All-append-one xs x h.1 b)

  store_point-Within :
      (symbol source : Bytes) (price : ℕ) (p : Price.State) (f : PriceFetch.State)
      → (same_bytes eth symbol ≡ true → InBounds price)
      → Within p f
      → Within p (store_point symbol source price f)
  unfolding store_point
  store_point-Within symbol source price p f honest h = elim (Bool-cases (same_bytes eth symbol)) [
    | inl same ↦
        let at : eth ≡ symbol = same_bytes-eq eth symbol same in
        record {
          price = h.price;
          points =
              rw same
                (rw (← at) (All-append-one (f.src eth) (f.now, price) h.points (honest same)));
          agg = h.agg;
        }
    | inr other ↦ record { price = h.price; points = rw other h.points; agg = h.agg }
  ]

  store_aggregate-Within :
      (symbol : Bytes) (price : ℕ) (p : Price.State) (f : PriceFetch.State)
      → (same_bytes eth symbol ≡ true → InBounds price)
      → Within p f
      → Within p (store_aggregate symbol price f)
  unfolding store_aggregate
  store_aggregate-Within symbol price p f honest h = elim (Bool-cases (same_bytes eth symbol)) [
    | inl same ↦ record { price = h.price; points = rw same tt; agg = rw same (λ _. honest same) }
    | inr other ↦ record { price = h.price; points = rw other h.points; agg = rw other h.agg }
  ]

  module _ (env : Env) (logs : Bool) where
    record_price-Within :
        (unsigned : Bool) (symbol source : Bytes) (price : ℕ) (p : Price.State)
        (f : PriceFetch.State)
        → (unsigned ≡ true → same_bytes eth symbol ≡ true → InBounds price)
        → Within p f
        → Within p (PriceFetch.record_price logs unsigned symbol source price f).1
    unfolding PriceFetch.record_price
    record_price-Within unsigned symbol source price p f honest h =
        by_tests unsigned (converts logs symbol) (converts logs source) refl
      where
        by_tests :
            (u k l : Bool)
            → unsigned ≡ u
            → let out : PriceFetch.Outcome =
                if u
                then (if k
                    then (if l
                        then (none, store_point symbol source price f)
                        else (some conversion, f))
                    else (some conversion, f))
                else (some bad_origin, f) in
              Within p out.1
        by_tests true true true e = store_point-Within symbol source price p f (honest e) h
        by_tests true true false e = h
        by_tests true false l e = h
        by_tests false k l e = h

    record_agg_pp-Within :
        (unsigned : Bool) (symbol : Bytes) (price : ℕ) (p : Price.State) (f : PriceFetch.State)
        → (unsigned ≡ true → same_bytes eth symbol ≡ true → InBounds price)
        → Within p f
        → Within p (PriceFetch.record_agg_pp logs unsigned symbol price f).1
    unfolding PriceFetch.record_agg_pp
    record_agg_pp-Within unsigned symbol price p f honest h =
        by_tests (converts logs symbol) unsigned refl
      where
        by_tests :
            (k u : Bool)
            → unsigned ≡ u
            → let out : PriceFetch.Outcome =
                if k
                then (if u then (none, store_aggregate symbol price f) else (some bad_origin, f))
                else (some conversion, f) in
              Within p out.1
        by_tests true true e = store_aggregate-Within symbol price p f (honest e) h
        by_tests true false e = h
        by_tests false u e = h

    dispatch-Within :
        (origin : Origin) (call : Call) (c : Chain)
        → IsHonest (origin, call)
        → Within c.price c.fetch
        → let c' = (dispatch env logs origin call c).1 in Within c'.price c'.fetch
    unfolding dispatch
    dispatch-Within origin (stablecoin call) c honest h = h
    dispatch-Within origin (set_price new_price) c honest h =
        set_price-Within (signer origin) new_price c.price c.fetch honest h
    dispatch-Within origin get_offchain_price c honest h =
        get_offchain_price-Within (signer origin) c.price c.fetch h
    dispatch-Within origin (record_price symbol source price) c honest h =
        record_price-Within (is_unsigned origin) symbol source price c.price c.fetch honest h
    dispatch-Within origin (record_agg_pp symbol price) c honest h =
        record_agg_pp-Within (is_unsigned origin) symbol price c.price c.fetch honest h

    -- A block of honest extrinsics keeps all that is stored of the price within the bounds.
    pub execute_block-Within :
        (number now : ℕ) (extrinsics : List (Origin × Call)) (c c' : Chain)
        → All IsHonest extrinsics
        → Within c.price c.fetch
        → execute_block env logs number now extrinsics c ≡ some c'
        → Within c'.price c'.fetch
    execute_block-Within number now extrinsics c c' honest h e =
        execute_block-keeps env logs (λ c₁. Within c₁.price c₁.fetch) IsHonest dispatch-Within
          number now extrinsics c c' honest
          (λ c₁ h₁. record { price = h₁.price; points = h₁.points; agg = h₁.agg }) h e
