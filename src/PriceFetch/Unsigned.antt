-- ===== src/PriceFetch/Unsigned.antt =====
-- `ValidateUnsigned` of pallets/price-fetch/src/lib.rs: what the transaction pool is told of an unsigned
-- call. The encoding of the codec crate is a parameter.
use substrate_stablecoin.Prelude.{
  ℕ, ◌≡◌, ap, Option, none, some, List, [], ◌∷◌, Bool, true, u64_max, Bytes,
}

-- The calls of the pallet; `other` stands for what `decl_module` adds to the enum.
pub data Call : Type 0 where
  record_price : (block : ℕ) (symbol source url : Bytes) (price : ℕ) → Call
  record_agg_pp : (block : ℕ) (symbol : Bytes) (price : ℕ) → Call
  other : Call

pub record ValidTransaction : Type 0 where
  pub priority : ℕ
  pub requires : List Bytes
  pub provides : List Bytes
  pub longevity : ℕ
  pub propagate : Bool

-- `encode` on the two tuples that the tags are made of.
pub record Codec : Type 0 where
  pub encode_record : ℕ × Bytes × Bytes × ℕ → Bytes
  pub encode_aggregate : ℕ × Bytes × ℕ → Bytes

-- `TransactionLongevity` is a `u64`.
abbrev providing : Bytes → ValidTransaction
providing tag = record {
  priority = 0;
  requires = [];
  provides = tag ∷ [];
  longevity = u64_max;
  propagate = true;
}

-- `none` is `InvalidTransaction::Call`.
unfoldable pub validate_unsigned : Codec → Call → Option ValidTransaction
validate_unsigned codec (record_price block symbol source url price) =
    some (providing (codec.encode_record (block, symbol, source, price)))
validate_unsigned codec (record_agg_pp block symbol price) =
    some (providing (codec.encode_aggregate (block, symbol, price)))
validate_unsigned codec other = none

-- The codec crate's encoding can be decoded: equal bytes come from equal values.
pub record CodecLaws (codec : Codec) : Type 0 where
  pub record_injective :
      (a b : ℕ × Bytes × Bytes × ℕ) → codec.encode_record a ≡ codec.encode_record b → a ≡ b
  pub aggregate_injective :
      (a b : ℕ × Bytes × ℕ) → codec.encode_aggregate a ≡ codec.encode_aggregate b → a ≡ b

head_tag : Option ValidTransaction → Bytes
head_tag none = []
head_tag (some t) = first t.provides
  where
    first : List Bytes → Bytes
    first [] = []
    first (tag ∷ tags) = tag

-- Two `record_price` calls whose transactions the pool cannot tell apart, as both provide the same tags,
-- are for the same block, symbol, source and price; they may differ in the URL.
pub validate_unsigned_lem :
    (codec : Codec) (block block' : ℕ) (symbol symbol' source source' url url' : Bytes)
    (price price' : ℕ)
    → CodecLaws codec
    → validate_unsigned codec (record_price block symbol source url price)
      ≡ validate_unsigned codec (record_price block' symbol' source' url' price')
    → (block ≡ block') × (symbol ≡ symbol') × (source ≡ source') × (price ≡ price')
unfolding validate_unsigned head_tag
validate_unsigned_lem codec block block' symbol symbol' source source' url url' price price' laws
      e =
    let same =
      laws.record_injective (block, symbol, source, price) (block', symbol', source', price')
        (ap head_tag e) in
    (ap (λ t. t.0) same, ap (λ t. t.1) same, ap (λ t. t.2) same, ap (λ t. t.3) same)
