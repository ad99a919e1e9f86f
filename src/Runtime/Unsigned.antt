-- ===== src/Runtime/Unsigned.antt =====
-- Unsigned transactions in runtime/src/lib.rs: `validate_transaction` of `TaggedTransactionQueue` asks the one
-- pallet that `construct_runtime` lists with `ValidateUnsigned`, and what these do when they are dispatched.
use substrate_stablecoin.Prelude.{
  ℕ, ◌≡◌, refl, Bool, true, false, same_bytes, Option, none, some, Bytes,
}
use substrate_stablecoin.Stablecoin.Types.{Env}
use substrate_stablecoin.Stablecoin.Types
use substrate_stablecoin.Stablecoin.Monad.{err}
use substrate_stablecoin.Stablecoin.Calls
use substrate_stablecoin.Price
use substrate_stablecoin.PriceFetch
use substrate_stablecoin.PriceFetch.{converts}
use substrate_stablecoin.PriceFetch.Unsigned
use substrate_stablecoin.PriceFetch.Unsigned.{Codec, ValidTransaction}
use substrate_stablecoin.Runtime.{
  Chain, unsigned, Call, stablecoin, set_price, get_offchain_price, record_price, record_agg_pp,
  succeeds, fails, dispatch,
}

-- An unsigned call; `none` is a refusal. The block and the URL are those that the two calls of
-- price-fetch carry and that their dispatch does not read.
unfoldable pub validate_transaction :
    Codec → (block : ℕ) (url : Bytes) → Call → Option ValidTransaction
unfolding Unsigned.validate_unsigned
validate_transaction codec block url (stablecoin call) = none
validate_transaction codec block url (set_price new_price) = none
validate_transaction codec block url get_offchain_price = none
validate_transaction codec block url (record_price symbol source price) =
    Unsigned.validate_unsigned codec (Unsigned.record_price block symbol source url price)
validate_transaction codec block url (record_agg_pp symbol price) =
    Unsigned.validate_unsigned codec (Unsigned.record_agg_pp block symbol price)

-- The symbol and the source of a call are text, or log lines are not evaluated.
abbrev IsText : (logs : Bool) → Call → Type 0
IsText logs (stablecoin call) = Unit
IsText logs (set_price new_price) = Unit
IsText logs get_offchain_price = Unit
IsText logs (record_price symbol source price) =
    (converts logs symbol ≡ true) × (converts logs source ≡ true)
IsText logs (record_agg_pp symbol price) = converts logs symbol ≡ true

-- Whether a call is about this symbol.
abbrev is_about : Bytes → Call → Bool
is_about k (stablecoin call) = false
is_about k (set_price new_price) = false
is_about k get_offchain_price = false
is_about k (record_price symbol source price) = same_bytes k symbol
is_about k (record_agg_pp symbol price) = same_bytes k symbol

module _ (env : Env) (logs : Bool) where
  -- Without a signer a call of the stablecoin changes nothing.
  unsigned_stablecoin :
      (call : Calls.Call) (s : Types.State)
      → Calls.dispatch env none call s ≡ (err Types.bad_origin, s)
  unfolding Calls.dispatch
  unsigned_stablecoin (Calls.send to amount) s = refl
  unsigned_stablecoin (Calls.bid price quantity) s = refl
  unsigned_stablecoin (Calls.cancel_below price) s = refl
  unsigned_stablecoin (Calls.cancel_above price) s = refl
  unsigned_stablecoin Calls.cancel_all s = refl

  -- What a call does without a signature: refused by `validate_transaction`, it would fail and change nothing;
  -- accepted, it succeeds, and changes nothing but what price-fetch stores of its symbol, and the events.
  pub data Agrees (call : Call) (c : Chain) : Option ValidTransaction → Type 0 where
    refused : dispatch env logs unsigned call c ≡ (fails, c) → Agrees call c none
    accepted :
        (valid : ValidTransaction) (s : PriceFetch.State)
        → dispatch env logs unsigned call c ≡ (succeeds, record c { fetch = s })
        → s.now ≡ c.fetch.now
        → ((k : Bytes)
            → is_about k call ≡ false
            → (s.src k ≡ c.fetch.src k) × (s.agg k ≡ c.fetch.agg k))
        → Agrees call c (some valid)

  -- If the symbol and the source of a call are text, or no log line is evaluated, then `validate_transaction`
  -- accepts it if and only if it succeeds when it is dispatched without a signature. A call that is
  -- refused fails then, and changes nothing; one that is accepted changes nothing but what price-fetch
  -- stores of its symbol, and the events.
  pub validate_transaction-Agrees :
      (codec : Codec) (block : ℕ) (url : Bytes) (call : Call) (c : Chain)
      → IsText logs call
      → Agrees call c (validate_transaction codec block url call)
  unfolding dispatch Price.set_price Price.get_offchain_price PriceFetch.record_price
      PriceFetch.record_agg_pp PriceFetch.store_point PriceFetch.store_aggregate
      validate_transaction
  validate_transaction-Agrees codec block url (stablecoin call) c text =
      refused (rw (unsigned_stablecoin call c.stablecoin) refl)
  validate_transaction-Agrees codec block url (set_price new_price) c text = refused refl
  validate_transaction-Agrees codec block url get_offchain_price c text = refused refl
  validate_transaction-Agrees codec block url (record_price symbol source price) c text =
      accepted _ (PriceFetch.store_point symbol source price c.fetch) (rw (text.0, text.1) refl)
        refl (λ k other. rw other (refl, refl))
  validate_transaction-Agrees codec block url (record_agg_pp symbol price) c text =
      accepted _ (PriceFetch.store_aggregate symbol price c.fetch) (rw text refl) refl
        (λ k other. rw other (refl, refl))
