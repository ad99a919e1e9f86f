-- ===== src/Runtime/Transaction.antt =====
-- `CreateTransaction` of runtime/src/lib.rs: a signed transaction from the offchain worker. The payload, its
-- signature and the era come from substrate's crates.
use mathlib.Core.Path.{subst}
use mathlib.Core.Option.{some-injective}
use substrate_stablecoin.Prelude.{ℕ, ◌-◌, ◌≡◌, refl, Option, none, some}
use substrate_stablecoin.Runtime.{Call}
use substrate_stablecoin.Runtime.Config.{block_hash_count}

-- `SignedExtra`, as far as it carries values; `tip` is that of `ChargeTransactionPayment`.
pub record SignedExtra (Era : Type 0) : Type 0 where
  pub era : Era
  pub nonce : ℕ
  pub tip : ℕ

-- `generic::Era::mortal`, `SignedPayload::new` and `deconstruct`, and `TSigner::sign`.
pub record Signing : Type 1 where
  pub Era : Type 0
  pub Payload : Type 0
  pub Signature : Type 0
  pub mortal : (period current : ℕ) → Era
  pub new_payload : Call → SignedExtra Era → Option Payload
  pub sign : (public : ℕ) → Payload → Option Signature
  pub deconstruct : Payload → Call × SignedExtra Era

-- A payload is taken apart into what it was made of.
pub record SigningLaws (signing : Signing) : Type 0 where
  pub deconstruct-new :
      (call : Call) (extra : SignedExtra signing.Era) (payload : signing.Payload)
      → signing.new_payload call extra ≡ some payload
      → signing.deconstruct payload ≡ (call, extra)

module _ (signing : Signing) where
  abbrev pub extra_at : (block_number index : ℕ) → SignedExtra signing.Era
  extra_at block_number index = record {
    era = signing.mortal block_hash_count (block_number - 1);
    nonce = index;
    tip = 0;
  }

  -- The call, the address, the signature and the extra of the transaction.
  unfoldable pub create_transaction :
      (block_number : ℕ)
      → Call
      → (public account index : ℕ) → Option (Call × ℕ × signing.Signature × SignedExtra signing.Era)
  create_transaction block_number call public account index =
      elim (signing.new_payload call (extra_at block_number index)) [
        | none ↦ none
        | some raw_payload ↦ elim (signing.sign public raw_payload) [
          | none ↦ none
          | some signature ↦
              let (call', extra) = signing.deconstruct raw_payload in
              some (call', account, signature, extra)
        ]
      ]

-- A transaction for this call, account and nonce, signed over just what it carries.
pub record Carries (signing : Signing) (block_number : ℕ) (call : Call) (public account index : ℕ)
    (made : Call × ℕ × signing.Signature × SignedExtra signing.Era) : Type 0 where
  pub same_call : made.0 ≡ call
  pub same_account : made.1 ≡ account
  pub nonce : made.3.nonce ≡ index
  pub no_tip : made.3.tip ≡ 0
  pub era : made.3.era ≡ signing.mortal block_hash_count (block_number - 1)
  pub payload : signing.Payload
  pub of_these : signing.new_payload made.0 made.3 ≡ some payload
  pub signed : signing.sign public payload ≡ some made.2

module _ (signing : Signing) (laws : SigningLaws signing) (block_number public account index : ℕ)
    (call : Call) where
  signed-Carries :
      (payload : signing.Payload) (signature : signing.Signature)
      → signing.new_payload call (extra_at signing block_number index) ≡ some payload
      → signing.sign public payload ≡ some signature
      → Carries signing block_number call public account index
          ((signing.deconstruct payload).0, account, signature, (signing.deconstruct payload).1)
  signed-Carries payload signature n s =
      rw (laws.deconstruct-new call (extra_at signing block_number index) payload n) (record {
        same_call = refl;
        same_account = refl;
        nonce = refl;
        no_tip = refl;
        era = refl;
        payload = payload;
        of_these = n;
        signed = s;
      })

  -- A transaction that is made carries the call, the account and the nonce that were asked for, no tip, and
  -- an era from the block before the present one; and its signature is the signer's on the payload of
  -- just this call and this extra.
  pub create_transaction-Carries :
      (made : Call × ℕ × signing.Signature × SignedExtra signing.Era)
      → create_transaction signing block_number call public account index ≡ some made
      → Carries signing block_number call public account index made
  unfolding create_transaction
  create_transaction-Carries made e =
      from_payload (signing.new_payload call (extra_at signing block_number index)) refl e
    where
      from_signature :
          (payload : signing.Payload) (o : Option signing.Signature)
          → signing.new_payload call (extra_at signing block_number index) ≡ some payload
          → signing.sign public payload ≡ o
          → (elim o [
            | none ↦ none
            | some signature ↦ some (
              (signing.deconstruct payload).0,
              account,
              signature,
              (signing.deconstruct payload).1,
            )
          ])
            ≡ some made
          → Carries signing block_number call public account index made
      from_signature payload none n s e' = absurd (cc e')
      from_signature payload (some signature) n s e' =
          subst (Carries signing block_number call public account index)
            (some-injective
              ((signing.deconstruct payload).0, account, signature, (signing.deconstruct payload).1)
              made e')
            (signed-Carries payload signature n s)

      from_payload :
          (o : Option signing.Payload)
          → signing.new_payload call (extra_at signing block_number index) ≡ o
          → (elim o [
            | none ↦ none
            | some payload ↦ elim (signing.sign public payload) [
              | none ↦ none
              | some signature ↦ some (
                (signing.deconstruct payload).0,
                account,
                signature,
                (signing.deconstruct payload).1,
              )
            ]
          ])
            ≡ some made
          → Carries signing block_number call public account index made
      from_payload none n e' = absurd (cc e')
      from_payload (some payload) n e' =
          from_signature payload (signing.sign public payload) n refl e'
