-- ===== src/Runtime/Backing.antt =====
-- How the coins of the chain back its supply, block after block.
use substrate_stablecoin.Prelude.{
  ℕ, ◌+◌, ◌≤◌, ◌<◌, ◌≡◌, ◌∙◌, refl, Bool, some, List, All, arith, length, u64_mod,
}
use substrate_stablecoin.Stablecoin.Types.{Env, State}
use substrate_stablecoin.Stablecoin.Calls
use substrate_stablecoin.Stablecoin.Calls.Safety.{NotToSelf, dispatch-Safe, after-Safe}
use substrate_stablecoin.Stablecoin.Bids.Escrow.{held}
use substrate_stablecoin.Stablecoin.Bids.Remove.{RatioLaws, PerbillLaws}
use substrate_stablecoin.Stablecoin.Block.{on_initialize}
use substrate_stablecoin.Stablecoin.Block.Change.{FixedLaws}
use substrate_stablecoin.Stablecoin.HandOut.Exact.{OneShareEach}
use substrate_stablecoin.Stablecoin.Sound.{IsSound}
use substrate_stablecoin.Stablecoin.Sound.Block.{on_initialize-IsSound}
use substrate_stablecoin.Stablecoin.Backing.{
  HasRoom, IsBacked, on_initialize-shares, on_initialize-IsBacked,
}
use substrate_stablecoin.Price.{fetch_price}
use substrate_stablecoin.Runtime.{
  Chain, Origin, signer, Call, stablecoin, set_price, get_offchain_price, record_price,
  record_agg_pp, dispatch, execute_block,
}
use substrate_stablecoin.Runtime.Sound.{IsSound-at, dispatch-RunsTo}
use substrate_stablecoin.Runtime.Blocks.{execute_block-keeps}

module _ (env : Env) (logs : Bool) where
  -- An extrinsic that does not send coins from an account to itself.
  abbrev pub MovesAway : Origin × Call → Type 0
  MovesAway (origin, stablecoin call) = NotToSelf env (signer origin, call)
  MovesAway (origin, set_price new_price) = Unit
  MovesAway (origin, get_offchain_price) = Unit
  MovesAway (origin, record_price symbol source price) = Unit
  MovesAway (origin, record_agg_pp symbol price) = Unit

  -- The chains that so many blocks lead to: nobody in them sends coins to himself, and each starts with
  -- room for the coins of an expansion.
  pub data Blocks (first : Chain) : ℕ → Chain → Type 0 where
    none_yet : Blocks first 0 first
    one_more :
        {k : ℕ} {c : Chain} (number now : ℕ) (extrinsics : List (Origin × Call)) (c' : Chain)
        → All MovesAway extrinsics
        → HasRoom env (fetch_price c.price) c.stablecoin
        → execute_block env logs number now extrinsics c ≡ some c'
        → Blocks first k c
        → Blocks first (k + 1) c'

  record Backs (shares : List (ℕ × ℕ)) (k : ℕ) (s : State) : Type 0 where
    sound : IsSound env s
    same_shares : s.shares ≡ shares
    backed : IsBacked env k s

  dispatch-Backs :
      (shares : List (ℕ × ℕ)) (k : ℕ) (origin : Origin) (call : Call) (c : Chain)
      → MovesAway (origin, call)
      → Backs shares k c.stablecoin
      → Backs shares k (dispatch env logs origin call c).1.stablecoin
  unfolding dispatch
  dispatch-Backs shares k origin (stablecoin call) c away b =
      let s = c.stablecoin in
      let out = Calls.dispatch env (signer origin) call s in
      let safe =
        after-Safe env s out b.sound.queue
          (dispatch-Safe env (signer origin) call s away b.backed.small b.sound.queue) in
      record {
        sound = (dispatch-RunsTo env logs origin (stablecoin call) c b.sound).1;
        same_shares = safe.frame.same_shares ∙ b.same_shares;
        backed = record {
          small = omega (arith, safe.conserved, b.backed.small);
          backed = omega (arith, safe.conserved, safe.frame.same_supply, b.backed.backed);
        };
      }
  dispatch-Backs shares k origin (set_price new_price) c away b = b
  dispatch-Backs shares k origin get_offchain_price c away b = b
  dispatch-Backs shares k origin (record_price symbol source price) c away b = b
  dispatch-Backs shares k origin (record_agg_pp symbol price) c away b = b

  at-HasRoom :
      (number price : ℕ) (s : State)
      → HasRoom env price s
      → HasRoom env price (record s { block_number = number })
  at-HasRoom number price s room = record { fits = room.fits; coins = room.coins }

  at-Backs :
      (number : ℕ) (shares : List (ℕ × ℕ)) (k : ℕ) (s : State)
      → Backs shares k s
      → Backs shares k (record s { block_number = number })
  at-Backs number shares k s b = record {
    sound = IsSound-at env number s b.sound;
    same_shares = b.same_shares;
    backed = record { small = b.backed.small; backed = b.backed.backed };
  }

  module _ (ratio : RatioLaws env.crates) (perbill : PerbillLaws env.crates)
      (fixed : FixedLaws env.crates) (freq : 0 < env.adjustment_frequency)
      (unit : 0 < env.base_unit) (unit_small : env.base_unit < u64_mod) (shares : List (ℕ × ℕ))
      (each : OneShareEach shares) (some_one : 0 < length shares)
      (few : length shares < u64_mod) where
    on_initialize-Backs :
        (number price k : ℕ) (s : State)
        → HasRoom env price s
        → Backs shares k s
        → Backs shares (k + 1) (on_initialize env number price s).1
    on_initialize-Backs number price k s room b = record {
      sound = (on_initialize-IsSound env number price s freq unit b.sound).1;
      same_shares = on_initialize-shares env number price s freq unit b.sound ∙ b.same_shares;
      backed =
          on_initialize-IsBacked env number price k s ratio perbill fixed freq unit unit_small
            b.sound (rw b.same_shares each) (rw b.same_shares some_one) (rw b.same_shares few) room
            b.backed;
    }

    Blocks-Backs :
        (first : Chain)
        → Backs shares 0 first.stablecoin
        → {k : ℕ} {c : Chain} → Blocks first k c
        → Backs shares k c.stablecoin
    Blocks-Backs first b none_yet = b
    Blocks-Backs first b (one_more {k} {c} number now extrinsics c' away room e l) =
        let price = fetch_price c.price in
        let here = at-Backs number shares k c.stablecoin (Blocks-Backs first b l) in
        execute_block-keeps env logs (λ c₁. Backs shares (k + 1) c₁.stablecoin) MovesAway
          (dispatch-Backs shares (k + 1)) number now extrinsics c c' away (λ c₁ h. h)
          (on_initialize-Backs number price k (record c.stablecoin { block_number = number })
            (at-HasRoom number price c.stablecoin room) here)
          e

  -- Let the crates compute as documented, the frequency and the base unit not be zero, the base unit fit a
  -- `u64`, and the first chain be sound, with at least as many coins in accounts and in escrow as its
  -- supply, which fit a `u64`, and with shareholders of one share each, at least one of them and
  -- fewer than `2^64`. Then after any blocks in which nobody sends coins to himself and that each
  -- start with room for the coins of an expansion, the supply is at most the coins in accounts and
  -- in escrow and one coin for each block, and these coins fit a `u64`.
  pub Blocks-IsBacked :
      (first : Chain) {k : ℕ} {c : Chain}
      → RatioLaws env.crates
      → PerbillLaws env.crates
      → FixedLaws env.crates
      → 0 < env.adjustment_frequency
      → 0 < env.base_unit
      → env.base_unit < u64_mod
      → IsSound env first.stablecoin
      → OneShareEach first.stablecoin.shares
      → 0 < length first.stablecoin.shares
      → length first.stablecoin.shares < u64_mod
      → first.stablecoin.coin_supply ≤ held env first.stablecoin
      → held env first.stablecoin < u64_mod
      → Blocks first k c
      → (c.stablecoin.coin_supply ≤ held env c.stablecoin + k) × (held env c.stablecoin < u64_mod)
  Blocks-IsBacked first ratio perbill fixed freq unit unit_small sound each some_one few covered
        small l =
      let start : Backs first.stablecoin.shares 0 first.stablecoin = record {
        sound = sound;
        same_shares = refl;
        backed = record { small = small; backed = omega arith };
      } in
      let b =
        Blocks-Backs ratio perbill fixed freq unit unit_small first.stablecoin.shares each some_one
          few first start l in
      (b.backed.backed, b.backed.small)
