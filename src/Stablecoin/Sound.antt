-- ===== src/Stablecoin/Sound.antt =====
-- What every state of a running chain satisfies (pallets/stablecoin/src/lib.rs), whoever calls what:
-- no condition on how many coins there are, so that it also holds where coins were made or lost.
pub mod Calls
pub mod Contract
pub mod Expand
pub mod Block
pub mod Genesis
pub mod Growth
use substrate_stablecoin.Prelude.{ℕ, ◌≤◌, ◌<◌, ◌≡◌, ◌≢◌, u64_mod}
use substrate_stablecoin.Deque
use substrate_stablecoin.Stablecoin.Types.{Env, State}
use substrate_stablecoin.Stablecoin.Monad.{Result, ok, err, panic, out_of_fuel, Done}
use substrate_stablecoin.Stablecoin.Bids.Queue.{IsQueue}
use substrate_stablecoin.Stablecoin.Expand.Payment.{BondsValid}
use substrate_stablecoin.Stablecoin.HandOut.{share_sum}

-- The queue is sorted, bounded and priced; the stored bounds of the bonds are a ring's; the shares do
-- not add up to zero, by which a hand-out divides; and the supply is a `u64` and at least the minimum.
pub record IsSound (env : Env) (s : State) : Type 0 where
  pub queue : IsQueue env s.bond_bids
  pub bonds : BondsValid (Deque.new s.bonds)
  pub shares : share_sum 0 s.shares ≢ 0
  pub fits : s.coin_supply < u64_mod
  pub minimum : env.minimum_supply ≤ s.coin_supply

-- The call ended with a value or an error, not with a panic, and within its fuel.
abbrev pub HasEnded : {A : Type 0} → Result A × State → Type 0
HasEnded (ok a, s) = Unit
HasEnded (err e, s) = Unit
HasEnded (panic, s) = ⊥
HasEnded (out_of_fuel, s) = ⊥
