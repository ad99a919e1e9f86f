-- ===== src/Stablecoin/Monad.antt =====
-- How a call of the pallet runs: it reads and writes the storage, and ends with a value, an error
-- that the caller sees, or a panic. Nothing is rolled back on an error, so the state comes back too.
-- `out_of_fuel` is not an outcome of the code: a loop of the model says by it that its fuel was too
-- small.
use substrate_stablecoin.Prelude.{[], ◌∷◌, ◌++◌, Bool, Option, none, some, if◌then◌else◌}
use substrate_stablecoin.Stablecoin.Types.{State, Event, Error}

pub data Result {ℓ} (A : Type ℓ) : Type ℓ where
  ok : A → Result A
  err : Error → Result A
  panic out_of_fuel : Result A

abbrev pub Action : Type 0 → Type 0
Action A = State → Result A × State

abbrev pub Done : Type 0
Done = Unit

module _ {A : Type 0} where
  abbrev pub gets : (State → A) → Action A
  gets f s = (ok (f s), s)

  -- `?` on a result, and `ok_or(e)?` on an option.
  abbrev pub lift : Result A → Action A
  lift r s = (r, s)

  abbrev pub ok_or : Option A → Error → Action A
  ok_or none e s = (err e, s)
  ok_or (some a) e s = (ok a, s)

-- What follows a result, by its case.
abbrev pub and_then {ℓ} :
    {A : Type ℓ} {B : Type 0} → Result A × State → (A → Action B) → Result B × State
and_then (ok a, s) f = f a s
and_then (err e, s) f = (err e, s)
and_then (panic, s) f = (panic, s)
and_then (out_of_fuel, s) f = (out_of_fuel, s)

infixl 5 ◌>>=◌ ◌>>◌
abbrev pub ◌>>=◌ : {A B : Type 0} → Action A → (A → Action B) → Action B
◌>>=◌ m f s = and_then (m s) f

abbrev pub ◌>>◌ : {A B : Type 0} → Action A → Action B → Action B
m >> k = m >>= λ _. k

abbrev pub modify : (State → State) → Action Done
modify f s = (ok tt, f s)

-- `ensure!(c, e)`.
abbrev pub ensure : Bool → Error → Action Done
ensure c e s = (if c then ok tt else err e, s)

abbrev pub deposit_event : Event → Action Done
deposit_event e s = (ok tt, record s { events = s.events ++ (e ∷ []) })
