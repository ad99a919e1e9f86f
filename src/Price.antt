-- ===== src/Price.antt =====
-- pallets/price/src/lib.rs: the price that the chain stores, and the calls that write it. The price
-- that `T::OffchainPrice::get_price_for(b"ETH")` answers is an argument of the call.
use substrate_stablecoin.Prelude.{
  ℕ, ◌≡◌, ◌∙◌, refl, Option, none, some, List, [], ◌∷◌, ◌++◌, append_assoc, append-nil, sym,
}

pub record State : Type 0 where
  pub price : ℕ
  pub events : List ℕ

-- `bad_origin` is what `ensure_signed` answers to another origin.
pub data Error : Type 0 where
  no_offchain_price bad_origin : Error

-- What a call answers, and the storage after it.
abbrev pub Outcome : Type 0
Outcome = Option Error × State

-- `Price::put` and the event `NewPrice`.
unfoldable pub put : ℕ → State → State
put p s = record { price = p; events = s.events ++ (p ∷ []) }

unfoldable pub set_price : (origin : Option ℕ) → (new_price : ℕ) → State → Outcome
set_price none new_price s = (some bad_origin, s)
set_price (some who) new_price s = (none, put new_price s)

unfoldable pub get_offchain_price : (origin offchain : Option ℕ) → State → Outcome
get_offchain_price none offchain s = (some bad_origin, s)
get_offchain_price (some who) none s = (some no_offchain_price, s)
get_offchain_price (some who) (some price) s = (none, put price s)

-- `impl FetchPrice<u64> for Module`.
unfoldable pub fetch_price : State → ℕ
fetch_price s = s.price

pub data Call : Type 0 where
  set_to : (origin : Option ℕ) → (new_price : ℕ) → Call
  offchain : (origin price : Option ℕ) → Call

unfoldable pub dispatch : Call → State → Outcome
unfolding set_price get_offchain_price
dispatch (set_to origin new_price) s = set_price origin new_price s
dispatch (offchain origin price) s = get_offchain_price origin price s

unfoldable pub run : List Call → State → State
unfolding dispatch
run [] s = s
run (call ∷ calls) s = run calls (dispatch call s).1

-- The price that a call is to write, if it is signed and has one.
unfoldable pub writes : Call → List ℕ
writes (set_to none new_price) = []
writes (set_to (some who) new_price) = new_price ∷ []
writes (offchain none price) = []
writes (offchain (some who) none) = []
writes (offchain (some who) (some price)) = price ∷ []

unfoldable pub written : List Call → List ℕ
unfolding writes
written [] = []
written (call ∷ calls) = writes call ++ written calls

unfoldable pub last_of : ℕ → List ℕ → ℕ
last_of p [] = p
last_of p (q ∷ qs) = last_of q qs

-- After any calls the price that the pallet serves is the last one that a call wrote, or the first
-- price if none did, and the events name exactly the prices written, in their order.
pub run_serves_last :
    (calls : List Call) (s : State)
    → (fetch_price (run calls s) ≡ last_of s.price (written calls))
      × ((run calls s).events ≡ s.events ++ written calls)
unfolding run written fetch_price last_of put
run_serves_last [] s = (refl, sym (append-nil s.events))
run_serves_last (set_to none p ∷ calls) s = run_serves_last calls s
run_serves_last (set_to (some who) p ∷ calls) s =
    let (price, events) = run_serves_last calls (put p s) in
    (price, events ∙ append_assoc s.events (p ∷ []) (written calls))
run_serves_last (offchain none p ∷ calls) s = run_serves_last calls s
run_serves_last (offchain (some who) none ∷ calls) s = run_serves_last calls s
run_serves_last (offchain (some who) (some p) ∷ calls) s =
    let (price, events) = run_serves_last calls (put p s) in
    (price, events ∙ append_assoc s.events (p ∷ []) (written calls))
