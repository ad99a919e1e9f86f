-- ===== src/Examples/Calls.antt =====
-- The stablecoin's calls at concrete inputs.
use substrate_stablecoin.Prelude.{
  ℕ, ◌+◌, ◌-◌, ◌*◌, ◌/◌, ◌≤◌, ◌<◌, ◌≡◌, ◌⊎◌, inr, Option, none, some, List, [], ◌∷◌, All, Bool,
  true, false, not, ◌&&◌, ◌==◌, select, min, u64_mod, arith,
}
use substrate_stablecoin.Stablecoin.Types.{accuracy, Bid}
use substrate_stablecoin.Stablecoin.Monad.{ok}
use substrate_stablecoin.Stablecoin.Ledger.{total}
use substrate_stablecoin.Stablecoin.Balances.{get_balance}
use substrate_stablecoin.Stablecoin.Bids.{payment, cancel_bids, remove_coins}
use substrate_stablecoin.Stablecoin.Bids.Escrow.{escrow, held, cancel_bids_lem}
use substrate_stablecoin.Stablecoin.Bids.Remove.{remove_coins_drift}
use substrate_stablecoin.Stablecoin.Calls
use substrate_stablecoin.Stablecoin.Calls.{new, Call, send, bid, cancel_below, cancel_all, dispatch}
use substrate_stablecoin.Stablecoin.Calls.Safety.{Safe, NotToSelf, run-Safe, send_coins_to_self}
use substrate_stablecoin.Stablecoin.Currency.{slash, can_slash, total_issuance}
use substrate_stablecoin.Stablecoin.Currency.Slash.{slash_cases}
use substrate_stablecoin.Examples.Data.{env, state, high_bid, two_bids-IsQueue, held_small}
use substrate_stablecoin.Examples.Crates.{plain-RatioLaws, plain-PerbillLaws}

-- A transfer, a bid, two cancellations, and two calls that fail.
abbrev calls : List (Option ℕ × Call)
calls =
    (some 1, send 2 1500)
    ∷ (some 2, bid 300_000_000 4000)
    ∷ (some 2, cancel_below 400_000_000)
    ∷ (some 3, send 1 10)
    ∷ (none, cancel_all)
    ∷ (some 1, cancel_all)
    ∷ []

calls-NotToSelf : All (NotToSelf env) calls
calls-NotToSelf = ((λ e. omega arith), (tt, (tt, ((λ e. omega arith), (tt, (tt, tt))))))

run-Safe_example : Safe env state (Calls.run env calls state)
run-Safe_example = run-Safe env calls state calls-NotToSelf held_small two_bids-IsQueue

abbrev of_two : Bid → Bool
of_two b = b.account == 2

cancel_bids_lem_example :
    let s' = cancel_bids env of_two state in
    (s'.bond_bids ≡ select (λ b. not (of_two b)) state.bond_bids)
    × ((t : ℕ)
        → get_balance t s'
          ≡ get_balance t state
            + escrow env (select (λ b. of_two b && t == b.account) state.bond_bids))
    × (held env s' ≡ held env state)
cancel_bids_lem_example = cancel_bids_lem env of_two state held_small

new_bid_small : held env state + payment env (new 2 300_000_000 4000) < u64_mod
unfolding payment
new_bid_small = omega arith

fewer_coins : 123 < payment env high_bid
unfolding payment
fewer_coins = omega arith

remove_coins_drift_example :
    let removed = accuracy * 123 / 500_000_000 in
    let rest = record high_bid { quantity = 1000 - removed } in
    (remove_coins env high_bid 123 ≡ inr (removed, rest))
    × (removed ≤ 1000)
    × (payment env rest + 123 ≤ payment env high_bid + 1)
    × (payment env high_bid ≤ payment env rest + 123 + 1)
remove_coins_drift_example =
    remove_coins_drift env plain-RatioLaws plain-PerbillLaws high_bid 123 (omega arith)
      (omega arith) fewer_coins (omega arith)

covered_self : 1500 ≤ get_balance 1 state
unfolding get_balance
covered_self = omega arith

fits_self : get_balance 1 state + 1500 < u64_mod
unfolding get_balance
fits_self = omega arith

send_coins_to_self_example :
    let (r, s') = dispatch env (some 1) (send 1 1500) state in
    (r ≡ ok tt)
    × (get_balance 1 s' ≡ get_balance 1 state + 1500)
    × (held env s' ≡ held env state + 1500)
    × (s'.coin_supply ≡ state.coin_supply)
send_coins_to_self_example = send_coins_to_self env 1 1500 state covered_self fits_self

abbrev another : ℕ
another = 1

slash_cases_example :
    let (rest, s') = slash 2 4000 state in
    (get_balance 2 s' + min 4000 (get_balance 2 state) ≡ get_balance 2 state)
    × (rest + min 4000 (get_balance 2 state) ≡ 4000)
    × (((can_slash 2 4000 state ≡ true) × (rest ≡ 0))
        ⊎ ((can_slash 2 4000 state ≡ false) × (0 < rest)))
    × ((another ≡ 2) ⊎ (get_balance another s' ≡ get_balance another state))
    × (total s'.balance + min 4000 (get_balance 2 state) ≡ total state.balance)
    × (total_issuance s' ≡ total_issuance state)
slash_cases_example = slash_cases another 2 4000 state
