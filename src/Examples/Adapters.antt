-- ===== src/Examples/Adapters.antt =====
-- The storage adapters and the price pallet at concrete inputs.
use mathlib.Core.List.{Perm, Permᴰ}
use mathlib.Core.List.Permᴰ.{cons, swap, trans}
use native.Mathlib.Decide.{dec_lt}
use substrate_stablecoin.Prelude.Order.{lt_wf}
use substrate_stablecoin.Prelude.{
  ℕ, ◌≤◌, ◌≡◌, refl, none, some, List, [], ◌∷◌, ◌++◌, length, All, arith, ◌+◌, map,
}
use substrate_stablecoin.Deque.Defs
use substrate_stablecoin.Deque.Defs.{Deque}
use substrate_stablecoin.Deque.Spec
use substrate_stablecoin.Deque.Spec.{Op}
use substrate_stablecoin.Deque.Refine.{IsValid, contents, length-contents, run_refines}
use substrate_stablecoin.Deque.RoundTrip.{take_all, put_all, stored, put_all-take_all}
use substrate_stablecoin.PriorityQueue.Insertion
use substrate_stablecoin.PriorityQueue.Arrivals.{put_all-HoldsGreatest}
use substrate_stablecoin.PriorityQueue.Uses
use substrate_stablecoin.PriorityQueue.Uses.{use_queue-Keeps}
use substrate_stablecoin.PriorityQueue.Drain
use substrate_stablecoin.PriorityQueue.Drain.{put_all-IsFalling}
use substrate_stablecoin.PriorityQueue.Defs.{push, binary_search, search_loop}
use substrate_stablecoin.PriorityQueue.Sorted.{IsSorted}
use substrate_stablecoin.PriorityQueue.Laws.{to_list, push_keeps_all}
use substrate_stablecoin.Price
use substrate_stablecoin.Price.{Call, fetch_price, last_of, written, set_to, offchain}

-- A deque with indices below 4 that wraps around: it starts at 3 and holds two items.
abbrev ring : Deque ℕ
ring = record { start = 3; length = 2; items = λ i. some (i + 10) }

ring-IsValid : IsValid 4 0 ring
ring-IsValid = record { start_in = omega arith; length_in = omega arith; wide = omega arith }

abbrev ops : List (Op ℕ)
ops =
    Op.pushes_back 5
    ∷ Op.pushes_front 6
    ∷ Op.pops_back
    ∷ Op.pops_front
    ∷ Op.pops_front
    ∷ Op.pops_front
    ∷ []

run_refines_example : Defs.run 4 0 ring ops ≡ Spec.run 3 (contents 4 0 ring) ops
run_refines_example = run_refines 4 0 ops ring ring-IsValid

-- The ring in storage, with two items in it.
abbrev store : Defs.Storage ℕ
store = record { items = λ i. some (i + 10); bounds = (3, 2) }

store-IsValid : IsValid 6 0 (Defs.new store)
unfolding Defs.new
store-IsValid = record { start_in = omega arith; length_in = omega arith; wide = omega arith }

put_all-take_all_example :
    take_all 6 0 (length (stored 6 0 store ++ 5 ∷ 7 ∷ [])) (put_all 6 0 store (5 ∷ 7 ∷ []))
    ≡ map some (stored 6 0 store ++ 5 ∷ 7 ∷ [])
unfolding Defs.new
put_all-take_all_example =
    put_all-take_all 6 0 store (5 ∷ 7 ∷ []) store-IsValid
      (omega (arith, length-contents 6 0 (Defs.new store)))

-- What these calls return.
ops_return : Defs.run 4 0 ring ops ≡ none ∷ none ∷ some 10 ∷ some 6 ∷ some 13 ∷ none ∷ []
unfolding Defs.run Defs.step
ops_return = refl

abbrev itself : ℕ → ℕ
itself n = n

abbrev items : List ℕ
items = 2 ∷ 4 ∷ 4 ∷ 9 ∷ []

items-IsSorted : IsSorted itself items
items-IsSorted = (
  (omega arith, (omega arith, (omega arith, tt))),
  ((omega arith, (omega arith, tt)), ((omega arith, tt), (tt, tt))),
)

-- Three items in two orders, for a queue of two places.
rotated : Permᴰ {A = ℕ} (9 ∷ 3 ∷ 8 ∷ []) (3 ∷ 8 ∷ 9 ∷ [])
rotated = trans (swap refl refl) (cons refl (swap refl refl))

put_all-HoldsGreatest_example :
    let arrived = Insertion.insert_all itself [] (9 ∷ 3 ∷ 8 ∷ []) in
    IsSorted itself arrived
    × Permᴰ {A = ℕ} arrived (9 ∷ 3 ∷ 8 ∷ [])
    × Drain.put_all itself 2 [] (9 ∷ 3 ∷ 8 ∷ []) ≡ Insertion.last_of 2 arrived
    × Drain.put_all itself 2 [] (3 ∷ 8 ∷ 9 ∷ []) ≡ Drain.put_all itself 2 [] (9 ∷ 3 ∷ 8 ∷ [])
put_all-HoldsGreatest_example =
    put_all-HoldsGreatest itself 2
      (
        (λ e. absurd (omega (arith, e)), (λ e. absurd (omega (arith, e)), tt)),
        ((λ e. absurd (omega (arith, e)), tt), (tt, tt)),
      )
      rotated

abbrev one_use : List (Uses.Op ℕ)
one_use = Uses.pushes 5 ∷ Uses.pops ∷ Uses.commits ∷ Uses.pushes 6 ∷ Uses.asks_is_empty ∷ []

use_queue-Keeps_example :
    let (answers, stored') = Uses.use_queue itself 4 one_use items in
    IsSorted itself stored'
    × length stored' ≤ 4
    × Perm (Uses.given answers ++ stored') (Uses.pushed one_use ++ items)
use_queue-Keeps_example = use_queue-Keeps itself 4 one_use items items-IsSorted (omega arith)

push_keeps_all_example :
    let (evicted, items') = push itself 4 items 5 in
    IsSorted itself items'
    × All (λ e. All (λ y. e ≤ y) items') (to_list evicted)
    × Perm (to_list evicted ++ items') (5 ∷ items)
push_keeps_all_example = push_keeps_all itself 4 items 5 items-IsSorted

push_evicts : push itself 4 items 5 ≡ (some 2, 4 ∷ 4 ∷ 5 ∷ 9 ∷ [])
unfolding push binary_search search_loop lt_wf dec_lt
push_evicts = refl

-- Two writes, a call without a signer and one without an offchain price.
abbrev price_calls : List Call
price_calls =
    set_to (some 1) 1_200_000
    ∷ set_to none 5
    ∷ offchain (some 2) (some 900_000)
    ∷ offchain (some 2) none
    ∷ []

abbrev priced : Price.State
priced = record { price = 1_000_000; events = [] }

run_serves_last_example :
    (fetch_price (Price.run price_calls priced) ≡ last_of priced.price (written price_calls))
    × ((Price.run price_calls priced).events ≡ priced.events ++ written price_calls)
run_serves_last_example = Price.run_serves_last price_calls priced
