-- ===== src/Examples/Lives.antt =====
-- The chain of the development specification among one worker and one user.
use mathlib.Core.List.{Memᴰ}
use mathlib.Core.List.Memᴰ.{head, tail}
use substrate_stablecoin.Prelude.{
  ◌≤◌, ◌≡◌, refl, true, some, List, [], ◌∷◌, ◌++◌, arith, ascii, All, ◌*◌, ◌^◌,
}
use substrate_stablecoin.Stablecoin.Sound.{IsSound}
use substrate_stablecoin.Price.{fetch_price}
use substrate_stablecoin.PriceFetch.{aggregate_all}
use substrate_stablecoin.PriceFetch.Offchain.{
  fetch_task, fetch_json, price_from, submit_record, fetch_price_from_coincap, offchain_worker,
}
use substrate_stablecoin.PriceFetch.Offchain
use substrate_stablecoin.Runtime.{
  Chain, Origin, signed, unsigned, Call, record_price, get_offchain_price, execute_block,
}
use substrate_stablecoin.Runtime.Config.{runtime_env}
use substrate_stablecoin.Runtime.Worker.{worker_extrinsics}
use substrate_stablecoin.Runtime.Honest.{Within}
use substrate_stablecoin.Runtime.Lives.{AnswersWithin, Lives, Lives-InBounds}
use substrate_stablecoin.Runtime.Lives.Lives.{starts, signs, works, executes}
use substrate_stablecoin.Runtime.Growth.{blocks, Lives-growth}
use substrate_stablecoin.ChainSpec.{development}
use substrate_stablecoin.ChainSpec.Start.{first_chain, load-IsSound}
use substrate_stablecoin.Examples.Crates.{plain, plain-FixedLaws}
use substrate_stablecoin.Examples.Chain.{keys}
use substrate_stablecoin.Examples.Workers.{eth, ether_only, start}

start-Within : Within 20_000 1_000_000 start.price start.fetch
unfolding first_chain
start-Within = record {
  price = (omega arith, omega arith);
  points = tt;
  agg = λ ne. absurd (ne refl);
}

abbrev waiting : List (Origin × Call)
waiting =
    (worker_extrinsics ether_only true 2 4 (eth ∷ []) start.fetch).0
    ++ ((signed 1, get_offchain_price) ∷ [])

answers_within : All (AnswersWithin 20_000 1_000_000) (fetch_task ether_only true 2 4).0
unfolding fetch_task Offchain.fetch_price fetch_json price_from submit_record
    fetch_price_from_coincap
answers_within = ((λ _. (omega arith, omega arith)), tt)

abbrev submitted : Lives 20_000 1_000_000 (runtime_env plain) true start start waiting
unfolding first_chain
submitted =
    signs 1 get_offchain_price tt
      (works ether_only 2 4 (eth ∷ []) answers_within (omega arith) starts)

-- The user's call before the worker's.
abbrev block : List (Origin × Call)
block = (signed 1, get_offchain_price) ∷ (unsigned, record_price eth (ascii "coincap") 30_000) ∷ []

all_waiting : All (λ x. Memᴰ x waiting) block
unfolding worker_extrinsics offchain_worker fetch_task aggregate_all Offchain.fetch_price fetch_json
    price_from submit_record fetch_price_from_coincap first_chain
all_waiting = (tail (head refl), (head refl, tt))

Lives-InBounds_example :
    ((20_000 ≤ fetch_price start.price) × (fetch_price start.price ≤ 1_000_000))
    × ((c' : Chain) × (execute_block (runtime_env plain) true 5 30 block start ≡ some c')
        × IsSound (runtime_env plain) c'.stablecoin
        × ((20_000 ≤ fetch_price c'.price) × (fetch_price c'.price ≤ 1_000_000)))
unfolding first_chain
Lives-InBounds_example =
    Lives-InBounds 20_000 1_000_000 (runtime_env plain) true (omega arith) (omega arith) start
      (load-IsSound plain keys development).1 start-Within 5 30 block submitted all_waiting

-- The chain after the block.
abbrev made :
    (c' : Chain) × (execute_block (runtime_env plain) true 6 30 block start ≡ some c')
    × IsSound (runtime_env plain) c'.stablecoin
    × ((20_000 ≤ fetch_price c'.price) × (fetch_price c'.price ≤ 1_000_000))
unfolding first_chain
made =
    (Lives-InBounds 20_000 1_000_000 (runtime_env plain) true (omega arith) (omega arith) start
      (load-IsSound plain keys development).1 start-Within 6 30 block submitted all_waiting).1

abbrev one_block : Lives 20_000 1_000_000 (runtime_env plain) true start made.0 waiting
unfolding first_chain
one_block = executes 6 30 block made.0 all_waiting made.1 submitted

Lives-growth_example :
    (1_000_000 ≤ made.0.stablecoin.coin_supply)
    × (made.0.stablecoin.coin_supply * 20_000 ^ 1 ≤ start.stablecoin.coin_supply * 1_000_000 ^ 1)
unfolding blocks first_chain
Lives-growth_example =
    Lives-growth 20_000 1_000_000 (runtime_env plain) true plain-FixedLaws (omega arith)
      (omega arith) (omega arith) (omega arith) start (load-IsSound plain keys development).1
      start-Within one_block
