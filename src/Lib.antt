-- ===== src/Lib.antt =====
-- A model of the substrate stablecoin and what is proved of it.
--
-- The program. `pallets/stablecoin` is a substrate pallet that keeps a coin near the price of a base
-- unit: at the start of a block it reads the price and expands or contracts the supply. Accounts bid
-- for bonds; a contraction turns the best bids into bonds and burns what they paid, and an expansion
-- pays the oldest bonds and then the shareholders. `storage-adapters` has the two structures over
-- chain storage that the pallet uses: the bonds lie in a bounded deque, and the bids in a bounded
-- priority queue. `pallets/price` stores the price that the stablecoin pallet reads, and can take it
-- from `pallets/price-fetch`, whose offchain worker fetches prices from outside and averages them.
-- `runtime` configures the pallets and joins them, and `node` has the specifications of the chains and
-- starts the services that run one.
--
-- The files.
--   Prelude             shared names: tests on numbers, lists and their lengths, machine words,
--                       byte strings.
--   Deque               storage-adapters/src/bounded_deque.rs. Defs has `BoundedDeque` with its
--                       operations, Spec the bounded list that it implements, Window and Refine the
--                       proof of that; RoundTrip goes through storage.
--   PriorityQueue       storage-adapters/src/priority_queue.rs: Defs has `push`, `pop` and the binary
--                       search, Uses the adapter over storage, from `new` to `drop`; Sorted, Search,
--                       Laws and Drain prove what they do, and Arrivals compares the queue with the
--                       list of all that has arrived, which Insertion orders.
--   Stablecoin          pallets/stablecoin/src/lib.rs:
--     Types, Monad        the configuration trait, storage, events and errors; how a call runs.
--     Ledger, Balances    the `Balance` map, `transfer_from_to`, `add_balance`, `remove_balance`.
--     Bids                `Bid`, `add_bid`, `refund_bid`, `cancel_bids`. Escrow counts the coins that
--                         bids hold, Queue has the queue's invariant, Remove the rounding.
--     Frame               what the balance and bid operations leave alone.
--     Calls               the dispatchable calls; Safety is about any sequence of them, Bidding about
--                         a bid and a queue that may be full.
--     Contract            `contract_supply`: Rounds, Taking and Loop its loop, Supply the whole; Issue
--                         and Ring are about the bonds that it makes.
--     HandOut             `hand_out_coins`: Exact its sum, Split and Each who gets what, Shortfall several
--                         shares.
--     Expand              `expand_supply`: Payment and Loop its loop, Supply the whole; Schedule and
--                         Accounts say who is paid what; Twice is about a bond that is paid in part.
--     Block               `calculate_supply_change`, `expand_or_contract_on_price`,
--                         `on_block_with_price`, `on_initialize`.
--     Currency            the pallet's `BasicCurrency`.
--     Genesis             the `build` of `add_extra_genesis`.
--     Sound               an invariant of the storage that needs nothing of the crates' arithmetic or
--                         of the balances, and that every operation keeps; Growth is about what the
--                         start of a block adds to the supply.
--     Repay               the life of bonds: a contraction and the expansion that pays them.
--     Backing             how the coins in accounts and in escrow follow the supply.
--   Price               pallets/price/src/lib.rs: the calls and `fetch_price`.
--   PriceFetch          pallets/price-fetch/src/lib.rs: the calls that store prices, and the
--                       worker's aggregation. Offchain has the rest of the worker, the fetching of
--                       prices, and Unsigned `validate_unsigned`; Record, Average, Worker, Fetching,
--                       Answers and Tags prove what these do.
--   Runtime             runtime/src/lib.rs: Config has the constants, Runtime the storage and calls of
--                       the three pallets and the execution of a block; Sound is about sequences of
--                       blocks, Feed about a price on its way from the worker to the stablecoin. Worker
--                       has the extrinsics that the offchain worker submits and what they do to a chain,
--                       Pipeline joins a host, two runs of the worker and two blocks; Honest and Lives
--                       are about a chain among workers and users whose calls wait to be put into
--                       blocks in any order, and Growth about its supply; Backing is about the coins
--                       behind the supply, block by block; Blocks says how what each step of a block
--                       keeps, the block keeps; Unsigned compares `validate_transaction` with the
--                       dispatch of unsigned calls; and Transaction has `create_transaction`.
--   Node                node/src: Service has `new_full_start`, `new_full` and `new_light` of
--                       service.rs, Needs and Starts say what they need and what they run, and Command
--                       has the `run` of command.rs.
--   ChainSpec           node/src/chain_spec.rs: the specifications and their genesis; Seeds has the keys
--                       from seeds, Start is about the chains that they start, Endowed about what
--                       the endowed accounts own there, and Backed about the coins behind their supply.
--   Examples            a small configuration and state, plain arithmetic for the crates, and the
--                       theorems applied to them.
--
-- How it is modelled. Numbers are natural numbers, with wrapping, saturation and checks of `u64`,
-- `u32` and `u16` written out. Storage is a record that each call takes and gives back; as in the
-- code, an error does not undo what was written before it. A call ends with a value, an error or a
-- panic. Events are the list of those deposited. Arithmetic that overflows without a check is that of
-- a release build, and a debug assertion is not run.
--
-- Loops. The loops of `contract_supply` and `expand_supply` run on fuel: one more than the number of
-- bids, and of bonds. Each round takes an item, and puts one back only in a round that ends the loop,
-- so that the fuel suffices; the theorems on the whole operations say that they end. The binary search
-- runs on the accessibility of its size. All other loops are over lists.
--
-- Parameters. The arithmetic of other crates is a record `Crates`: `Perbill` times a number, the
-- product of num_rational's `Ratio`, and fixed's `FixedU128<U64>`. The theorems that need them take
-- the documented laws as `PerbillLaws`, `RatioLaws` and `FixedLaws`. What `ensure_signed` finds in an
-- origin, the price that `fetch_price` answers and the offchain price are arguments of the calls. The
-- index type of the deque enters by the number at which it wraps, and the items of the priority queue
-- by the key that orders them.
--
-- Whether log lines are evaluated is a parameter, `logs`, since in pallets/price-fetch a conversion in
-- their arguments can end a call. What the offchain worker gets from its host, HTTP, JSON values and
-- floating-point numbers, is a record `Host`, the encoding of the pool's tags a record `Codec` with
-- `CodecLaws`, and the keys of accounts a record `Keys`, which the
-- key pairs of a `Keyring` give. Payloads, signatures and eras of signed
-- transactions are a record `Signing` with `SigningLaws`.
--
-- Of the crates that a node is put together from, a record `Substrate` says with what each call that can
-- fail does fail, and `ScCli` with `CliLaws` what the subcommands do with the builder that they are
-- given. The clients, networks and queues that these calls return are not looked into: a start is what
-- it sets up and spawns, and the error that it ends with.
--
-- A block. As substrate's executive does it, the system pallet is given the block's number, the pallets'
-- `on_initialize` run, the timestamp inherent sets the time, and the extrinsics follow in order. An
-- extrinsic that fails keeps what it wrote; one that panics makes the block invalid. What the executive
-- checks of an extrinsic before its dispatch, the signature, the nonce, the fee and, of an unsigned
-- one, `pre_dispatch`, is not modelled: the extrinsics of a block are dispatched as if it had let
-- them pass. Neither is it modelled that the pool keeps out a call with the tag of another.
--
-- Not modelled: the pallets of substrate that runtime lists, and the functions of its runtime API that
-- only hand on a call to them; the derived argument parser of node's cli.rs and the version texts of
-- main.rs; build scripts; weights, fees, log output and encoding.
pub mod Prelude
pub mod Deque
pub mod PriorityQueue
pub mod Stablecoin
pub mod Price
pub mod PriceFetch
pub mod Runtime
pub mod Node
pub mod ChainSpec
mod Examples
