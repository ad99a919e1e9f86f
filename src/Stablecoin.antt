-- ===== src/Stablecoin.antt =====
-- pallets/stablecoin/src/lib.rs: the stablecoin pallet. `Types` has its configuration, storage and
-- events, `Monad` the way a call runs, and each later module one part of the pallet; the modules
-- below those prove what the part does.
pub mod Types
pub mod Monad
pub mod Ledger
pub mod Balances
pub mod Bids
pub mod Frame
pub mod Calls
pub mod Contract
pub mod HandOut
pub mod Expand
pub mod Block
pub mod Currency
pub mod Genesis
pub mod Sound
pub mod Repay
pub mod Backing
