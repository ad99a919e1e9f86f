-- ===== src/Examples.antt =====
-- Concrete inputs for the theorems of the other modules, and the theorems applied to them.
mod Crates
mod Data
mod Adapters
mod Calls
mod Supply
mod Fetch
mod Chain
mod Nodes
mod Workers
mod Lives
mod Repay
mod Seeds
mod Backing
