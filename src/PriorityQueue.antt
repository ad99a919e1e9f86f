-- ===== src/PriorityQueue.antt =====
-- storage-adapters/src/priority_queue.rs: `BoundedPriorityQueue`, a sorted `Vec` in storage.
-- `Defs` is the code, `Search` the binary search that finds an item's place, `Sorted` the order of
-- the items, `Laws` what `push` and `pop` promise, and `Drain` many of them.
pub mod Defs
pub mod Sorted
pub mod Search
pub mod Laws
pub mod Drain
pub mod Insertion
pub mod Arrivals
pub mod Uses
unfoldable pub use Defs.{push, pop, is_empty}
