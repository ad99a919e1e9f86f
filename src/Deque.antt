-- ===== src/Deque.antt =====
-- storage-adapters/src/bounded_deque.rs: `BoundedDeque`, a ring of indices over a storage map.
-- `Defs` is the code and `Spec` a bounded list; `Window` holds the lemmas on the ring, and `Refine`
-- compares the two; `RoundTrip` goes through storage. Names are passed on open, since the pallet computes with them in its tests.
pub mod Defs
pub mod Spec
pub mod Window
pub mod Refine
pub mod RoundTrip
pub use Defs.{Storage, Deque}
unfoldable pub use Defs.{new, from_bounds, commit, push_back, push_front, pop_back, pop_front}
