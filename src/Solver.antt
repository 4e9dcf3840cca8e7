-- ===== src/Solver.antt =====
-- solver/: the set of seen intents, the reservations of inventory, the fill decision and the loop
-- over the pending intents.
pub mod SeenLru
pub mod InFlight
pub mod Quote
pub mod Caches
pub mod Consider
pub mod ReleasedWatcher
