-- ===== src/Sim/MatchingEngine/Queues.antt =====
-- sim/domain/matching_engine.cpp: the orders that wait, as doubly linked queues of blocks.
pub mod Ring
pub mod Nodes
pub mod Writes
pub mod Unlinking
pub mod Linked
pub mod Alike
pub mod Removal
pub mod Departure
pub mod Leaving
pub mod Linking
pub mod Arrival
pub mod Waiting
pub mod Trading
pub mod Turns
pub mod Oldest
pub mod Served
pub mod Matching
pub mod Scan
pub mod Settling
pub mod Placing
pub mod Total
pub mod Empty
