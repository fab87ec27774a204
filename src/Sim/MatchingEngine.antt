-- ===== src/Sim/MatchingEngine.antt =====
-- sim/domain/matching_engine.h, sim/domain/matching_engine.cpp: the order book of one market.
-- Orders live in the blocks of a pool and are linked through them in the order of their arrival, one
-- list for each side and price; a hash map leads from an order's number to its block.
pub mod State
pub mod Match
pub mod Calls
pub mod Priority
pub mod Outcome
pub mod Cancel
pub mod Queues
