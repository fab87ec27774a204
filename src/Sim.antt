-- ===== src/Sim.antt =====
-- sim/: the simulated exchange.
pub mod MatchingEngine
pub mod MarketRegistry
pub mod Reactor
pub mod RestServer
pub mod Handlers
