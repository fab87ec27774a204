-- ===== src/Strategy.antt =====
-- strategy/: the quoting signal and the order manager.
pub mod Signal
pub mod OrderManager
