-- ===== src/Net.antt =====
-- net/: the wire form of actions.
pub mod Exchange
pub mod RestClient
pub mod Serialize
