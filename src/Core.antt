-- ===== src/Core.antt =====
-- core/: the queue between the threads, and the containers.
pub mod Spsc
pub mod Pool
pub mod FlatHashMap
pub mod Arena
