-- ===== src/Bench.antt =====
-- bench/: the programs that put the client's parts together.
pub mod Synthetic
pub mod Tick
pub mod HotPath
