-- ===== src/Core/FlatHashMap/Erase.antt =====
-- core/flat_hash_map.h: `erase`, which shifts the keys after the erased one back.
pub mod Hole
pub mod Move
pub mod Shift
pub mod Calls
