-- ===== src/Core/FlatHashMap/Insert.antt =====
-- core/flat_hash_map.h: the loop of `insert`, which takes over the slots of keys nearer their home.
pub mod Fill
pub mod Contents
pub mod Carry
pub mod Loop
pub mod Calls
pub mod Present
