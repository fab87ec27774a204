-- ===== src/Core/Arena.antt =====
-- core/arena_alloc.h: `Arena`, a region that hands out blocks one after the other. A pointer is an
-- address, and `nullptr` is `none`.
pub mod Blocks
use Prim.Native.Nat.{bit_and}
use kalshi_cpp.Prelude.{
  ℕ, ◌+◌, ◌-◌, ◌%◌, Option, none, some, ltb, ◌==◌, if◌then◌else◌, size_mod, sub_size,
}

pub record Arena : Type 0 where
  pub base : ℕ
  pub capacity : ℕ
  pub offset : ℕ

-- `mapped` is what mmap answers; without an answer the constructor aborts.
pub init_arena : Option ℕ → ℕ → Option Arena
init_arena none bytes = none
init_arena (some mapped) bytes = some record { base = mapped; capacity = bytes; offset = 0 }

-- `(offset_ + align - 1) & ~(align - 1)`
unfoldable pub align_up : ℕ → ℕ → ℕ
align_up offset align =
    bit_and (sub_size ((offset + align) % size_mod) 1) (size_mod - 1 - sub_size align 1)

unfoldable pub take_block : ℕ → ℕ → Arena → Option ℕ × Arena
take_block aligned bytes a =
    let end_of_block = (aligned + bytes) % size_mod in
    if ltb a.capacity end_of_block
    then (none, a)
    else (some (a.base + aligned), record a { offset = end_of_block })

-- `none` is the failed assertion that `align` is a power of two.
unfoldable pub allocate : ℕ → ℕ → Arena → Option (Option ℕ × Arena)
unfolding align_up take_block
allocate bytes align a =
    if bit_and align (sub_size align 1) == 0
    then some (take_block (align_up a.offset align) bytes a)
    else none

pub reset : Arena → Arena
reset a = record a { offset = 0 }
