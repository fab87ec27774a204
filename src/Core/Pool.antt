-- ===== src/Core/Pool.antt =====
-- core/pool_alloc.h: `Pool`, a fixed number of blocks with the free list kept inside the free blocks.
-- A block is named by its index, `base_ + i * block_size_`; `nullptr` is `none`.
pub mod Ids
pub mod Ownership
pub mod Calls
use kalshi_cpp.Prelude.{
  ℕ, zero, suc, ◌+◌, ◌==◌, Bool, true, false, Option, none, some, List, [], ◌∷◌, get_elem?, set,
  length, if◌then◌else◌, ltb,
}

-- The bytes of a block: the link that the pool writes at its start, or an object of the client.
pub data Block (T : Type 0) : Type 0 where
  free : Option ℕ → Block T
  live : T → Block T

pub record Pool (T : Type 0) : Type 0 where
  pub blocks : List (Block T)
  pub free_head : Option ℕ

abbrev is_none : {A : Type 0} → Option A → Bool
is_none none = true
is_none (some a) = false

module _ {T : Type 0} where
  -- The loop of the constructor from block `i` on, `n` blocks before the last.
  unfoldable pub linked : ℕ → ℕ → List (Block T)
  linked i zero = free none ∷ []
  linked i (suc n) = free (some (i + 1)) ∷ linked (i + 1) n

  -- A pool of `n + 1` blocks: the capacity is positive.
  unfoldable pub init_pool : ℕ → Pool T
  unfolding linked
  init_pool n = record { blocks = linked 0 n; free_head = some 0 }

  -- `*reinterpret_cast<void**>(p)`: `none` is undefined, where no link stands.
  unfoldable pub read_link : List (Block T) → ℕ → Option (Option ℕ)
  read_link blocks p = elim (get_elem? blocks p) [
    | none ↦ none
    | some (free next) ↦ some next
    | some (live x) ↦ none
  ]

  unfoldable pub allocate_at : Option ℕ → Pool T → Option (Option ℕ × Pool T)
  unfolding read_link
  allocate_at none pool = some (none, pool)
  allocate_at (some p) pool = elim (read_link pool.blocks p) [
    | none ↦ none
    | some next ↦ some (some p, record pool { free_head = next })
  ]

  -- `none` is undefined behaviour; the pointer returned may be `nullptr`.
  unfoldable pub allocate : Pool T → Option (Option ℕ × Pool T)
  unfolding allocate_at
  allocate pool = allocate_at pool.free_head pool

  -- A write outside the blocks is undefined.
  unfoldable pub write_block : ℕ → Block T → Pool T → Option (Pool T)
  write_block p b pool =
      if ltb p (length pool.blocks)
      then some (record pool { blocks = set pool.blocks p b })
      else none

  unfoldable pub deallocate : ℕ → Pool T → Option (Pool T)
  unfolding write_block
  deallocate p pool = elim (write_block p (free pool.free_head) pool) [
    | none ↦ none
    | some pool' ↦ some (record pool' { free_head = some p })
  ]

  -- What a client does with its block: it writes an object, or reads one back.
  unfoldable pub store : ℕ → T → Pool T → Option (Pool T)
  unfolding write_block
  store p x pool = write_block p (live x) pool

  unfoldable pub load_of : Option (Block T) → Option T
  load_of none = none
  load_of (some (free next)) = none
  load_of (some (live x)) = some x

  unfoldable pub load : ℕ → Pool T → Option T
  unfolding load_of
  load p pool = load_of (get_elem? pool.blocks p)

  pub full : Pool T → Bool
  full pool = is_none pool.free_head
