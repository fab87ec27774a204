-- ===== src/Witness/ArenaExamples.antt =====
-- A region of 100 bytes, of which 3 are used.
use kalshi_cpp.Prelude.{
  ℕ, ◌+◌, ◌*◌, ◌%◌, ◌^◌, ◌≤◌, ◌<◌, ◌≡◌, ◌⊎◌, refl, none, some, List, [], ◌∷◌, arith,
}
use kalshi_cpp.Core.Arena.{Arena, allocate}
use kalshi_cpp.Core.Arena.Blocks.{allocate-least, blocks_of, blocks_of-InOrder, InOrder}

abbrev region : Arena
region = record { base = 3 * 2 ^ 12; capacity = 100; offset = 3 }

allocate-least_example :
    ((p : ℕ) × (allocate 16 (2 ^ 3) region
        ≡ some (some (region.base + p), record region { offset = p + 16 }))
      × ((region.base + p) % 2 ^ 3 ≡ 0)
      × (3 ≤ p)
      × (p + 16 ≤ 100))
    ⊎ ((allocate 16 (2 ^ 3) region ≡ some (none, region))
        × ((p : ℕ) → (region.base + p) % 2 ^ 3 ≡ 0 → 3 ≤ p → 100 < p + 16))
allocate-least_example =
    allocate-least 3 (omega arith) region (omega arith) 16 (omega arith) (omega arith) (omega arith)

-- An alignment of two pages is that of the distance only.
two_pages :
    (allocate 16 (2 ^ 13) (record region { capacity = 2 ^ 16 }))
    ≡ some
        (some (5 * 2 ^ 12), record { base = 3 * 2 ^ 12; capacity = 2 ^ 16; offset = 2 ^ 13 + 16 })
unfolding allocate
two_pages = refl

abbrev requests : List (ℕ × ℕ)
requests = (16, 3) ∷ (200, 0) ∷ (8, 4) ∷ []

blocks_of-InOrder_example :
    (bs : List (ℕ × ℕ)) × (blocks_of requests region ≡ some bs)
    × InOrder (region.base + 3) bs (region.base + 100)
blocks_of-InOrder_example =
    blocks_of-InOrder requests region (omega arith) (omega arith)
      (omega arith, omega arith, (omega arith, omega arith, (omega arith, omega arith, tt)))

blocks_run : blocks_of requests region ≡ some ((12296, 16) ∷ (12320, 8) ∷ [])
unfolding allocate
blocks_run = refl
