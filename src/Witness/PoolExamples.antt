-- ===== src/Witness/PoolExamples.antt =====
-- A pool of two blocks, the first of them owned.
use kalshi_cpp.Prelude.{
  ℕ, ◌<◌, ◌≡◌, ◌≢◌, ◌⊎◌, refl, false, none, some, List, [], ◌∷◌, arith, length,
}
use kalshi_cpp.Core.Pool.{Pool, live, free, allocate, deallocate, load}
use kalshi_cpp.Core.Pool.Ids.{mem, remove}
use kalshi_cpp.Core.Pool.Ownership.{Owns}
use kalshi_cpp.Core.Pool.Calls.{allocate_lem, deallocate_lem}

abbrev pool : Pool ℕ
pool = record { blocks = live 7 ∷ free none ∷ []; free_head = some 1 }

abbrev held : List ℕ
held = 0 ∷ []

held-Owns : Owns pool held
held-Owns = record {
  unused = 1 ∷ [];
  chain = (refl, (none, refl, refl));
  unused_once = (refl, tt);
  owned_once = (refl, tt);
  apart = λ p m. ground arith;
  owned_in = λ p m. ground arith;
  count = refl;
}

allocate_lem_example :
    ((length held ≡ length pool.blocks) × (allocate pool ≡ some (none, pool)))
    ⊎ ((p : ℕ) × (pool' : Pool ℕ) × (allocate pool ≡ some (some p, pool'))
        × (pool'.blocks ≡ pool.blocks)
        × (mem p held ≡ false)
        × (p < length pool.blocks)
        × Owns pool' (p ∷ held))
allocate_lem_example = allocate_lem pool held held-Owns

deallocate_lem_example :
    (pool' : Pool ℕ) × (deallocate 0 pool ≡ some pool')
    × (pool'.free_head ≡ some 0)
    × (length pool'.blocks ≡ length pool.blocks)
    × ((q : ℕ) → q ≢ 0 → load q pool' ≡ load q pool)
    × Owns pool' (remove 0 held)
deallocate_lem_example = deallocate_lem pool held 0 held-Owns refl

abbrev spare : ℕ
spare = 1
