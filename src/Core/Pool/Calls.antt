-- ===== src/Core/Pool/Calls.antt =====
-- core/pool_alloc.h: allocate, deallocate and a client's use of its block, by who owns which block.
use kalshi_cpp.Prelude.{
  ℕ, ◌<◌, ◌≡◌, ◌≢◌, ◌⊎◌, inl, inr, refl, sym, ap, subst, ◌∙◌, true, false, Option, none, some, List,
  [], ◌∷◌, arith, get_elem?, set, length, length-set, get_elem?-set_self, get_elem?-set_ne,
  get_elem?-in,
}
use kalshi_cpp.Core.Pool.{
  Block, free, live, Pool, allocate, allocate_at, read_link, deallocate, write_block, store, load,
  load_of,
}
use kalshi_cpp.Core.Pool.Ids.{
  mem, Nodup, remove, apart-moved, mem-split, mem-remove, Nodup-remove, length-remove, apart-given,
}
use kalshi_cpp.Core.Pool.Ownership.{Chain, Owns, Chain-set}

module _ {T : Type 0} where
  allocate-none :
      (pool : Pool T) (owned : List ℕ) (v : Owns pool owned)
      → v.unused ≡ []
      → (length owned ≡ length pool.blocks) × (allocate pool ≡ some (none, pool))
  unfolding allocate allocate_at
  allocate-none pool owned v e =
      let c : Chain pool.blocks pool.free_head [] =
        subst (Chain pool.blocks pool.free_head) e v.chain in
      (ground (arith, v.count, ap length e), rw c)

  allocate_at-some :
      (pool : Pool T) (p : ℕ) (next : Option ℕ)
      → get_elem? pool.blocks p ≡ some (free next)
      → allocate_at (some p) pool ≡ some (some p, record pool { free_head = next })
  unfolding allocate_at read_link
  allocate_at-some pool p next e = rw (e, allocate_at)

  allocate-some :
      (pool : Pool T) (owned : List ℕ) (v : Owns pool owned) (p : ℕ) (ps : List ℕ)
      → v.unused ≡ p ∷ ps
      → (pool' : Pool T) × (allocate pool ≡ some (some p, pool'))
        × (pool'.blocks ≡ pool.blocks)
        × (mem p owned ≡ false)
        × (p < length pool.blocks)
        × Owns pool' (p ∷ owned)
  unfolding allocate
  allocate-some pool owned v p ps e =
      let c : Chain pool.blocks pool.free_head (p ∷ ps) =
        subst (Chain pool.blocks pool.free_head) e v.chain in
      let once : Nodup (p ∷ ps) = subst Nodup e v.unused_once in
      let away : (q : ℕ) → mem q (p ∷ ps) ≡ true → mem q owned ≡ false =
        λ q m. v.apart q (ap (mem q) e ∙ m) in
      let fresh : mem p owned ≡ false = away p (ground arith) in
      let inside : p < length pool.blocks = get_elem?-in pool.blocks p (free c.1.0) c.1.1 in
      let pool' : Pool T = record pool { free_head = c.1.0 } in
      (
        pool',
        ap (λ h. allocate_at h pool) c.0 ∙ allocate_at-some pool p c.1.0 c.1.1,
        refl,
        fresh,
        inside,
        record {
          unused = ps;
          chain = c.1.2;
          unused_once = once.1;
          owned_once = (fresh, v.owned_once);
          apart = λ q m. apart-moved q p ps owned once.0 m (away q (ground arith));
          owned_in = λ q m. mem-split q p owned (length pool.blocks) inside (v.owned_in q) m;
          count = ground (arith, v.count, ap length e);
        },
      )

  allocate_by :
      (pool : Pool T) (owned : List ℕ) (v : Owns pool owned) (unused : List ℕ)
      → v.unused ≡ unused
      → ((length owned ≡ length pool.blocks) × (allocate pool ≡ some (none, pool)))
        ⊎ ((p : ℕ) × (pool' : Pool T) × (allocate pool ≡ some (some p, pool'))
            × (pool'.blocks ≡ pool.blocks)
            × (mem p owned ≡ false)
            × (p < length pool.blocks)
            × Owns pool' (p ∷ owned))
  allocate_by pool owned v [] e = inl (allocate-none pool owned v e)
  allocate_by pool owned v (p ∷ ps) e =
      let r = allocate-some pool owned v p ps e in inr (p, r.0, r.1, r.2, r.3, r.4, r.5)

  -- When the free list goes through exactly the blocks that no one owns, allocate is defined; it
  -- returns nullptr only when every block is owned, and otherwise a block of the pool that no one
  -- owned, which is then owned too, and it writes no block.
  pub allocate_lem :
      (pool : Pool T) (owned : List ℕ)
      → Owns pool owned
      → ((length owned ≡ length pool.blocks) × (allocate pool ≡ some (none, pool)))
        ⊎ ((p : ℕ) × (pool' : Pool T) × (allocate pool ≡ some (some p, pool'))
            × (pool'.blocks ≡ pool.blocks)
            × (mem p owned ≡ false)
            × (p < length pool.blocks)
            × Owns pool' (p ∷ owned))
  allocate_lem pool owned v = allocate_by pool owned v v.unused refl

  write_block_in :
      (pool : Pool T) (p : ℕ) (b : Block T)
      → p < length pool.blocks
      → write_block p b pool ≡ some (record pool { blocks = set pool.blocks p b })
  unfolding write_block
  write_block_in pool p b h = ground arith

  deallocate_in :
      (pool : Pool T) (p : ℕ)
      → p < length pool.blocks
      → deallocate p pool
        ≡ some record { blocks = set pool.blocks p (free pool.free_head); free_head = some p }
  unfolding deallocate
  deallocate_in pool p h = rw (write_block_in pool p (free pool.free_head) h, deallocate)

  -- In such a pool, deallocate of an owned block is defined; the block is then first in the free list and no longer
  -- owned, and the objects in the other blocks stay.
  pub deallocate_lem :
      (pool : Pool T) (owned : List ℕ) (p : ℕ)
      → Owns pool owned
      → mem p owned ≡ true
      → (pool' : Pool T) × (deallocate p pool ≡ some pool')
        × (pool'.free_head ≡ some p)
        × (length pool'.blocks ≡ length pool.blocks)
        × ((q : ℕ) → q ≢ p → load q pool' ≡ load q pool)
        × Owns pool' (remove p owned)
  unfolding load
  deallocate_lem pool owned p v m =
      let inside : p < length pool.blocks = v.owned_in p m in
      let out : mem p v.unused ≡ false = ground (arith, v.apart p) in
      let blocks : List (Block T) = set pool.blocks p (free pool.free_head) in
      let size : length blocks ≡ length pool.blocks =
        length-set pool.blocks p (free pool.free_head) in
      (
        record { blocks = blocks; free_head = some p },
        deallocate_in pool p inside,
        refl,
        size,
        λ q ne.
            ap load_of (get_elem?-set_ne pool.blocks p q (free pool.free_head) (λ e. ne (sym e))),
        record {
          unused = p ∷ v.unused;
          chain = (
            refl,
            (
              pool.free_head,
              get_elem?-set_self pool.blocks p (free pool.free_head) inside,
              Chain-set pool.blocks pool.free_head v.unused p (free pool.free_head) out v.chain,
            ),
          );
          unused_once = (out, v.unused_once);
          owned_once = Nodup-remove p owned v.owned_once;
          apart = λ q k. apart-given q p v.unused owned v.owned_once (v.apart q) k;
          owned_in = λ q k. ground (arith, v.owned_in q (mem-remove q p owned k), size);
          count = ground (arith, v.count, length-remove p owned m, size);
        },
      )

  -- In such a pool, a write to an owned block is defined and read back; the other objects and the owners stay.
  pub store_lem :
      (pool : Pool T) (owned : List ℕ) (p : ℕ) (x : T)
      → Owns pool owned
      → mem p owned ≡ true
      → (pool' : Pool T) × (store p x pool ≡ some pool')
        × (load p pool' ≡ some x)
        × ((q : ℕ) → q ≢ p → load q pool' ≡ load q pool)
        × Owns pool' owned
  unfolding store load load_of
  store_lem pool owned p x v m =
      let inside : p < length pool.blocks = v.owned_in p m in
      let out : mem p v.unused ≡ false = ground (arith, v.apart p) in
      let size : length (set pool.blocks p (live x)) ≡ length pool.blocks =
        length-set pool.blocks p (live x) in
      (
        record pool { blocks = set pool.blocks p (live x) },
        write_block_in pool p (live x) inside,
        ap load_of (get_elem?-set_self pool.blocks p (live x) inside),
        λ q ne. ap load_of (get_elem?-set_ne pool.blocks p q (live x) (λ e. ne (sym e))),
        record {
          unused = v.unused;
          chain = Chain-set pool.blocks pool.free_head v.unused p (live x) out v.chain;
          unused_once = v.unused_once;
          owned_once = v.owned_once;
          apart = v.apart;
          owned_in = λ q k. ground (arith, v.owned_in q k, size);
          count = ground (arith, v.count, size);
        },
      )
