-- ===== src/Core/Pool/Ownership.antt =====
-- Who owns which block: the free list goes through exactly the blocks that no one owns.
use kalshi_cpp.Prelude.{
  ℕ, zero, suc, ◌+◌, ◌<◌, ◌≡◌, ◌≢◌, inl, inr, refl, sym, ap, ◌∙◌, true, false, Option, none, some,
  List, [], ◌∷◌, arith, get_elem?, set, length, ◌==◌, ==→eq, get_elem?-set_ne, ==→ne, Bool-cases,
}
use kalshi_cpp.Core.Pool.{Block, free, Pool, linked, init_pool}
use kalshi_cpp.Core.Pool.Ids.{mem, Nodup, up, Nodup-up, length-up}

module _ {T : Type 0} where
  -- From `h` the links lead through the blocks `ps` to the end.
  abbrev pub Chain : List (Block T) → Option ℕ → List ℕ → Type 0
  Chain blocks h [] = h ≡ none
  Chain blocks h (p ∷ ps) =
      (h ≡ some p)
      × ((next : Option ℕ) × (get_elem? blocks p ≡ some (free next)) × Chain blocks next ps)

  pub record Owns (pool : Pool T) (owned : List ℕ) : Type 0 where
    pub unused : List ℕ
    pub chain : Chain pool.blocks pool.free_head unused
    pub unused_once : Nodup unused
    pub owned_once : Nodup owned
    pub apart : (p : ℕ) → mem p unused ≡ true → mem p owned ≡ false
    pub owned_in : (p : ℕ) → mem p owned ≡ true → p < length pool.blocks
    pub count : length unused + length owned ≡ length pool.blocks

  -- A write to a block off the chain leaves the chain.
  pub Chain-set :
      (blocks : List (Block T)) (h : Option ℕ) (ps : List ℕ) (q : ℕ) (b : Block T)
      → mem q ps ≡ false
      → Chain blocks h ps
      → Chain (set blocks q b) h ps
  Chain-set blocks h [] q b out c = c
  Chain-set blocks h (p ∷ ps) q b out c =
      let ne : q ≢ p = ==→ne q p (ground arith) in
      (
        c.0,
        (
          c.1.0,
          get_elem?-set_ne blocks q p b ne ∙ c.1.1,
          Chain-set blocks c.1.0 ps q b (ground arith) c.1.2,
        ),
      )

  -- A block that the chain goes through holds a link.
  pub Chain-at :
      (blocks : List (Block T)) (h : Option ℕ) (ps : List ℕ) (p : ℕ)
      → Chain blocks h ps
      → mem p ps ≡ true
      → (next : Option ℕ) × (get_elem? blocks p ≡ some (free next))
  Chain-at blocks h [] p c m = cc
  Chain-at blocks h (q ∷ ps) p c m = elim (Bool-cases (p == q)) [
    | inl e ↦ (c.1.0, ap (get_elem? blocks) (==→eq p q e) ∙ c.1.1)
    | inr e ↦ Chain-at blocks c.1.0 ps p c.1.2 (ground arith)
  ]

  pub length-linked :
      (i n : ℕ) (blocks : List (Block T)) → blocks ≡ linked i n → length blocks ≡ n + 1
  unfolding linked
  length-linked i zero blocks e = ap length e ∙ omega arith
  length-linked i (suc n) blocks e =
      ap length e ∙ omega (arith, length-linked (i + 1) n (linked (i + 1) n) refl)

  Chain-linked :
      (blocks : List (Block T)) (i n : ℕ)
      → ((j : ℕ) → get_elem? (linked i n) j ≡ get_elem? blocks (i + j))
      → Chain blocks (some i) (up i n)
  unfolding linked
  Chain-linked blocks i zero h =
      (refl, (none, sym (ap (get_elem? blocks) (omega arith)) ∙ sym (h 0), refl))
  Chain-linked blocks i (suc n) h = (
    refl,
    (
      some (i + 1),
      sym (ap (get_elem? blocks) (omega arith)) ∙ sym (h 0),
      Chain-linked blocks (i + 1) n (λ j. h (suc j) ∙ ap (get_elem? blocks) (omega arith)),
    ),
  )

  -- The free list of a new pool of n + 1 blocks goes through exactly its blocks, none of them owned.
  pub Owns-init : (n : ℕ) → Owns (init_pool n) []
  unfolding init_pool
  Owns-init n = record {
    unused = up 0 n;
    chain = Chain-linked (linked 0 n) 0 n (λ j. ap (get_elem? (linked 0 n)) (omega arith));
    unused_once = Nodup-up 0 n;
    owned_once = tt;
    apart = λ p m. refl;
    owned_in = λ p m. cc;
    count = omega (arith, length-up 0 n, length-linked 0 n (linked 0 n) refl);
  }
