-- ===== src/Bench/HotPath/Registered.antt =====
-- bench/bench_hotpath_multi.cpp: `register_markets` never aborts, and afterwards every ticker is found.
use kalshi_cpp.Prelude.{
  ℕ, zero, suc, ◌+◌, ◌-◌, ◌^◌, ◌≤◌, ◌<◌, ◌≡◌, ◌≢◌, ◌⊎◌, inl, inr, refl, sym, ap, ◌∙◌, subst, true,
  none, some, List, [], ◌∷◌, arith, ◌==◌, if◌then◌else◌, if-elim, Bool-cases, Bytes, length,
  length-set, get_elem?, next_size,
}
use kalshi_cpp.Prelude.Runs.{value, ◌>>=◌}
use kalshi_cpp.Core.FlatHashMap.{
  free_key, FlatHashMap, init_map, insert, counted, place, home, Placed,
}
use kalshi_cpp.Core.FlatHashMap.Used.{used}
use kalshi_cpp.Core.FlatHashMap.Insert.Calls.{Sound, Insertion, insert_lem}
use kalshi_cpp.Core.FlatHashMap.Lookup.{lookup, lookup-insert, init_map-Sound}
use kalshi_cpp.Core.Pool.{Pool, init_pool, allocate, store, load, load_of, live, write_block}
use kalshi_cpp.Core.Pool.Ids.{mem}
use kalshi_cpp.Core.Pool.Ownership.{Owns, Owns-init}
use kalshi_cpp.Core.Pool.Calls.{allocate_lem, store_lem}
use kalshi_cpp.Bench.Tick.{MarketState, fresh_market}
use kalshi_cpp.Bench.HotPath.{
  Markets, init_markets, last_market, market_capacity, hash_ticker, register_market,
  register_markets,
}
use kalshi_cpp.Bench.HotPath.Keys.{hash_ticker-ne}

abbrev narrow : 10 < 64
narrow = omega arith

-- The blocks that are markets, and what find leads to: a fresh market of its own block.
pub record Ready (ms : Markets) (owned : List ℕ) : Type 0 where
  pub sound : Sound 10 narrow ms.table
  pub owns : Owns ms.pool owned
  pub blocks : length ms.pool.blocks ≡ 256
  pub few : used ms.table.slots ≤ length owned
  pub points :
      (k p : ℕ)
      → k ≢ free_key
      → lookup market_capacity k ms.table ≡ some p
      → (mem p owned ≡ true) × (load p ms.pool ≡ some fresh_market)

counted-count :
    (r : Placed ℕ) (m : FlatHashMap ℕ)
    → ((counted r m).1.count ≡ next_size m.count) ⊎ ((counted r m).1.count ≡ m.count)
unfolding counted
counted-count r m =
    if-elim (λ c. (c ≡ next_size m.count) ⊎ (c ≡ m.count)) r.inserting_new (next_size m.count)
      m.count (λ _. inl refl) (λ _. inr refl)

insert-count :
    (size k v : ℕ) (m : FlatHashMap ℕ)
    → ((insert size k v m).1.count ≡ next_size m.count) ⊎ ((insert size k v m).1.count ≡ m.count)
unfolding insert
insert-count size k v m = counted-count (place size m.slots k v (home size k) 0 (size - 1)) m

used-insert :
    (m : FlatHashMap ℕ) (k v : ℕ)
    → Sound 10 narrow m
    → k ≢ free_key
    → used m.slots < 2 ^ 10
    → used (insert market_capacity k v m).1.slots ≤ suc (used m.slots)
used-insert m k v s real room =
    let r : Insertion 10 narrow m k v (insert (2 ^ 10) k v m) =
      insert_lem 10 narrow m k v s real room in
    omega (arith, r.sound.counted, s.counted, insert-count market_capacity k v m)

load-blocks :
    (q : ℕ) (pool pool' : Pool MarketState)
    → pool.blocks ≡ pool'.blocks
    → load q pool ≡ load q pool'
unfolding load
load-blocks q pool pool' e = ap (λ bs. load_of (get_elem? bs q)) e

length-store :
    (p : ℕ) (x : MarketState) (pool pool' : Pool MarketState)
    → store p x pool ≡ some pool'
    → length pool'.blocks ≡ length pool.blocks
unfolding store write_block
length-store p x pool pool' e = ground (arith, e, length-set pool.blocks p (live x))

register_market-rounds :
    (name : Bytes) (ms : Markets) (p : ℕ) (pool pool' : Pool MarketState)
    → allocate ms.pool ≡ some (some p, pool)
    → store p fresh_market pool ≡ some pool'
    → (insert market_capacity (hash_ticker name) p ms.table).0 ≡ true
    → register_market name ms
      ≡ value (record {
        pool = pool';
        table = (insert market_capacity (hash_ticker name) p ms.table).1;
      })
unfolding register_market
register_market-rounds name ms p pool pool' e1 e2 e3 = ground (arith, e1, e2, e3)

-- What a registration does while there is room: it leaves one more market, and changes what find leads
-- to at the key of the name only.
record Added (name : Bytes) (ms : Markets) (owned : List ℕ) : Type 0 where
  rest : Markets
  block : ℕ
  result : register_market name ms ≡ value rest
  ready : Ready rest (block ∷ owned)
  finds :
      (k : ℕ)
      → k ≢ free_key
      → lookup market_capacity k rest.table
        ≡ (if k == hash_ticker name then some block else lookup market_capacity k ms.table)

register_market-Added :
    (name : Bytes) (ms : Markets) (owned : List ℕ)
    → Ready ms owned
    → length owned < 256
    → Added name ms owned
register_market-Added name ms owned r room =
    let key : ℕ = hash_ticker name in
    let real : key ≢ free_key = hash_ticker-ne name in
    elim (allocate_lem ms.pool owned r.owns) [
      | inl full ↦ absurd (omega (arith, full.0, r.blocks))
      | inr (p, pool, e1, same, new, inside, owns) ↦
          let (pool', e2, holds, others, owns') =
            store_lem pool (p ∷ owned) p fresh_market owns (ground arith) in
          let space : used ms.table.slots < 2 ^ 10 = omega (arith, r.few) in
          let grown : Insertion 10 narrow ms.table key p (insert market_capacity key p ms.table) =
            insert_lem 10 narrow ms.table key p r.sound real space in
          let apart : (q : ℕ) → mem q owned ≡ true → q ≢ p =
            λ q m f. ground (arith, m, ap (λ t. mem t owned) f, new) in
          let look : (k : ℕ)
              → k ≢ free_key
              → lookup market_capacity k (insert market_capacity key p ms.table).1
                ≡ (if k == key then some p else lookup market_capacity k ms.table) =
            λ k ok. lookup-insert 10 narrow ms.table key k p r.sound real ok space in
          let points_after : (k q : ℕ)
              → k ≢ free_key
              → lookup market_capacity k (insert market_capacity key p ms.table).1 ≡ some q
              → (mem q (p ∷ owned) ≡ true) × (load q pool' ≡ some fresh_market) =
            λ k q ok e. elim (Bool-cases (k == key)) [
              | inl at ↦
                  let same_block : q ≡ p = ground (arith, look k ok, e, at) in
                  (ground arith, ap (λ t. load t pool') same_block ∙ holds)
              | inr away ↦
                  let before : lookup market_capacity k ms.table ≡ some q =
                    ground (arith, look k ok, e, away) in
                  let (owned_q, fresh_q) = r.points k q ok before in
                  (
                    ground (arith, owned_q),
                    others q (apart q owned_q) ∙ (load-blocks q pool ms.pool same ∙ fresh_q),
                  )
            ] in
          record {
            rest = record { pool = pool'; table = (insert market_capacity key p ms.table).1 };
            block = p;
            result = register_market-rounds name ms p pool pool' e1 e2 grown.ok;
            finds = look;
            ready = record {
              sound = grown.sound;
              owns = owns';
              blocks = length-store p fresh_market pool pool' e2 ∙ (ap length same ∙ r.blocks);
              few = omega (arith, used-insert ms.table key p r.sound real space, r.few);
              points = λ k q ok e. points_after k q ok e;
            };
          }
    ]

-- find leads to some market.
abbrev pub Finds : Markets → ℕ → Type 0
Finds ms k = (p : ℕ) × (lookup market_capacity k ms.table ≡ some p)

Finds-Added :
    (name : Bytes) (ms : Markets) (owned : List ℕ) (a : Added name ms owned) (k : ℕ)
    → k ≢ free_key
    → Finds ms k
    → Finds a.rest k
Finds-Added name ms owned a k real (p, e) =
    let (q, f) =
      if-elim (λ o. (q : ℕ) × (o ≡ some q)) (k == hash_ticker name) (some a.block)
        (lookup market_capacity k ms.table) (λ _. (a.block, refl)) (λ _. (p, e)) in
    (q, a.finds k real ∙ f)

Finds-own :
    (name : Bytes) (ms : Markets) (owned : List ℕ) (a : Added name ms owned)
    → Finds a.rest (hash_ticker name)
Finds-own name ms owned a =
    let at : (hash_ticker name == hash_ticker name) ≡ true = ground arith in
    (
      a.block,
      a.finds (hash_ticker name) (hash_ticker-ne name)
          ∙ ap (λ b. if b then some a.block else lookup market_capacity (hash_ticker name) ms.table)
              at,
    )

-- What registering a list of names leaves.
record AddedAll (names : List Bytes) (ms : Markets) : Type 0 where
  rest : Markets
  owned : List ℕ
  result : register_markets names ms ≡ value rest
  ready : Ready rest owned
  kept : (k : ℕ) → k ≢ free_key → Finds ms k → Finds rest k
  found : (i : ℕ) (name : Bytes) → get_elem? names i ≡ some name → Finds rest (hash_ticker name)

register_markets-AddedAll :
    (names : List Bytes) (ms : Markets) (owned : List ℕ)
    → Ready ms owned
    → length owned + length names ≤ 256
    → AddedAll names ms
unfolding register_markets
register_markets-AddedAll [] ms owned r room = record {
  rest = ms;
  owned = owned;
  result = refl;
  ready = r;
  kept = λ k real f. f;
  found = λ i name e. cc;
}
register_markets-AddedAll (name ∷ names) ms owned r room =
    let a : Added name ms owned = register_market-Added name ms owned r (omega arith) in
    let later : AddedAll names a.rest =
      register_markets-AddedAll names a.rest (a.block ∷ owned) a.ready (omega arith) in
    record {
      rest = later.rest;
      owned = later.owned;
      result = ap (λ m. m >>= register_markets names) a.result ∙ later.result;
      ready = later.ready;
      kept = λ k real f. later.kept k real (Finds-Added name ms owned a k real f);
      found = found_here a later;
    }
  where
    found_here :
        (a : Added name ms owned) (later : AddedAll names a.rest) (i : ℕ) (t : Bytes)
        → get_elem? (name ∷ names) i ≡ some t
        → Finds later.rest (hash_ticker t)
    found_here a later zero t e =
        let same : name ≡ t = cc in
        subst (λ u. Finds later.rest (hash_ticker u)) same
          (later.kept (hash_ticker name) (hash_ticker-ne name) (Finds-own name ms owned a))
    found_here a later (suc i) t e = later.found i t e

init_map-count : (size filler : ℕ) → (init_map size filler).count ≡ 0
unfolding init_map
init_map-count size filler = refl

none-ne-some : (p : ℕ) → ¬ (none ≡ some p)
none-ne-some p e = cc

init-Ready : Ready init_markets []
unfolding init_pool
init-Ready =
    let empty = init_map-Sound 10 narrow 0 in
    record {
      sound = empty.0;
      owns = Owns-init last_market;
      blocks = refl;
      few = omega (arith, empty.0.counted, init_map-count market_capacity 0);
      points = λ k p real e. absurd (none-ne-some p (sym (empty.1 k real) ∙ e));
    }

-- After the start-up, for any 256 tickers or fewer, nothing has aborted, and find leads from the key of
-- each ticker to a fresh market in a block of its own pool.
pub register_markets_lem :
    (names : List Bytes)
    → length names ≤ 256
    → (ms : Markets) × (register_markets names init_markets ≡ value ms)
      × ((i : ℕ) (name : Bytes)
          → get_elem? names i ≡ some name
          → (p : ℕ) × (lookup market_capacity (hash_ticker name) ms.table ≡ some p)
            × (load p ms.pool ≡ some fresh_market))
register_markets_lem names room =
    let all : AddedAll names init_markets =
      register_markets-AddedAll names init_markets [] init-Ready (omega arith) in
    (
      all.rest,
      all.result,
      λ i name e.
          let (p, f) = all.found i name e in
          (p, f, (all.ready.points (hash_ticker name) p (hash_ticker-ne name) f).1),
    )
