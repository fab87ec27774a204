-- ===== src/Sim/MatchingEngine/Queues/Removal.antt =====
-- sim/domain/matching_engine.cpp: an order leaves its queue, the index and its block.
use kalshi_cpp.Prelude.{
  ℕ, ◌+◌, ◌<◌, ◌≡◌, ◌≢◌, refl, sym, ap, ◌∙◌, true, none, some, List, arith, length, if◌then◌else◌,
  ◌==◌,
}
use kalshi_cpp.Core.FlatHashMap.{free_key, FlatHashMap}
use kalshi_cpp.Core.FlatHashMap.Lookup.{lookup}
use kalshi_cpp.Core.FlatHashMap.Size.{erase_for_all, count-erase}
use kalshi_cpp.Core.FlatHashMap.Insert.Calls.{Sound}
use kalshi_cpp.Core.Pool.{Pool}
use kalshi_cpp.Core.Pool.Ids.{mem, Nodup, remove, mem-remove, mem-remove_ne, mem-remove_self}
use kalshi_cpp.Core.Pool.Ownership.{Owns}
use kalshi_cpp.Core.Pool.Calls.{deallocate_lem}
use kalshi_cpp.Sim.MatchingEngine.State.{
  Side, yes_side, no_side, Order, MatchingEngine, orders_capacity, get_level, get_order,
}
use kalshi_cpp.Sim.MatchingEngine.Match.{release}
use kalshi_cpp.Sim.MatchingEngine.Queues.Ring.{Node, at_level, in_block}
use kalshi_cpp.Sim.MatchingEngine.Queues.Nodes.{
  first_node, last_node, later_node, earlier_node, next_node, prev_node,
}
use kalshi_cpp.Sim.MatchingEngine.Queues.Linked.{Member, index_width}

-- What release leaves of the engine.
pub record Released (e : MatchingEngine) (id c : ℕ) (e' : MatchingEngine) : Type 0 where
  pub orders_at : (q : ℕ) → q ≢ c → get_order q e' ≡ get_order q e
  pub levels_at : (s : Side) (p : ℕ) → get_level s p e' ≡ get_level s p e
  pub blocks : length e'.pool.blocks ≡ length e.pool.blocks
  pub bids_length : length e'.bids ≡ length e.bids
  pub asks_length : length e'.asks ≡ length e.asks
  pub next_order_id : e'.next_order_id ≡ e.next_order_id
  pub best_bid : e'.best_bid ≡ e.best_bid
  pub best_ask : e'.best_ask ≡ e.best_ask
  pub sound : Sound 12 index_width e'.orders
  pub lookups :
      (k : ℕ)
      → k ≢ free_key
      → lookup orders_capacity k e'.orders
        ≡ (if k == id then none else lookup orders_capacity k e.orders)
  pub count : e'.orders.count + 1 ≡ e.orders.count

level_left :
    (s : Side) (p : ℕ) (m : FlatHashMap ℕ) (pool : Pool Order) (e : MatchingEngine)
    → get_level s p (record e { orders = m; pool = pool }) ≡ get_level s p e
level_left yes_side p m pool e = refl
level_left no_side p m pool e = refl

pub release_lem :
    (owned : List ℕ) (e : MatchingEngine) (id c : ℕ)
    → Owns e.pool owned
    → mem c owned ≡ true
    → Sound 12 index_width e.orders
    → id ≢ free_key
    → e.orders.count < 4096
    → lookup orders_capacity id e.orders ≡ some c
    → (e' : MatchingEngine) × (release id c e ≡ some e')
      × Owns e'.pool (remove c owned)
      × Released e id c e'
unfolding release
release_lem owned e id c v m s real room at =
    let r = erase_for_all 12 index_width e.orders id s real (omega (arith, room, s.counted)) in
    let d = deallocate_lem e.pool owned c v m in
    let done : release id c e ≡ some (record e { orders = r.1; pool = d.0 }) =
      ground (arith, r.2, d.1) in
    (
      record e { orders = r.1; pool = d.0 },
      done,
      d.5,
      record {
        orders_at = d.4;
        levels_at = λ t p. level_left t p r.1 d.0 e;
        blocks = d.3;
        bids_length = refl;
        asks_length = refl;
        next_order_id = refl;
        best_bid = refl;
        best_ask = refl;
        sound = r.3;
        lookups = r.4;
        count = count-erase 12 index_width e.orders r.1 id r.0 c r.3 at r.2 (omega (arith, room));
      },
    )

pub links_left :
    (e e' : MatchingEngine) (id c : ℕ) (x : Node)
    → Released e id c e'
    → x ≢ in_block c
    → (next_node e' x ≡ next_node e x) × (prev_node e' x ≡ prev_node e x)
links_left e e' id c (at_level s p) r a =
    (ap (first_node s p) (r.levels_at s p), ap (last_node s p) (r.levels_at s p))
links_left e e' id c (in_block q) r a =
    let same = r.orders_at q (λ f. a (ap in_block f)) in (ap later_node same, ap earlier_node same)

-- Less one block.
pub Member-less :
    (held : List ℕ) (c : ℕ) (x : Node)
    → Nodup held
    → Member (remove c held) x
    → Member held x × (x ≢ in_block c)
Member-less held c (at_level s p) d h = (h, λ f. cc)
Member-less held c (in_block q) d h = (
  mem-remove q c held h,
  λ f.
      let same : q ≡ c = ground (arith, f) in
      absurd
        (ground (arith, sym h ∙ ap (λ t. mem t (remove c held)) same ∙ mem-remove_self c held d)),
)

pub Member-rest :
    (held : List ℕ) (c : ℕ) (x : Node) → Member held x → x ≢ in_block c → Member (remove c held) x
Member-rest held c (at_level s p) h a = h
Member-rest held c (in_block q) h a = mem-remove_ne q c held (λ f. a (ap in_block f)) h
