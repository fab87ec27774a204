-- ===== src/Sim/MatchingEngine/Queues/Alike.antt =====
-- sim/domain/matching_engine.cpp: what the queues do not depend on.
use kalshi_cpp.Prelude.{ℕ, ◌≤◌, ◌≡◌, sym, ap, subst, ◌∙◌, true, List, arith, length, get_elem?}
use kalshi_cpp.Core.FlatHashMap.{free_key, FlatHashMap}
use kalshi_cpp.Core.FlatHashMap.Lookup.{lookup}
use kalshi_cpp.Core.FlatHashMap.Insert.Calls.{Sound}
use kalshi_cpp.Core.Pool.Ids.{mem}
use kalshi_cpp.Sim.MatchingEngine.State.{
  Side, yes_side, no_side, MatchingEngine, orders_capacity, get_level, get_order,
}
use kalshi_cpp.Sim.MatchingEngine.Queues.Ring.{Node, at_level, in_block}
use kalshi_cpp.Sim.MatchingEngine.Queues.Nodes.{
  first_node, last_node, later_node, earlier_node, next_node, prev_node,
}
use kalshi_cpp.Sim.MatchingEngine.Queues.Linked.{Member, Linked, Ring-same, index_width}

-- Two engines with the same orders in the blocks `held`, levels and index.
pub record Alike (held : List ℕ) (e e' : MatchingEngine) : Type 0 where
  pub orders_at : (q : ℕ) → mem q held ≡ true → get_order q e' ≡ get_order q e
  pub bids : e'.bids ≡ e.bids
  pub asks : e'.asks ≡ e.asks
  pub orders : e'.orders ≡ e.orders

level-Alike :
    (held : List ℕ) (e e' : MatchingEngine) (s : Side) (p : ℕ)
    → Alike held e e'
    → get_level s p e' ≡ get_level s p e
level-Alike held e e' yes_side p a = ap (λ t. get_elem? t p) a.bids
level-Alike held e e' no_side p a = ap (λ t. get_elem? t p) a.asks

pub links-Alike :
    (held : List ℕ) (e e' : MatchingEngine) (x : Node)
    → Alike held e e'
    → Member held x
    → (next_node e' x ≡ next_node e x) × (prev_node e' x ≡ prev_node e x)
links-Alike held e e' (at_level s p) a i = (
  ap (first_node s p) (level-Alike held e e' s p a),
  ap (last_node s p) (level-Alike held e e' s p a),
)
links-Alike held e e' (in_block q) a i =
    (ap later_node (a.orders_at q i), ap earlier_node (a.orders_at q i))

-- The queues do not depend on the best prices, on the free blocks or on the next number.
pub Linked-Alike :
    (e e' : MatchingEngine) (bound : ℕ) (held : List ℕ)
    → Alike held e e'
    → Linked e bound held
    → Linked e' bound held
Linked-Alike e e' bound held a v = record {
  once = v.once;
  ids = v.ids;
  ring =
      Ring-same (Member held) (next_node e) (prev_node e) (next_node e') (prev_node e') v.ring
        (λ x i. (links-Alike held e e' x a i).0) (λ x i. (links-Alike held e e' x a i).1);
  resting = λ q m.
      let x = v.resting q m in
      record {
        order = x.order;
        there = a.orders_at q m ∙ x.there;
        price_lt = x.price_lt;
        id_lt = x.id_lt;
        indexed = ap (lookup orders_capacity x.order.order_id) a.orders ∙ x.indexed;
      };
  ordered = λ q r m h.
      let x = v.ordered q r m (sym (links-Alike held e e' (in_block q) a m).0 ∙ h) in
      let there =
        (v.ring.forth (in_block q) (in_block r) m
          (sym (links-Alike held e e' (in_block q) a m).0 ∙ h)).0 in
      record {
        former = x.former;
        latter = x.latter;
        former_there = a.orders_at q m ∙ x.former_there;
        latter_there = a.orders_at r there ∙ x.latter_there;
        later_id = x.later_id;
        same_side = x.same_side;
        same_price = x.same_price;
      };
  bids_length = ap length a.bids ∙ v.bids_length;
  asks_length = ap length a.asks ∙ v.asks_length;
  found = λ k q real h.
      let (m, (o, there, id)) =
        v.found k q real (sym (ap (lookup orders_capacity k) a.orders) ∙ h) in
      (m, (o, a.orders_at q m ∙ there, id));
  sound = subst (λ m. Sound 12 index_width m) (sym a.orders) v.sound;
  room = subst (λ (m : FlatHashMap ℕ). m.count ≤ length held) (sym a.orders) v.room;
}

-- The numbers given out so far may be more.
pub Linked-wider :
    (e : MatchingEngine) (bound bound' : ℕ) (held : List ℕ)
    → Linked e bound held
    → bound ≤ bound'
    → bound' ≤ free_key
    → Linked e bound' held
Linked-wider e bound bound' held v more ids = record {
  once = v.once;
  ids = ids;
  ring = v.ring;
  resting = λ q m.
      let x = v.resting q m in
      record {
        order = x.order;
        there = x.there;
        price_lt = x.price_lt;
        id_lt = omega (arith, x.id_lt, more);
        indexed = x.indexed;
      };
  ordered = v.ordered;
  bids_length = v.bids_length;
  asks_length = v.asks_length;
  found = v.found;
  sound = v.sound;
  room = v.room;
}
