-- ===== src/Sim/MatchingEngine/Queues/Nodes.antt =====
-- sim/domain/matching_engine.cpp: where the pointers of the levels and of the orders lead.
use kalshi_cpp.Prelude.{
  ℕ, ◌≡◌, ◌≢◌, inl, inr, refl, sym, ap, ◌∙◌, true, Option, none, some, List, length,
}
use kalshi_cpp.Core.Pool.Ids.{mem}
use kalshi_cpp.Core.Pool.Ownership.{Owns}
use kalshi_cpp.Sim.MatchingEngine.State.{
  Side, Order, PriceLevel, MatchingEngine, get_level, get_order,
}
use kalshi_cpp.Sim.MatchingEngine.Queues.Ring.{Node, at_level, in_block, Node-cases}

-- A null pointer in a queue leads back to the level.
abbrev pub pointer : Side → ℕ → Option ℕ → Node
pointer s p none = at_level s p
pointer s p (some q) = in_block q

abbrev pub first_node : Side → ℕ → Option PriceLevel → Option Node
first_node s p none = none
first_node s p (some l) = some (pointer s p l.head)

abbrev pub last_node : Side → ℕ → Option PriceLevel → Option Node
last_node s p none = none
last_node s p (some l) = some (pointer s p l.tail)

abbrev pub later_node : Option Order → Option Node
later_node none = none
later_node (some o) = some (pointer o.side o.price o.next_in_level)

abbrev pub earlier_node : Option Order → Option Node
earlier_node none = none
earlier_node (some o) = some (pointer o.side o.price o.prev_in_level)

abbrev pub next_node : MatchingEngine → Node → Option Node
next_node e (at_level s p) = first_node s p (get_level s p e)
next_node e (in_block q) = later_node (get_order q e)

abbrev pub prev_node : MatchingEngine → Node → Option Node
prev_node e (at_level s p) = last_node s p (get_level s p e)
prev_node e (in_block q) = earlier_node (get_order q e)

-- What no operation changes of an order.
pub record Same (o o' : Order) : Type 0 where
  pub order_id : o'.order_id ≡ o.order_id
  pub side : o'.side ≡ o.side
  pub price : o'.price ≡ o.price

pub Same-trans : (o o' o″ : Order) → Same o o' → Same o' o″ → Same o o″
Same-trans o o' o″ x y = record {
  order_id = y.order_id ∙ x.order_id;
  side = y.side ∙ x.side;
  price = y.price ∙ x.price;
}

-- Steps that only write to the levels and to blocks that someone owns.
pub record Kept (owned : List ℕ) (e e' : MatchingEngine) : Type 0 where
  pub owns : Owns e'.pool owned
  pub order_of :
      (q : ℕ) (o : Order)
      → get_order q e ≡ some o
      → (o' : Order) × (get_order q e' ≡ some o') × Same o o'
  pub blocks : length e'.pool.blocks ≡ length e.pool.blocks
  pub bids_length : length e'.bids ≡ length e.bids
  pub asks_length : length e'.asks ≡ length e.asks
  pub orders : e'.orders ≡ e.orders
  pub next_order_id : e'.next_order_id ≡ e.next_order_id
  pub best_bid : e'.best_bid ≡ e.best_bid
  pub best_ask : e'.best_ask ≡ e.best_ask

pub Kept-refl : (owned : List ℕ) (e : MatchingEngine) → Owns e.pool owned → Kept owned e e
Kept-refl owned e v = record {
  owns = v;
  order_of = λ q o h. (o, h, record { order_id = refl; side = refl; price = refl });
  blocks = refl;
  bids_length = refl;
  asks_length = refl;
  orders = refl;
  next_order_id = refl;
  best_bid = refl;
  best_ask = refl;
}

pub Kept-trans :
    (owned : List ℕ) (e e' e″ : MatchingEngine)
    → Kept owned e e'
    → Kept owned e' e″
    → Kept owned e e″
Kept-trans owned e e' e″ k l = record {
  owns = l.owns;
  order_of = λ q o h.
      let x = k.order_of q o h in
      let y = l.order_of q x.0 x.1 in (y.0, y.1, Same-trans o x.0 y.0 x.2 y.2);
  blocks = l.blocks ∙ k.blocks;
  bids_length = l.bids_length ∙ k.bids_length;
  asks_length = l.asks_length ∙ k.asks_length;
  orders = l.orders ∙ k.orders;
  next_order_id = l.next_order_id ∙ k.next_order_id;
  best_bid = l.best_bid ∙ k.best_bid;
  best_ask = l.best_ask ∙ k.best_ask;
}

-- One step that writes the place `n`, and perhaps moves its links.
pub record Wrote (owned : List ℕ) (n : Node) (e e' : MatchingEngine) : Type 0 where
  pub kept : Kept owned e e'
  pub next_away : (x : Node) → x ≢ n → next_node e' x ≡ next_node e x
  pub prev_away : (x : Node) → x ≢ n → prev_node e' x ≡ prev_node e x

-- Steps that leave every link.
pub record Still (owned : List ℕ) (e e' : MatchingEngine) : Type 0 where
  pub kept : Kept owned e e'
  pub next_same : (x : Node) → next_node e' x ≡ next_node e x
  pub prev_same : (x : Node) → prev_node e' x ≡ prev_node e x

pub Still-trans :
    (owned : List ℕ) (e e' e″ : MatchingEngine)
    → Still owned e e'
    → Still owned e' e″
    → Still owned e e″
Still-trans owned e e' e″ k l = record {
  kept = Kept-trans owned e e' e″ k.kept l.kept;
  next_same = λ x. l.next_same x ∙ k.next_same x;
  prev_same = λ x. l.prev_same x ∙ k.prev_same x;
}

pub Still-Wrote :
    (owned : List ℕ) (n : Node) (e e' : MatchingEngine)
    → Wrote owned n e e'
    → next_node e' n ≡ next_node e n
    → prev_node e' n ≡ prev_node e n
    → Still owned e e'
Still-Wrote owned n e e' w f b = record {
  kept = w.kept;
  next_same = λ x. elim (Node-cases x n) [
    | inl s ↦ ap (next_node e') s ∙ (f ∙ sym (ap (next_node e) s))
    | inr a ↦ w.next_away x a
  ];
  prev_same = λ x. elim (Node-cases x n) [
    | inl s ↦ ap (prev_node e') s ∙ (b ∙ sym (ap (prev_node e) s))
    | inr a ↦ w.prev_away x a
  ];
}

-- A pointer of the level's queue: none, for a level that is there, or an order of the level.
abbrev pub Located : List ℕ → MatchingEngine → Side → ℕ → Option ℕ → Type 0
Located owned e s p none = (l : PriceLevel) × (get_level s p e ≡ some l)
Located owned e s p (some q) =
    (mem q owned ≡ true) × ((o : Order) × (get_order q e ≡ some o) × (o.side ≡ s) × (o.price ≡ p))
