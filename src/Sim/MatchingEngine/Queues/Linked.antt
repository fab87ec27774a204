-- ===== src/Sim/MatchingEngine/Queues/Linked.antt =====
-- sim/domain/matching_engine.h: what holds of the orders that wait, between two operations.
use kalshi_cpp.Prelude.{
  ℕ, ◌≤◌, ◌<◌, ◌≡◌, ◌≢◌, sym, ap, subst, ◌∙◌, true, Option, none, some, List, arith, length,
  get_elem?-lt,
}
use kalshi_cpp.Core.FlatHashMap.{free_key, FlatHashMap}
use kalshi_cpp.Core.FlatHashMap.Lookup.{lookup}
use kalshi_cpp.Core.FlatHashMap.Insert.Calls.{Sound}
use kalshi_cpp.Core.Pool.Ids.{mem, Nodup}
use kalshi_cpp.Sim.MatchingEngine.State.{
  Side, yes_side, no_side, Order, PriceLevel, MatchingEngine, orders_capacity, get_level, get_order,
}
use kalshi_cpp.Sim.MatchingEngine.Queues.Ring.{Node, at_level, in_block, Ring, some-inj}
use kalshi_cpp.Sim.MatchingEngine.Queues.Nodes.{
  pointer, later_node, earlier_node, next_node, prev_node, Kept, Still, Located,
}

-- The order in a block waits: it is at a price below 101, and its number, below `bound`, leads to
-- the block.
pub record Resting (e : MatchingEngine) (bound q : ℕ) : Type 0 where
  pub order : Order
  pub there : get_order q e ≡ some order
  pub price_lt : order.price < 101
  pub id_lt : order.order_id < bound
  pub indexed : lookup orders_capacity order.order_id e.orders ≡ some q

-- The order in block `r` came after the one in block `q`, for the same side and price.
pub record Follows (e : MatchingEngine) (q r : ℕ) : Type 0 where
  pub former : Order
  pub latter : Order
  pub former_there : get_order q e ≡ some former
  pub latter_there : get_order r e ≡ some latter
  pub later_id : former.order_id < latter.order_id
  pub same_side : latter.side ≡ former.side
  pub same_price : latter.price ≡ former.price

-- The members of the queues: the levels, and the blocks of the orders that wait.
abbrev pub Member : List ℕ → Node → Type 0
Member held (at_level s p) = p < 101
Member held (in_block q) = mem q held ≡ true

pub index_width : 12 < 64
index_width = omega arith

-- The orders in the blocks `held` wait: each level's queue is linked in both directions, in the
-- order of the numbers, all below `bound`, and the index leads to exactly these orders.
pub record Linked (e : MatchingEngine) (bound : ℕ) (held : List ℕ) : Type 0 where
  pub once : Nodup held
  pub ids : bound ≤ free_key
  pub ring : Ring (Member held) (next_node e) (prev_node e)
  pub resting : (q : ℕ) → mem q held ≡ true → Resting e bound q
  pub ordered :
      (q r : ℕ) → mem q held ≡ true → next_node e (in_block q) ≡ some (in_block r) → Follows e q r
  pub bids_length : length e.bids ≡ 101
  pub asks_length : length e.asks ≡ 101
  pub found :
      (k q : ℕ)
      → k ≢ free_key
      → lookup orders_capacity k e.orders ≡ some q
      → (mem q held ≡ true) × ((o : Order) × (get_order q e ≡ some o) × (o.order_id ≡ k))
  pub sound : Sound 12 index_width e.orders
  pub room : e.orders.count ≤ length held

pub level_at :
    (e : MatchingEngine) (s : Side) (p : ℕ)
    → length e.bids ≡ 101
    → length e.asks ≡ 101
    → p < 101
    → (l : PriceLevel) × (get_level s p e ≡ some l)
level_at e yes_side p b a h = get_elem?-lt e.bids p (omega (arith, b))
level_at e no_side p b a h = get_elem?-lt e.asks p (omega (arith, a))

pub Follows-trans : (e : MatchingEngine) (q r t : ℕ) → Follows e q r → Follows e r t → Follows e q t
Follows-trans e q r t x y =
    let same : x.latter ≡ y.former = some-inj _ _ (sym x.latter_there ∙ y.former_there) in
    record {
      former = x.former;
      latter = y.latter;
      former_there = x.former_there;
      latter_there = y.latter_there;
      later_id = omega (arith, x.later_id, y.later_id, ap (λ (o : Order). o.order_id) same);
      same_side = y.same_side ∙ (sym (ap (λ (o : Order). o.side) same) ∙ x.same_side);
      same_price = y.same_price ∙ (sym (ap (λ (o : Order). o.price) same) ∙ x.same_price);
    }

pub Follows-Kept :
    (owned : List ℕ) (e e' : MatchingEngine) (q r : ℕ)
    → Kept owned e e'
    → Follows e q r
    → Follows e' q r
Follows-Kept owned e e' q r k x =
    let a = k.order_of q x.former x.former_there in
    let b = k.order_of r x.latter x.latter_there in
    record {
      former = a.0;
      latter = b.0;
      former_there = a.1;
      latter_there = b.1;
      later_id = omega (arith, x.later_id, a.2.order_id, b.2.order_id);
      same_side = b.2.side ∙ (x.same_side ∙ sym a.2.side);
      same_price = b.2.price ∙ (x.same_price ∙ sym a.2.price);
    }

pub Resting-Kept :
    (owned : List ℕ) (e e' : MatchingEngine) (bound q : ℕ)
    → Kept owned e e'
    → Resting e bound q
    → Resting e' bound q
Resting-Kept owned e e' bound q k x =
    let a = k.order_of q x.order x.there in
    record {
      order = a.0;
      there = a.1;
      price_lt = omega (arith, x.price_lt, a.2.price);
      id_lt = omega (arith, x.id_lt, a.2.order_id);
      indexed =
          ap (λ i. lookup orders_capacity i e'.orders) a.2.order_id
          ∙ (ap (lookup orders_capacity x.order.order_id) k.orders ∙ x.indexed);
    }

pub Ring-same :
    (In : Node → Type 0) (next prev next' prev' : Node → Option Node)
    → Ring In next prev
    → ((x : Node) → In x → next' x ≡ next x)
    → ((x : Node) → In x → prev' x ≡ prev x)
    → Ring In next' prev'
Ring-same In next prev next' prev' r f g = record {
  forth = λ x y i e. let s = r.forth x y i (sym (f x i) ∙ e) in (s.0, g y s.0 ∙ s.1);
  back = λ x y i e. let s = r.back x y i (sym (g x i) ∙ e) in (s.0, f y s.0 ∙ s.1);
}

-- Steps that leave every link keep the queues.
pub Linked-Still :
    (owned held : List ℕ) (bound : ℕ) (e e' : MatchingEngine)
    → Linked e bound held
    → Still owned e e'
    → Linked e' bound held
Linked-Still owned held bound e e' v s = record {
  once = v.once;
  ids = v.ids;
  ring =
      Ring-same (Member held) (next_node e) (prev_node e) (next_node e') (prev_node e') v.ring
        (λ x i. s.next_same x) (λ x i. s.prev_same x);
  resting = λ q m. Resting-Kept owned e e' bound q s.kept (v.resting q m);
  ordered = λ q r m h.
      Follows-Kept owned e e' q r s.kept (v.ordered q r m (sym (s.next_same (in_block q)) ∙ h));
  bids_length = s.kept.bids_length ∙ v.bids_length;
  asks_length = s.kept.asks_length ∙ v.asks_length;
  found = λ k q real h.
      let (m, (o, there, id)) =
        v.found k q real (sym (ap (lookup orders_capacity k) s.kept.orders) ∙ h) in
      let a = s.kept.order_of q o there in (m, (a.0, a.1, a.2.order_id ∙ id));
  sound = subst (λ m. Sound 12 index_width m) (sym s.kept.orders) v.sound;
  room = subst (λ (m : FlatHashMap ℕ). m.count ≤ length held) (sym s.kept.orders) v.room;
}

module _ (owned held : List ℕ) (within : (q : ℕ) → mem q held ≡ true → mem q owned ≡ true)
    (e : MatchingEngine) (bound : ℕ) (v : Linked e bound held) (c : ℕ) (o : Order)
    (m : mem c held ≡ true) (h : get_order c e ≡ some o) where
  pub price_in : o.price < 101
  price_in =
      let r = v.resting c m in
      let same : r.order ≡ o = some-inj _ _ (sym r.there ∙ h) in
      omega (arith, r.price_lt, ap (λ (x : Order). x.price) same)

  after-Located :
      (n : Option ℕ)
      → next_node e (in_block c) ≡ some (pointer o.side o.price n)
      → Located owned e o.side o.price n
  after-Located none f = level_at e o.side o.price v.bids_length v.asks_length price_in
  after-Located (some r) f =
      let x = v.ordered c r m f in
      let same : x.former ≡ o = some-inj _ _ (sym x.former_there ∙ h) in
      (
        within r (v.ring.forth (in_block c) (in_block r) m f).0,
        (
          x.latter,
          x.latter_there,
          x.same_side ∙ ap (λ (t : Order). t.side) same,
          x.same_price ∙ ap (λ (t : Order). t.price) same,
        ),
      )

  before-Located :
      (n : Option ℕ)
      → prev_node e (in_block c) ≡ some (pointer o.side o.price n)
      → Located owned e o.side o.price n
  before-Located none f = level_at e o.side o.price v.bids_length v.asks_length price_in
  before-Located (some r) f =
      let b = v.ring.back (in_block c) (in_block r) m f in
      let x = v.ordered r c b.0 b.1 in
      let same : x.latter ≡ o = some-inj _ _ (sym x.latter_there ∙ h) in
      (
        within r b.0,
        (
          x.former,
          x.former_there,
          sym x.same_side ∙ ap (λ (t : Order). t.side) same,
          sym x.same_price ∙ ap (λ (t : Order). t.price) same,
        ),
      )

  -- Both pointers of an order that waits stay in its level.
  pub around :
      Located owned e o.side o.price o.prev_in_level
      × Located owned e o.side o.price o.next_in_level
  around = (
    before-Located o.prev_in_level (ap earlier_node h),
    after-Located o.next_in_level (ap later_node h),
  )
