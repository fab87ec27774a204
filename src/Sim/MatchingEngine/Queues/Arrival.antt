-- ===== src/Sim/MatchingEngine/Queues/Arrival.antt =====
-- sim/domain/matching_engine.cpp: the queues once the rest of an order waits.
use kalshi_cpp.Prelude.{
  ℕ, ◌+◌, ◌≤◌, ◌<◌, ◌≡◌, ◌≢◌, ◌⊎◌, inl, inr, sym, ap, subst, ◌∙◌, true, false, Option, none, some,
  List, ◌∷◌, arith, length, if◌then◌else◌, ◌==◌, ==→eq, ==→ne, Bool-cases,
}
use kalshi_cpp.Core.FlatHashMap.{free_key, FlatHashMap, insert}
use kalshi_cpp.Core.FlatHashMap.Lookup.{lookup, lookup-insert}
use kalshi_cpp.Core.FlatHashMap.Size.{count-insert}
use kalshi_cpp.Core.FlatHashMap.Insert.Calls.{Sound, insert_lem}
use kalshi_cpp.Core.Pool.Ids.{mem}
use kalshi_cpp.Sim.MatchingEngine.State.{Side, Order, MatchingEngine, orders_capacity, get_order}
use kalshi_cpp.Sim.MatchingEngine.Queues.Ring.{
  Node, at_level, in_block, Node-cases, some-inj, Ring, Led, Ring-enter,
}
use kalshi_cpp.Sim.MatchingEngine.Queues.Nodes.{pointer, later_node, next_node, prev_node, Kept}
use kalshi_cpp.Sim.MatchingEngine.Queues.Linked.{
  Member, Linked, Follows, Follows-Kept, Resting, index_width,
}

lookup_entered :
    (k id p q : ℕ) (x y : Option ℕ)
    → x ≡ (if k == id then some p else y)
    → x ≡ some q
    → ((k ≡ id) × (p ≡ q)) ⊎ ((k ≢ id) × (y ≡ some q))
lookup_entered k id p q x y h s = elim (Bool-cases (k == id)) [
  | inl e ↦ inl (==→eq k id e, ground (arith, h, s, e))
  | inr e ↦ inr (==→ne k id e, ground (arith, h, s, e))
]

lookup_self : (id p : ℕ) (x y : Option ℕ) → x ≡ (if id == id then some p else y) → x ≡ some p
lookup_self id p x y h = ground (arith, h)

lookup_kept : (k id p : ℕ) (x y : Option ℕ) → k ≢ id → x ≡ (if k == id then some p else y) → x ≡ y
lookup_kept k id p x y ne h = ground (arith, h)

Member-split :
    (held : List ℕ) (p : ℕ) (x : Node) → Member (p ∷ held) x → x ≢ in_block p → Member held x
Member-split held p (at_level s q) i ne = i
Member-split held p (in_block q) i ne = elim (Bool-cases (q == p)) [
  | inl e ↦ absurd (ne (ap in_block (==→eq q p e)))
  | inr e ↦ ground (arith, i, e)
]

pub Member-more : (held : List ℕ) (p : ℕ) (x : Node) → Member held x → Member (p ∷ held) x
Member-more held p (at_level s q) i = i
Member-more held p (in_block q) i = elim (Bool-cases (q == p)) [
  | inl e ↦ ground (arith, i, e)
  | inr e ↦ ground (arith, i, e)
]

pub pointer-level :
    (s t : Side) (p q : ℕ) (x : Option ℕ) → pointer s p x ≡ at_level t q → (s ≡ t) × (p ≡ q)
pointer-level s t p q none e = (ground (arith, e), ground (arith, e))
pointer-level s t p q (some b) e = absurd cc

-- From `e` through the index's new entry (`e₁`) and the new links to `e'`.
module _ (owned held : List ℕ) (e e₁ e' : MatchingEngine) (id p : ℕ) (o : Order) (s : Side)
    (price : ℕ) (end_node : Node) (v : Linked e id held) (ids : id + 1 ≤ free_key)
    (new : mem p held ≡ false) (there : get_order p e ≡ some o)
    (named : (o.order_id ≡ id) × (o.side ≡ s) × (o.price ≡ price)) (at : price < 101)
    (room : e.orders.count < 4096) (indexed : e₁.orders ≡ (insert orders_capacity id p e.orders).1)
    (orders_at : (q : ℕ) → get_order q e₁ ≡ get_order q e) (bids : e₁.bids ≡ e.bids)
    (asks : e₁.asks ≡ e.asks) (k : Kept owned e₁ e')
    (to_end : prev_node e (at_level s price) ≡ some end_node)
    (out : next_node e (in_block p) ≡ some (at_level s price))
    (nexts : Led (next_node e) (next_node e') end_node (in_block p))
    (prev_end : prev_node e' (at_level s price) ≡ some (in_block p))
    (prev_new : prev_node e' (in_block p) ≡ some end_node)
    (prev_away : (x : Node)
      → x ≢ at_level s price
      → x ≢ in_block p
      → prev_node e' x ≡ prev_node e x) where
  real : id ≢ free_key
  real f = omega (arith, ids, f)

  outside : ¬ Member held (in_block p)
  outside i = absurd (ground (arith, i, new))

  last-Member : Member held end_node × (next_node e end_node ≡ some (at_level s price))
  last-Member = v.ring.back (at_level s price) end_node at to_end

  end_apart : in_block p ≢ end_node
  end_apart f = outside (subst (Member held) (sym f) last-Member.0)

  pub Ring-entered : Ring (Member (p ∷ held)) (next_node e') (prev_node e')
  Ring-entered =
      Ring-enter (Member held) (Member (p ∷ held)) (in_block p) outside (ground arith)
        (Member-more held p) (Member-split held p) (next_node e) (prev_node e) (next_node e')
        (prev_node e') end_node (at_level s price) v.ring at to_end
        (nexts.here, nexts.away (in_block p) end_apart ∙ out) (λ x na nc. nexts.away x na)
        (prev_end, prev_new) prev_away

  lookups :
      (i : ℕ)
      → i ≢ free_key
      → lookup orders_capacity i e'.orders
        ≡ (if i == id then some p else lookup orders_capacity i e.orders)
  lookups i fine =
      ap (lookup orders_capacity i) (k.orders ∙ indexed)
      ∙ lookup-insert 12 index_width e.orders id i p v.sound real fine
          (omega (arith, room, v.sound.counted))

  Resting-old : (q : ℕ) → mem q held ≡ true → Resting e' (id + 1) q
  Resting-old q i =
      let x = v.resting q i in
      let y = k.order_of q x.order (orders_at q ∙ x.there) in
      let fine : x.order.order_id ≢ free_key = (λ f. omega (arith, x.id_lt, ids, f)) in
      let same_id : y.0.order_id ≡ x.order.order_id = y.2.order_id in
      record {
        order = y.0;
        there = y.1;
        price_lt = omega (arith, x.price_lt, y.2.price);
        id_lt = omega (arith, x.id_lt, same_id);
        indexed =
            ap (λ t. lookup orders_capacity t e'.orders) same_id
            ∙ (lookup_kept x.order.order_id id p _ _ (λ f. omega (arith, x.id_lt, f))
                  (lookups x.order.order_id fine)
                ∙ x.indexed);
      }

  Resting-new : Resting e' (id + 1) p
  Resting-new =
      let y = k.order_of p o (orders_at p ∙ there) in
      record {
        order = y.0;
        there = y.1;
        price_lt = omega (arith, y.2.price, named.2, at);
        id_lt = omega (arith, y.2.order_id, named.0);
        indexed =
            ap (λ t. lookup orders_capacity t e'.orders) (y.2.order_id ∙ named.0)
            ∙ lookup_self id p _ _ (lookups id real);
      }

  Resting-entered : (q : ℕ) → mem q (p ∷ held) ≡ true → Resting e' (id + 1) q
  Resting-entered q i = elim (Node-cases (in_block q) (in_block p)) [
    | inl f ↦ subst (λ t. Resting e' (id + 1) t) (ground (arith, f)) Resting-new
    | inr f ↦ Resting-old q (Member-split held p (in_block q) i f)
  ]

  Follows-indexed : (q r : ℕ) → Follows e q r → Follows e₁ q r
  Follows-indexed q r x = record {
    former = x.former;
    latter = x.latter;
    former_there = orders_at q ∙ x.former_there;
    latter_there = orders_at r ∙ x.latter_there;
    later_id = x.later_id;
    same_side = x.same_side;
    same_price = x.same_price;
  }

  -- The old end of the queue is an order of the level that came before.
  Follows-end : (q : ℕ) → in_block q ≡ end_node → Follows e q p
  Follows-end q f =
      let i : mem q held ≡ true = subst (Member held) (sym f) last-Member.0 in
      let x = v.resting q i in
      let leads : some (pointer x.order.side x.order.price x.order.next_in_level)
          ≡ some (at_level s price) =
        sym (ap later_node x.there) ∙ (ap (next_node e) f ∙ last-Member.1) in
      let level =
        pointer-level x.order.side s x.order.price price x.order.next_in_level
          (some-inj _ _ leads) in
      record {
        former = x.order;
        latter = o;
        former_there = x.there;
        latter_there = there;
        later_id = omega (arith, x.id_lt, named.0);
        same_side = named.1 ∙ sym level.0;
        same_price = named.2 ∙ sym level.1;
      }

  Follows-entered :
      (q r : ℕ)
      → mem q (p ∷ held) ≡ true
      → next_node e' (in_block q) ≡ some (in_block r)
      → Follows e q r
  Follows-entered q r i f = elim (Node-cases (in_block q) end_node) [
    | inl g ↦
        let to : in_block p ≡ in_block r =
          some-inj _ _ (sym nexts.here ∙ sym (ap (next_node e') g) ∙ f) in
        subst (λ t. Follows e q t) (ground (arith, to)) (Follows-end q g)
    | inr g ↦
        let before : next_node e (in_block q) ≡ some (in_block r) =
          sym (nexts.away (in_block q) g) ∙ f in
        elim (Node-cases (in_block q) (in_block p)) [
          | inl h ↦
              let clash : at_level s price ≡ in_block r =
                some-inj _ _ (sym out ∙ sym (ap (next_node e) h) ∙ before) in
              absurd cc
          | inr h ↦ v.ordered q r (Member-split held p (in_block q) i h) before
        ]
  ]

  found_entered :
      (i q : ℕ)
      → i ≢ free_key
      → lookup orders_capacity i e'.orders ≡ some q
      → (mem q (p ∷ held) ≡ true) × ((x : Order) × (get_order q e' ≡ some x) × (x.order_id ≡ i))
  found_entered i q fine f = elim (lookup_entered i id p q _ _ (lookups i fine) f) [
    | inl g ↦
        let y = k.order_of p o (orders_at p ∙ there) in
        (
          ground (arith, g.1),
          (y.0, ap (λ t. get_order t e') (sym g.1) ∙ y.1, y.2.order_id ∙ (named.0 ∙ sym g.0)),
        )
    | inr g ↦
        let (m, (x, at_q, num)) = v.found i q fine g.1 in
        let y = k.order_of q x (orders_at q ∙ at_q) in
        (Member-more held p (in_block q) m, (y.0, y.1, y.2.order_id ∙ num))
  ]

  -- The new order is the last of its level, and the index leads to it.
  pub Linked-entered : Linked e' (id + 1) (p ∷ held)
  Linked-entered =
      let r =
        insert_lem 12 index_width e.orders id p v.sound real
          (omega (arith, room, v.sound.counted)) in
      record {
        once = (new, v.once);
        ids = ids;
        ring = Ring-entered;
        resting = Resting-entered;
        ordered = λ q t i f.
            Follows-Kept owned e₁ e' q t k (Follows-indexed q t (Follows-entered q t i f));
        bids_length = k.bids_length ∙ (ap length bids ∙ v.bids_length);
        asks_length = k.asks_length ∙ (ap length asks ∙ v.asks_length);
        found = found_entered;
        sound = subst (λ t. Sound 12 index_width t) (sym (k.orders ∙ indexed)) r.sound;
        room = omega (
          arith,
          ap (λ (t : FlatHashMap ℕ). t.count) (k.orders ∙ indexed),
          count-insert orders_capacity id p e.orders,
          v.room,
        );
      }
