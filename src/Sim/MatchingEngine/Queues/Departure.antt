-- ===== src/Sim/MatchingEngine/Queues/Departure.antt =====
-- sim/domain/matching_engine.cpp: the queues after an order has left.
use kalshi_cpp.Prelude.{
  ℕ, ◌≤◌, ◌<◌, ◌≡◌, ◌≢◌, inl, inr, sym, ap, ◌∙◌, true, Option, none, some, List, arith,
  if◌then◌else◌, ◌==◌, ==→ne, Bool-cases,
}
use kalshi_cpp.Core.FlatHashMap.{free_key, FlatHashMap}
use kalshi_cpp.Core.FlatHashMap.Lookup.{lookup}
use kalshi_cpp.Core.Pool.Ids.{mem, remove, Nodup-remove, length-remove}
use kalshi_cpp.Sim.MatchingEngine.State.{Order, MatchingEngine, orders_capacity, get_order}
use kalshi_cpp.Sim.MatchingEngine.Queues.Ring.{
  in_block, Node-cases, some-inj, Ring, Led, Ring-remove,
}
use kalshi_cpp.Sim.MatchingEngine.Queues.Nodes.{
  pointer, later_node, earlier_node, next_node, prev_node, Kept,
}
use kalshi_cpp.Sim.MatchingEngine.Queues.Linked.{
  Member, Linked, Follows, Follows-trans, Follows-Kept, Resting, Resting-Kept,
}
use kalshi_cpp.Sim.MatchingEngine.Queues.Removal.{Released, links_left, Member-less, Member-rest}

pub real_id : (id bound : ℕ) → id < bound → bound ≤ free_key → id ≢ free_key
real_id id bound h l f = omega (arith, h, l, f)

lookup_other : (k id : ℕ) (x y : Option ℕ) → k ≢ id → x ≡ (if k == id then none else y) → x ≡ y
lookup_other k id x y ne h = ground (arith, h)

lookup_some :
    (k id q : ℕ) (x y : Option ℕ)
    → x ≡ (if k == id then none else y)
    → x ≡ some q
    → (k ≢ id) × (y ≡ some q)
lookup_some k id q x y h s = elim (Bool-cases (k == id)) [
  | inl e ↦ absurd (ground (arith, h, s, e))
  | inr e ↦ (==→ne k id e, ground (arith, h, s, e))
]

Follows-Released :
    (e e' : MatchingEngine) (id c q r : ℕ)
    → Released e id c e'
    → q ≢ c
    → r ≢ c
    → Follows e q r
    → Follows e' q r
Follows-Released e e' id c q r l nq nr x = record {
  former = x.former;
  latter = x.latter;
  former_there = l.orders_at q nq ∙ x.former_there;
  latter_there = l.orders_at r nr ∙ x.latter_there;
  later_id = x.later_id;
  same_side = x.same_side;
  same_price = x.same_price;
}

module _ (owned held : List ℕ) (e e₂ e₃ : MatchingEngine) (bound c : ℕ) (o : Order)
    (v : Linked e bound held) (m : mem c held ≡ true) (h : get_order c e ≡ some o)
    (k : Kept owned e e₂)
    (n : Led
      (next_node e)
      (next_node e₂)
      (pointer o.side o.price o.prev_in_level)
      (pointer o.side o.price o.next_in_level))
    (p : Led
      (prev_node e)
      (prev_node e₂)
      (pointer o.side o.price o.next_in_level)
      (pointer o.side o.price o.prev_in_level))
    (l : Released e₂ o.order_id c e₃) where
  to_next : next_node e (in_block c) ≡ some (pointer o.side o.price o.next_in_level)
  to_next = ap later_node h

  to_prev : prev_node e (in_block c) ≡ some (pointer o.side o.price o.prev_in_level)
  to_prev = ap earlier_node h

  no_loop : pointer o.side o.price o.next_in_level ≢ in_block c
  no_loop f =
      let x = v.ordered c c m (to_next ∙ ap some f) in
      let same : x.former ≡ x.latter = some-inj _ _ (sym x.former_there ∙ x.latter_there) in
      omega (arith, x.later_id, ap (λ (t : Order). t.order_id) same)

  back_to :
      (Member held (pointer o.side o.price o.prev_in_level))
      × (next_node e (pointer o.side o.price o.prev_in_level) ≡ some (in_block c))
  back_to = v.ring.back (in_block c) (pointer o.side o.price o.prev_in_level) m to_prev

  no_loop_back : pointer o.side o.price o.prev_in_level ≢ in_block c
  no_loop_back f = no_loop (some-inj _ _ (sym to_next ∙ sym (ap (next_node e) f) ∙ back_to.1))

  pub Ring-left : Ring (Member (remove c held)) (next_node e₃) (prev_node e₃)
  Ring-left =
      let a = pointer o.side o.price o.prev_in_level in
      let b = pointer o.side o.price o.next_in_level in
      Ring-remove (Member held) (Member (remove c held)) (in_block c)
        (λ x i. Member-less held c x v.once i) (Member-rest held c) (next_node e) (prev_node e)
        (next_node e₃) (prev_node e₃) a b v.ring m to_next to_prev no_loop
        (record {
          here = (links_left e₂ e₃ o.order_id c a l no_loop_back).0 ∙ n.here;
          away = λ x na nc. (links_left e₂ e₃ o.order_id c x l nc).0 ∙ n.away x na;
        })
        (record {
          here = (links_left e₂ e₃ o.order_id c b l no_loop).1 ∙ p.here;
          away = λ x nb nc. (links_left e₂ e₃ o.order_id c x l nc).1 ∙ p.away x nb;
        })

  apart : (q : ℕ) → mem q (remove c held) ≡ true → (mem q held ≡ true) × (q ≢ c)
  apart q i = let r = Member-less held c (in_block q) v.once i in (r.0, λ f. r.1 (ap in_block f))

  Follows-before :
      (q r : ℕ)
      → mem q held ≡ true
      → q ≢ c
      → next_node e₃ (in_block q) ≡ some (in_block r)
      → Follows e q r
  Follows-before q r i nq f =
      let f₂ : next_node e₂ (in_block q) ≡ some (in_block r) =
        ap later_node (sym (l.orders_at q nq)) ∙ f in
      elim (Node-cases (in_block q) (pointer o.side o.price o.prev_in_level)) [
        | inl s ↦
            let there : pointer o.side o.price o.next_in_level ≡ in_block r =
              some-inj _ _ (sym n.here ∙ sym (ap (next_node e₂) s) ∙ f₂) in
            Follows-trans e q c r (v.ordered q c i (ap (next_node e) s ∙ back_to.1))
              (v.ordered c r m (to_next ∙ ap some there))
        | inr s ↦ v.ordered q r i (sym (n.away (in_block q) s) ∙ f₂)
      ]

  Resting-left : (q : ℕ) → mem q (remove c held) ≡ true → Resting e₃ bound q
  Resting-left q i =
      let (was, ne) = apart q i in
      let x : Resting e₂ bound q = Resting-Kept owned e e₂ bound q k (v.resting q was) in
      let y = v.resting c m in
      let mine : y.order ≡ o = some-inj _ _ (sym y.there ∙ h) in
      let led : lookup orders_capacity o.order_id e₂.orders ≡ some c =
        ap (lookup orders_capacity o.order_id) k.orders
        ∙ (sym (ap (λ (t : Order). lookup orders_capacity t.order_id e.orders) mine) ∙ y.indexed) in
      let other : x.order.order_id ≢ o.order_id = (λ f.
        ne (
          some-inj q c (sym x.indexed ∙ (ap (λ t. lookup orders_capacity t e₂.orders) f ∙ led)))) in
      record {
        order = x.order;
        there = l.orders_at q ne ∙ x.there;
        price_lt = x.price_lt;
        id_lt = x.id_lt;
        indexed =
            lookup_other x.order.order_id o.order_id _ _ other
              (l.lookups x.order.order_id (real_id x.order.order_id bound x.id_lt v.ids))
            ∙ x.indexed;
      }

  found_left :
      (i q : ℕ)
      → i ≢ free_key
      → lookup orders_capacity i e₃.orders ≡ some q
      → (mem q (remove c held) ≡ true)
        × ((x : Order) × (get_order q e₃ ≡ some x) × (x.order_id ≡ i))
  found_left i q real f =
      let s = lookup_some i o.order_id q _ _ (l.lookups i real) f in
      let (was, (x, there, id)) =
        v.found i q real (sym (ap (lookup orders_capacity i) k.orders) ∙ s.1) in
      let ne : q ≢ c = (λ g.
        let same : x ≡ o = some-inj x o (sym there ∙ (ap (λ t. get_order t e) g ∙ h)) in
        s.0 (sym id ∙ ap (λ (t : Order). t.order_id) same)) in
      let y = k.order_of q x there in
      (
        Member-rest held c (in_block q) was (λ g. ne (ground (arith, g))),
        (y.0, l.orders_at q ne ∙ y.1, y.2.order_id ∙ id),
      )

  -- An order that waits is taken out of its queue, of the index and of its block.
  pub Linked-left : Linked e₃ bound (remove c held)
  Linked-left = record {
    once = Nodup-remove c held v.once;
    ids = v.ids;
    ring = Ring-left;
    resting = Resting-left;
    ordered = λ q r i f.
        let (was, ne) = apart q i in
        let stays = (Ring-left.forth (in_block q) (in_block r) i f).0 in
        Follows-Released e₂ e₃ o.order_id c q r l ne (apart r stays).1
          (Follows-Kept owned e e₂ q r k (Follows-before q r was ne f));
    bids_length = l.bids_length ∙ (k.bids_length ∙ v.bids_length);
    asks_length = l.asks_length ∙ (k.asks_length ∙ v.asks_length);
    found = found_left;
    sound = l.sound;
    room = omega (
      arith,
      l.count,
      ap (λ (t : FlatHashMap ℕ). t.count) k.orders,
      v.room,
      length-remove c held m,
    );
  }
