-- ===== src/Sim/MatchingEngine/Queues/Waiting.antt =====
-- sim/domain/matching_engine.cpp: what is left of an order waits at the end of its level.
use kalshi_cpp.Prelude.{
  ℕ, ◌+◌, ◌≤◌, ◌<◌, ◌≡◌, ◌≢◌, refl, sym, ap, ◌∙◌, true, false, Option, none, some, List, ◌∷◌, arith,
  length,
}
use kalshi_cpp.Core.FlatHashMap.{free_key, FlatHashMap, insert}
use kalshi_cpp.Core.Pool.Ids.{mem}
use kalshi_cpp.Core.Pool.Ownership.{Owns}
use kalshi_cpp.Sim.MatchingEngine.State.{
  Side, yes_side, no_side, Order, PriceLevel, MatchingEngine, orders_capacity, add_u32, get_level,
  set_level, get_order,
}
use kalshi_cpp.Sim.MatchingEngine.Calls.{link, rest, improve}
use kalshi_cpp.Sim.MatchingEngine.Queues.Ring.{Node, at_level, in_block, some-inj}
use kalshi_cpp.Sim.MatchingEngine.Queues.Nodes.{
  pointer, first_node, last_node, later_node, next_node, prev_node, Kept, Kept-trans, Located,
}
use kalshi_cpp.Sim.MatchingEngine.Queues.Linked.{Linked, level_at}
use kalshi_cpp.Sim.MatchingEngine.Queues.Alike.{Alike, Linked-Alike}
use kalshi_cpp.Sim.MatchingEngine.Queues.Leaving.{requantified}
use kalshi_cpp.Sim.MatchingEngine.Queues.Linking.{tail_lem, link_lem}
use kalshi_cpp.Sim.MatchingEngine.Queues.Arrival.{pointer-level, Member-more, Linked-entered}

level_indexed :
    (s : Side) (p : ℕ) (m : FlatHashMap ℕ) (e : MatchingEngine)
    → get_level s p (record e { orders = m }) ≡ get_level s p e
level_indexed yes_side p m e = refl
level_indexed no_side p m e = refl

links_indexed :
    (m : FlatHashMap ℕ) (e : MatchingEngine) (x : Node)
    → (next_node (record e { orders = m }) x ≡ next_node e x)
      × (prev_node (record e { orders = m }) x ≡ prev_node e x)
links_indexed m e (at_level s p) =
    (ap (first_node s p) (level_indexed s p m e), ap (last_node s p) (level_indexed s p m e))
links_indexed m e (in_block q) = (refl, refl)

improve-Alike :
    (held : List ℕ) (s : Side) (price : ℕ) (e : MatchingEngine) → Alike held e (improve s price e)
improve-Alike held yes_side price e = record {
  orders_at = λ q m. refl;
  bids = refl;
  asks = refl;
  orders = refl;
}
improve-Alike held no_side price e = record {
  orders_at = λ q m. refl;
  bids = refl;
  asks = refl;
  orders = refl;
}

-- What the writes at the end leave: the pool, the next number and best prices in range.
improved :
    (s : Side) (price : ℕ) (e : MatchingEngine) (owned : List ℕ)
    → Owns e.pool owned
    → e.best_bid ≤ 100
    → e.best_ask ≤ 100
    → price < 101
    → Owns (improve s price e).pool owned
      × (length (improve s price e).pool.blocks ≡ length e.pool.blocks)
      × ((improve s price e).next_order_id ≡ e.next_order_id)
      × ((improve s price e).best_bid ≤ 100)
      × ((improve s price e).best_ask ≤ 100)
improved yes_side price e owned v b a h = (v, refl, refl, omega (arith, b, h), a)
improved no_side price e owned v b a h = (v, refl, refl, b, omega (arith, a, h))

rest-rounds :
    (s : Side) (p : ℕ) (o : Order) (l l₂ : PriceLevel) (e e₃ : MatchingEngine)
    → get_order p e ≡ some o
    → get_level s o.price (record e { orders = (insert orders_capacity o.order_id p e.orders).1 })
      ≡ some l
    → link s o.price p l.tail (
        set_level s o.price
          (record l { tail = some p })
          (record e { orders = (insert orders_capacity o.order_id p e.orders).1 }))
      ≡ some e₃
    → get_level s o.price e₃ ≡ some l₂
    → rest s p e
      ≡ some (
          improve s o.price (
            set_level s o.price
              (record l₂ { total_qty = add_u32 l₂.total_qty o.qty_remaining })
              e₃))
unfolding rest
rest-rounds s p o l l₂ e e₃ h lh d l₂h = rw (h, lh, d, l₂h) refl

module _ (held : List ℕ) (e : MatchingEngine) (p : ℕ) (o : Order) (v : Linked e o.order_id held)
    (owns : Owns e.pool (p ∷ held)) (new : mem p held ≡ false) (there : get_order p e ≡ some o)
    (at : o.price < 101) (ids : o.order_id + 1 ≤ free_key) (room : e.orders.count < 4096)
    (out : next_node e (in_block p) ≡ some (at_level o.side o.price))
    (alone : prev_node e (in_block p) ≡ some (at_level o.side o.price)) where
  -- The end of the queue, where it is an order.
  tail-Located :
      (e' : MatchingEngine) (x : Option ℕ)
      → Kept (p ∷ held) (record e { orders = (insert orders_capacity o.order_id p e.orders).1 }) e'
      → prev_node e (at_level o.side o.price) ≡ some (pointer o.side o.price x)
      → Located (p ∷ held) e' o.side o.price x
  tail-Located e' none k f =
      level_at e' o.side o.price (k.bids_length ∙ v.bids_length) (k.asks_length ∙ v.asks_length) at
  tail-Located e' (some q) k f =
      let b = v.ring.back (at_level o.side o.price) (in_block q) at f in
      let x = v.resting q b.0 in
      let level =
        pointer-level x.order.side o.side x.order.price o.price x.order.next_in_level
          (some-inj _ _ (sym (ap later_node x.there) ∙ b.1)) in
      let y = k.order_of q x.order x.there in
      (Member-more held p (in_block q) b.0, (y.0, y.1, y.2.side ∙ level.0, y.2.price ∙ level.1))

  -- The order waits, and is defined to.
  pub rest_lem :
      e.best_bid ≤ 100
      → e.best_ask ≤ 100
      → (e' : MatchingEngine) × (rest o.side p e ≡ some e')
        × Linked e' (o.order_id + 1) (p ∷ held)
        × Owns e'.pool (p ∷ held)
        × (length e'.pool.blocks ≡ length e.pool.blocks)
        × (e'.next_order_id ≡ e.next_order_id)
        × (e'.best_bid ≤ 100)
        × (e'.best_ask ≤ 100)
  rest_lem bid ask =
      let owned : List ℕ = p ∷ held in
      let z = at_level o.side o.price in
      let mine : mem p owned ≡ true = ground arith in
      let m = (insert orders_capacity o.order_id p e.orders).1 in
      let e₁ : MatchingEngine = record e { orders = m } in
      let (l, lh) = level_at e₁ o.side o.price v.bids_length v.asks_length at in
      let e₂ : MatchingEngine = set_level o.side o.price (record l { tail = some p }) e₁ in
      let b = tail_lem owned o.side o.price p l e₁ owns lh in
      let to_end : prev_node e z ≡ some (pointer o.side o.price l.tail) =
        sym (links_indexed m e z).1 ∙ ap (last_node o.side o.price) lh in
      let block_apart : in_block p ≢ z = (λ f. cc) in
      let level_apart : z ≢ in_block p = (λ f. cc) in
      let (o₂, there₂, same) = b.kept.order_of p o there in
      let (e₃, d, j) =
        link_lem owned o.side o.price p l.tail o₂ e₂ b.kept.owns mine there₂
          (b.prev_led.away (in_block p) block_apart ∙ alone)
          (tail-Located e₂ l.tail b.kept to_end) in
      let k₃ = Kept-trans owned e₁ e₂ e₃ b.kept j.kept in
      let (l₂, l₂h) =
        level_at e₃ o.side o.price (k₃.bids_length ∙ v.bids_length) (k₃.asks_length ∙ v.asks_length)
          at in
      let qty = add_u32 l₂.total_qty o.qty_remaining in
      let e₄ : MatchingEngine = set_level o.side o.price (record l₂ { total_qty = qty }) e₃ in
      let t = requantified owned o.side o.price qty l₂ e₃ k₃.owns l₂h in
      let k₄ = Kept-trans owned e₁ e₃ e₄ k₃ t.kept in
      let linked : Linked e₄ (o.order_id + 1) owned =
        Linked-entered owned held e e₁ e₄ o.order_id p o o.side o.price
          (pointer o.side o.price l.tail) v ids new there (refl, refl, refl) at room refl
          (λ q. refl) refl refl k₄ to_end out
          (record {
            here = t.next_same (pointer o.side o.price l.tail) ∙ j.next_led.here;
            away = λ x a.
                t.next_same x ∙ (j.next_led.away x a ∙ (b.next_same x ∙ (links_indexed m e x).0));
          })
          (t.prev_same z ∙ (j.prev_led.away z level_apart ∙ b.prev_led.here))
          (t.prev_same (in_block p) ∙ j.prev_led.here)
          (λ x az ap'.
            t.prev_same x
            ∙ (j.prev_led.away x ap' ∙ (b.prev_led.away x az ∙ (links_indexed m e x).1))) in
      let i =
        improved o.side o.price e₄ owned k₄.owns (omega (arith, bid, k₄.best_bid))
          (omega (arith, ask, k₄.best_ask)) at in
      (
        improve o.side o.price e₄,
        rest-rounds o.side p o l l₂ e e₃ there lh d l₂h,
        Linked-Alike e₄ (improve o.side o.price e₄) (o.order_id + 1) owned
            (improve-Alike owned o.side o.price e₄) linked,
        i.0,
        i.1 ∙ k₄.blocks,
        i.2 ∙ k₄.next_order_id,
        i.3,
        i.4,
      )
