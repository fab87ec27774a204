-- ===== src/Sim/MatchingEngine/Queues/Leaving.antt =====
-- sim/domain/matching_engine.cpp: the unlinking of an order that is traded up or cancelled.
use kalshi_cpp.Prelude.{
  ℕ, ◌<◌, ◌≡◌, ◌≢◌, refl, sym, ap, subst, ◌∙◌, true, Option, none, some, List, arith, length,
}
use kalshi_cpp.Core.FlatHashMap.{FlatHashMap}
use kalshi_cpp.Core.FlatHashMap.Lookup.{lookup}
use kalshi_cpp.Core.FlatHashMap.Insert.Calls.{Sound}
use kalshi_cpp.Core.Pool.Ids.{mem, remove}
use kalshi_cpp.Core.Pool.Ownership.{Owns}
use kalshi_cpp.Sim.MatchingEngine.State.{
  Side, Order, PriceLevel, MatchingEngine, orders_capacity, sub_u32, get_level, set_level,
  get_order,
}
use kalshi_cpp.Sim.MatchingEngine.Match.{unlink_prev, unlink_next, release, remove_maker}
use kalshi_cpp.Sim.MatchingEngine.Queues.Ring.{Node, at_level, in_block, some-inj, Led}
use kalshi_cpp.Sim.MatchingEngine.Queues.Nodes.{
  pointer, first_node, last_node, later_node, earlier_node, next_node, prev_node, Same, Kept,
  Kept-trans, Still, Still-Wrote, Located,
}
use kalshi_cpp.Sim.MatchingEngine.Queues.Writes.{level_read, write_level}
use kalshi_cpp.Sim.MatchingEngine.Queues.Unlinking.{
  Forward, Backward, unlink_prev_lem, unlink_next_lem,
}
use kalshi_cpp.Sim.MatchingEngine.Queues.Linked.{
  Member, Linked, level_at, price_in, around, index_width,
}
use kalshi_cpp.Sim.MatchingEngine.Queues.Removal.{release_lem, links_left}
use kalshi_cpp.Sim.MatchingEngine.Queues.Departure.{real_id, Linked-left}

-- Once the order in block `c` has left.
pub record Left (owned held : List ℕ) (bound c : ℕ) (e e' : MatchingEngine) : Type 0 where
  pub owns : Owns e'.pool (remove c owned)
  pub linked : Linked e' bound (remove c held)
  pub stays :
      (q : ℕ) (x : Order)
      → q ≢ c
      → get_order q e ≡ some x
      → (x' : Order) × (get_order q e' ≡ some x') × Same x x'
  pub apart :
      (q : ℕ)
      → ¬ (mem q held ≡ true)
      → q ≢ c
      → (next_node e' (in_block q) ≡ next_node e (in_block q))
        × (prev_node e' (in_block q) ≡ prev_node e (in_block q))
  -- At the head of a level, the successor is the head now.
  pub head_led :
      (s : Side) (q : ℕ)
      → prev_node e (in_block c) ≡ some (at_level s q)
      → next_node e' (at_level s q) ≡ next_node e (in_block c)
  pub blocks : length e'.pool.blocks ≡ length e.pool.blocks
  pub next_order_id : e'.next_order_id ≡ e.next_order_id
  pub best_bid : e'.best_bid ≡ e.best_bid
  pub best_ask : e'.best_ask ≡ e.best_ask

-- A write to a level's quantity moves no link.
pub requantified :
    (owned : List ℕ) (s : Side) (p qty : ℕ) (l : PriceLevel) (e : MatchingEngine)
    → Owns e.pool owned
    → get_level s p e ≡ some l
    → Still owned e (set_level s p (record l { total_qty = qty }) e)
requantified owned s p qty l e v h =
    let l' : PriceLevel = record l { total_qty = qty } in
    let read = level_read s p l l' e h in
    Still-Wrote owned (at_level s p) e (set_level s p l' e) (write_level owned e s p l' v)
      (ap (first_node s p) read ∙ sym (ap (first_node s p) h))
      (ap (last_node s p) read ∙ sym (ap (last_node s p) h))

module _ (owned held : List ℕ) (within : (q : ℕ) → mem q held ≡ true → mem q owned ≡ true)
    (e : MatchingEngine) (bound : ℕ) (v : Linked e bound held) (c : ℕ) (o : Order)
    (m : mem c held ≡ true) (h : get_order c e ≡ some o) (owns : Owns e.pool owned)
    (room : e.orders.count < 4096) where
  behind : Node
  behind = pointer o.side o.price o.prev_in_level

  ahead : Node
  ahead = pointer o.side o.price o.next_in_level

  level_kept :
      (e' : MatchingEngine)
      → Kept owned e e'
      → (l : PriceLevel) × (get_level o.side o.price e' ≡ some l)
  level_kept e' k =
      level_at e' o.side o.price (k.bids_length ∙ v.bids_length) (k.asks_length ∙ v.asks_length)
        (price_in owned held within e bound v c o m h)

  Located-Kept :
      (e' : MatchingEngine) (x : Option ℕ)
      → Kept owned e e'
      → Located owned e o.side o.price x
      → Located owned e' o.side o.price x
  Located-Kept e' none k w = level_kept e' k
  Located-Kept e' (some q) k w =
      let (i, (y, there, side, price)) = w in
      let z = k.order_of q y there in (i, (z.0, z.1, z.2.side ∙ side, z.2.price ∙ price))

  index_leads : lookup orders_capacity o.order_id e.orders ≡ some c
  index_leads =
      let y = v.resting c m in
      let mine : y.order ≡ o = some-inj _ _ (sym y.there ∙ h) in
      sym (ap (λ (t : Order). lookup orders_capacity t.order_id e.orders) mine) ∙ y.indexed

  id_below : o.order_id < bound
  id_below =
      let y = v.resting c m in
      let mine : y.order ≡ o = some-inj _ _ (sym y.there ∙ h) in
      omega (arith, y.id_lt, ap (λ (t : Order). t.order_id) mine)

  -- Once the links go past the order, its number and its block are released.
  released :
      (e₂ : MatchingEngine)
      → Kept owned e e₂
      → Led (next_node e) (next_node e₂) behind ahead
      → Led (prev_node e) (prev_node e₂) ahead behind
      → (e₃ : MatchingEngine) × (release o.order_id c e₂ ≡ some e₃) × Left owned held bound c e e₃
  unfolding behind ahead
  released e₂ k n p =
      let same : e₂.orders ≡ e.orders = k.orders in
      let (e₃, done, ow, r) =
        release_lem owned e₂ o.order_id c k.owns (within c m)
          (subst (λ t. Sound 12 index_width t) (sym same) v.sound)
          (real_id o.order_id bound id_below v.ids)
          (omega (arith, room, ap (λ (t : FlatHashMap ℕ). t.count) same))
          (ap (lookup orders_capacity o.order_id) same ∙ index_leads) in
      let back = v.ring.back (in_block c) behind m (ap earlier_node h) in
      let forth = v.ring.forth (in_block c) ahead m (ap later_node h) in
      (
        e₃,
        done,
        record {
          owns = ow;
          linked = Linked-left owned held e e₂ e₃ bound c o v m h k n p r;
          stays =
              λ q x ne there. let y = k.order_of q x there in (y.0, r.orders_at q ne ∙ y.1, y.2);
          apart = λ q out ne.
              let l = links_left e₂ e₃ o.order_id c (in_block q) r (λ f. ne (ground (arith, f))) in
              (
                l.0 ∙ n.away (in_block q) (λ f. out (subst (Member held) (sym f) back.0)),
                l.1 ∙ p.away (in_block q) (λ f. out (subst (Member held) (sym f) forth.0)),
              );
          head_led = λ s q f.
              let first : behind ≡ at_level s q = some-inj _ _ (sym (ap earlier_node h) ∙ f) in
              (links_left e₂ e₃ o.order_id c (at_level s q) r (λ g. cc)).0
              ∙ (sym (ap (next_node e₂) first) ∙ n.here ∙ sym (ap later_node h));
          blocks = r.blocks ∙ k.blocks;
          next_order_id = r.next_order_id ∙ k.next_order_id;
          best_bid = r.best_bid ∙ k.best_bid;
          best_ask = r.best_ask ∙ k.best_ask;
        },
      )

  -- In the order of place_limit: the link that leads here first.
  unlinked :
      (e₁ e₂ : MatchingEngine)
      → Forward owned behind ahead e e₁
      → Backward owned ahead behind e₁ e₂
      → Kept owned e e₂
        × Led (next_node e) (next_node e₂) behind ahead
        × Led (prev_node e) (prev_node e₂) ahead behind
  unlinked e₁ e₂ f b = (
    Kept-trans owned e e₁ e₂ f.kept b.kept,
    record {
      here = b.next_same behind ∙ f.next_led.here;
      away = λ x a. b.next_same x ∙ f.next_led.away x a;
    },
    record { here = b.prev_led.here; away = λ x a. b.prev_led.away x a ∙ f.prev_same x },
  )

  -- In the order of cancel: the link that leads back first.
  unlinked_back :
      (e₁ e₂ : MatchingEngine)
      → Backward owned ahead behind e e₁
      → Forward owned behind ahead e₁ e₂
      → Kept owned e e₂
        × Led (next_node e) (next_node e₂) behind ahead
        × Led (prev_node e) (prev_node e₂) ahead behind
  unlinked_back e₁ e₂ b f = (
    Kept-trans owned e e₁ e₂ b.kept f.kept,
    record { here = f.next_led.here; away = λ x a. f.next_led.away x a ∙ b.next_same x },
    record {
      here = f.prev_same ahead ∙ b.prev_led.here;
      away = λ x a. f.prev_same x ∙ b.prev_led.away x a;
    },
  )

  pub remove_maker_lem :
      (e' : MatchingEngine) × (remove_maker o.side o.price c e ≡ some (o.next_in_level, e'))
      × Left owned held bound c e e'
  unfolding remove_maker behind ahead
  remove_maker_lem =
      let w = around owned held within e bound v c o m h in
      let (e₁, d₁, f) =
        unlink_prev_lem owned o.side o.price o.prev_in_level o.next_in_level e owns w.0 in
      let (e₂, d₂, b) =
        unlink_next_lem owned o.side o.price o.prev_in_level o.next_in_level e₁ f.kept.owns
          (Located-Kept e₁ o.next_in_level f.kept w.1) in
      let (k, n, p) = unlinked e₁ e₂ f b in
      let (e₃, d₃, left) = released e₂ k n p in (e₃, rw (h, d₁, d₂, d₃) refl, left)

  -- The unlinking of cancel, with the level's new quantity.
  pub unlink_lem :
      (e₁ : MatchingEngine) × (e₂ : MatchingEngine) × (e₄ : MatchingEngine) × (level : PriceLevel)
      × (unlink_next o.side o.price o.prev_in_level o.next_in_level e ≡ some e₁)
      × (unlink_prev o.side o.price o.prev_in_level o.next_in_level e₁ ≡ some e₂)
      × (get_level o.side o.price e₂ ≡ some level)
      × (release o.order_id c (
            set_level o.side o.price
              (record level { total_qty = sub_u32 level.total_qty o.qty_remaining })
              e₂)
          ≡ some e₄)
      × Left owned held bound c e e₄
  unfolding behind ahead
  unlink_lem =
      let w = around owned held within e bound v c o m h in
      let (e₁, d₁, b) =
        unlink_next_lem owned o.side o.price o.prev_in_level o.next_in_level e owns w.1 in
      let (e₂, d₂, f) =
        unlink_prev_lem owned o.side o.price o.prev_in_level o.next_in_level e₁ b.kept.owns
          (Located-Kept e₁ o.prev_in_level b.kept w.0) in
      let (k, n, p) = unlinked_back e₁ e₂ b f in
      let (l, at) = level_kept e₂ k in
      let e₃ : MatchingEngine =
        set_level o.side o.price (record l { total_qty = sub_u32 l.total_qty o.qty_remaining })
          e₂ in
      let s =
        requantified owned o.side o.price (sub_u32 l.total_qty o.qty_remaining) l e₂ k.owns at in
      let (e₄, d₃, left) =
        released e₃ (Kept-trans owned e e₂ e₃ k s.kept)
          (record { here = s.next_same behind ∙ n.here; away = λ x a. s.next_same x ∙ n.away x a })
          (record {
            here = s.prev_same ahead ∙ p.here;
            away = λ x a. s.prev_same x ∙ p.away x a;
          }) in
      (e₁, e₂, e₄, l, d₁, d₂, at, d₃, left)
