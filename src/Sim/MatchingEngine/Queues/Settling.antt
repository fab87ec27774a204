-- ===== src/Sim/MatchingEngine/Queues/Settling.antt =====
-- sim/domain/matching_engine.cpp: the state between two operations, and the end of each of them.
use kalshi_cpp.Prelude.{
  ℕ, zero, suc, ◌+◌, ◌-◌, ◌≤◌, ◌<◌, ◌≡◌, inl, inr, refl, sym, ap, ap₂, subst, ◌∙◌, true, false,
  some, List, ◌∷◌, arith, length, leb, ◌==◌, get_elem?-lt, Bool-cases,
}
use kalshi_cpp.Core.FlatHashMap.{free_key}
use kalshi_cpp.Core.Pool.{Pool, deallocate}
use kalshi_cpp.Core.Pool.Ids.{mem}
use kalshi_cpp.Core.Pool.Ownership.{Owns}
use kalshi_cpp.Core.Pool.Calls.{deallocate_lem}
use kalshi_cpp.Sim.MatchingEngine.State.{
  Side, Fill, Order, PriceLevel, PlaceResult, MatchingEngine, get_order, lower_bid, raise_ask,
  settle_bests,
}
use kalshi_cpp.Sim.MatchingEngine.Calls.{finish, rest, drop_order}
use kalshi_cpp.Sim.MatchingEngine.Queues.Ring.{at_level}
use kalshi_cpp.Sim.MatchingEngine.Queues.Linked.{Linked}
use kalshi_cpp.Sim.MatchingEngine.Queues.Alike.{Alike, Linked-Alike, Linked-wider}
use kalshi_cpp.Sim.MatchingEngine.Queues.Waiting.{rest_lem}
use kalshi_cpp.Sim.MatchingEngine.Queues.Trading.{Scanning}

-- Between two operations: the blocks in use are those of the orders that wait in the queues.
pub record WellFormed (e : MatchingEngine) : Type 0 where
  pub held : List ℕ
  pub linked : Linked e e.next_order_id held
  pub owns : Owns e.pool held
  pub blocks : length e.pool.blocks ≤ 2048
  pub bid_in : e.best_bid ≤ 100
  pub ask_in : e.best_ask ≤ 100

lower_bid_lem :
    (bids : List PriceLevel) (n : ℕ)
    → length bids ≡ 101
    → n ≤ 100
    → (b : ℕ) × (lower_bid bids n ≡ some b) × (b ≤ n)
unfolding lower_bid
lower_bid_lem bids zero l h =
    let x = get_elem?-lt bids 0 (omega (arith, l)) in (0, rw x.1 refl, omega arith)
lower_bid_lem bids (suc n) l h =
    let x = get_elem?-lt bids (suc n) (omega (arith, l, h)) in
    elim (Bool-cases (x.0.total_qty == 0)) [
      | inl z ↦
          let r = lower_bid_lem bids n l (omega (arith, h)) in
          (r.0, rw (x.1, z) r.1, omega (arith, r.2))
      | inr z ↦ (suc n, rw (x.1, z) refl, omega arith)
    ]

raise_ask_lem :
    (asks : List PriceLevel) (k : ℕ)
    → length asks ≡ 101
    → k ≤ 100
    → (a : ℕ) × (raise_ask asks k ≡ some a) × (a ≤ 100)
unfolding raise_ask
raise_ask_lem asks zero l h =
    let x = get_elem?-lt asks 100 (omega (arith, l)) in (100, rw x.1 refl, omega arith)
raise_ask_lem asks (suc k) l h =
    let x = get_elem?-lt asks (100 - suc k) (omega (arith, l, h)) in
    elim (Bool-cases (x.0.total_qty == 0)) [
      | inl z ↦ let r = raise_ask_lem asks k l (omega (arith, h)) in (r.0, rw (x.1, z) r.1, r.2)
      | inr z ↦ (100 - suc k, rw (x.1, z) refl, omega arith)
    ]

settle_bests-rounds :
    (e : MatchingEngine) (b a : ℕ)
    → lower_bid e.bids e.best_bid ≡ some b
    → leb e.best_ask 100 ≡ true
    → raise_ask e.asks (100 - e.best_ask) ≡ some a
    → settle_bests e ≡ some (record e { best_bid = b; best_ask = a })
unfolding settle_bests
settle_bests-rounds e b a h l r = ground (arith, h, l, r)

-- The loops over the best prices end, and leave the queues and the orders.
pub settle_bests_lem :
    (e : MatchingEngine) (w : ℕ) (held : List ℕ)
    → Linked e w held
    → Owns e.pool held
    → length e.pool.blocks ≤ 2048
    → e.best_bid ≤ 100
    → e.best_ask ≤ 100
    → e.next_order_id ≡ w
    → (e' : MatchingEngine) × (settle_bests e ≡ some e')
      × (wf : WellFormed e') × (wf.held ≡ held)
      × (e'.pool ≡ e.pool)
settle_bests_lem e w held v owns blocks bid ask next =
    let b = lower_bid_lem e.bids e.best_bid v.bids_length bid in
    let a = raise_ask_lem e.asks (100 - e.best_ask) v.asks_length (omega arith) in
    let e' : MatchingEngine = record e { best_bid = b.0; best_ask = a.0 } in
    let alike : Alike held e e' = record {
      orders_at = λ q m. refl;
      bids = refl;
      asks = refl;
      orders = refl;
    } in
    (
      e',
      settle_bests-rounds e b.0 a.0 b.1 (ground (arith, ask)) a.1,
      record {
        held = held;
        linked = subst (λ t. Linked e' t held) (sym next) (Linked-Alike e e' w held alike v);
        owns = owns;
        blocks = blocks;
        bid_in = omega (arith, b.2, bid);
        ask_in = a.2;
      },
      refl,
      refl,
    )

drop_order-rounds :
    (p : ℕ) (e : MatchingEngine) (pool : Pool Order)
    → deallocate p e.pool ≡ some pool
    → drop_order p e ≡ some (record e { pool = pool })
unfolding drop_order
drop_order-rounds p e pool h = rw h refl

finish-dropped :
    (s : Side) (id p : ℕ) (fills : List Fill) (e e₁ e₂ : MatchingEngine) (taker : Order)
    → get_order p e ≡ some taker
    → (taker.qty_remaining == 0) ≡ true
    → drop_order p e ≡ some e₁
    → settle_bests e₁ ≡ some e₂
    → (r : PlaceResult × MatchingEngine) × (finish s id p (fills, e) ≡ some r) × (r.1 ≡ e₂)
unfolding finish
finish-dropped s id p fills e e₁ e₂ taker h z d t = (
  (record { order_id = id; fills = fills; qty_resting = taker.qty_remaining; accepted = true }, e₂),
  ground (arith, h, z, d, t),
  refl,
)

finish-waits :
    (s : Side) (id p : ℕ) (fills : List Fill) (e e₁ e₂ : MatchingEngine) (taker : Order)
    → get_order p e ≡ some taker
    → (taker.qty_remaining == 0) ≡ false
    → rest s p e ≡ some e₁
    → settle_bests e₁ ≡ some e₂
    → (r : PlaceResult × MatchingEngine) × (finish s id p (fills, e) ≡ some r) × (r.1 ≡ e₂)
unfolding finish
finish-waits s id p fills e e₁ e₂ taker h z d t = (
  (record { order_id = id; fills = fills; qty_resting = taker.qty_remaining; accepted = true }, e₂),
  ground (arith, h, z, d, t),
  refl,
)

module _ (e : MatchingEngine) (p id : ℕ) (s : Side) (price : ℕ) (held : List ℕ) (fills : List Fill)
    (v : Scanning e p id s price held) (hi : price < 101) (ids : id + 1 ≤ free_key) where
  dropped :
      (e' : MatchingEngine) × (drop_order p e ≡ some e')
      × Linked e' (id + 1) held
      × Owns e'.pool held
      × (length e'.pool.blocks ≡ length e.pool.blocks)
      × (e'.next_order_id ≡ e.next_order_id)
      × (e'.best_bid ≡ e.best_bid)
      × (e'.best_ask ≡ e.best_ask)
  dropped =
      let d = deallocate_lem e.pool (p ∷ held) p v.owns (ground arith) in
      let e' : MatchingEngine = record e { pool = d.0 } in
      let fresh = v.owns.owned_once.0 in
      let alike : Alike held e e' = record {
        orders_at = λ q m. d.4 q (λ f. absurd (ground (arith, m, fresh, ap (λ t. mem t held) f)));
        bids = refl;
        asks = refl;
        orders = refl;
      } in
      (
        e',
        drop_order-rounds p e d.0 d.1,
        Linked-wider e' id (id + 1) held (Linked-Alike e e' id held alike v.linked) (omega arith)
            ids,
        subst (Owns d.0) (ground arith) d.5,
        d.3,
        refl,
        refl,
        refl,
      )

  waited :
      (e' : MatchingEngine) × (rest s p e ≡ some e')
      × Linked e' (id + 1) (p ∷ held)
      × Owns e'.pool (p ∷ held)
      × (length e'.pool.blocks ≡ length e.pool.blocks)
      × (e'.next_order_id ≡ e.next_order_id)
      × (e'.best_bid ≤ 100)
      × (e'.best_ask ≤ 100)
  waited =
      let o = v.taker in
      let level : at_level s price ≡ at_level o.side o.price =
        ap₂ at_level (sym v.its_side) (sym v.its_price) in
      let r =
        rest_lem held e p o (subst (λ t. Linked e t held) (sym v.its_id) v.linked) v.owns
          v.owns.owned_once.0 v.there (omega (arith, hi, v.its_price))
          (omega (arith, ids, v.its_id)) (omega (arith, v.linked.room, v.owns.count, v.blocks))
          (v.out ∙ ap some level) (v.alone ∙ ap some level) v.bid_in v.ask_in in
      (
        r.0,
        subst (λ t. rest t p e ≡ some r.0) v.its_side r.1,
        subst (λ t. Linked r.0 (t + 1) (p ∷ held)) v.its_id r.2,
        r.3,
        r.4,
        r.5,
        r.6,
        r.7,
      )

  -- The last part of place_limit is defined.
  pub finish_lem :
      (r : PlaceResult × MatchingEngine) × (finish s id p (fills, e) ≡ some r) × WellFormed r.1
  finish_lem = elim (Bool-cases (v.taker.qty_remaining == 0)) [
    | inl z ↦
        let d = dropped in
        let t =
          settle_bests_lem d.0 (id + 1) held d.2 d.3 (omega (arith, d.4, v.blocks))
            (omega (arith, d.6, v.bid_in)) (omega (arith, d.7, v.ask_in)) (d.5 ∙ v.next_id) in
        let r = finish-dropped s id p fills e d.0 t.0 v.taker v.there z d.1 t.1 in
        (r.0, r.1, subst WellFormed (sym r.2) t.2)
    | inr z ↦
        let d = waited in
        let t =
          settle_bests_lem d.0 (id + 1) (p ∷ held) d.2 d.3 (omega (arith, d.4, v.blocks)) d.6 d.7
            (d.5 ∙ v.next_id) in
        let r = finish-waits s id p fills e d.0 t.0 v.taker v.there z d.1 t.1 in
        (r.0, r.1, subst WellFormed (sym r.2) t.2)
  ]
