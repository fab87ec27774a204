-- ===== src/Sim/MatchingEngine/Queues/Total.antt =====
-- sim/domain/matching_engine.cpp: the operations, from a well-formed engine on.
use kalshi_cpp.Prelude.{
  List, ap, ap₂, ◌⊎◌, [], ℕ, ◌+◌, ◌≤◌, ◌≡◌, ◌≢◌, inl, inr, refl, sym, subst, ◌∙◌, Bool, true, false,
  Option, none, some, arith, ltb, ◌==◌, ◌||◌, Bool-cases,
}
use kalshi_cpp.Core.FlatHashMap.{free_key}
use kalshi_cpp.Core.FlatHashMap.Lookup.{lookup}
use kalshi_cpp.Core.Pool.{Pool, allocate, load}
use kalshi_cpp.Core.Pool.Ids.{mem, remove, mem-remove_self}
use kalshi_cpp.Core.Pool.Calls.{allocate_lem}
use kalshi_cpp.Sim.MatchingEngine.State.{
  Side, Order, PriceLevel, PlaceResult, MatchingEngine, opposite, orders_capacity, get_order,
  get_level, set_level, settle_bests, sub_u32,
}
use kalshi_cpp.Sim.MatchingEngine.Match.{unlink_prev, unlink_next, release}
use kalshi_cpp.Sim.MatchingEngine.Calls.{
  refused, place_at, place_with, place_limit, cancel, cancel_found, cancel_at,
}
use kalshi_cpp.Sim.MatchingEngine.Outcome.{Outcome, place_limit-Outcome}
use kalshi_cpp.Sim.MatchingEngine.Cancel.{Cancelled, cancel-Cancelled}
use kalshi_cpp.Sim.MatchingEngine.Queues.Nodes.{Same}
use kalshi_cpp.Sim.MatchingEngine.Queues.Ring.{some-inj}
use kalshi_cpp.Sim.MatchingEngine.Queues.Leaving.{unlink_lem}
use kalshi_cpp.Sim.MatchingEngine.Queues.Turns.{InTurn}
use kalshi_cpp.Sim.MatchingEngine.Queues.Served.{Served}
use kalshi_cpp.Sim.MatchingEngine.Queues.Settling.{WellFormed, settle_bests_lem}
use kalshi_cpp.Sim.MatchingEngine.Queues.Placing.{place_at_lem}

place_limit-refused :
    (client_id : ℕ) (s : Side) (price qty now : ℕ) (e : MatchingEngine)
    → ((ltb price 1 || ltb 99 price) || qty == 0) ≡ true
    → place_limit client_id s price qty now e ≡ some (refused, e)
unfolding place_limit
place_limit-refused client_id s price qty now e h = rw h refl

place_limit-full :
    (client_id : ℕ) (s : Side) (price qty now : ℕ) (e : MatchingEngine)
    → ((ltb price 1 || ltb 99 price) || qty == 0) ≡ false
    → allocate e.pool ≡ some (none, e.pool)
    → place_limit client_id s price qty now e ≡ some (refused, e)
unfolding place_limit place_with
place_limit-full client_id s price qty now e h a = ground (arith, h, a)

place_limit-taken :
    (client_id : ℕ) (s : Side) (price qty now p : ℕ) (pool : Pool Order) (e : MatchingEngine)
    (r : PlaceResult × MatchingEngine)
    → ((ltb price 1 || ltb 99 price) || qty == 0) ≡ false
    → allocate e.pool ≡ some (some p, pool)
    → place_at client_id s price qty now p (record e { pool = pool }) ≡ some r
    → place_limit client_id s price qty now e ≡ some r
unfolding place_limit place_with
place_limit-taken client_id s price qty now p pool e r h a d = ground (arith, h, a, d)

place_limit-returns :
    (client_id : ℕ) (s : Side) (price qty now : ℕ) (e : MatchingEngine)
    → (v : WellFormed e) → e.next_order_id + 1 ≤ free_key
    → (r : PlaceResult × MatchingEngine) × (place_limit client_id s price qty now e ≡ some r)
      × WellFormed r.1
      × InTurn r.0.fills
      × Served (opposite s) e v.held [] r.0.fills
place_limit-returns client_id s price qty now e v ids =
    elim (Bool-cases ((ltb price 1 || ltb 99 price) || qty == 0)) [
      | inl bad ↦ ((refused, e), place_limit-refused client_id s price qty now e bad, v, tt, tt)
      | inr fine ↦ elim (allocate_lem e.pool v.held v.owns) [
        | inl none_left ↦
            ((refused, e), place_limit-full client_id s price qty now e fine none_left.1, v, tt, tt)
        | inr given ↦
            let (p, pool, got, same, fresh, inside, owns) = given in
            let (r, done, wf, turn, served) =
              place_at_lem e v p pool same fresh owns ids client_id s price qty now
                (ground (arith, fine)) (ground (arith, fine)) in
            (
              r,
              place_limit-taken client_id s price qty now p pool e r fine got done,
              wf,
              turn,
              served,
            )
      ]
    ]

pub place_limit-keeps :
    (client_id : ℕ) (s : Side) (price qty now : ℕ) (e : MatchingEngine)
    (r : PlaceResult × MatchingEngine)
    → WellFormed e
    → e.next_order_id + 1 ≤ free_key
    → place_limit client_id s price qty now e ≡ some r
    → WellFormed r.1
place_limit-keeps client_id s price qty now e r v ids h =
    let (r', done, wf, turn, served) = place_limit-returns client_id s price qty now e v ids in
    let same : r' ≡ r = some-inj r' r (sym done ∙ h) in
    subst (λ (t : PlaceResult × MatchingEngine). WellFormed t.1) same wf

-- With an engine whose blocks in use are the orders of its queues, each linked in both directions
-- in the order of the numbers and found by the index, and with numbers left, place_limit returns,
-- and leaves such an engine. Its trades start not better than the best price of the other side, get
-- never better and stay within the order's limit, and of two at one price the first is with the
-- order of the smaller number; an order that is not accepted changes nothing; after an accepted one
-- the best bid is 0 or the price of a bid level with a quantity, and the best ask 100 or that of such
-- an ask level.
pub place_limit_lem :
    (client_id : ℕ) (s : Side) (price qty now : ℕ) (e : MatchingEngine)
    → WellFormed e
    → e.next_order_id + 1 ≤ free_key
    → (r : PlaceResult × MatchingEngine) × (place_limit client_id s price qty now e ≡ some r)
      × WellFormed r.1
      × Outcome s price e r
      × InTurn r.0.fills
place_limit_lem client_id s price qty now e v ids =
    let (r, done, wf, turn, served) = place_limit-returns client_id s price qty now e v ids in
    (
      r,
      done,
      wf,
      place_limit-Outcome client_id s price qty now e r (omega (arith, v.bid_in))
          (omega (arith, v.ask_in)) done,
      turn,
    )

-- From a well-formed engine with numbers left, place_limit returns, and each of its trades is with an
-- order that waited, when the call began, on the other side at the price of the trade; whatever
-- waited there with a smaller number has traded before, in this call.
pub place_limit-Served :
    (client_id : ℕ) (s : Side) (price qty now : ℕ) (e : MatchingEngine) (v : WellFormed e)
    → e.next_order_id + 1 ≤ free_key
    → (r : PlaceResult × MatchingEngine) × (place_limit client_id s price qty now e ≡ some r)
      × Served (opposite s) e v.held [] r.0.fills
place_limit-Served client_id s price qty now e v ids =
    let (r, done, wf, turn, served) = place_limit-returns client_id s price qty now e v ids in
    (r, done, served)

cancel_at-other :
    (order_id client_id c : ℕ) (e : MatchingEngine) (o : Order)
    → get_order c e ≡ some o
    → (o.client_id == client_id) ≡ false
    → cancel_at order_id client_id c e ≡ some (false, e)
unfolding cancel_at
cancel_at-other order_id client_id c e o h n = rw (h, n) refl

cancel_at-own :
    (client_id c : ℕ) (e e₁ e₂ e₄ e₅ : MatchingEngine) (l : PriceLevel) (o : Order)
    → get_order c e ≡ some o
    → (o.client_id == client_id) ≡ true
    → unlink_next o.side o.price o.prev_in_level o.next_in_level e ≡ some e₁
    → unlink_prev o.side o.price o.prev_in_level o.next_in_level e₁ ≡ some e₂
    → get_level o.side o.price e₂ ≡ some l
    → release o.order_id c
        (set_level o.side o.price (record l { total_qty = sub_u32 l.total_qty o.qty_remaining }) e₂)
      ≡ some e₄
    → settle_bests e₄ ≡ some e₅
    → cancel_at o.order_id client_id c e ≡ some (true, e₅)
unfolding cancel_at
cancel_at-own client_id c e e₁ e₂ e₄ e₅ l o h n d₁ d₂ lh d₃ t =
    ground (arith, h, n, d₁, d₂, lh, d₃, t)

-- The order of this number, which waited, waits no more; the others do, with what they asked for.
pub record Withdrawn (order_id : ℕ) (e e' : MatchingEngine) (held held' : List ℕ) : Type 0 where
  pub block : ℕ
  pub order : Order
  pub waited : mem block held ≡ true
  pub there : get_order block e ≡ some order
  pub its_id : order.order_id ≡ order_id
  pub gone : held' ≡ remove block held
  pub stays :
      (q : ℕ) (x : Order)
      → mem q held' ≡ true
      → get_order q e ≡ some x
      → (x' : Order) × (get_order q e' ≡ some x') × Same x x'

cancel_found-returns :
    (order_id client_id : ℕ) (x : Option ℕ) (e : MatchingEngine) (v : WellFormed e)
    → order_id ≢ free_key
    → lookup orders_capacity order_id e.orders ≡ x
    → (r : Bool × MatchingEngine) × (cancel_found order_id client_id x e ≡ some r)
      × (wf : WellFormed r.1) × ((r.0 ≡ false) ⊎ Withdrawn order_id e r.1 v.held wf.held)
unfolding cancel_found
cancel_found-returns order_id client_id none e v real f = ((false, e), refl, v, inl refl)
cancel_found-returns order_id client_id (some c) e v real f =
    let (m, (o, h, id)) = v.linked.found order_id c real f in
    elim (Bool-cases (o.client_id == client_id)) [
      | inr other ↦ ((false, e), cancel_at-other order_id client_id c e o h other, v, inl refl)
      | inl own ↦
          let (e₁, e₂, e₄, l, d₁, d₂, lh, d₃, left) =
            unlink_lem v.held v.held (λ q i. i) e e.next_order_id v.linked c o m h v.owns
              (omega (arith, v.linked.room, v.owns.count, v.blocks)) in
          let (e₅, t, wf, held, pool) =
            settle_bests_lem e₄ e.next_order_id (remove c v.held) left.linked left.owns
              (omega (arith, left.blocks, v.blocks)) (omega (arith, left.best_bid, v.bid_in))
              (omega (arith, left.best_ask, v.ask_in)) left.next_order_id in
          (
            (true, e₅),
            subst (λ i. cancel_at i client_id c e ≡ some (true, e₅)) id
                (cancel_at-own client_id c e e₁ e₂ e₄ e₅ l o h own d₁ d₂ lh d₃ t),
            wf,
            inr record {
              block = c;
              order = o;
              waited = m;
              there = h;
              its_id = id;
              gone = held;
              stays = λ q x i at.
                  let apart : q ≢ c = (λ same. absurd (
                    ground (
                      arith,
                      sym i ∙ (ap₂ mem same held ∙ mem-remove_self c v.held v.linked.once),
                    ))) in
                  let y = left.stays q x apart at in (y.0, ap (load q) pool ∙ y.1, y.2);
            },
          )
    ]

-- With a well-formed engine, and a number other than 2^64 - 1, cancel returns, and leaves one.
-- It answers false and changes nothing, or it answers true: then the index led from the number to an
-- order of the same client, and afterwards the best bid is 0 or the price of a bid level with a
-- quantity, and the best ask 100 or that of such an ask level; the order of the number waits no more,
-- and the others wait with their numbers, sides and prices.
pub cancel_lem :
    (order_id client_id : ℕ) (e : MatchingEngine) (v : WellFormed e)
    → order_id ≢ free_key
    → (r : Bool × MatchingEngine) × (cancel order_id client_id e ≡ some r)
      × (wf : WellFormed r.1) × Cancelled order_id client_id e r
      × ((r.0 ≡ false) ⊎ Withdrawn order_id e r.1 v.held wf.held)
unfolding cancel
cancel_lem order_id client_id e v real =
    let (r, done, wf, out) =
      cancel_found-returns order_id client_id (lookup orders_capacity order_id e.orders) e v real
        refl in
    (r, done, wf, cancel-Cancelled order_id client_id e r done, out)
