-- ===== src/Sim/MatchingEngine/Calls.antt =====
-- sim/domain/matching_engine.cpp: `place_limit` and `cancel`.
use kalshi_cpp.Prelude.{
  ℕ, Bool, true, false, Option, none, some, List, [], min, max, ltb, ◌==◌, ◌||◌, not, if◌then◌else◌,
  next_size,
}
use kalshi_cpp.Prelude.Options.{◌>>=◌}
use kalshi_cpp.Core.Pool.{allocate, deallocate}
use kalshi_cpp.Core.FlatHashMap.{insert}
use kalshi_cpp.Core.FlatHashMap.Lookup.{lookup}
use kalshi_cpp.Sim.MatchingEngine.State.{
  Side, yes_side, no_side, Fill, Order, PlaceResult, MatchingEngine, orders_capacity, sub_u32,
  add_u32, get_level, set_level, get_order, set_order, settle_bests,
}
use kalshi_cpp.Sim.MatchingEngine.Match.{unlink_prev, unlink_next, release, scan_levels}

-- `return {0, {}, 0, false};`
abbrev pub refused : PlaceResult
refused = record { order_id = 0; fills = []; qty_resting = 0; accepted = false }

-- The fields of the new order; `id` is next_order_id_ before its increment.
abbrev pub new_order : ℕ → ℕ → Side → ℕ → ℕ → ℕ → Order
new_order id client_id side price qty now = record {
  order_id = id;
  client_id = client_id;
  side = side;
  price = price;
  qty_remaining = qty;
  ts_received = now;
  prev_in_level = none;
  next_in_level = none;
}

abbrev pub scan_start : Side → MatchingEngine → ℕ
scan_start yes_side e = e.best_ask
scan_start no_side e = e.best_bid

-- `if (!old_tail) head = incoming; else { incoming->prev = old_tail; old_tail->next = incoming; }`
unfoldable pub link : Side → ℕ → ℕ → Option ℕ → MatchingEngine → Option MatchingEngine
link s price p none e = do
  level ← get_level s price e
  some (set_level s price (record level { head = some p }) e)
link s price p (some q) e = do
  order ← get_order p e
  e₁ ← set_order p (record order { prev_in_level = some q }) e
  last ← get_order q e₁
  set_order q (record last { next_in_level = some p }) e₁

-- `best_bid_ = std::max(best_bid_, price)`, or the best ask.
abbrev pub improve : Side → ℕ → MatchingEngine → MatchingEngine
improve yes_side price e = record e { best_bid = max e.best_bid price }
improve no_side price e = record e { best_ask = min e.best_ask price }

-- What is left of the order waits at the end of its level. The answer of insert is not looked at.
unfoldable pub rest : Side → ℕ → MatchingEngine → Option MatchingEngine
unfolding link
rest s p e = do
  order ← get_order p e
  let e₁ = record e { orders = (insert orders_capacity order.order_id p e.orders).1 }
  level ← get_level s order.price e₁
  let e₂ = set_level s order.price (record level { tail = some p }) e₁
  e₃ ← link s order.price p level.tail e₂
  level₂ ← get_level s order.price e₃
  some (
      improve s order.price (
        set_level s order.price
          (record level₂ { total_qty = add_u32 level₂.total_qty order.qty_remaining }) e₃))

-- `pool_.deallocate(incoming)`
unfoldable pub drop_order : ℕ → MatchingEngine → Option MatchingEngine
drop_order p e = do pool ← deallocate p e.pool; some (record e { pool = pool })

-- After the scan: the order rests, or its block is free again; then the best prices are set.
unfoldable pub finish :
    Side → ℕ → ℕ → List Fill × MatchingEngine → Option (PlaceResult × MatchingEngine)
unfolding rest drop_order settle_bests
finish s id p r = do
  taker ← get_order p r.1
  e₁ ← if taker.qty_remaining == 0 then drop_order p r.1 else rest s p r.1
  e₂ ← settle_bests e₁
  some (
    record { order_id = id; fills = r.0; qty_resting = taker.qty_remaining; accepted = true },
    e₂,
  )

-- With the block `p` of the new order. The scan's pointer is a uint8_t.
unfoldable pub place_at :
    ℕ → Side → ℕ → ℕ → ℕ → ℕ → MatchingEngine → Option (PlaceResult × MatchingEngine)
unfolding finish scan_levels
place_at client_id side price qty now p e = do
  let id = e.next_order_id
  let e₁ = record e { next_order_id = next_size id }
  e₂ ← set_order p (new_order id client_id side price qty now) e₁
  r ← scan_levels 256 side price p (scan_start side e₂) [] e₂
  finish side id p r

unfoldable pub place_with :
    ℕ → Side → ℕ → ℕ → ℕ → Option ℕ → MatchingEngine → Option (PlaceResult × MatchingEngine)
unfolding place_at
place_with client_id side price qty now none e = some (refused, e)
place_with client_id side price qty now (some p) e = place_at client_id side price qty now p e

-- `now` is what ts_now() answers.
unfoldable pub place_limit :
    ℕ → Side → ℕ → ℕ → ℕ → MatchingEngine → Option (PlaceResult × MatchingEngine)
unfolding place_with
place_limit client_id side price qty now e =
    if (ltb price 1 || ltb 99 price) || qty == 0
    then some (refused, e)
    else (allocate e.pool >>= λ a.
        place_with client_id side price qty now a.0 (record e { pool = a.1 }))

-- With the order that find leads to.
unfoldable pub cancel_at : ℕ → ℕ → ℕ → MatchingEngine → Option (Bool × MatchingEngine)
unfolding unlink_next unlink_prev release settle_bests
cancel_at order_id client_id cur e = get_order cur e >>= λ order.
    if not (order.client_id == client_id) then some (false, e) else do
      e₁ ← unlink_next order.side order.price order.prev_in_level order.next_in_level e
      e₂ ← unlink_prev order.side order.price order.prev_in_level order.next_in_level e₁
      level ← get_level order.side order.price e₂
      let left = sub_u32 level.total_qty order.qty_remaining
      e₃ ←
          release order_id cur
            (set_level order.side order.price (record level { total_qty = left }) e₂)
      e₄ ← settle_bests e₃
      some (true, e₄)

unfoldable pub cancel_found : ℕ → ℕ → Option ℕ → MatchingEngine → Option (Bool × MatchingEngine)
unfolding cancel_at
cancel_found order_id client_id none e = some (false, e)
cancel_found order_id client_id (some cur) e = cancel_at order_id client_id cur e

unfoldable pub cancel : ℕ → ℕ → MatchingEngine → Option (Bool × MatchingEngine)
unfolding cancel_found
cancel order_id client_id e =
    cancel_found order_id client_id (lookup orders_capacity order_id e.orders) e
