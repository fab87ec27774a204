-- ===== src/Sim/MatchingEngine/Match.antt =====
-- sim/domain/matching_engine.cpp: the two nested loops of `place_limit` that trade.
use kalshi_cpp.Prelude.{
  ℕ, zero, suc, ◌+◌, ◌%◌, Bool, Option, none, some, List, [], ◌∷◌, ◌++◌, length, min, leb, ◌==◌,
  ◌&&◌, not, if◌then◌else◌,
}
use kalshi_cpp.Prelude.Options.{◌>>=◌}
use kalshi_cpp.Core.Pool.{deallocate}
use kalshi_cpp.Core.FlatHashMap.{erase}
use kalshi_cpp.Sim.MatchingEngine.State.{
  Side, yes_side, no_side, Fill, MatchingEngine, orders_capacity, sub_u32, opposite, get_level,
  set_level, get_order, set_order,
}

-- `if (cur->prev_in_level) cur->prev_in_level->next_in_level = next; else head = next;`
unfoldable pub unlink_prev : Side → ℕ → Option ℕ → Option ℕ → MatchingEngine → Option MatchingEngine
unlink_prev s ptr (some q) next e = do
  before ← get_order q e
  set_order q (record before { next_in_level = next }) e
unlink_prev s ptr none next e = do
  level ← get_level s ptr e
  some (set_level s ptr (record level { head = next }) e)

-- `if (next) next->prev_in_level = prev; else tail = prev;`
unfoldable pub unlink_next : Side → ℕ → Option ℕ → Option ℕ → MatchingEngine → Option MatchingEngine
unlink_next s ptr prev (some q) e = do
  after ← get_order q e
  set_order q (record after { prev_in_level = prev }) e
unlink_next s ptr prev none e = do
  level ← get_level s ptr e
  some (set_level s ptr (record level { tail = prev }) e)

-- `orders_.erase(order_id); pool_.deallocate(cur);`
unfoldable pub release : ℕ → ℕ → MatchingEngine → Option MatchingEngine
release order_id cur e = do
  r ← erase orders_capacity order_id e.orders
  pool ← deallocate cur e.pool
  some (record e { orders = r.1; pool = pool })

-- A maker that is traded up leaves its level and its block.
unfoldable pub remove_maker : Side → ℕ → ℕ → MatchingEngine → Option (Option ℕ × MatchingEngine)
unfolding unlink_prev unlink_next release
remove_maker s ptr cur e = do
  maker ← get_order cur e
  e₁ ← unlink_prev s ptr maker.prev_in_level maker.next_in_level e
  e₂ ← unlink_next s ptr maker.prev_in_level maker.next_in_level e₁
  e₃ ← release maker.order_id cur e₂
  some (maker.next_in_level, e₃)

-- One trade between the maker `cur` and the taker `incoming` at the level `ptr`, with the quantity
-- that the maker keeps.
unfoldable pub trade : Side → ℕ → ℕ → ℕ → MatchingEngine → Option (Fill × ℕ × MatchingEngine)
trade s ptr incoming cur e = do
  maker ← get_order cur e
  taker ← get_order incoming e
  let traded = min maker.qty_remaining taker.qty_remaining
  e₁ ← set_order cur (record maker { qty_remaining = sub_u32 maker.qty_remaining traded }) e
  level ← get_level s ptr e₁
  let e₂ = set_level s ptr (record level { total_qty = sub_u32 level.total_qty traded }) e₁
  taker₂ ← get_order incoming e₂
  e₃ ← set_order incoming (record taker₂ { qty_remaining = sub_u32 taker₂.qty_remaining traded }) e₂
  maker₂ ← get_order cur e₃
  some (
    record {
      maker_order_id = maker.order_id;
      taker_order_id = taker.order_id;
      price = ptr;
      qty = traded;
      ts = taker.ts_received;
    },
    maker₂.qty_remaining,
    e₃,
  )

-- The inner loop, from the maker `cur` on; `s` is the side of the level. It takes a step for each
-- maker that it removes and `none` also says that `fuel` steps did not suffice.
unfoldable pub match_level :
    ℕ → Side → ℕ → ℕ → Option ℕ → List Fill → MatchingEngine → Option (List Fill × MatchingEngine)
match_level zero s ptr incoming cur fills e = none
match_level (suc fuel) s ptr incoming none fills e = some (fills, e)
match_level (suc fuel) s ptr incoming (some cur) fills e = do
  taker ← get_order incoming e
  if taker.qty_remaining == 0
      then some (fills, e)
      else (trade s ptr incoming cur e >>= λ t.
          if t.1 == 0
          then (remove_maker s ptr cur t.2 >>= λ r.
              match_level fuel s ptr incoming r.0 (fills ++ (t.0 ∷ [])) r.1)
          else some (fills ++ (t.0 ∷ []), t.2))

-- `scan_dir == 1 ? ptr <= price : ptr >= price`
abbrev pub in_limit : Side → ℕ → ℕ → Bool
in_limit yes_side ptr price = leb ptr price
in_limit no_side ptr price = leb price ptr

-- `ptr += scan_dir`, on a uint8_t
abbrev pub advance : Side → ℕ → ℕ
advance yes_side ptr = (ptr + 1) % 256
advance no_side ptr = (ptr + 255) % 256

-- The outer loop, over the levels from `ptr` on; `s` is the side of the taker.
unfoldable pub scan_levels :
    ℕ → Side → ℕ → ℕ → ℕ → List Fill → MatchingEngine → Option (List Fill × MatchingEngine)
unfolding match_level
scan_levels zero s price incoming ptr fills e = none
scan_levels (suc fuel) s price incoming ptr fills e = do
  taker ← get_order incoming e
  if in_limit s ptr price && not (taker.qty_remaining == 0)
      then (get_level (opposite s) ptr e >>= λ level.
          match_level (length e.pool.blocks + 1) (opposite s) ptr incoming level.head fills e
          >>= λ r. scan_levels fuel s price incoming (advance s ptr) r.0 r.1)
      else some (fills, e)
