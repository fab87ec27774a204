-- ===== src/Sim/MatchingEngine/State.antt =====
-- sim/domain/matching_engine.h: the state of the engine, and its accesses to orders and levels.
-- `none` is undefined behaviour: a block that holds no order, or an index outside a wall.
use kalshi_cpp.Prelude.{
  ℕ, zero, suc, ◌+◌, ◌-◌, ◌%◌, ◌^◌, Bool, Option, none, some, List, get_elem?, set, replicate, ltb,
  leb, ◌==◌, if◌then◌else◌,
}
use kalshi_cpp.Prelude.Options.{◌>>=◌}
use kalshi_cpp.Core.Pool.{Pool, init_pool, store, load}
use kalshi_cpp.Core.FlatHashMap.{FlatHashMap, init_map}

pub data Side : Type 0 where
  yes_side : Side
  no_side : Side

pub record Fill : Type 0 where
  pub maker_order_id : ℕ
  pub taker_order_id : ℕ
  pub price : ℕ
  pub qty : ℕ
  pub ts : ℕ

-- A pointer to an order is the index of its block.
pub record Order : Type 0 where
  pub order_id : ℕ
  pub client_id : ℕ
  pub side : Side
  pub price : ℕ
  pub qty_remaining : ℕ
  pub ts_received : ℕ
  pub prev_in_level : Option ℕ
  pub next_in_level : Option ℕ

pub record PriceLevel : Type 0 where
  pub head : Option ℕ
  pub tail : Option ℕ
  pub total_qty : ℕ

pub record PlaceResult : Type 0 where
  pub order_id : ℕ
  pub fills : List Fill
  pub qty_resting : ℕ
  pub accepted : Bool

pub record MatchingEngine : Type 0 where
  pub pool : Pool Order
  pub bids : List PriceLevel
  pub asks : List PriceLevel
  pub orders : FlatHashMap ℕ
  pub best_bid : ℕ
  pub best_ask : ℕ
  pub next_order_id : ℕ

-- The capacity of `orders_`, and the largest index of the pool.
abbrev pub orders_capacity : ℕ
orders_capacity = 4096

abbrev last_block : ℕ
last_block = 2047

abbrev pub no_level : PriceLevel
no_level = record { head = none; tail = none; total_qty = 0 }

unfoldable pub init_engine : MatchingEngine
unfolding init_pool init_map
init_engine = record {
  pool = init_pool last_block;
  bids = replicate 101 no_level;
  asks = replicate 101 no_level;
  orders = init_map orders_capacity 0;
  best_bid = 0;
  best_ask = 100;
  next_order_id = 1;
}

-- uint32_t `a - b` and `a + b`
abbrev pub sub_u32 : ℕ → ℕ → ℕ
sub_u32 a b = (a + 2 ^ 32 - b) % 2 ^ 32

abbrev pub add_u32 : ℕ → ℕ → ℕ
add_u32 a b = (a + b) % 2 ^ 32

abbrev pub opposite : Side → Side
opposite yes_side = no_side
opposite no_side = yes_side

-- `bids_` for the side YES, `asks_` for NO.
abbrev pub wall : Side → MatchingEngine → List PriceLevel
wall yes_side e = e.bids
wall no_side e = e.asks

abbrev set_wall : Side → List PriceLevel → MatchingEngine → MatchingEngine
set_wall yes_side levels e = record e { bids = levels }
set_wall no_side levels e = record e { asks = levels }

abbrev pub get_level : Side → ℕ → MatchingEngine → Option PriceLevel
get_level s p e = get_elem? (wall s e) p

-- A level is written only after it was read at the same index.
abbrev pub set_level : Side → ℕ → PriceLevel → MatchingEngine → MatchingEngine
set_level s p level e = set_wall s (set (wall s e) p level) e

abbrev pub get_order : ℕ → MatchingEngine → Option Order
get_order p e = load p e.pool

abbrev pub set_order : ℕ → Order → MatchingEngine → Option MatchingEngine
set_order p o e = do pool ← store p o e.pool; some (record e { pool = pool })

-- `best_bid_`'s loop, downwards, and `best_ask_`'s with the number of levels still above.
unfoldable pub lower_bid : List PriceLevel → ℕ → Option ℕ
lower_bid bids zero = do level ← get_elem? bids 0; some 0
lower_bid bids (suc n) = do
  level ← get_elem? bids (suc n)
  if level.total_qty == 0 then lower_bid bids n else some (suc n)

unfoldable pub raise_ask : List PriceLevel → ℕ → Option ℕ
raise_ask asks zero = do level ← get_elem? asks 100; some 100
raise_ask asks (suc k) = do
  level ← get_elem? asks (100 - suc k)
  if level.total_qty == 0 then raise_ask asks k else some (100 - suc k)

-- The two loops at the end of `place_limit` and of `cancel`. A best ask above 100 is out of range.
unfoldable pub settle_bests : MatchingEngine → Option MatchingEngine
unfolding lower_bid raise_ask
settle_bests e = do
  bid ← lower_bid e.bids e.best_bid
  ask ← if leb e.best_ask 100 then raise_ask e.asks (100 - e.best_ask) else none
  some (record e { best_bid = bid; best_ask = ask })

-- `depth_at`
unfoldable pub depth_at : Side → ℕ → MatchingEngine → Option ℕ
depth_at s price e =
    if ltb price 1
    then some 0
    else (if ltb 99 price then some 0 else do level ← get_level s price e; some level.total_qty)
