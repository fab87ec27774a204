-- ===== src/Bench/HotPath.antt =====
-- bench/bench_hotpath_multi.cpp: the hot path over many markets, from a message to the bytes of its
-- orders, and the start-up that registers the markets. `none` is undefined behaviour; std::abort is
-- `throws`. The reads of the cycle counter are left out.
pub mod Keys
pub mod Registered
pub mod Dispatched
pub mod Isolated
use Prim.Native.Nat.{bit_xor}
use kalshi_cpp.Prelude.{
  ℕ, zero, suc, ◌+◌, ◌*◌, ◌/◌, ◌%◌, ◌^◌, Bool, true, false, Option, none, some, List, [], ◌∷◌, ◌++◌,
  ◌==◌, ltb, if◌then◌else◌, Bytes, codes, take, size_mod,
}
use kalshi_cpp.Prelude.Runs.{Run, value, throws, undefined, ◌>>=◌, or_throw}
use kalshi_cpp.Core.FlatHashMap.{free_key, FlatHashMap, init_map, insert}
use kalshi_cpp.Core.FlatHashMap.Lookup.{lookup}
use kalshi_cpp.Core.Pool.{Pool, init_pool, allocate, store, load}
use kalshi_cpp.Feed.Parser.{OrderbookDelta, Simdjson, parse_orderbook_delta}
use kalshi_cpp.Bench.Tick.{MarketState, fresh_market, tick}

abbrev pub market_capacity : ℕ
market_capacity = 2 ^ 10

-- The largest index of `g_market_pool`.
abbrev pub last_market : ℕ
last_market = 255

abbrev pub ticker_bytes : ℕ
ticker_bytes = 32

pub record HotMsg : Type 0 where
  pub delta : OrderbookDelta
  pub produce_tsc : ℕ

-- `h ^= s[i]; h *= 0x100000001b3;` for each byte
unfoldable pub fnv : ℕ → Bytes → ℕ
fnv h [] = h
fnv h (c ∷ cs) = fnv (bit_xor h c * 0x100000001b3 % size_mod) cs

unfoldable pub hash_ticker : Bytes → ℕ
hash_ticker s = let h = fnv 0xcbf29ce484222325 s in if h == free_key then bit_xor h 1 else h

-- `ticker_strnlen`, with the bytes that are left of the buffer
unfoldable pub ticker_strnlen : Bytes → ℕ → ℕ
ticker_strnlen s zero = 0
ticker_strnlen [] (suc n) = 0
ticker_strnlen (c ∷ cs) (suc n) = if c == 0 then 0 else suc (ticker_strnlen cs n)

-- `g_market_pool` and `g_markets`; a pointer to a market is the index of its block.
pub record Markets : Type 0 where
  pub pool : Pool MarketState
  pub table : FlatHashMap ℕ

abbrev pub init_markets : Markets
init_markets = record { pool = init_pool last_market; table = init_map market_capacity 0 }

abbrev pub or_undefined : {A : Type 0} → Option A → Run (Unit {0}) A
or_undefined none = undefined
or_undefined (some a) = value a

-- One round of the loop of `register_markets`.
unfoldable pub register_market : Bytes → Markets → Run (Unit {0}) Markets
register_market name ms = do
  (block, pool) ← or_undefined (allocate ms.pool)
  p ← or_throw block
  pool' ← or_undefined (store p fresh_market pool)
  let (inserted, table) = insert market_capacity (hash_ticker name) p ms.table
  if inserted then value (record { pool = pool'; table = table }) else throws

unfoldable pub register_markets : List Bytes → Markets → Run (Unit {0}) Markets
register_markets [] ms = value ms
register_markets (name ∷ names) ms = register_market name ms >>= register_markets names

-- The body of the consumer's loop, behind try_pop.
unfoldable pub consume : HotMsg → Markets → Run (Unit {0}) (List Bytes × Markets)
consume msg ms = do
  let tlen = ticker_strnlen msg.delta.ticker ticker_bytes
  let key = hash_ticker (take tlen msg.delta.ticker)
  p ← or_throw (lookup market_capacity key ms.table)
  m ← or_undefined (load p ms.pool)
  (texts, m') ← or_undefined (tick msg.delta msg.delta.ticker m)
  pool ← or_undefined (store p m' ms.pool)
  value (texts, record ms { pool = pool })

-- The consumer's loop on the messages that try_pop hands out.
unfoldable pub consume_all : List HotMsg → Markets → Run (Unit {0}) (List (List Bytes) × Markets)
consume_all [] ms = value ([], ms)
consume_all (msg ∷ msgs) ms = do
  (texts, ms₁) ← consume msg ms
  (more, ms₂) ← consume_all msgs ms₁
  value (texts ∷ more, ms₂)

-- The body of the producer's loop, before try_push: the answer of the parser is not looked at.
unfoldable pub produce : Simdjson → Bytes → ℕ → HotMsg → HotMsg
produce json payload t0 msg = record {
  delta = (parse_orderbook_delta json payload msg.delta).1;
  produce_tsc = t0;
}
