-- ===== src/Witness/HotPathExamples.antt =====
-- Two markets, and messages to them.
use kalshi_cpp.Prelude.{
  ◌≡◌, refl, ℕ, some, List, [], ◌∷◌, ◌++◌, get_elem?, replicate, Bytes, codes, arith, pos, ◌+ℤ◌,
}
use kalshi_cpp.Prelude.Runs.{Run, value}
use kalshi_cpp.Core.FlatHashMap.Lookup.{lookup}
use kalshi_cpp.Core.FlatHashMap.{init_map, insert, home, hash}
use kalshi_cpp.Core.FlatHashMap
use kalshi_cpp.Core.Pool.{load, store, allocate, init_pool}
use kalshi_cpp.Feed.Parser.{yes_side}
use kalshi_cpp.Feed.Book.{apply, apply_side, add_int32, new_best, empty_book, best_bid}
use kalshi_cpp.Strategy.Signal.{evaluate}
use kalshi_cpp.Strategy.OrderManager.{reconcile}
use kalshi_cpp.Bench.Tick.{fresh_market, tick, serialize_all}
use kalshi_cpp.Bench.HotPath.{
  HotMsg, Markets, init_markets, market_capacity, hash_ticker, register_markets, register_market,
  consume, consume_all, fnv, ticker_strnlen,
}
use kalshi_cpp.Bench.HotPath.Registered.{register_markets_lem}
use kalshi_cpp.Bench.HotPath.Isolated.{own_ticks, consume_all-isolated}

abbrev names : List Bytes
names = codes "MKT-000" ∷ codes "MKT-001" ∷ []

register_markets_lem_example :
    (ms : Markets) × (register_markets names init_markets ≡ value ms)
    × ((i : ℕ) (name : Bytes)
        → get_elem? names i ≡ some name
        → (p : ℕ) × (lookup market_capacity (hash_ticker name) ms.table ≡ some p)
          × (load p ms.pool ≡ some fresh_market))
register_markets_lem_example = register_markets_lem names (omega arith)

abbrev message : HotMsg
message = record {
  delta = record {
    ticker = codes "MKT-001" ++ replicate 25 0;
    ts = pos 1;
    sid = 1;
    seq = 1;
    delta = pos 5;
    price = 40;
    side = yes_side;
  };
  produce_tsc = 0;
}

abbrev or_empty : Run (Unit {0}) Markets → Markets
or_empty (value ms) = ms
or_empty _ = init_markets

abbrev started : Markets
started = or_empty (register_markets names init_markets)

abbrev messages : List HotMsg
messages = message ∷ []

abbrev handled : Run (Unit {0}) (List (List Bytes) × Markets) → List (List Bytes) × Markets
handled (value r) = r
handled _ = ([], init_markets)

abbrev outcome : List (List Bytes) × Markets
outcome = handled (consume_all messages started)

consume_all-isolated_example :
    (load 1 outcome.1.pool ≡ own_ticks started.table 1 messages fresh_market)
    × (outcome.1.table ≡ started.table)
unfolding consume_all consume tick serialize_all register_markets register_market hash_ticker fnv
    ticker_strnlen init_pool init_map allocate store load insert lookup FlatHashMap.find home hash
    apply apply_side add_int32 new_best empty_book best_bid ◌+ℤ◌ evaluate reconcile
consume_all-isolated_example =
    consume_all-isolated messages started outcome.0 outcome.1 1 fresh_market refl refl
