-- ===== src/Bench/Tick.antt =====
-- bench/bench_hotpath_multi.cpp and bench/bench_hotpath.cpp: what the loops do with one delta at one
-- market, from the book to the bytes of the actions. `none` is undefined behaviour.
use kalshi_cpp.Prelude.{Option, some, List, [], ◌∷◌, Bytes, codes}
use kalshi_cpp.Prelude.Options.{◌>>=◌}
use kalshi_cpp.Feed.Parser.{OrderbookDelta, Simdjson, parse_orderbook_delta}
use kalshi_cpp.Feed.Book.{Book, empty_book, apply}
use kalshi_cpp.Strategy.Signal.{evaluate}
use kalshi_cpp.Strategy.OrderManager.{Action, OrderManager, init, reconcile, emitted}
use kalshi_cpp.Net.Serialize.{serialize_action}

-- Signal has no state.
pub record MarketState : Type 0 where
  pub book : Book
  pub om : OrderManager

-- `MarketState{}`
abbrev pub fresh_market : MarketState
fresh_market = record { book = empty_book; om = init }

-- The loop that serializes the actions of a bundle, with a buffer of 256 bytes.
unfoldable pub serialize_all : List Action → Bytes → Option (List Bytes)
serialize_all [] ticker = some []
serialize_all (a ∷ actions) ticker = serialize_action a ticker 256 >>= λ text.
    serialize_all actions ticker >>= λ texts. some (text ∷ texts)

-- From a delta to the bytes of the actions, at one market.
unfoldable pub tick : OrderbookDelta → Bytes → MarketState → Option (List Bytes × MarketState)
tick delta ticker m = apply delta m.book >>= λ book.
    (let (bundle, om) = reconcile m.om (evaluate book) in
      serialize_all (emitted bundle) ticker >>= λ texts.
      some (texts, record { book = book; om = om }))

-- bench/bench_hotpath.cpp: the body of its loop, in one thread at one market. The delta is not
-- initialised before it is parsed; `garbage` is what it holds.
abbrev pub demo_ticker : Bytes
demo_ticker = codes "DEMO-1"

unfoldable pub measure :
    Simdjson → OrderbookDelta → Bytes → MarketState → Option (List Bytes × MarketState)
measure json garbage payload m = tick (parse_orderbook_delta json payload garbage).1 demo_ticker m
