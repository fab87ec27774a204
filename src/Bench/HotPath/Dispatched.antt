-- ===== src/Bench/HotPath/Dispatched.antt =====
-- bench/bench_hotpath_multi.cpp: a message reaches the market of its ticker, and no other.
use kalshi_cpp.Prelude.{
  ℕ, ◌<◌, ◌≡◌, ◌≢◌, refl, ap, ◌∙◌, true, some, List, ◌∷◌, ◌++◌, arith, Bytes, length, take,
  take-length,
}
use kalshi_cpp.Prelude.Runs.{value}
use kalshi_cpp.Core.FlatHashMap.Lookup.{lookup}
use kalshi_cpp.Core.Pool.{Pool, store, load}
use kalshi_cpp.Core.Pool.Ids.{mem}
use kalshi_cpp.Core.Pool.Ownership.{Owns}
use kalshi_cpp.Core.Pool.Calls.{store_lem}
use kalshi_cpp.Bench.Tick.{MarketState, tick}
use kalshi_cpp.Bench.HotPath.{
  HotMsg, Markets, market_capacity, ticker_bytes, hash_ticker, ticker_strnlen, consume,
}
use kalshi_cpp.Bench.HotPath.Keys.{NoEnd, ticker_strnlen-text}

consume-rounds :
    (msg : HotMsg) (ms : Markets) (name : Bytes) (p : ℕ) (m m' : MarketState) (texts : List Bytes)
    (pool : Pool MarketState)
    → take (ticker_strnlen msg.delta.ticker ticker_bytes) msg.delta.ticker ≡ name
    → lookup market_capacity (hash_ticker name) ms.table ≡ some p
    → load p ms.pool ≡ some m
    → tick msg.delta msg.delta.ticker m ≡ some (texts, m')
    → store p m' ms.pool ≡ some pool
    → consume msg ms ≡ value (texts, record ms { pool = pool })
unfolding consume
consume-rounds msg ms name p m m' texts pool e1 e2 e3 e4 e5 = ground (arith, e1, e2, e3, e4, e5)

-- A message whose ticker buffer holds a registered name and its end: the market that find leads to
-- takes the step of its delta, its actions are written, and every other market and the table stay as
-- they are. The pool's free list goes through exactly the blocks that are no markets, and the step is
-- defined.
pub consume_lem :
    (msg : HotMsg) (ms : Markets) (owned : List ℕ) (name rest : Bytes) (p : ℕ) (m m' : MarketState)
    (texts : List Bytes)
    → msg.delta.ticker ≡ name ++ (0 ∷ rest)
    → NoEnd name
    → length name < ticker_bytes
    → Owns ms.pool owned
    → mem p owned ≡ true
    → lookup market_capacity (hash_ticker name) ms.table ≡ some p
    → load p ms.pool ≡ some m
    → tick msg.delta msg.delta.ticker m ≡ some (texts, m')
    → (ms' : Markets) × (consume msg ms ≡ value (texts, ms'))
      × (load p ms'.pool ≡ some m')
      × ((q : ℕ) → q ≢ p → load q ms'.pool ≡ load q ms.pool)
      × (ms'.table ≡ ms.table)
      × Owns ms'.pool owned
consume_lem msg ms owned name rest p m m' texts ticker clean short owns mine found here step =
    let len : ticker_strnlen msg.delta.ticker ticker_bytes ≡ length name =
      ap (λ t. ticker_strnlen t ticker_bytes) ticker
      ∙ ticker_strnlen-text name rest ticker_bytes clean short in
    let text : take (ticker_strnlen msg.delta.ticker ticker_bytes) msg.delta.ticker ≡ name =
      ap (λ n. take n msg.delta.ticker) len
      ∙ (ap (take (length name)) ticker ∙ take-length name (0 ∷ rest)) in
    let (pool, e, holds, others, owns') = store_lem ms.pool owned p m' owns mine in
    (
      record ms { pool = pool },
      consume-rounds msg ms name p m m' texts pool text found here step e,
      holds,
      others,
      refl,
      owns',
    )
