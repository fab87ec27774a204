-- ===== src/Bench/HotPath/Isolated.antt =====
-- bench/bench_hotpath_multi.cpp: the consumer over many markets is one pipeline for each market.
use kalshi_cpp.Prelude.{
  ℕ, ◌≡◌, inl, inr, refl, sym, ap, ◌∙◌, Bool, true, false, Option, none, some, List, [], ◌∷◌, arith,
  ◌==◌, ltb, if◌then◌else◌, Bool-cases, Bytes, take, length, get_elem?-set_self, get_elem?-set_ne,
  ==→eq, ==→ne,
}
use kalshi_cpp.Prelude.Runs.{value, or_throw, bind-value}
use kalshi_cpp.Core.FlatHashMap.{FlatHashMap}
use kalshi_cpp.Core.FlatHashMap.Lookup.{lookup}
use kalshi_cpp.Core.Pool.{Pool, live, store, load, load_of, write_block}
use kalshi_cpp.Bench.Tick.{MarketState, tick}
use kalshi_cpp.Bench.HotPath.{
  HotMsg, Markets, market_capacity, ticker_bytes, hash_ticker, ticker_strnlen, or_undefined,
  consume, consume_all,
}

-- The block of the market that a message goes to.
abbrev pub market_of : FlatHashMap ℕ → HotMsg → Option ℕ
market_of table msg =
    lookup market_capacity
      (hash_ticker (take (ticker_strnlen msg.delta.ticker ticker_bytes) msg.delta.ticker)) table

abbrev pub is_block : ℕ → Option ℕ → Bool
is_block p none = false
is_block p (some q) = p == q

-- One market alone: the steps of the messages that go to it, in order.
pub own_ticks : FlatHashMap ℕ → ℕ → List HotMsg → MarketState → Option MarketState
own_ticks table p [] m = some m
own_ticks table p (msg ∷ msgs) m = elim (is_block p (market_of table msg)) [
  | false ↦ own_ticks table p msgs m
  | true ↦ elim (tick msg.delta msg.delta.ticker m) [
    | none ↦ none
    | some r ↦ own_ticks table p msgs r.1
  ]
]

load-store :
    (p q : ℕ) (x : MarketState) (pool pool' : Pool MarketState)
    → store p x pool ≡ some pool'
    → load q pool' ≡ (if q == p then some x else load q pool)
unfolding store write_block load load_of
load-store p q x pool pool' e = elim (Bool-cases (ltb p (length pool.blocks))) [
  | inl inside ↦ elim (Bool-cases (q == p)) [
    | inl same ↦
        let eq : q ≡ p = ==→eq q p same in
        let got = get_elem?-set_self pool.blocks p (live x) (ground (arith, inside)) in
        ground (arith, e, inside, same, eq, got)
    | inr away ↦
        let got = get_elem?-set_ne pool.blocks p q (live x) (λ f. ==→ne q p away (sym f)) in
        ground (arith, e, inside, away, got)
  ]
  | inr out ↦ absurd (ground (arith, e, out))
]

or_throw-value :
    {A : Type 0} (o : Option A) (a : A) → or_throw {R = Unit {0}} o ≡ value a → o ≡ some a
or_throw-value none a h = cc
or_throw-value (some b) a h = cc

or_undefined-value : {A : Type 0} (o : Option A) (a : A) → or_undefined o ≡ value a → o ≡ some a
or_undefined-value none a h = cc
or_undefined-value (some b) a h = cc

-- What a message that is handled does: a step of its market, stored there, and nothing else.
record Handled (msg : HotMsg) (ms : Markets) (r : List Bytes × Markets) : Type 0 where
  block : ℕ
  before : MarketState
  after : MarketState
  goes_to : market_of ms.table msg ≡ some block
  holds : load block ms.pool ≡ some before
  step : tick msg.delta msg.delta.ticker before ≡ some (r.0, after)
  table : r.1.table ≡ ms.table
  loads : (q : ℕ) → load q r.1.pool ≡ (if q == block then some after else load q ms.pool)

consume-Handled :
    (msg : HotMsg) (ms : Markets) (r : List Bytes × Markets)
    → consume msg ms ≡ value r
    → Handled msg ms r
unfolding consume
consume-Handled msg ms r h =
    let (p, e1, h1) = bind-value (or_throw (market_of ms.table msg)) _ r h in
    let (m, e2, h2) = bind-value (or_undefined (load p ms.pool)) _ r h1 in
    let (t, e3, h3) = bind-value (or_undefined (tick msg.delta msg.delta.ticker m)) _ r h2 in
    let (pool, e4, h4) = bind-value (or_undefined (store p t.1 ms.pool)) _ r h3 in
    let same : (t.0, record ms { pool = pool }) ≡ r = cc in
    record {
      block = p;
      before = m;
      after = t.1;
      goes_to = or_throw-value (market_of ms.table msg) p e1;
      holds = or_undefined-value (load p ms.pool) m e2;
      step =
          or_undefined-value (tick msg.delta msg.delta.ticker m) t e3
          ∙ ap (λ x. some (x.0, t.1)) same;
      table = sym (ap (λ x. x.1.table) same);
      loads = λ q.
          ap (λ x. load q x.1.pool) (sym same)
          ∙ load-store p q t.1 ms.pool pool (or_undefined-value (store p t.1 ms.pool) pool e4);
    }

own_ticks-other :
    (table : FlatHashMap ℕ) (p : ℕ) (msg : HotMsg) (msgs : List HotMsg) (m : MarketState)
    → is_block p (market_of table msg) ≡ false
    → own_ticks table p (msg ∷ msgs) m ≡ own_ticks table p msgs m
unfolding own_ticks
own_ticks-other table p msg msgs m e = rw (own_ticks, e) refl

own_ticks-own :
    (table : FlatHashMap ℕ) (p : ℕ) (msg : HotMsg) (msgs : List HotMsg) (m m' : MarketState)
    (texts : List Bytes)
    → is_block p (market_of table msg) ≡ true
    → tick msg.delta msg.delta.ticker m ≡ some (texts, m')
    → own_ticks table p (msg ∷ msgs) m ≡ own_ticks table p msgs m'
unfolding own_ticks
own_ticks-own table p msg msgs m m' texts e f = rw (own_ticks, e, f) refl

-- When the consumer gets through a sequence of messages, every market is as it would be if it alone had
-- taken the messages of its own tickers, in their order, and find leads where it led before.
pub consume_all-isolated :
    (msgs : List HotMsg) (ms : Markets) (outs : List (List Bytes)) (ms' : Markets) (p : ℕ)
    (m : MarketState)
    → consume_all msgs ms ≡ value (outs, ms')
    → load p ms.pool ≡ some m
    → (load p ms'.pool ≡ own_ticks ms.table p msgs m) × (ms'.table ≡ ms.table)
unfolding consume_all
consume_all-isolated [] ms outs ms' p m h here =
    let same : ms ≡ ms' = cc in
    (
      sym (ap (λ t. load p t.pool) same) ∙ (here ∙ unfold own_ticks in refl),
      ap (λ t. t.table) (sym same),
    )
consume_all-isolated (msg ∷ msgs) ms outs ms' p m h here =
    let (r, e1, h1) = bind-value (consume msg ms) _ (outs, ms') h in
    let (x, e2, h2) = bind-value (consume_all msgs r.1) _ (outs, ms') h1 in
    let d : Handled msg ms r = consume-Handled msg ms r e1 in
    let last : x.1 ≡ ms' = cc in
    let hit : is_block p (market_of ms.table msg) ≡ (p == d.block) = ap (is_block p) d.goes_to in
    elim (Bool-cases (p == d.block)) [
      | inl own ↦
          let eq : p ≡ d.block = ==→eq p d.block own in
          let mine : some d.before ≡ some m =
            sym d.holds ∙ (ap (λ q. load q ms.pool) (sym eq) ∙ here) in
          let start : d.before ≡ m = cc in
          let now : load p r.1.pool ≡ some d.after =
            d.loads p ∙ ap (λ b. if b then some d.after else load p ms.pool) own in
          let (state, table) = consume_all-isolated msgs r.1 x.0 x.1 p d.after e2 now in
          (
            ap (λ t. load p t.pool) (sym last)
                ∙ (state
                    ∙ (ap (λ t. own_ticks t p msgs d.after) d.table
                        ∙ sym (
                            own_ticks-own ms.table p msg msgs m d.after r.0 (hit ∙ own)
                              (ap (tick msg.delta msg.delta.ticker) (sym start) ∙ d.step)))),
            ap (λ t. t.table) (sym last) ∙ (table ∙ d.table),
          )
      | inr other ↦
          let now : load p r.1.pool ≡ some m =
            d.loads p ∙ (ap (λ b. if b then some d.after else load p ms.pool) other ∙ here) in
          let (state, table) = consume_all-isolated msgs r.1 x.0 x.1 p m e2 now in
          (
            ap (λ t. load p t.pool) (sym last)
                ∙ (state
                    ∙ (ap (λ t. own_ticks t p msgs m) d.table
                        ∙ sym (own_ticks-other ms.table p msg msgs m (hit ∙ other)))),
            ap (λ t. t.table) (sym last) ∙ (table ∙ d.table),
          )
    ]
