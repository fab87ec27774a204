-- ===== src/Sim/MatchingEngine/Queues/Trading.antt =====
-- sim/domain/matching_engine.cpp: the queues while an order in hand trades.
use kalshi_cpp.Prelude.{
  ℕ, ◌+◌, ◌≤◌, ◌<◌, ◌≡◌, refl, sym, ap, ◌∙◌, true, some, List, ◌∷◌, arith, length, min,
}
use kalshi_cpp.Core.Pool.Ids.{mem}
use kalshi_cpp.Core.Pool.Ownership.{Owns}
use kalshi_cpp.Sim.MatchingEngine.State.{
  Side, Fill, Order, PriceLevel, MatchingEngine, sub_u32, get_level, set_level, get_order,
  set_order,
}
use kalshi_cpp.Sim.MatchingEngine.Match.{trade}
use kalshi_cpp.Sim.MatchingEngine.Queues.Ring.{at_level, in_block}
use kalshi_cpp.Sim.MatchingEngine.Queues.Nodes.{
  later_node, earlier_node, next_node, prev_node, Still, Still-Wrote, Still-trans, Located,
}
use kalshi_cpp.Sim.MatchingEngine.Queues.Writes.{write_order}
use kalshi_cpp.Sim.MatchingEngine.Queues.Linked.{Linked, Linked-Still, level_at}
use kalshi_cpp.Sim.MatchingEngine.Queues.Leaving.{requantified}
use kalshi_cpp.Sim.MatchingEngine.Queues.Arrival.{Member-more}

-- While the order number `id`, in the block `p` and in no queue, trades.
pub record Scanning (e : MatchingEngine) (p id : ℕ) (s : Side) (price : ℕ) (held : List ℕ)
    : Type 0 where
  pub linked : Linked e id held
  pub owns : Owns e.pool (p ∷ held)
  pub taker : Order
  pub there : get_order p e ≡ some taker
  pub its_id : taker.order_id ≡ id
  pub its_side : taker.side ≡ s
  pub its_price : taker.price ≡ price
  pub out : next_node e (in_block p) ≡ some (at_level s price)
  pub alone : prev_node e (in_block p) ≡ some (at_level s price)
  pub next_id : e.next_order_id ≡ id + 1
  pub bid_in : e.best_bid ≤ 100
  pub ask_in : e.best_ask ≤ 100
  pub blocks : length e.pool.blocks ≤ 2048

pub Scanning-Still :
    (e e' : MatchingEngine) (p id : ℕ) (s : Side) (price : ℕ) (held : List ℕ)
    → Scanning e p id s price held
    → Still (p ∷ held) e e'
    → Scanning e' p id s price held
Scanning-Still e e' p id s price held v t =
    let x = t.kept.order_of p v.taker v.there in
    record {
      linked = Linked-Still (p ∷ held) held id e e' v.linked t;
      owns = t.kept.owns;
      taker = x.0;
      there = x.1;
      its_id = x.2.order_id ∙ v.its_id;
      its_side = x.2.side ∙ v.its_side;
      its_price = x.2.price ∙ v.its_price;
      out = t.next_same (in_block p) ∙ v.out;
      alone = t.prev_same (in_block p) ∙ v.alone;
      next_id = t.kept.next_order_id ∙ v.next_id;
      bid_in = omega (arith, v.bid_in, t.kept.best_bid);
      ask_in = omega (arith, v.ask_in, t.kept.best_ask);
      blocks = omega (arith, v.blocks, t.kept.blocks);
    }

-- A write to an order's quantity moves no link.
quantity_written :
    (owned : List ℕ) (e : MatchingEngine) (q qty : ℕ) (o : Order)
    → Owns e.pool owned
    → mem q owned ≡ true
    → get_order q e ≡ some o
    → (e' : MatchingEngine) × (set_order q (record o { qty_remaining = qty }) e ≡ some e')
      × Still owned e e'
quantity_written owned e q qty o v m h =
    let (e', done, read, w) =
      write_order owned e q o (record o { qty_remaining = qty }) v m h
        (record { order_id = refl; side = refl; price = refl }) in
    (
      e',
      done,
      Still-Wrote owned (in_block q) e e' w (ap later_node read ∙ sym (ap later_node h))
          (ap earlier_node read ∙ sym (ap earlier_node h)),
    )

trade-rounds :
    (s : Side) (ptr p c : ℕ) (maker taker taker₂ maker₂ : Order) (l : PriceLevel)
    (e e₁ e₃ : MatchingEngine)
    → get_order c e ≡ some maker
    → get_order p e ≡ some taker
    → set_order c
        (record maker {
          qty_remaining = sub_u32 maker.qty_remaining (min maker.qty_remaining taker.qty_remaining);
        })
        e
      ≡ some e₁
    → get_level s ptr e₁ ≡ some l
    → get_order p (
        set_level s ptr
          (record l {
            total_qty = sub_u32 l.total_qty (min maker.qty_remaining taker.qty_remaining);
          })
          e₁)
      ≡ some taker₂
    → set_order p
        (record taker₂ {
          qty_remaining =
              sub_u32 taker₂.qty_remaining (min maker.qty_remaining taker.qty_remaining);
        })
        (set_level s ptr
          (record l {
            total_qty = sub_u32 l.total_qty (min maker.qty_remaining taker.qty_remaining);
          })
          e₁)
      ≡ some e₃
    → get_order c e₃ ≡ some maker₂
    → (f : Fill) × (trade s ptr p c e ≡ some (f, maker₂.qty_remaining, e₃))
      × (f.price ≡ ptr)
      × (f.maker_order_id ≡ maker.order_id)
unfolding trade
trade-rounds s ptr p c maker taker taker₂ maker₂ l e e₁ e₃ h t d₁ lh t₂ d₃ m₂ = (
  record {
    maker_order_id = maker.order_id;
    taker_order_id = taker.order_id;
    price = ptr;
    qty = min maker.qty_remaining taker.qty_remaining;
    ts = taker.ts_received;
  },
  rw (h, t, d₁, lh, t₂, d₃, m₂) refl,
  refl,
  refl,
)

-- A trade with an order of the level is defined.
pub trade_lem :
    (e : MatchingEngine) (p id : ℕ) (s : Side) (price : ℕ) (held : List ℕ) (level : Side)
    (ptr c : ℕ)
    → Scanning e p id s price held
    → ptr < 101
    → (w : Located held e level ptr (some c))
    → (f : Fill) × (left : ℕ) × (e' : MatchingEngine) × (trade level ptr p c e ≡ some (f, left, e'))
      × Still (p ∷ held) e e'
      × (f.price ≡ ptr)
      × (f.maker_order_id ≡ w.1.0.order_id)
trade_lem e p id s price held level ptr c v h w =
    let owned : List ℕ = p ∷ held in
    let (mc, (maker, at, side, its_price)) = w in
    let traded : ℕ = min maker.qty_remaining v.taker.qty_remaining in
    let mc' = Member-more held p (in_block c) mc in
    let (e₁, d₁, s₁) =
      quantity_written owned e c (sub_u32 maker.qty_remaining traded) maker v.owns mc' at in
    let (l, lh) =
      level_at e₁ level ptr (s₁.kept.bids_length ∙ v.linked.bids_length)
        (s₁.kept.asks_length ∙ v.linked.asks_length) h in
    let e₂ : MatchingEngine =
      set_level level ptr (record l { total_qty = sub_u32 l.total_qty traded }) e₁ in
    let s₂ =
      Still-trans owned e e₁ e₂ s₁
        (requantified owned level ptr (sub_u32 l.total_qty traded) l e₁ s₁.kept.owns lh) in
    let (taker₂, t₂, same) = s₂.kept.order_of p v.taker v.there in
    let (e₃, d₃, s₃) =
      quantity_written owned e₂ p (sub_u32 taker₂.qty_remaining traded) taker₂ s₂.kept.owns
        (ground arith) t₂ in
    let all = Still-trans owned e e₂ e₃ s₂ s₃ in
    let (maker₂, m₂, same₂) = all.kept.order_of c maker at in
    let (f, done, at_price, by_maker) =
      trade-rounds level ptr p c maker v.taker taker₂ maker₂ l e e₁ e₃ at v.there d₁ lh t₂ d₃ m₂ in
    (f, maker₂.qty_remaining, e₃, done, all, at_price, by_maker)
