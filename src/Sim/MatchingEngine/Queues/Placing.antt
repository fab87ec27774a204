-- ===== src/Sim/MatchingEngine/Queues/Placing.antt =====
-- sim/domain/matching_engine.cpp: `place_limit` with the block that the pool gave it.
use kalshi_cpp.Prelude.{
  ℕ, ◌+◌, ◌≤◌, ◌<◌, ◌≡◌, refl, sym, ap, subst, ◌∙◌, true, false, some, List, [], ◌∷◌, arith, length,
  get_elem?, next_size,
}
use kalshi_cpp.Core.FlatHashMap.{free_key}
use kalshi_cpp.Core.Pool.{Pool, load, load_of}
use kalshi_cpp.Core.Pool.Ids.{mem}
use kalshi_cpp.Core.Pool.Ownership.{Owns}
use kalshi_cpp.Core.Pool.Calls.{store_lem}
use kalshi_cpp.Sim.MatchingEngine.State.{
  opposite, get_order, Side, yes_side, no_side, Fill, Order, PlaceResult, MatchingEngine, set_order,
}
use kalshi_cpp.Sim.MatchingEngine.Match.{scan_levels}
use kalshi_cpp.Sim.MatchingEngine.Calls.{new_order, scan_start, finish, place_at}
use kalshi_cpp.Sim.MatchingEngine.Outcome.{finish-Outcome}
use kalshi_cpp.Sim.MatchingEngine.Queues.Turns.{InTurn}
use kalshi_cpp.Sim.MatchingEngine.Queues.Served.{Served, Played-start}
use kalshi_cpp.Sim.MatchingEngine.Queues.Nodes.{later_node, earlier_node}
use kalshi_cpp.Sim.MatchingEngine.Queues.Writes.{store-length}
use kalshi_cpp.Sim.MatchingEngine.Queues.Alike.{Alike, Linked-Alike}
use kalshi_cpp.Sim.MatchingEngine.Queues.Trading.{Scanning}
use kalshi_cpp.Sim.MatchingEngine.Queues.Scan.{Enough, scan_levels_lem}
use kalshi_cpp.Sim.MatchingEngine.Queues.Settling.{WellFormed, finish_lem}

start_in :
    (s : Side) (e : MatchingEngine) → e.best_bid ≤ 100 → e.best_ask ≤ 100 → scan_start s e < 101
start_in yes_side e b a = omega (arith, a)
start_in no_side e b a = omega (arith, b)

-- 256 steps pass all levels.
steps : (s : Side) (start price : ℕ) → start < 101 → price < 100 → Enough s 256 start price
steps yes_side start price h hi = (omega arith, omega (arith, hi))
steps no_side start price h hi = (omega arith, omega (arith, h))

place_at-rounds :
    (client_id : ℕ) (s : Side) (price qty now p : ℕ) (e e₂ : MatchingEngine)
    (x : List Fill × MatchingEngine) (r : PlaceResult × MatchingEngine)
    → set_order p
        (new_order e.next_order_id client_id s price qty now)
        (record e { next_order_id = next_size e.next_order_id })
      ≡ some e₂
    → scan_levels 256 s price p (scan_start s e₂) [] e₂ ≡ some x
    → finish s e.next_order_id p x ≡ some r
    → place_at client_id s price qty now p e ≡ some r
unfolding place_at
place_at-rounds client_id s price qty now p e e₂ x r h t f = rw (h, t, f) refl

module _ (e : MatchingEngine) (v : WellFormed e) (p : ℕ) (pool : Pool Order)
    (blocks : pool.blocks ≡ e.pool.blocks) (fresh : mem p v.held ≡ false)
    (owns : Owns pool (p ∷ v.held)) (ids : e.next_order_id + 1 ≤ free_key) where
  load_same : (q : ℕ) → load q pool ≡ load q e.pool
  unfolding load
  load_same q = ap (λ t. load_of (get_elem? t q)) blocks

  -- The new order is written, and in no queue.
  started :
      (client_id : ℕ) (s : Side) (price qty now : ℕ)
      → (e₂ : MatchingEngine) × (set_order p
            (new_order e.next_order_id client_id s price qty now)
            (record e { pool = pool; next_order_id = next_size e.next_order_id })
          ≡ some e₂)
        × Scanning e₂ p e.next_order_id s price v.held
        × ((q : ℕ) → mem q v.held ≡ true → get_order q e₂ ≡ get_order q e)
  started client_id s price qty now =
      let o : Order = new_order e.next_order_id client_id s price qty now in
      let (pool', done, read, others, owns') =
        store_lem pool (p ∷ v.held) p o owns (ground arith) in
      let e₂ : MatchingEngine = record e {
        pool = pool';
        next_order_id = next_size e.next_order_id;
      } in
      let alike : Alike v.held e e₂ = record {
        orders_at = λ q m.
            others q (λ f. absurd (ground (arith, m, fresh, ap (λ t. mem t v.held) f)))
            ∙ load_same q;
        bids = refl;
        asks = refl;
        orders = refl;
      } in
      (
        e₂,
        rw done refl,
        record {
          linked = Linked-Alike e e₂ e.next_order_id v.held alike v.linked;
          owns = owns';
          taker = o;
          there = read;
          its_id = refl;
          its_side = refl;
          its_price = refl;
          out = ap later_node read;
          alone = ap earlier_node read;
          next_id = omega (arith, ids);
          bid_in = v.bid_in;
          ask_in = v.ask_in;
          blocks = omega (arith, v.blocks, store-length pool pool' p o done, ap length blocks);
        },
        alike.orders_at,
      )

  pub place_at_lem :
      (client_id : ℕ) (s : Side) (price qty now : ℕ)
      → 0 < price
      → price < 100
      → (r : PlaceResult × MatchingEngine) × (place_at client_id s price qty now p
            (record e { pool = pool })
          ≡ some r)
        × WellFormed r.1
        × InTurn r.0.fills
        × Served (opposite s) e v.held [] r.0.fills
  place_at_lem client_id s price qty now lo hi =
      let (e₂, written, v₂, same) = started client_id s price qty now in
      let start = start_in s e₂ v₂.bid_in v₂.ask_in in
      let (x, held, scanned, v₃, turn, played) =
        scan_levels_lem e e.next_order_id v.held v.linked 256 e₂ p e.next_order_id s price v.held
          (scan_start s e₂) [] v₂ lo hi start (steps s (scan_start s e₂) price start hi) tt tt
          (Played-start (opposite s) e e₂ v.held same) in
      let (r, done, wf) =
        finish_lem x.1 p e.next_order_id s price held x.0 v₃ (omega (arith, hi)) ids in
      let fills : r.0.fills ≡ x.0 = (finish-Outcome s e.next_order_id p x r done).0 in
      (
        r,
        place_at-rounds client_id s price qty now p (record e { pool = pool }) e₂ x r written
            scanned done,
        wf,
        subst InTurn (sym fills) turn,
        subst (Served (opposite s) e v.held []) (sym fills) played.served,
      )
