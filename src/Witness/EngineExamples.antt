-- ===== src/Witness/EngineExamples.antt =====
-- The matching engine at full size: two resting orders, a crossing one, and a cancellation.
use kalshi_cpp.Prelude.{
  ◌⊎◌, false, ◌^◌, true, ℕ, ◌≡◌, arith, refl, Bool, true, Option, none, some, List, [], ◌∷◌,
}
use kalshi_cpp.Prelude.Options.{◌>>=◌}
use kalshi_cpp.Core.FlatHashMap.{insert, erase, find, home, next, probe_distance, hash}
use kalshi_cpp.Core.FlatHashMap.Lookup.{lookup}
use kalshi_cpp.Core.Pool.{allocate, deallocate, store, load}
use kalshi_cpp.Sim.MatchingEngine.State.{
  Side, yes_side, no_side, Fill, MatchingEngine, PlaceResult, init_engine, depth_at,
}
use kalshi_cpp.Sim.MatchingEngine.Match.{trade, remove_maker}
use kalshi_cpp.Sim.MatchingEngine.Calls.{place_limit, cancel, refused}
use kalshi_cpp.Sim.MatchingEngine.Cancel.{Cancelled}
use kalshi_cpp.Sim.MatchingEngine.Outcome.{Outcome}
use kalshi_cpp.Sim.MatchingEngine.Queues.Settling.{WellFormed}
use kalshi_cpp.Sim.MatchingEngine.Queues.Turns.{InTurn}
use kalshi_cpp.Sim.MatchingEngine.Queues.Total.{
  Withdrawn, place_limit-keeps, place_limit_lem, place_limit-Served, cancel_lem,
}
use kalshi_cpp.Sim.MatchingEngine.Queues.Served.{Served}
use kalshi_cpp.Sim.MatchingEngine.Queues.Empty.{init_engine-WellFormed}

abbrev place : Side → ℕ → ℕ → MatchingEngine → Option (List Fill × MatchingEngine)
place side price qty e = do r ← place_limit 1 side price qty 0 e; some (r.0.fills, r.1)

-- Sells at 60, 60 and 59; then a buy of 12 at 60, and the first seller's cancellation.
abbrev session : Option (List Fill × Bool × ℕ × ℕ × ℕ)
session = do
  a ← place no_side 60 10 init_engine
  b ← place no_side 60 5 a.1
  c ← place no_side 59 4 b.1
  d ← place yes_side 60 12 c.1
  x ← cancel 1 1 d.1
  depth ← depth_at no_side 60 x.1
  some (d.0, x.0, depth, x.1.best_bid, x.1.best_ask)

abbrev fill_of : ℕ → ℕ → ℕ → Fill
fill_of maker price qty = record {
  maker_order_id = maker;
  taker_order_id = 4;
  price = price;
  qty = qty;
  ts = 0;
}

session_run : session ≡ some (fill_of 3 59 4 ∷ fill_of 1 60 8 ∷ [], true, 5, 0, 60)
unfolding trade remove_maker place_limit cancel init_engine depth_at allocate deallocate store load
    lookup find insert erase hash home next probe_distance
session_run = refl

abbrev value_or : {A : Type 0} → Option A → A → A
value_or none d = d
value_or (some a) d = a

abbrev answer : Side → ℕ → ℕ → MatchingEngine → PlaceResult × MatchingEngine
answer side price qty e = value_or (place_limit 1 side price qty 0 e) (refused, e)

-- The engine after two sells.
abbrev sells : MatchingEngine
sells = (answer no_side 59 4 (answer no_side 60 10 init_engine).1).1

-- The number of the first order that rests, and of the second.
abbrev first_sell : PlaceResult × MatchingEngine
first_sell = answer no_side 60 10 init_engine

one_sell-WellFormed : WellFormed first_sell.1
unfolding trade remove_maker place_limit cancel init_engine depth_at allocate deallocate store load
    lookup find insert erase hash home next probe_distance
one_sell-WellFormed =
    place_limit-keeps 1 no_side 60 10 0 init_engine first_sell init_engine-WellFormed.0
      (omega arith) refl

sells-WellFormed : WellFormed sells
unfolding trade remove_maker place_limit cancel init_engine depth_at allocate deallocate store load
    lookup find insert erase hash home next probe_distance
sells-WellFormed =
    place_limit-keeps 1 no_side 59 4 0 first_sell.1 (answer no_side 59 4 first_sell.1)
      one_sell-WellFormed (omega arith) refl

place_limit_lem_example :
    (r : PlaceResult × MatchingEngine) × (place_limit 1 yes_side 60 12 0 sells ≡ some r)
    × WellFormed r.1
    × Outcome yes_side 60 sells r
    × InTurn r.0.fills
unfolding trade remove_maker place_limit cancel init_engine depth_at allocate deallocate store load
    lookup find insert erase hash home next probe_distance
place_limit_lem_example = place_limit_lem 1 yes_side 60 12 0 sells sells-WellFormed (omega arith)

cancel_lem_example :
    (r : Bool × MatchingEngine) × (cancel 1 1 sells ≡ some r)
    × (wf : WellFormed r.1) × Cancelled 1 1 sells r
    × ((r.0 ≡ false) ⊎ Withdrawn 1 sells r.1 sells-WellFormed.held wf.held)
cancel_lem_example = cancel_lem 1 1 sells sells-WellFormed (omega arith)

-- Two sells at one price.
abbrev queue : MatchingEngine
queue = (answer no_side 60 5 first_sell.1).1

queue-WellFormed : WellFormed queue
unfolding trade remove_maker place_limit cancel init_engine depth_at allocate deallocate store load
    lookup find insert erase hash home next probe_distance
queue-WellFormed =
    place_limit-keeps 1 no_side 60 5 0 first_sell.1 (answer no_side 60 5 first_sell.1)
      one_sell-WellFormed (omega arith) refl

-- A buy that takes the first of them and a part of the second.
place_limit-Served_example :
    (r : PlaceResult × MatchingEngine) × (place_limit 1 yes_side 60 12 0 queue ≡ some r)
    × Served no_side queue queue-WellFormed.held [] r.0.fills
unfolding trade remove_maker place_limit cancel init_engine depth_at allocate deallocate store load
    lookup find insert erase hash home next probe_distance
place_limit-Served_example =
    place_limit-Served 1 yes_side 60 12 0 queue queue-WellFormed (omega arith)

abbrev fill_in_queue : ℕ → ℕ → Fill
fill_in_queue maker qty = record {
  maker_order_id = maker;
  taker_order_id = 3;
  price = 60;
  qty = qty;
  ts = 0;
}

queue_run : (answer yes_side 60 12 queue).0.fills ≡ fill_in_queue 1 10 ∷ fill_in_queue 2 2 ∷ []
unfolding trade remove_maker place_limit cancel init_engine depth_at allocate deallocate store load
    lookup find insert erase hash home next probe_distance
queue_run = refl

-- Two bids of 2^31 at one price: the level's total wraps to 0, and the best bid passes the level.
abbrev wrapped : Option (ℕ × ℕ × ℕ)
wrapped = do
  a ← place yes_side 50 (2 ^ 31) init_engine
  b ← place yes_side 50 (2 ^ 31) a.1
  depth ← depth_at yes_side 50 b.1
  some (a.1.best_bid, b.1.best_bid, depth)

wrapped_run : wrapped ≡ some (50, 0, 0)
unfolding trade remove_maker place_limit cancel init_engine depth_at allocate deallocate store load
    lookup find insert erase hash home next probe_distance
wrapped_run = refl
