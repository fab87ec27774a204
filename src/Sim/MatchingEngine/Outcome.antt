-- ===== src/Sim/MatchingEngine/Outcome.antt =====
-- sim/domain/matching_engine.cpp: what `place_limit` answers and leaves, on every branch.
use kalshi_cpp.Prelude.{
  ℕ, zero, suc, ◌-◌, ◌<◌, ◌≡◌, ◌≢◌, ◌⊎◌, inl, inr, refl, sym, ap, subst, ◌∙◌, Bool, true, false,
  Option, none, some, List, [], arith, get_elem?, ltb, leb, ◌==◌, ◌||◌, next_size, if◌then◌else◌,
}
use kalshi_cpp.Prelude.Options.{bind-some}
use kalshi_cpp.Core.Pool.{Pool, allocate, allocate_at, store}
use kalshi_cpp.Sim.MatchingEngine.State.{
  Side, yes_side, no_side, Fill, Order, PriceLevel, PlaceResult, MatchingEngine, get_order,
  set_order, settle_bests, lower_bid, raise_ask,
}
use kalshi_cpp.Sim.MatchingEngine.Match.{scan_levels}
use kalshi_cpp.Sim.MatchingEngine.Calls.{
  refused, new_order, scan_start, finish, rest, drop_order, place_at, place_with, place_limit,
}
use kalshi_cpp.Sim.MatchingEngine.Priority.{BestFirst, if-some, scan_levels-BestFirst}

-- A level with a quantity.
abbrev pub Quoted : List PriceLevel → ℕ → Type 0
Quoted levels p = (level : PriceLevel) × (get_elem? levels p ≡ some level) × (level.total_qty ≢ 0)

-- The best prices are those of levels with a quantity, or 0 and 100 for none.
abbrev pub Settled : MatchingEngine → Type 0
Settled e =
    ((e.best_bid ≡ 0) ⊎ Quoted e.bids e.best_bid) × ((e.best_ask ≡ 100) ⊎ Quoted e.asks e.best_ask)

lower_bid-Quoted :
    (bids : List PriceLevel) (n b : ℕ) → lower_bid bids n ≡ some b → (b ≡ 0) ⊎ Quoted bids b
unfolding lower_bid
lower_bid-Quoted bids zero b h =
    let a = bind-some (get_elem? bids 0) _ b h in inl (ground (arith, a.2))
lower_bid-Quoted bids (suc n) b h =
    let a = bind-some (get_elem? bids (suc n)) _ b h in
    elim (if-some (a.0.total_qty == 0) (lower_bid bids n) (some (suc n)) (some b) a.2) [
      | inl next ↦ lower_bid-Quoted bids n b next.1
      | inr here ↦
          let same : suc n ≡ b = ground (arith, here.1) in
          inr (a.0, ap (get_elem? bids) (sym same) ∙ a.1, ground (arith, here.0))
    ]

raise_ask-Quoted :
    (asks : List PriceLevel) (k a : ℕ) → raise_ask asks k ≡ some a → (a ≡ 100) ⊎ Quoted asks a
unfolding raise_ask
raise_ask-Quoted asks zero a h =
    let l = bind-some (get_elem? asks 100) _ a h in inl (ground (arith, l.2))
raise_ask-Quoted asks (suc k) a h =
    let l = bind-some (get_elem? asks (100 - suc k)) _ a h in
    elim (if-some (l.0.total_qty == 0) (raise_ask asks k) (some (100 - suc k)) (some a) l.2) [
      | inl next ↦ raise_ask-Quoted asks k a next.1
      | inr here ↦
          let same : 100 - suc k ≡ a = ground (arith, here.1) in
          inr (l.0, ap (get_elem? asks) (sym same) ∙ l.1, ground (arith, here.0))
    ]

raise_or_none : (b : Bool) (x : Option ℕ) (a : ℕ) → (if b then x else none) ≡ some a → x ≡ some a
raise_or_none true x a h = h
raise_or_none false x a h = cc

pub settle_bests-Settled : (e e' : MatchingEngine) → settle_bests e ≡ some e' → Settled e'
unfolding settle_bests
settle_bests-Settled e e' h =
    let bid = bind-some (lower_bid e.bids e.best_bid) _ e' h in
    let ask =
      bind-some (if leb e.best_ask 100 then raise_ask e.asks (100 - e.best_ask) else none) _ e'
        bid.2 in
    let same : record e { best_bid = bid.0; best_ask = ask.0 } ≡ e' = ground (arith, ask.2) in
    subst Settled same (
      lower_bid-Quoted e.bids e.best_bid bid.0 bid.1,
      raise_ask-Quoted e.asks (100 - e.best_ask) ask.0 (raise_or_none _ _ ask.0 ask.1),
    )

pub finish-Outcome :
    (s : Side) (id p : ℕ) (x : List Fill × MatchingEngine) (r : PlaceResult × MatchingEngine)
    → finish s id p x ≡ some r
    → (r.0.fills ≡ x.0) × (r.0.accepted ≡ true) × Settled r.1
unfolding finish
finish-Outcome s id p x r h =
    let a = bind-some (get_order p x.1) _ r h in
    let b = bind-some (if a.0.qty_remaining == 0 then drop_order p x.1 else rest s p x.1) _ r a.2 in
    let c = bind-some (settle_bests b.0) _ r b.2 in
    let same : c.0 ≡ r.1 = ground (arith, c.2) in
    (
      ground (arith, c.2),
      ground (arith, c.2),
      subst Settled same (settle_bests-Settled b.0 c.0 c.1),
    )

set_order-bests :
    (p : ℕ) (o : Order) (e e' : MatchingEngine)
    → set_order p o e ≡ some e'
    → (e'.best_bid ≡ e.best_bid) × (e'.best_ask ≡ e.best_ask)
set_order-bests p o e e' h =
    let a = bind-some (store p o e.pool) _ e' h in (ground (arith, a.2), ground (arith, a.2))

allocate_at-none :
    (head : Option ℕ) (pool pool' : Pool Order)
    → allocate_at head pool ≡ some (none, pool')
    → pool' ≡ pool
unfolding allocate_at
allocate_at-none none pool pool' h = ground arith
allocate_at-none (some p) pool pool' h = ground arith

-- Of an answer `r` to an order at `price`, when the engine was `e`.
pub record Outcome (s : Side) (price : ℕ) (e : MatchingEngine) (r : PlaceResult × MatchingEngine)
    : Type 0 where
  pub best_first : BestFirst s (scan_start s e) price r.0.fills
  pub unchanged : r.0.accepted ≡ false → r.1 ≡ e
  pub settled : r.0.accepted ≡ true → Settled r.1

Outcome-refused :
    (s : Side) (price : ℕ) (e e' : MatchingEngine) (r : PlaceResult × MatchingEngine)
    → e' ≡ e
    → some (refused, e') ≡ some r
    → Outcome s price e r
Outcome-refused s price e e' r same h =
    let answer : refused ≡ r.0 = ground (arith, h) in
    let left : e' ≡ r.1 = ground (arith, h) in
    record {
      best_first =
          subst (λ (t : PlaceResult). BestFirst s (scan_start s e) price t.fills) answer tt;
      unchanged = λ f. sym left ∙ same;
      settled = λ f. absurd (ground (arith, f, answer));
    }

scan_start-eq :
    (s : Side) (e e' : MatchingEngine)
    → (e'.best_bid ≡ e.best_bid) × (e'.best_ask ≡ e.best_ask)
    → scan_start s e' ≡ scan_start s e
scan_start-eq yes_side e e' h = h.1
scan_start-eq no_side e e' h = h.0

place_at-Outcome :
    (client_id : ℕ) (s : Side) (price qty now p : ℕ) (e : MatchingEngine) (pool : Pool Order)
    (r : PlaceResult × MatchingEngine)
    → 0 < price
    → price < 100
    → scan_start s e < 256
    → place_at client_id s price qty now p (record e { pool = pool }) ≡ some r
    → Outcome s price e r
unfolding place_at
place_at-Outcome client_id s price qty now p e pool r lo hi b h =
    let e₁ : MatchingEngine = record e { pool = pool; next_order_id = next_size e.next_order_id } in
    let o : Order = new_order e.next_order_id client_id s price qty now in
    let a = bind-some (set_order p o e₁) _ r h in
    let start : scan_start s a.0 ≡ scan_start s e =
      scan_start-eq s e₁ a.0 (set_order-bests p o e₁ a.0 a.1) ∙ scan_start-eq s e e₁ (refl, refl) in
    let x = bind-some (scan_levels 256 s price p (scan_start s a.0) [] a.0) _ r a.2 in
    let done = finish-Outcome s e.next_order_id p x.0 r x.2 in
    let trades =
      scan_levels-BestFirst 256 s price p (scan_start s a.0) [] a.0 x.0 lo hi
        (subst (λ t. t < 256) (sym start) b) x.1 in
    record {
      best_first =
          subst (λ fs. BestFirst s (scan_start s e) price fs) (sym (done.0 ∙ trades.1))
            (subst (λ t. BestFirst s t price trades.0) start trades.2);
      unchanged = λ f. absurd (ground (arith, f, done.1));
      settled = λ f. done.2;
    }

scan_start-lt :
    (s : Side) (e : MatchingEngine) → e.best_bid < 256 → e.best_ask < 256 → scan_start s e < 256
scan_start-lt yes_side e b a = a
scan_start-lt no_side e b a = b

-- With the pool's answer.
place_with-Outcome :
    (client_id : ℕ) (s : Side) (price qty now : ℕ) (block : Option ℕ) (e : MatchingEngine)
    (pool : Pool Order) (r : PlaceResult × MatchingEngine)
    → 0 < price
    → price < 100
    → scan_start s e < 256
    → allocate e.pool ≡ some (block, pool)
    → place_with client_id s price qty now block (record e { pool = pool }) ≡ some r
    → Outcome s price e r
unfolding place_with allocate
place_with-Outcome client_id s price qty now none e pool r lo hi b a h =
    let same : pool ≡ e.pool = allocate_at-none e.pool.free_head e.pool pool a in
    Outcome-refused s price e (record e { pool = pool }) r
      (ap (λ (t : Pool Order). record e { pool = t }) same) h
place_with-Outcome client_id s price qty now (some p) e pool r lo hi b a h =
    place_at-Outcome client_id s price qty now p e pool r lo hi b h

-- When place_limit is defined, with best prices that fit a uint8_t, its trades start not better than
-- the best price of the other side, get never better and stay within the order's limit; an order
-- that is not accepted changes nothing; after an accepted one the best bid is 0 or the price of a bid
-- level with a quantity, and the best ask 100 or that of such an ask level.
pub place_limit-Outcome :
    (client_id : ℕ) (s : Side) (price qty now : ℕ) (e : MatchingEngine)
    (r : PlaceResult × MatchingEngine)
    → e.best_bid < 256
    → e.best_ask < 256
    → place_limit client_id s price qty now e ≡ some r
    → Outcome s price e r
unfolding place_limit
place_limit-Outcome client_id s price qty now e r b a h =
    elim (if-some ((ltb price 1 || ltb 99 price) || qty == 0) (some (refused, e)) _ (some r) h) [
      | inl no_order ↦ Outcome-refused s price e e r refl no_order.1
      | inr order ↦
          let blk = bind-some (allocate e.pool) _ r order.1 in
          place_with-Outcome client_id s price qty now blk.0.0 e blk.0.1 r (ground (arith, order.0))
            (ground (arith, order.0)) (scan_start-lt s e b a) blk.1 blk.2
    ]
