-- ===== src/Sim/MatchingEngine/Queues/Scan.antt =====
-- sim/domain/matching_engine.cpp: the loop over the levels, and the queues.
use kalshi_cpp.Prelude.{
  ℕ, zero, suc, ◌+◌, ◌<◌, ◌≡◌, inl, inr, refl, sym, ap, ◌∙◌, Bool, true, false, Option, none, some,
  List, arith, length, ◌==◌, ◌&&◌, not, Bool-cases,
}
use kalshi_cpp.Sim.MatchingEngine.State.{
  Side, yes_side, no_side, Fill, Order, PriceLevel, MatchingEngine, opposite, get_level, get_order,
}
use kalshi_cpp.Sim.MatchingEngine.Match.{match_level, in_limit, advance, scan_levels}
use kalshi_cpp.Sim.MatchingEngine.Queues.Ring.{at_level, in_block, some-inj}
use kalshi_cpp.Sim.MatchingEngine.Queues.Nodes.{pointer, first_node, earlier_node, Located}
use kalshi_cpp.Sim.MatchingEngine.Queues.Linked.{Linked, level_at}
use kalshi_cpp.Sim.MatchingEngine.Queues.Arrival.{pointer-level}
use kalshi_cpp.Sim.MatchingEngine.Queues.Trading.{Scanning}
use kalshi_cpp.Sim.MatchingEngine.Queues.Turns.{
  InTurn, Passed, Before-Passed, Reached-Passed, Passed-advance, NextMaker,
}
use kalshi_cpp.Sim.MatchingEngine.Queues.Served.{Played}
use kalshi_cpp.Sim.MatchingEngine.Queues.Matching.{match_level_lem}

scan_levels-in :
    (fuel : ℕ) (s : Side) (price p ptr : ℕ) (fills : List Fill) (e : MatchingEngine) (taker : Order)
    (l : PriceLevel) (r : List Fill × MatchingEngine)
    → get_order p e ≡ some taker
    → (in_limit s ptr price && not (taker.qty_remaining == 0)) ≡ true
    → get_level (opposite s) ptr e ≡ some l
    → match_level (length e.pool.blocks + 1) (opposite s) ptr p l.head fills e ≡ some r
    → scan_levels (suc fuel) s price p ptr fills e
      ≡ scan_levels fuel s price p (advance s ptr) r.0 r.1
unfolding scan_levels
scan_levels-in fuel s price p ptr fills e taker l r h c lh m = rw (h, c, lh, m) refl

scan_levels-out :
    (fuel : ℕ) (s : Side) (price p ptr : ℕ) (fills : List Fill) (e : MatchingEngine) (taker : Order)
    → get_order p e ≡ some taker
    → (in_limit s ptr price && not (taker.qty_remaining == 0)) ≡ false
    → scan_levels (suc fuel) s price p ptr fills e ≡ some (fills, e)
unfolding scan_levels
scan_levels-out fuel s price p ptr fills e taker h c = rw (h, c) refl

-- The head of a level's queue.
head-Located :
    (e : MatchingEngine) (id : ℕ) (held : List ℕ) (level : Side) (ptr : ℕ) (l : PriceLevel)
    (x : Option ℕ)
    → Linked e id held
    → ptr < 101
    → get_level level ptr e ≡ some l
    → l.head ≡ x
    → Located held e level ptr x
head-Located e id held level ptr l none v h lh f = (l, lh)
head-Located e id held level ptr l (some q) v h lh f =
    let t =
      v.ring.forth (at_level level ptr) (in_block q) h
        (ap (first_node level ptr) lh ∙ ap (λ y. some (pointer level ptr y)) f) in
    let x = v.resting q t.0 in
    let at =
      pointer-level x.order.side level x.order.price ptr x.order.prev_in_level
        (some-inj _ _ (sym (ap earlier_node x.there) ∙ t.1)) in
    (t.0, (x.order, x.there, at.0, at.1))

-- The outer loop has steps enough to pass the limit.
abbrev pub Enough : Side → ℕ → ℕ → ℕ → Type 0
Enough yes_side fuel ptr price = (0 < fuel) × (price + 1 < fuel + ptr)
Enough no_side fuel ptr price = (0 < fuel) × (ptr + 1 < fuel + price)

Enough-next :
    (s : Side) (fuel ptr price : ℕ) (b : Bool)
    → Enough s (suc fuel) ptr price
    → (in_limit s ptr price && b) ≡ true
    → ptr < 101
    → 0 < price
    → price < 100
    → Enough s fuel (advance s ptr) price × (advance s ptr < 101)
Enough-next yes_side fuel ptr price b k c h lo hi =
    ((ground (arith, k.0, k.1, c), ground (arith, k.1, c)), ground (arith, c))
Enough-next no_side fuel ptr price b k c h lo hi =
    ((ground (arith, k.0, k.1, c), ground (arith, k.1, c)), ground (arith, c))

no_steps : (s : Side) (ptr price : ℕ) → ¬ Enough s zero ptr price
no_steps yes_side ptr price k = omega (arith, k.0)
no_steps no_side ptr price k = omega (arith, k.0)

-- What the outer loop leaves.
abbrev pub Scanned :
    MatchingEngine → List ℕ → ℕ → ℕ → Side → ℕ → Option (List Fill × MatchingEngine) → Type 0
Scanned e₀ held₀ p id s price x =
    (r : List Fill × MatchingEngine) × (held : List ℕ) × (x ≡ some r)
    × Scanning r.1 p id s price held
    × InTurn r.0
    × Played (opposite s) e₀ held₀ r.1 held r.0

head-NextMaker :
    (e : MatchingEngine) (s : Side) (ptr : ℕ) (fills : List Fill) (x : Option ℕ)
    → Passed s ptr fills
    → NextMaker e ptr fills x
head-NextMaker e s ptr fills none h = tt
head-NextMaker e s ptr fills (some c) h = λ o f. Before-Passed s ptr o.order_id fills h

-- The outer loop ends, within the levels.
pub scan_levels_lem :
    (e₀ : MatchingEngine) (b₀ : ℕ) (held₀ : List ℕ) (v₀ : Linked e₀ b₀ held₀) (fuel : ℕ)
    (e : MatchingEngine) (p id : ℕ) (s : Side) (price : ℕ) (held : List ℕ) (ptr : ℕ)
    (fills : List Fill)
    → Scanning e p id s price held
    → 0 < price
    → price < 100
    → ptr < 101
    → Enough s fuel ptr price
    → InTurn fills
    → Passed s ptr fills
    → Played (opposite s) e₀ held₀ e held fills
    → Scanned e₀ held₀ p id s price (scan_levels fuel s price p ptr fills e)
scan_levels_lem e₀ b₀ held₀ v₀ zero e p id s price held ptr fills v lo hi h k t u g =
    absurd (no_steps s ptr price k)
scan_levels_lem e₀ b₀ held₀ v₀ (suc fuel) e p id s price held ptr fills v lo hi h k t u g =
    elim (Bool-cases (in_limit s ptr price && not (v.taker.qty_remaining == 0))) [
      | inl inside ↦
          let (l, lh) = level_at e (opposite s) ptr v.linked.bids_length v.linked.asks_length h in
          let (r, held₁, done, v₁, t₁, u₁, g₁) =
            match_level_lem e₀ b₀ held₀ v₀ (length e.pool.blocks + 1) e p id s price held
              (opposite s) ptr l.head fills v h (omega (arith, v.owns.count))
              (head-Located e id held (opposite s) ptr l l.head v.linked h lh refl) t
              (Reached-Passed s ptr fills u) (head-NextMaker e s ptr fills l.head u)
              (ap (first_node (opposite s) ptr) lh) g in
          let n =
            Enough-next s fuel ptr price (not (v.taker.qty_remaining == 0)) k inside h lo hi in
          let (r', held', done', v', t', g') =
            scan_levels_lem e₀ b₀ held₀ v₀ fuel r.1 p id s price held₁ (advance s ptr) r.0 v₁ lo hi
              n.1 n.0 t₁
              (Passed-advance s ptr price (not (v.taker.qty_remaining == 0)) r.0 inside lo h u₁)
              g₁ in
          (
            r',
            held',
            scan_levels-in fuel s price p ptr fills e v.taker l r v.there inside lh done ∙ done',
            v',
            t',
            g',
          )
      | inr outside ↦ (
        (fills, e),
        held,
        scan_levels-out fuel s price p ptr fills e v.taker v.there outside,
        v,
        t,
        g,
      )
    ]
