-- ===== src/Sim/MatchingEngine/Queues/Turns.antt =====
-- sim/domain/matching_engine.cpp: the trades at one price, in the order in which the makers came.
use kalshi_cpp.Prelude.{
  ℕ, ◌≤◌, ◌<◌, ◌≡◌, List, [], ◌∷◌, ◌++◌, arith, Option, none, some, Bool, true, ◌&&◌,
}
use kalshi_cpp.Sim.MatchingEngine.State.{
  Side, yes_side, no_side, Fill, Order, MatchingEngine, get_order,
}
use kalshi_cpp.Sim.MatchingEngine.Match.{in_limit, advance}

-- The makers of the later trades at the price of `f` have larger numbers.
abbrev pub Ahead : Fill → List Fill → Type 0
Ahead f [] = Unit {0}
Ahead f (g ∷ fs) = (f.price ≡ g.price → f.maker_order_id < g.maker_order_id) × Ahead f fs

-- Of two trades at one price, the first is with the order of the smaller number.
abbrev pub InTurn : List Fill → Type 0
InTurn [] = Unit {0}
InTurn (f ∷ fs) = Ahead f fs × InTurn fs

-- The trades at price `p` so far are with orders of numbers below `id`.
abbrev pub Before : ℕ → ℕ → List Fill → Type 0
Before p id [] = Unit {0}
Before p id (f ∷ fs) = (f.price ≡ p → f.maker_order_id < id) × Before p id fs

-- The trades so far are at prices that the scan has come to, or has passed.
abbrev pub Reached : Side → ℕ → List Fill → Type 0
Reached s p [] = Unit {0}
Reached yes_side p (f ∷ fs) = (f.price ≤ p) × Reached yes_side p fs
Reached no_side p (f ∷ fs) = (p ≤ f.price) × Reached no_side p fs

abbrev pub Passed : Side → ℕ → List Fill → Type 0
Passed s p [] = Unit {0}
Passed yes_side p (f ∷ fs) = (f.price < p) × Passed yes_side p fs
Passed no_side p (f ∷ fs) = (p < f.price) × Passed no_side p fs

Ahead-snoc :
    (f g : Fill) (fs : List Fill)
    → Ahead f fs
    → (f.price ≡ g.price → f.maker_order_id < g.maker_order_id)
    → Ahead f (fs ++ g ∷ [])
Ahead-snoc f g [] a h = (h, tt)
Ahead-snoc f g (x ∷ fs) a h = (a.0, Ahead-snoc f g fs a.1 h)

pub InTurn-snoc :
    (g : Fill) (fs : List Fill)
    → InTurn fs
    → Before g.price g.maker_order_id fs
    → InTurn (fs ++ g ∷ [])
InTurn-snoc g [] t b = (tt, tt)
InTurn-snoc g (f ∷ fs) t b = (Ahead-snoc f g fs t.0 b.0, InTurn-snoc g fs t.1 b.1)

pub Before-snoc :
    (p id id' : ℕ) (g : Fill) (fs : List Fill)
    → Before p id fs
    → g.maker_order_id ≡ id
    → id < id'
    → Before p id' (fs ++ g ∷ [])
Before-snoc p id id' g [] b m l = ((λ e. omega (arith, m, l)), tt)
Before-snoc p id id' g (f ∷ fs) b m l =
    ((λ e. let h = b.0 e in omega (arith, h, l)), Before-snoc p id id' g fs b.1 m l)

pub Reached-snoc :
    (s : Side) (g : Fill) (fs : List Fill) → Reached s g.price fs → Reached s g.price (fs ++ g ∷ [])
Reached-snoc yes_side g [] r = (omega arith, tt)
Reached-snoc no_side g [] r = (omega arith, tt)
Reached-snoc yes_side g (f ∷ fs) r = (r.0, Reached-snoc yes_side g fs r.1)
Reached-snoc no_side g (f ∷ fs) r = (r.0, Reached-snoc no_side g fs r.1)

-- At a new price no trade has been made yet.
pub Before-Passed : (s : Side) (p id : ℕ) (fs : List Fill) → Passed s p fs → Before p id fs
Before-Passed s p id [] h = tt
Before-Passed yes_side p id (f ∷ fs) h =
    ((λ e. absurd (omega (arith, e, h.0))), Before-Passed yes_side p id fs h.1)
Before-Passed no_side p id (f ∷ fs) h =
    ((λ e. absurd (omega (arith, e, h.0))), Before-Passed no_side p id fs h.1)

pub Reached-Passed : (s : Side) (p : ℕ) (fs : List Fill) → Passed s p fs → Reached s p fs
Reached-Passed s p [] h = tt
Reached-Passed yes_side p (f ∷ fs) h = (omega (arith, h.0), Reached-Passed yes_side p fs h.1)
Reached-Passed no_side p (f ∷ fs) h = (omega (arith, h.0), Reached-Passed no_side p fs h.1)

pub Passed-advance :
    (s : Side) (p price : ℕ) (b : Bool) (fs : List Fill)
    → (in_limit s p price && b) ≡ true
    → 0 < price
    → p < 101
    → Reached s p fs
    → Passed s (advance s p) fs
Passed-advance s p price b [] c lo hi h = tt
Passed-advance yes_side p price b (f ∷ fs) c lo hi h =
    (omega (arith, h.0, hi), Passed-advance yes_side p price b fs c lo hi h.1)
Passed-advance no_side p price b (f ∷ fs) c lo hi h =
    let real : 0 < p = ground (arith, c, lo) in
    (omega (arith, h.0, real, hi), Passed-advance no_side p price b fs c lo hi h.1)

-- The maker whose turn it is comes after those of the trades at its price.
abbrev pub NextMaker : MatchingEngine → ℕ → List Fill → Option ℕ → Type 0
NextMaker e p fs none = Unit {0}
NextMaker e p fs (some c) = (o : Order) → get_order c e ≡ some o → Before p o.order_id fs
