-- ===== src/Feed/Book/Replay.antt =====
-- The book after a stream of deltas, against a table of quantities by side and price.
use kalshi_cpp.Prelude.{
  ℕ, ◌≤◌, ◌<◌, ◌≡◌, refl, sym, ◌∙◌, ◌≢◌, inl, inr, true, false, Option, none, some, List, [], ◌∷◌,
  arith, set, length, replicate, get_or-replicate, get_or-set_self, get_or-set_ne, ℤ, pos, ◌+ℤ◌,
  ◌≤ℤ◌, ◌<ℤ◌, ◌==◌, ◌&&◌, Bool, if◌then◌else◌, Bool-cases, ==→eq, ==→ne,
}
use kalshi_cpp.Feed.Parser.{Side, yes_side, no_side, OrderbookDelta, int32_min}
use kalshi_cpp.Feed.Book.{Book, empty_book, level, apply_at, apply, qty_at, best_bid, new_best}
use kalshi_cpp.Feed.Book.Levels.{IsSide, InRange, apply_side_lem, apply_side_negative}

pub record IsValid (b : Book) : Type 0 where
  pub yes_ok : IsSide b.yes_levels b.best_yes_bid
  pub no_ok : IsSide b.no_levels b.best_no_bid

-- The deltas of a feed in turn.
pub replay : List OrderbookDelta → Book → Option Book
replay [] b = some b
replay (d ∷ ds) b = elim (apply d b) [ none ↦ none | some b' ↦ replay ds b' ]

-- The specification: a table from side and price to quantity, to which a delta adds.
abbrev pub Table : Type 0
Table = Side → ℕ → ℤ

abbrev pub same_side : Side → Side → Bool
same_side yes_side yes_side = true
same_side yes_side no_side = false
same_side no_side yes_side = false
same_side no_side no_side = true

abbrev pub add_delta : OrderbookDelta → Table → Table
add_delta d t s p = if same_side s d.side && p == d.price then t s p +ℤ d.delta else t s p

-- A feed that keeps each quantity within 0 and the largest int32, at prices 1 to 99.
abbrev pub IsFeed : Table → List OrderbookDelta → Type 0
IsFeed t [] = Unit {0}
IsFeed t (d ∷ ds) =
    (1 ≤ d.price)
    × (d.price ≤ 99)
    × InRange (t d.side d.price +ℤ d.delta)
    × IsFeed (add_delta d t) ds

abbrev pub total : List OrderbookDelta → Table → Table
total [] t = t
total (d ∷ ds) t = total ds (add_delta d t)

abbrev pub Shows : Book → Table → Type 0
Shows b t = (s : Side) (p : ℕ) → qty_at b s p ≡ t s p

set-add :
    (levels : List ℤ) (price : ℕ) (delta : ℤ) (p : ℕ)
    → price < length levels
    → level (set levels price (level levels price +ℤ delta)) p
      ≡ (if p == price then level levels p +ℤ delta else level levels p)
set-add levels price delta p h = elim (Bool-cases (p == price)) [
  | inl e ↦ rw (e, ==→eq p price e) (get_or-set_self levels price _ (pos 0) h)
  | inr n ↦ rw n (get_or-set_ne levels price p _ (pos 0) (λ e. ==→ne p price n (sym e)))
]

-- One delta in range, on each side.
apply_at_lem :
    (s : Side) (d : OrderbookDelta) (b : Book)
    → IsValid b
    → 1 ≤ d.price
    → d.price ≤ 99
    → InRange (qty_at b s d.price +ℤ d.delta)
    → (b' : Book) × (apply_at s d b ≡ some b')
      × IsValid b'
      × ((s' : Side) (p : ℕ)
          → qty_at b' s' p
            ≡ (if same_side s' s && p == d.price then qty_at b s' p +ℤ d.delta else qty_at b s' p))
unfolding apply_at qty_at
apply_at_lem yes_side d b v low high fits =
    let levels = b.yes_levels in
    let (run, side) = apply_side_lem levels b.best_yes_bid d.price d.delta v.yes_ok low high fits in
    let levels' = set levels d.price (level levels d.price +ℤ d.delta) in
    let changed = set-add levels d.price d.delta in
    (
      record b { yes_levels = levels'; best_yes_bid = new_best levels' b.best_yes_bid d.price },
      rw run refl,
      record { yes_ok = side; no_ok = v.no_ok },
      elim [ yes_side ↦ λ p. changed p (omega (arith, v.yes_ok.width)) | no_side ↦ λ p. refl ],
    )
apply_at_lem no_side d b v low high fits =
    let levels = b.no_levels in
    let (run, side) = apply_side_lem levels b.best_no_bid d.price d.delta v.no_ok low high fits in
    let levels' = set levels d.price (level levels d.price +ℤ d.delta) in
    let changed = set-add levels d.price d.delta in
    (
      record b { no_levels = levels'; best_no_bid = new_best levels' b.best_no_bid d.price },
      rw run refl,
      record { yes_ok = v.yes_ok; no_ok = side },
      elim [ no_side ↦ λ p. changed p (omega (arith, v.no_ok.width)) | yes_side ↦ λ p. refl ],
    )

replay_from :
    (ds : List OrderbookDelta) (b : Book) (t : Table)
    → IsValid b
    → Shows b t
    → IsFeed t ds
    → (b' : Book) × (replay ds b ≡ some b') × IsValid b' × Shows b' (total ds t)
unfolding replay apply
replay_from [] b t v shows feed = (b, refl, v, shows)
replay_from (d ∷ ds) b t v shows feed =
    let fits : InRange (qty_at b d.side d.price +ℤ d.delta) = rw (shows d.side d.price) feed.2 in
    let (b1, run, v1, changed) = apply_at_lem d.side d b v feed.0 feed.1 fits in
    let shows1 : Shows b1 (add_delta d t) = λ s p. changed s p ∙ rw (shows s p) refl in
    let (b', rest, v', shows') = replay_from ds b1 (add_delta d t) v1 shows1 feed.3 in
    (b', rw (run, replay) rest, v', shows')

pub empty-IsSide : IsSide (replicate 100 (pos 0)) 0
empty-IsSide = record {
  width = refl;
  in_range = omega arith;
  natural = λ p. rw (get_or-replicate 100 p (pos 0)) (omega arith);
  top = record { live = λ h. absurd (h refl); above = λ p h. get_or-replicate 100 p (pos 0) };
}

-- The highest price at which the table has a quantity, or 0.
pub record IsBest (t : Table) (s : Side) (best : ℕ) : Type 0 where
  pub live : best ≢ 0 → pos 0 <ℤ t s best
  pub above : (p : ℕ) → best < p → t s p ≡ pos 0

abbrev pub no_quantity : Table
no_quantity s p = pos 0

best_bid-IsBest :
    (b : Book) (t : Table) (s : Side) → IsValid b → Shows b t → IsBest t s (best_bid b s)
unfolding best_bid qty_at
best_bid-IsBest b t yes_side v shows = record {
  live = λ h. rw (← shows yes_side b.best_yes_bid) (v.yes_ok.top.live h);
  above = λ p h. rw (← shows yes_side p) (v.yes_ok.top.above p h);
}
best_bid-IsBest b t no_side v shows = record {
  live = λ h. rw (← shows no_side b.best_no_bid) (v.no_ok.top.live h);
  above = λ p h. rw (← shows no_side p) (v.no_ok.top.above p h);
}

-- After a feed that keeps every quantity between 0 and the largest int32, at prices 1 to 99, the
-- book is defined, holds at each side and price the sum of the deltas there, and its best bid on
-- each side is the highest price with a quantity, or 0 where the side is empty.
pub replay_lem :
    (ds : List OrderbookDelta)
    → IsFeed no_quantity ds
    → (b : Book) × (replay ds empty_book ≡ some b)
      × ((s : Side) (p : ℕ) → qty_at b s p ≡ total ds no_quantity s p)
      × ((s : Side) → IsBest (total ds no_quantity) s (best_bid b s))
unfolding empty_book
replay_lem ds feed =
    let (b, run, v, shows) =
      replay_from ds empty_book no_quantity (record { yes_ok = empty-IsSide; no_ok = empty-IsSide })
        empty_shows feed in
    (b, run, shows, λ s. best_bid-IsBest b (total ds no_quantity) s v shows)
  where
    empty_shows : Shows empty_book no_quantity
    empty_shows =
        unfold qty_at in
        elim [
          | yes_side ↦ λ p. get_or-replicate 100 p (pos 0)
          | no_side ↦ λ p. get_or-replicate 100 p (pos 0)
        ]

-- A delta that takes the quantity at a cached best bid below zero leaves it the best bid: the book
-- then reports a best price at which it holds less than nothing.
pub best_bid_stale :
    (b : Book) (d : OrderbookDelta) (s : Side)
    → d.side ≡ s
    → d.price ≡ best_bid b s
    → IsValid b
    → qty_at b s d.price +ℤ d.delta <ℤ pos 0
    → int32_min ≤ℤ qty_at b s d.price +ℤ d.delta
    → (b' : Book) × (apply d b ≡ some b')
      × (best_bid b' s ≡ d.price)
      × (qty_at b' s d.price <ℤ pos 0)
unfolding apply apply_at best_bid qty_at
best_bid_stale b d yes_side side same v negative fits =
    let levels = b.yes_levels in
    let (run, below) =
      apply_side_negative levels b.best_yes_bid d.price d.delta v.yes_ok.width
        (omega (arith, v.yes_ok.in_range)) negative fits in
    (
      record b { yes_levels = set levels d.price (level levels d.price +ℤ d.delta) },
      rw (side, apply_at, run) refl,
      sym same,
      below,
    )
best_bid_stale b d no_side side same v negative fits =
    let levels = b.no_levels in
    let (run, below) =
      apply_side_negative levels b.best_no_bid d.price d.delta v.no_ok.width
        (omega (arith, v.no_ok.in_range)) negative fits in
    (
      record b { no_levels = set levels d.price (level levels d.price +ℤ d.delta) },
      rw (side, apply_at, run) refl,
      sym same,
      below,
    )
