-- ===== src/Feed/Book.antt =====
-- feed/book.h and feed/book.cpp: the client's book, an array of quantities by price on each side,
-- with the best bid of each side cached.
pub mod Levels
pub mod Replay
use kalshi_cpp.Prelude.{
  ℕ, zero, suc, ◌<◌, Bool, true, false, ◌&&◌, ◌||◌, Option, none, some, List, ltb, ◌==◌,
  if◌then◌else◌, get_or, set, replicate, ℤ, pos, negsuc, ◌+ℤ◌, ltb_ℤ,
}
use kalshi_cpp.Feed.Parser.{Side, yes_side, no_side, OrderbookDelta, int32_min, int32_max}

pub record Book : Type 0 where
  pub yes_levels : List ℤ
  pub no_levels : List ℤ
  pub best_yes_bid : ℕ
  pub best_no_bid : ℕ

-- `Book book;`, by the default member initialisers.
unfoldable pub empty_book : Book
empty_book = record {
  yes_levels = replicate 100 (pos 0);
  no_levels = replicate 100 (pos 0);
  best_yes_bid = 0;
  best_no_bid = 0;
}

abbrev pub level : List ℤ → ℕ → ℤ
level levels p = get_or levels p (pos 0)

abbrev pub is_zero : ℤ → Bool
is_zero (pos zero) = true
is_zero (pos (suc n)) = false
is_zero (negsuc n) = false

abbrev pub is_positive : ℤ → Bool
is_positive (pos zero) = false
is_positive (pos (suc n)) = true
is_positive (negsuc n) = false

-- `while (best != 0 && levels[best] == 0) best--;`
unfoldable pub rescan : List ℤ → ℕ → ℕ
rescan levels zero = zero
rescan levels (suc b) = if is_zero (level levels (suc b)) then rescan levels b else suc b

-- int32_t addition; `none` where it overflows, which C++ leaves undefined.
unfoldable pub add_int32 : ℤ → ℤ → Option ℤ
add_int32 a b = let c = a +ℤ b in if ltb_ℤ c int32_min || ltb_ℤ int32_max c then none else some c

-- The two tests of `Book::apply`, after the write.
unfoldable pub new_best : List ℤ → ℕ → ℕ → ℕ
new_best levels best price =
    let q = level levels price in
    if is_positive q && ltb best price
    then price
    else if price == best && is_zero q
    then rescan levels best
    else best

-- `Book::apply` on the side that it chose; `none` is undefined behaviour, an index past the array
-- or an overflow.
unfoldable pub apply_side : List ℤ → ℕ → ℕ → ℤ → Option (List ℤ × ℕ)
apply_side levels best price delta =
    if ltb price 100
    then elim (add_int32 (level levels price) delta) [
      | none ↦ none
      | some q ↦ let levels' = set levels price q in some (levels', new_best levels' best price)
    ]
    else none

with_yes : Book → List ℤ × ℕ → Book
with_yes b (levels, best) = record b { yes_levels = levels; best_yes_bid = best }

with_no : Book → List ℤ × ℕ → Book
with_no b (levels, best) = record b { no_levels = levels; best_no_bid = best }

abbrev pub map_option : {A B : Type 0} → (A → B) → Option A → Option B
map_option f none = none
map_option f (some a) = some (f a)

apply_at : Side → OrderbookDelta → Book → Option Book
unfolding with_yes with_no
apply_at yes_side d b =
    map_option (with_yes b) (apply_side b.yes_levels b.best_yes_bid d.price d.delta)
apply_at no_side d b = map_option (with_no b) (apply_side b.no_levels b.best_no_bid d.price d.delta)

unfoldable pub apply : OrderbookDelta → Book → Option Book
unfolding apply_at
apply d b = apply_at d.side d b

-- `Book::qty_at`
unfoldable pub qty_at : Book → Side → ℕ → ℤ
qty_at b yes_side p = level b.yes_levels p
qty_at b no_side p = level b.no_levels p

-- `best_yes_bid()` and `best_no_bid()`
unfoldable pub best_bid : Book → Side → ℕ
best_bid b yes_side = b.best_yes_bid
best_bid b no_side = b.best_no_bid
