-- ===== src/Strategy/Signal.antt =====
-- strategy/signal.h and strategy/signal.cpp: one tick better than each best bid, where the spread
-- allows it.
pub mod Quote
use kalshi_cpp.Prelude.{
  ℕ, ◌+◌, ◌%◌, ◌^◌, Bool, true, false, ◌||◌, ◌==◌, if◌then◌else◌, ℤ, pos, sub_ℕ, ltb_ℤ,
}
use kalshi_cpp.Feed.Parser.{yes_side, no_side}
use kalshi_cpp.Feed.Book.{Book, best_bid}

pub record TargetQuote : Type 0 where
  pub active : Bool
  pub yes_price : ℕ
  pub no_price : ℕ
  pub qty : ℕ

-- `TargetQuote{}`
abbrev pub no_quote : TargetQuote
no_quote = record { active = false; yes_price = 0; no_price = 0; qty = 0 }

abbrev pub min_spread : ℕ
min_spread = 3

abbrev pub default_qty : ℕ
default_qty = 10

-- `int spread = 100 - y - n` may be negative.
unfoldable pub evaluate : Book → TargetQuote
evaluate book =
    let y = best_bid book yes_side in
    let n = best_bid book no_side in
    if y == 0 || n == 0
    then no_quote
    else if ltb_ℤ (sub_ℕ 100 (y + n)) (pos min_spread)
    then no_quote
    else record {
      active = true;
      yes_price = (y + 1) % 2 ^ 8;
      no_price = (n + 1) % 2 ^ 8;
      qty = default_qty;
    }
