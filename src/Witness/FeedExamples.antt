-- ===== src/Witness/FeedExamples.antt =====
-- The parser over a document with fixed fields, and the book.
use kalshi_cpp.Prelude.{
  ◌<◌, get_or-set_self, length-set, ℕ, ◌≡◌, ◌↔◌, refl, sym, ◌∙◌, true, false, Option, some, List,
  [], ◌∷◌, ◌++◌, arith, ℤ, pos, negsuc, ◌+ℤ◌, ◌<ℤ◌, Bytes, codes, replicate, set, get_or-set_ne,
  get_or-replicate, ℕ_discrete, ◌≢◌,
}
use Prim.Native.String.{String}
use text.Mathlib.Text.{◌==◌ as str_eq}
use kalshi_cpp.Feed.Parser.{
  Side, yes_side, no_side, OrderbookDelta, Simdjson, parse_orderbook_delta, read_side, copy_ticker,
}
use kalshi_cpp.Feed.Parser.Accepts.{Carries, parse_orderbook_delta_accepts}
use kalshi_cpp.Feed.Book.{Book, empty_book, level, qty_at, best_bid, apply}
use kalshi_cpp.Feed.Book.Levels.{IsSide}
use kalshi_cpp.Feed.Book.Replay.{
  replay, IsFeed, no_quantity, total, IsBest, replay_lem, best_bid_stale, empty-IsSide,
}

abbrev uint_field : Unit {0} → String → Option ℕ
uint_field _ key = elim (str_eq key "price") [ true ↦ some 60 | false ↦ some 7 ]

abbrev int_field : Unit {0} → String → Option ℤ
int_field _ key = elim (str_eq key "delta") [ true ↦ some (pos 5) | false ↦ some (pos 1700) ]

abbrev text_field : Unit {0} → String → Option Bytes
text_field _ key = elim (str_eq key "side") [
  | true ↦ some (codes "yes")
  | false ↦ some (codes "DEMO")
]

-- Every text is a document with the same fields.
abbrev fixed_json : Simdjson
fixed_json = record {
  Document = Unit {0};
  Object = Unit {0};
  iterate = λ s. some tt;
  get_uint64 = uint_field;
  get_object = λ d key. some tt;
  object_uint64 = uint_field;
  object_int64 = int_field;
  object_string = text_field;
}

abbrev blank : OrderbookDelta
blank = record {
  ticker = replicate 32 0;
  ts = pos 0;
  sid = 0;
  seq = 0;
  delta = pos 0;
  price = 0;
  side = no_side;
}

abbrev up : OrderbookDelta
up = record {
  ticker = codes "DEMO" ++ replicate 28 0;
  ts = pos 1700;
  sid = 7;
  seq = 7;
  delta = pos 5;
  price = 60;
  side = yes_side;
}

parse_run : parse_orderbook_delta fixed_json (codes "{}") blank ≡ (true, up)
unfolding parse_orderbook_delta read_side copy_ticker
parse_run = refl

parse_orderbook_delta_accepts_example :
    (parse_orderbook_delta fixed_json (codes "{}") blank ≡ (true, up))
    ↔ Carries fixed_json (codes "{}") blank up
parse_orderbook_delta_accepts_example =
    parse_orderbook_delta_accepts fixed_json (codes "{}") blank up

abbrev down : OrderbookDelta
down = record up { delta = negsuc 4 }

abbrev feed : List OrderbookDelta
feed = up ∷ record up { price = 40 } ∷ down ∷ []

feed-IsFeed : IsFeed no_quantity feed
unfolding ◌+ℤ◌
feed-IsFeed = omega arith

replay_lem_example :
    (b : Book) × (replay feed empty_book ≡ some b)
    × ((s : Side) (p : ℕ) → qty_at b s p ≡ total feed no_quantity s p)
    × ((s : Side) → IsBest (total feed no_quantity) s (best_bid b s))
replay_lem_example = replay_lem feed feed-IsFeed

-- 5 contracts at one price.
abbrev pub only : ℕ → List ℤ
only n = set (replicate 100 (pos 0)) n (pos 5)

only_at : (n p : ℕ) → p ≢ n → level (only n) p ≡ pos 0
only_at n p ne =
    get_or-set_ne (replicate 100 (pos 0)) n p (pos 5) (pos 0) (λ e. ne (sym e))
    ∙ get_or-replicate 100 p (pos 0)

pub only-IsSide : (n : ℕ) → n < 100 → IsSide (only n) n
only-IsSide n h = record {
  width = length-set (replicate 100 (pos 0)) n (pos 5);
  in_range = h;
  natural = λ p. elim (ℕ_discrete p n) [
    | yes e ↦ rw (e, full) (omega arith)
    | no ne ↦ rw (only_at n p ne) (omega arith)
  ];
  top = record { live = λ _. rw full (omega arith); above = λ p l. only_at n p (omega arith) };
}
  where
    full : level (only n) n ≡ pos 5
    full = get_or-set_self (replicate 100 (pos 0)) n (pos 5) (pos 0) h

abbrev thin_book : Book
thin_book = record {
  yes_levels = only 60;
  no_levels = replicate 100 (pos 0);
  best_yes_bid = 60;
  best_no_bid = 0;
}

best_bid_stale_example :
    (b : Book) × (apply (record up { delta = negsuc 8 }) thin_book ≡ some b)
    × (best_bid b yes_side ≡ 60)
    × (qty_at b yes_side 60 <ℤ pos 0)
unfolding ◌+ℤ◌ best_bid qty_at
best_bid_stale_example =
    best_bid_stale thin_book (record up { delta = negsuc 8 }) yes_side refl refl
      (record { yes_ok = only-IsSide 60 (omega arith); no_ok = empty-IsSide }) (omega arith)
      (omega arith)
