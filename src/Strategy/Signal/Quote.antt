-- ===== src/Strategy/Signal/Quote.antt =====
-- When the signal quotes, and that its quotes can be placed and cost less than they pay.
use kalshi_cpp.Prelude.{◌+◌, ◌≤◌, ◌<◌, ◌≡◌, ◌≢◌, ◌↔◌, true, false, arith}
use kalshi_cpp.Feed.Parser.{Side, yes_side, no_side}
use kalshi_cpp.Feed.Book.{Book, best_bid}
use kalshi_cpp.Feed.Book.Replay.{IsValid}
use kalshi_cpp.Strategy.Signal.{no_quote, default_qty, evaluate}

best_bid-lt : (b : Book) (s : Side) → IsValid b → best_bid b s < 100
unfolding best_bid
best_bid-lt b yes_side v = v.yes_ok.in_range
best_bid-lt b no_side v = v.no_ok.in_range

-- On a valid book the signal quotes exactly when both sides have a bid and the bids leave a spread
-- of 3 or more; it then bids one tick above each best bid, for 10 contracts, at two prices from 1
-- to 99 that together stay below the 100 that a pair of contracts pays. Otherwise it returns the
-- empty quote.
pub evaluate_lem :
    (b : Book)
    → IsValid b
    → let y = best_bid b yes_side in
      let n = best_bid b no_side in
      let q = evaluate b in
      ((q.active ≡ true) ↔ ((y ≢ 0) × (n ≢ 0) × (y + n ≤ 97)))
      × (q.active ≡ true
          → (q.yes_price ≡ y + 1)
            × (q.no_price ≡ n + 1)
            × (q.qty ≡ default_qty)
            × (1 ≤ q.yes_price)
            × (q.yes_price ≤ 99)
            × (1 ≤ q.no_price)
            × (q.no_price ≤ 99)
            × (q.yes_price + q.no_price < 100))
      × (q.active ≡ false → q ≡ no_quote)
unfolding evaluate
evaluate_lem b v =
    let ly = best_bid-lt b yes_side v in
    let ln = best_bid-lt b no_side v in
    ((λ h. ground arith, λ h. ground arith), λ h. ground arith, λ h. ground arith)
