-- ===== src/Witness/StrategyExamples.antt =====
-- The signal and the order manager.
use kalshi_cpp.Witness.FeedExamples.{only, only-IsSide}
use kalshi_cpp.Prelude.{◌+◌, ◌≤◌, ◌≢◌, ◌↔◌, ◌≡◌, true, arith}
use kalshi_cpp.Feed.Parser.{yes_side, no_side}
use kalshi_cpp.Feed.Book.{Book, best_bid}
use kalshi_cpp.Feed.Book.Replay.{IsValid}
use kalshi_cpp.Strategy.Signal.{TargetQuote, evaluate}
use kalshi_cpp.Strategy.Signal.Quote.{evaluate_lem}
use kalshi_cpp.Strategy.OrderManager.{init, reconcile, emitted, empty_bundle}
use kalshi_cpp.Strategy.OrderManager.Converge.{after, reconcile_converges}
use kalshi_cpp.Strategy.OrderManager.Ids.{plan, emitted-plan, HasIds, after-HasIds}

-- 60 bid on the yes side, 30 on the no side.
abbrev two_sided : Book
two_sided = record {
  yes_levels = only 60;
  no_levels = only 30;
  best_yes_bid = 60;
  best_no_bid = 30;
}

two_sided-IsValid : IsValid two_sided
two_sided-IsValid = record {
  yes_ok = only-IsSide 60 (omega arith);
  no_ok = only-IsSide 30 (omega arith);
}

evaluate_lem_example :
    ((evaluate two_sided).active ≡ true)
    ↔ ((best_bid two_sided yes_side ≢ 0) × (best_bid two_sided no_side ≢ 0) × (60 + 30 ≤ 97))
unfolding best_bid
evaluate_lem_example = (evaluate_lem two_sided two_sided-IsValid).0

abbrev target : TargetQuote
target = record { active = true; yes_price = 41; no_price = 31; qty = 10 }

reconcile_converges_example :
    reconcile (after init target) target ≡ (empty_bundle, after init target)
reconcile_converges_example = (reconcile_converges init target).1

emitted-plan_example : emitted (reconcile init target).0 ≡ plan init target
emitted-plan_example = (emitted-plan init target (omega arith)).0

init-HasIds : HasIds init
init-HasIds = record { yes_old = λ e. cc; no_old = λ e. cc; differ = λ e. cc }

after-HasIds_example : HasIds (after init target)
after-HasIds_example = (after-HasIds init target init-HasIds (omega arith)).0
