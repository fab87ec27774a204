-- ===== src/Strategy/OrderManager/Converge.antt =====
-- Sending what `reconcile` asks for brings the open orders to the target, in one round.
use kalshi_cpp.Prelude.{ℕ, ◌≡◌, true, false, arith}
use kalshi_cpp.Feed.Parser.{Side, yes_side, no_side}
use kalshi_cpp.Strategy.Signal.{TargetQuote}
use kalshi_cpp.Strategy.OrderManager.{
  OrderManager, slot, reconcile, send_all, emitted, empty_bundle,
}

abbrev pub target_price : Side → TargetQuote → ℕ
target_price yes_side t = t.yes_price
target_price no_side t = t.no_price

abbrev pub after : OrderManager → TargetQuote → OrderManager
after om t = let (b, om') = reconcile om t in send_all (emitted b) om'

after_active :
    (om : OrderManager) (t : TargetQuote) (s : Side)
    → t.active ≡ true
    → ((slot s (after om t)).is_open ≡ true) × ((slot s (after om t)).price ≡ target_price s t)
unfolding reconcile send_all
after_active om t yes_side h = ground arith
after_active om t no_side h = ground arith

after_inactive :
    (om : OrderManager) (t : TargetQuote) (s : Side)
    → t.active ≡ false
    → (slot s (after om t)).is_open ≡ false
unfolding reconcile send_all
after_inactive om t yes_side h = ground arith
after_inactive om t no_side h = ground arith

settled :
    (om : OrderManager) (t : TargetQuote)
    → ((s : Side)
        → (t.active ≡ true → ((slot s om).is_open ≡ true) × ((slot s om).price ≡ target_price s t))
          × (t.active ≡ false → (slot s om).is_open ≡ false))
    → reconcile om t ≡ (empty_bundle, om)
unfolding reconcile
settled om t h = ground (arith, h yes_side, h no_side)

-- Once the actions of a round are sent, both sides are open at the target's prices if it is active
-- and closed if it is not; and a second round with this target asks for nothing and changes nothing.
pub reconcile_converges :
    (om : OrderManager) (t : TargetQuote)
    → ((s : Side)
        → (t.active ≡ true
            → ((slot s (after om t)).is_open ≡ true)
              × ((slot s (after om t)).price ≡ target_price s t))
          × (t.active ≡ false → (slot s (after om t)).is_open ≡ false))
      × (reconcile (after om t) t ≡ (empty_bundle, after om t))
reconcile_converges om t = (reached, settled (after om t) t reached)
  where
    reached :
        (s : Side)
        → (t.active ≡ true
            → ((slot s (after om t)).is_open ≡ true)
              × ((slot s (after om t)).price ≡ target_price s t))
          × (t.active ≡ false → (slot s (after om t)).is_open ≡ false)
    reached s = (after_active om t s, after_inactive om t s)
