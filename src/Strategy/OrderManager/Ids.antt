-- ===== src/Strategy/OrderManager/Ids.antt =====
-- Which actions a round asks for, in which order, and with which client ids.
use kalshi_cpp.Prelude.{
  ℕ, ◌+◌, ◌≤◌, ◌<◌, ◌^◌, ◌≡◌, ◌≢◌, Bool, true, not, ◌&&◌, arith, List, [], ◌∷◌, ◌++◌, ◌==◌,
  if◌then◌else◌,
}
use kalshi_cpp.Feed.Parser.{Side, yes_side, no_side}
use kalshi_cpp.Strategy.Signal.{TargetQuote}
use kalshi_cpp.Strategy.OrderManager.{
  Action, place, cancel, OrderState, OrderManager, slot, reconcile, send_all, emitted,
}
use kalshi_cpp.Strategy.OrderManager.Converge.{target_price, after}

-- An open order that is not at the target is cancelled.
abbrev pub cancels : Side → OrderState → TargetQuote → List Action
cancels s cur t =
    if cur.is_open && not (t.active && cur.price == target_price s t)
    then record { kind = cancel; side = s; price = 0; qty = 0; client_id = cur.client_id } ∷ []
    else []

abbrev pub wants_place : Side → OrderState → TargetQuote → Bool
wants_place s cur t = t.active && not (cur.is_open && cur.price == target_price s t)

abbrev pub places : Side → OrderState → TargetQuote → ℕ → List Action
places s cur t id =
    if wants_place s cur t
    then record { kind = place; side = s; price = target_price s t; qty = t.qty; client_id = id }
      ∷ []
    else []

-- The round in the order of the source: each side's cancel before its place, yes before no.
abbrev pub plan : OrderManager → TargetQuote → List Action
plan om t =
    let yes_order = om.yes_open in
    let no_order = om.no_open in
    let id = om.next_client_id in
    let id' = if wants_place yes_side yes_order t then id + 1 else id in
    cancels yes_side yes_order t
    ++ places yes_side yes_order t id
    ++ (cancels no_side no_order t ++ places no_side no_order t id')

-- A round asks for exactly this: on each side, yes first, a cancel of the open order if it is not at
-- the target, then a place of the target if no order stands there, with the next client id; these
-- are at most four actions, so the array holds them. (Client ids stay below 2 ^ 64 - 2.)
pub emitted-plan :
    (om : OrderManager) (t : TargetQuote)
    → om.next_client_id + 2 < 2 ^ 64
    → (emitted (reconcile om t).0 ≡ plan om t) × ((reconcile om t).0.cnt ≤ 4)
unfolding reconcile
emitted-plan om t h = (ground arith, ground arith)

-- The client ids of the open orders were handed out before, and differ.
pub record HasIds (om : OrderManager) : Type 0 where
  pub yes_old : om.yes_open.is_open ≡ true → om.yes_open.client_id < om.next_client_id
  pub no_old : om.no_open.is_open ≡ true → om.no_open.client_id < om.next_client_id
  pub differ :
      om.yes_open.is_open ≡ true
      → om.no_open.is_open ≡ true
      → om.yes_open.client_id ≢ om.no_open.client_id

-- A round, sent, keeps the client ids of the open orders distinct and below the next one to hand
-- out, which never goes down; the orders that it places get ids that no earlier order had. (Client
-- ids stay below 2 ^ 64 - 2.)
pub after-HasIds :
    (om : OrderManager) (t : TargetQuote)
    → HasIds om
    → om.next_client_id + 2 < 2 ^ 64
    → HasIds (after om t)
      × (om.next_client_id ≤ (after om t).next_client_id)
      × ((s : Side)
          → wants_place s (slot s om) t ≡ true
          → om.next_client_id ≤ (slot s (after om t)).client_id)
unfolding reconcile send_all
after-HasIds om t v h = (
  record { yes_old = ground arith; no_old = ground arith; differ = ground arith },
  ground arith,
  elim [ yes_side ↦ ground arith | no_side ↦ ground arith ],
)
