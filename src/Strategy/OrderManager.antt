-- ===== src/Strategy/OrderManager.antt =====
-- strategy/order_manager.h and strategy/order_manager.cpp: the actions that take the open orders
-- to a target quote.
pub mod Converge
pub mod Ids
use kalshi_cpp.Prelude.{
  ℕ, suc, ◌+◌, ◌%◌, ◌^◌, Bool, true, false, not, ◌&&◌, List, [], ◌∷◌, ◌==◌, if◌then◌else◌, set,
  replicate, take,
}
use kalshi_cpp.Feed.Parser.{Side, yes_side, no_side}
use kalshi_cpp.Strategy.Signal.{TargetQuote}

pub data ActionKind : Type 0 where
  place cancel : ActionKind

pub record Action : Type 0 where
  pub kind : ActionKind
  pub side : Side
  pub price : ℕ
  pub qty : ℕ
  pub client_id : ℕ

-- `actions` is an array of four.
pub record ActionBundle : Type 0 where
  pub actions : List Action
  pub cnt : ℕ

pub record OrderState : Type 0 where
  pub is_open : Bool
  pub price : ℕ
  pub qty : ℕ
  pub client_id : ℕ

pub record OrderManager : Type 0 where
  pub yes_open : OrderState
  pub no_open : OrderState
  pub next_client_id : ℕ

-- `OrderState{}`, `OrderManager om;` and `ActionBundle bundle{};`
abbrev pub closed : OrderState
closed = record { is_open = false; price = 0; qty = 0; client_id = 0 }

abbrev pub init : OrderManager
init = record { yes_open = closed; no_open = closed; next_client_id = 1 }

abbrev pub empty_bundle : ActionBundle
empty_bundle = record {
  actions =
      replicate 4 (record { kind = place; side = yes_side; price = 0; qty = 0; client_id = 0 });
  cnt = 0;
}

-- `out.actions[out.cnt++] = a`
emit : Action → ActionBundle → ActionBundle
emit a out = record { actions = set out.actions out.cnt a; cnt = (out.cnt + 1) % 2 ^ 8 }

-- What `reconcile_helper` writes: the bundle, and `next_client_id_`.
unfoldable pub reconcile_helper :
    OrderState → Side → Bool → ℕ → ℕ → ActionBundle → ℕ → ActionBundle × ℕ
unfolding emit
reconcile_helper cur s want want_price want_qty out next =
    let next' = (next + 1) % 2 ^ 64 in
    let placing : Action = record {
      kind = place;
      side = s;
      price = want_price;
      qty = want_qty;
      client_id = next;
    } in
    let cancelling : Action = record {
      kind = cancel;
      side = s;
      price = 0;
      qty = 0;
      client_id = cur.client_id;
    } in
    if not cur.is_open && want
    then (emit placing out, next')
    else if cur.is_open && not want
    then (emit cancelling out, next)
    else if cur.is_open && want
    then (if not (want_price == cur.price)
        then (emit placing (emit cancelling out), next')
        else (out, next))
    else (out, next)

unfoldable pub reconcile : OrderManager → TargetQuote → ActionBundle × OrderManager
unfolding reconcile_helper
reconcile om target =
    let (b1, n1) =
      reconcile_helper om.yes_open yes_side target.active target.yes_price target.qty empty_bundle
        om.next_client_id in
    let (b2, n2) =
      reconcile_helper om.no_open no_side target.active target.no_price target.qty b1 n1 in
    (b2, record om { next_client_id = n2 })

abbrev pub slot : Side → OrderManager → OrderState
slot yes_side om = om.yes_open
slot no_side om = om.no_open

abbrev pub set_slot : Side → OrderState → OrderManager → OrderManager
set_slot yes_side o om = record om { yes_open = o }
set_slot no_side o om = record om { no_open = o }

pub on_place_sent : Action → OrderManager → OrderManager
on_place_sent a =
    set_slot a.side
      (record { is_open = true; price = a.price; qty = a.qty; client_id = a.client_id })

pub on_cancel_sent : Action → OrderManager → OrderManager
on_cancel_sent a = set_slot a.side closed

-- A caller that sends the bundle's actions in order and reports each.
on_sent : Action → ActionKind → OrderManager → OrderManager
unfolding on_place_sent on_cancel_sent
on_sent a place = on_place_sent a
on_sent a cancel = on_cancel_sent a

pub send_all : List Action → OrderManager → OrderManager
unfolding on_sent
send_all [] om = om
send_all (a ∷ rest) om = send_all rest (on_sent a a.kind om)

abbrev pub emitted : ActionBundle → List Action
emitted b = take b.cnt b.actions
