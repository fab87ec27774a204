-- ===== src/Sim/MatchingEngine/Cancel.antt =====
-- sim/domain/matching_engine.cpp: what `cancel` answers and leaves, on every branch.
use kalshi_cpp.Prelude.{
  ℕ, ◌≡◌, ◌⊎◌, inl, inr, refl, subst, Bool, true, false, Option, none, some, arith, ◌==◌, not,
}
use kalshi_cpp.Prelude.Options.{bind-some}
use kalshi_cpp.Core.FlatHashMap.Lookup.{lookup}
use kalshi_cpp.Sim.MatchingEngine.State.{
  Order, MatchingEngine, PriceLevel, orders_capacity, get_order, get_level, set_level, settle_bests,
  sub_u32,
}
use kalshi_cpp.Sim.MatchingEngine.Match.{unlink_prev, unlink_next, release}
use kalshi_cpp.Sim.MatchingEngine.Calls.{cancel, cancel_found, cancel_at}
use kalshi_cpp.Sim.MatchingEngine.Priority.{if-some}
use kalshi_cpp.Sim.MatchingEngine.Outcome.{Settled, settle_bests-Settled}

-- The order that the index leads to is there, and the client's own.
pub record OwnOrder (order_id client_id : ℕ) (e : MatchingEngine) : Type 0 where
  pub block : ℕ
  pub order : Order
  pub indexed : lookup orders_capacity order_id e.orders ≡ some block
  pub there : get_order block e ≡ some order
  pub own : order.client_id ≡ client_id

-- Refused and unchanged, or done for an own order.
abbrev pub Cancelled : ℕ → ℕ → MatchingEngine → Bool × MatchingEngine → Type 0
Cancelled order_id client_id e r =
    ((r.0 ≡ false) × (r.1 ≡ e)) ⊎ ((r.0 ≡ true) × OwnOrder order_id client_id e × Settled r.1)

cancel_at-Cancelled :
    (order_id client_id cur : ℕ) (e : MatchingEngine) (r : Bool × MatchingEngine)
    → lookup orders_capacity order_id e.orders ≡ some cur
    → cancel_at order_id client_id cur e ≡ some r
    → Cancelled order_id client_id e r
unfolding cancel_at
cancel_at-Cancelled order_id client_id cur e r found h =
    let a = bind-some (get_order cur e) _ r h in
    let o : Order = a.0 in
    elim (if-some (not (o.client_id == client_id)) (some (false, e)) _ (some r) a.2) [
      | inl other ↦ inl (ground (arith, other.1), ground (arith, other.1))
      | inr own ↦
          let b =
            bind-some (unlink_next o.side o.price o.prev_in_level o.next_in_level e) _ r own.1 in
          let c =
            bind-some (unlink_prev o.side o.price o.prev_in_level o.next_in_level b.0) _ r b.2 in
          let level = bind-some (get_level o.side o.price c.0) _ r c.2 in
          let left : PriceLevel = record level.0 {
            total_qty = sub_u32 level.0.total_qty o.qty_remaining;
          } in
          let d =
            bind-some (release order_id cur (set_level o.side o.price left c.0)) _ r level.2 in
          let f = bind-some (settle_bests d.0) _ r d.2 in
          let same : f.0 ≡ r.1 = ground (arith, f.2) in
          inr (
            ground (arith, f.2),
            record {
              block = cur;
              order = o;
              indexed = found;
              there = a.1;
              own = ground (arith, own.0);
            },
            subst Settled same (settle_bests-Settled d.0 f.0 f.1),
          )
    ]

cancel_found-Cancelled :
    (order_id client_id : ℕ) (o : Option ℕ) (e : MatchingEngine) (r : Bool × MatchingEngine)
    → lookup orders_capacity order_id e.orders ≡ o
    → cancel_found order_id client_id o e ≡ some r
    → Cancelled order_id client_id e r
unfolding cancel_found
cancel_found-Cancelled order_id client_id none e r found h =
    inl (ground (arith, h), ground (arith, h))
cancel_found-Cancelled order_id client_id (some cur) e r found h =
    cancel_at-Cancelled order_id client_id cur e r found h

-- When cancel is defined, it answers false and changes nothing, or it answers true: then the index
-- leads from the number to an order of the same client, and afterwards the best bid is 0 or the
-- price of a bid level with a quantity, and the best ask 100 or that of such an ask level.
pub cancel-Cancelled :
    (order_id client_id : ℕ) (e : MatchingEngine) (r : Bool × MatchingEngine)
    → cancel order_id client_id e ≡ some r
    → Cancelled order_id client_id e r
unfolding cancel
cancel-Cancelled order_id client_id e r h =
    cancel_found-Cancelled order_id client_id (lookup orders_capacity order_id e.orders) e r refl h
