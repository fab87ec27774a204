-- ===== src/Sim/MatchingEngine/Queues/Linking.antt =====
-- sim/domain/matching_engine.cpp: the links of an order that joins the end of its queue.
use kalshi_cpp.Prelude.{ℕ, ◌≡◌, refl, sym, ap, ◌∙◌, true, Option, none, some, List}
use kalshi_cpp.Core.Pool.Ids.{mem}
use kalshi_cpp.Core.Pool.Ownership.{Owns}
use kalshi_cpp.Sim.MatchingEngine.State.{
  Side, Order, PriceLevel, MatchingEngine, get_level, set_level, get_order, set_order,
}
use kalshi_cpp.Sim.MatchingEngine.Calls.{link}
use kalshi_cpp.Sim.MatchingEngine.Queues.Ring.{Node, at_level, in_block, Led}
use kalshi_cpp.Sim.MatchingEngine.Queues.Nodes.{
  pointer, first_node, last_node, later_node, earlier_node, next_node, prev_node, Kept, Kept-trans,
  Located,
}
use kalshi_cpp.Sim.MatchingEngine.Queues.Writes.{write_order, level_read, write_level}
use kalshi_cpp.Sim.MatchingEngine.Queues.Unlinking.{Backward, Forward-Wrote, Backward-Wrote}

-- `resting_wall[price].tail = incoming`
pub tail_lem :
    (owned : List ℕ) (s : Side) (price p : ℕ) (l : PriceLevel) (e : MatchingEngine)
    → Owns e.pool owned
    → get_level s price e ≡ some l
    → Backward owned
        (at_level s price)
        (in_block p)
        e
        (set_level s price (record l { tail = some p }) e)
tail_lem owned s price p l e v h =
    let l' : PriceLevel = record l { tail = some p } in
    let read = level_read s price l l' e h in
    Backward-Wrote owned (at_level s price) (in_block p) e (set_level s price l' e)
      (write_level owned e s price l' v) (ap (last_node s price) read)
      (ap (first_node s price) read ∙ sym (ap (first_node s price) h))

-- The new order `p` behind the old end of the queue.
pub record Joined (owned : List ℕ) (p : ℕ) (end_node : Node) (e e' : MatchingEngine) : Type 0 where
  pub kept : Kept owned e e'
  pub next_led : Led (next_node e) (next_node e') end_node (in_block p)
  pub prev_led : Led (prev_node e) (prev_node e') (in_block p) end_node

link-rounds :
    (s : Side) (price p q : ℕ) (o z : Order) (e e₁ e₂ : MatchingEngine)
    → get_order p e ≡ some o
    → set_order p (record o { prev_in_level = some q }) e ≡ some e₁
    → get_order q e₁ ≡ some z
    → set_order q (record z { next_in_level = some p }) e₁ ≡ some e₂
    → link s price p (some q) e ≡ some e₂
unfolding link
link-rounds s price p q o z e e₁ e₂ h d₁ zt d₂ = rw (h, d₁, zt, d₂) refl

pub link_lem :
    (owned : List ℕ) (s : Side) (price p : ℕ) (old : Option ℕ) (o : Order) (e : MatchingEngine)
    → Owns e.pool owned
    → mem p owned ≡ true
    → get_order p e ≡ some o
    → prev_node e (in_block p) ≡ some (at_level s price)
    → Located owned e s price old
    → (e' : MatchingEngine) × (link s price p old e ≡ some e')
      × Joined owned p (pointer s price old) e e'
unfolding link
link_lem owned s price p none o e v m h alone w =
    let (l, at) = w in
    let l' : PriceLevel = record l { head = some p } in
    let read = level_read s price l l' e at in
    let f =
      Forward-Wrote owned (at_level s price) (in_block p) e (set_level s price l' e)
        (write_level owned e s price l' v) (ap (first_node s price) read)
        (ap (last_node s price) read ∙ sym (ap (last_node s price) at)) in
    (
      set_level s price l' e,
      rw at refl,
      record {
        kept = f.kept;
        next_led = f.next_led;
        prev_led = record { here = f.prev_same (in_block p) ∙ alone; away = λ x a. f.prev_same x };
      },
    )
link_lem owned s price p (some q) o e v m h alone w =
    let (mq, (y, there, side, at_price)) = w in
    let o' : Order = record o { prev_in_level = some q } in
    let (e₁, d₁, r₁, w₁) =
      write_order owned e p o o' v m h (record { order_id = refl; side = refl; price = refl }) in
    let b =
      Backward-Wrote owned (in_block p) (in_block q) e e₁ w₁ (ap earlier_node r₁)
        (ap later_node r₁ ∙ sym (ap later_node h)) in
    let (z, zt, zs) = b.kept.order_of q y there in
    let z' : Order = record z { next_in_level = some p } in
    let (e₂, d₂, r₂, w₂) =
      write_order owned e₁ q z z' b.kept.owns mq zt
        (record { order_id = refl; side = refl; price = refl }) in
    let f =
      Forward-Wrote owned (in_block q) (in_block p) e₁ e₂ w₂ (ap later_node r₂)
        (ap earlier_node r₂ ∙ sym (ap earlier_node zt)) in
    (
      e₂,
      link-rounds s price p q o z e e₁ e₂ h d₁ zt d₂,
      record {
        kept = Kept-trans owned e e₁ e₂ b.kept f.kept;
        next_led = record {
          here = f.next_led.here;
          away = λ x a. f.next_led.away x a ∙ b.next_same x;
        };
        prev_led = record {
          here = f.prev_same (in_block p) ∙ b.prev_led.here;
          away = λ x a. f.prev_same x ∙ b.prev_led.away x a;
        };
      },
    )
