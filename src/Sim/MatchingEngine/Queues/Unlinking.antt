-- ===== src/Sim/MatchingEngine/Queues/Unlinking.antt =====
-- sim/domain/matching_engine.cpp: the two writes that unlink an order.
use kalshi_cpp.Prelude.{ℕ, ◌≡◌, inl, inr, refl, sym, ap, ap₂, ◌∙◌, Option, none, some, List}
use kalshi_cpp.Core.Pool.Ownership.{Owns}
use kalshi_cpp.Sim.MatchingEngine.State.{Side, Order, PriceLevel, MatchingEngine, set_level}
use kalshi_cpp.Sim.MatchingEngine.Match.{unlink_prev, unlink_next}
use kalshi_cpp.Sim.MatchingEngine.Queues.Ring.{Node, at_level, in_block, Led, Node-cases}
use kalshi_cpp.Sim.MatchingEngine.Queues.Nodes.{
  pointer, first_node, last_node, later_node, earlier_node, next_node, prev_node, Kept, Wrote,
  Located,
}
use kalshi_cpp.Sim.MatchingEngine.Queues.Writes.{write_order, level_read, write_level}

-- A step that leads the link from `n` to `b`, forwards or backwards.
pub record Forward (owned : List ℕ) (n b : Node) (e e' : MatchingEngine) : Type 0 where
  pub kept : Kept owned e e'
  pub next_led : Led (next_node e) (next_node e') n b
  pub prev_same : (x : Node) → prev_node e' x ≡ prev_node e x

pub record Backward (owned : List ℕ) (n b : Node) (e e' : MatchingEngine) : Type 0 where
  pub kept : Kept owned e e'
  pub prev_led : Led (prev_node e) (prev_node e') n b
  pub next_same : (x : Node) → next_node e' x ≡ next_node e x

pub Forward-Wrote :
    (owned : List ℕ) (n b : Node) (e e' : MatchingEngine)
    → Wrote owned n e e'
    → next_node e' n ≡ some b
    → prev_node e' n ≡ prev_node e n
    → Forward owned n b e e'
Forward-Wrote owned n b e e' w f g = record {
  kept = w.kept;
  next_led = record { here = f; away = w.next_away };
  prev_same = λ x. elim (Node-cases x n) [
    | inl s ↦ ap (prev_node e') s ∙ (g ∙ sym (ap (prev_node e) s))
    | inr a ↦ w.prev_away x a
  ];
}

pub Backward-Wrote :
    (owned : List ℕ) (n b : Node) (e e' : MatchingEngine)
    → Wrote owned n e e'
    → prev_node e' n ≡ some b
    → next_node e' n ≡ next_node e n
    → Backward owned n b e e'
Backward-Wrote owned n b e e' w f g = record {
  kept = w.kept;
  prev_led = record { here = f; away = w.prev_away };
  next_same = λ x. elim (Node-cases x n) [
    | inl s ↦ ap (next_node e') s ∙ (g ∙ sym (ap (next_node e) s))
    | inr a ↦ w.next_away x a
  ];
}

pub unlink_prev_lem :
    (owned : List ℕ) (s : Side) (p : ℕ) (prev next : Option ℕ) (e : MatchingEngine)
    → Owns e.pool owned
    → Located owned e s p prev
    → (e' : MatchingEngine) × (unlink_prev s p prev next e ≡ some e')
      × Forward owned (pointer s p prev) (pointer s p next) e e'
unfolding unlink_prev
unlink_prev_lem owned s p (some q) next e v w =
    let (m, (o, h, side, price)) = w in
    let o' : Order = record o { next_in_level = next } in
    let (e', done, read, wrote) =
      write_order owned e q o o' v m h (record { order_id = refl; side = refl; price = refl }) in
    (
      e',
      rw h done,
      Forward-Wrote owned (in_block q) (pointer s p next) e e' wrote
          (ap later_node read ∙ ap₂ (λ t u. some (pointer t u next)) side price)
          (ap earlier_node read ∙ sym (ap earlier_node h)),
    )
unlink_prev_lem owned s p none next e v w =
    let (l, h) = w in
    let l' : PriceLevel = record l { head = next } in
    let read = level_read s p l l' e h in
    (
      set_level s p l' e,
      rw h refl,
      Forward-Wrote owned (at_level s p) (pointer s p next) e (set_level s p l' e)
          (write_level owned e s p l' v) (ap (first_node s p) read)
          (ap (last_node s p) read ∙ sym (ap (last_node s p) h)),
    )

pub unlink_next_lem :
    (owned : List ℕ) (s : Side) (p : ℕ) (prev next : Option ℕ) (e : MatchingEngine)
    → Owns e.pool owned
    → Located owned e s p next
    → (e' : MatchingEngine) × (unlink_next s p prev next e ≡ some e')
      × Backward owned (pointer s p next) (pointer s p prev) e e'
unfolding unlink_next
unlink_next_lem owned s p prev (some q) e v w =
    let (m, (o, h, side, price)) = w in
    let o' : Order = record o { prev_in_level = prev } in
    let (e', done, read, wrote) =
      write_order owned e q o o' v m h (record { order_id = refl; side = refl; price = refl }) in
    (
      e',
      rw h done,
      Backward-Wrote owned (in_block q) (pointer s p prev) e e' wrote
          (ap earlier_node read ∙ ap₂ (λ t u. some (pointer t u prev)) side price)
          (ap later_node read ∙ sym (ap later_node h)),
    )
unlink_next_lem owned s p prev none e v w =
    let (l, h) = w in
    let l' : PriceLevel = record l { tail = prev } in
    let read = level_read s p l l' e h in
    (
      set_level s p l' e,
      rw h refl,
      Backward-Wrote owned (at_level s p) (pointer s p prev) e (set_level s p l' e)
          (write_level owned e s p l' v) (ap (last_node s p) read)
          (ap (first_node s p) read ∙ sym (ap (first_node s p) h)),
    )
