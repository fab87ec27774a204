-- ===== src/Sim/MatchingEngine/Queues/Oldest.antt =====
-- sim/domain/matching_engine.cpp: the head of a level's queue and the orders behind it.
use kalshi_cpp.Prelude.{
  ℕ, zero, suc, ◌≤◌, ◌<◌, ◌≡◌, refl, sym, ap, ap₂, ◌∙◌, true, Option, none, some, List, arith,
}
use kalshi_cpp.Core.Pool.Ids.{mem}
use kalshi_cpp.Sim.MatchingEngine.State.{Side, Order, MatchingEngine, get_order}
use kalshi_cpp.Sim.MatchingEngine.Queues.Ring.{at_level, in_block, some-inj}
use kalshi_cpp.Sim.MatchingEngine.Queues.Nodes.{pointer, earlier_node, next_node, prev_node}
use kalshi_cpp.Sim.MatchingEngine.Queues.Linked.{Linked}

module _ (e : MatchingEngine) (bound : ℕ) (held : List ℕ) (v : Linked e bound held) (s : Side)
    (price q : ℕ) (o : Order) (at : price < 101)
    (first : next_node e (at_level s price) ≡ some (in_block q)) (h : get_order q e ≡ some o) where
  -- The head's number is the smallest: back along the queue from `r`, with `n` above its number.
  pub oldest :
      (n r : ℕ) (x : Order) (before : Option ℕ)
      → mem r held ≡ true
      → get_order r e ≡ some x
      → x.side ≡ s
      → x.price ≡ price
      → x.prev_in_level ≡ before
      → x.order_id < n
      → o.order_id ≤ x.order_id
  oldest zero r x before m there side its_price f l = absurd (omega (arith, l))
  oldest (suc n) r x none m there side its_price f l =
      let prev : prev_node e (in_block r) ≡ some (at_level s price) =
        ap earlier_node there
        ∙ (ap (λ t. some (pointer x.side x.price t)) f
            ∙ ap₂ (λ t u. some (at_level t u)) side its_price) in
      let next = (v.ring.back (in_block r) (at_level s price) m prev).1 in
      let nodes : in_block q ≡ in_block r = some-inj _ _ (sym first ∙ next) in
      let same : q ≡ r = ground (arith, nodes) in
      let orders : o ≡ x = some-inj _ _ (sym h ∙ (ap (λ t. get_order t e) same ∙ there)) in
      omega (arith, ap (λ (t : Order). t.order_id) orders)
  oldest (suc n) r x (some y) m there side its_price f l =
      let prev : prev_node e (in_block r) ≡ some (in_block y) =
        ap earlier_node there ∙ ap (λ t. some (pointer x.side x.price t)) f in
      let b = v.ring.back (in_block r) (in_block y) m prev in
      let k = v.ordered y r b.0 b.1 in
      let mine : k.latter ≡ x = some-inj _ _ (sym k.latter_there ∙ there) in
      let id = ap (λ (t : Order). t.order_id) mine in
      let below =
        oldest n y k.former k.former.prev_in_level b.0 k.former_there
          (sym k.same_side ∙ (ap (λ (t : Order). t.side) mine ∙ side))
          (sym k.same_price ∙ (ap (λ (t : Order). t.price) mine ∙ its_price)) refl
          (omega (arith, l, k.later_id, id)) in
      omega (arith, below, k.later_id, id)
