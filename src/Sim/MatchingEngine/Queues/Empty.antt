-- ===== src/Sim/MatchingEngine/Queues/Empty.antt =====
-- sim/domain/matching_engine.h: the engine after its construction.
use kalshi_cpp.Prelude.{
  ℕ, zero, suc, ◌<◌, ◌≡◌, refl, sym, ap, subst, ◌∙◌, some, [], arith, length-replicate, replicate,
  get_elem?,
}
use kalshi_cpp.Core.FlatHashMap.Lookup.{init_map-Sound}
use kalshi_cpp.Core.Pool.{linked, init_pool}
use kalshi_cpp.Core.Pool.Ownership.{Owns-init, length-linked}
use kalshi_cpp.Sim.MatchingEngine.State.{Side, yes_side, no_side, no_level, get_level, init_engine}
use kalshi_cpp.Sim.MatchingEngine.Queues.Ring.{Node, at_level, in_block, some-inj}
use kalshi_cpp.Sim.MatchingEngine.Queues.Nodes.{first_node, last_node, next_node, prev_node}
use kalshi_cpp.Sim.MatchingEngine.Queues.Linked.{Member, index_width}
use kalshi_cpp.Sim.MatchingEngine.Queues.Settling.{WellFormed}

get_elem?-replicate {ℓ} :
    {A : Type ℓ} (n i : ℕ) (a : A) → i < n → get_elem? (replicate n a) i ≡ some a
get_elem?-replicate zero i a h = absurd (omega (arith, h))
get_elem?-replicate (suc n) zero a h = refl
get_elem?-replicate (suc n) (suc i) a h = get_elem?-replicate n i a (omega (arith, h))

level_empty : (s : Side) (p : ℕ) → p < 101 → get_level s p init_engine ≡ some no_level
unfolding init_engine
level_empty yes_side p h = get_elem?-replicate 101 p no_level h
level_empty no_side p h = get_elem?-replicate 101 p no_level h

-- Each level leads to itself.
empty_forth :
    (x y : Node)
    → Member [] x
    → next_node init_engine x ≡ some y
    → Member [] y × (prev_node init_engine y ≡ some x)
empty_forth (at_level s p) y i e =
    let same : at_level s p ≡ y =
      some-inj _ _ (sym (ap (first_node s p) (level_empty s p i)) ∙ e) in
    (
      subst (Member []) same i,
      ap (prev_node init_engine) (sym same) ∙ ap (last_node s p) (level_empty s p i),
    )
empty_forth (in_block q) y i e = absurd (ground (arith, i))

empty_back :
    (x y : Node)
    → Member [] x
    → prev_node init_engine x ≡ some y
    → Member [] y × (next_node init_engine y ≡ some x)
empty_back (at_level s p) y i e =
    let same : at_level s p ≡ y = some-inj _ _ (sym (ap (last_node s p) (level_empty s p i)) ∙ e) in
    (
      subst (Member []) same i,
      ap (next_node init_engine) (sym same) ∙ ap (first_node s p) (level_empty s p i),
    )
empty_back (in_block q) y i e = absurd (ground (arith, i))

-- The engine is well-formed after its construction, with no order in it.
pub init_engine-WellFormed : (v : WellFormed init_engine) × (v.held ≡ [])
unfolding init_engine init_pool
init_engine-WellFormed =
    let m = init_map-Sound {V = ℕ} 12 index_width 0 in
    (
      record {
        held = [];
        linked = record {
          once = tt;
          ids = omega arith;
          ring = record { forth = empty_forth; back = empty_back };
          resting = λ q i. absurd (ground (arith, i));
          ordered = λ q r i f. absurd (ground (arith, i));
          bids_length = length-replicate 101 no_level;
          asks_length = length-replicate 101 no_level;
          found = λ k q real f. absurd (ground (arith, m.1 k real, f));
          sound = m.0;
          room = omega arith;
        };
        owns = Owns-init 2047;
        blocks = omega (arith, length-linked 0 2047 (linked 0 2047) refl);
        bid_in = omega arith;
        ask_in = omega arith;
      },
      refl,
    )
