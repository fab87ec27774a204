-- ===== src/Sim/MatchingEngine/Queues/Writes.antt =====
-- sim/domain/matching_engine.cpp: what the single writes to orders and levels do to the links.
use kalshi_cpp.Prelude.{
  ℕ, ◌≡◌, ◌≢◌, refl, sym, ap, subst, ◌∙◌, true, some, List, arith, length, length-set, get_elem?-in,
  get_elem?-set_self, get_elem?-set_ne, ℕ_discrete,
}
use kalshi_cpp.Core.Pool.{Pool, live, store, load, write_block}
use kalshi_cpp.Core.Pool.Ids.{mem}
use kalshi_cpp.Core.Pool.Ownership.{Owns}
use kalshi_cpp.Core.Pool.Calls.{store_lem}
use kalshi_cpp.Sim.MatchingEngine.State.{
  Side, yes_side, no_side, Order, PriceLevel, MatchingEngine, get_level, get_order, set_level,
  set_order,
}
use kalshi_cpp.Sim.MatchingEngine.Queues.Ring.{Node, at_level, in_block}
use kalshi_cpp.Sim.MatchingEngine.Queues.Nodes.{
  first_node, last_node, later_node, earlier_node, next_node, prev_node, Same, Kept, Wrote,
}

links_away :
    (n : Node) (e e' : MatchingEngine) (x : Node)
    → ((s : Side) (p : ℕ) → at_level s p ≢ n → get_level s p e' ≡ get_level s p e)
    → ((r : ℕ) → in_block r ≢ n → get_order r e' ≡ get_order r e)
    → x ≢ n
    → (next_node e' x ≡ next_node e x) × (prev_node e' x ≡ prev_node e x)
links_away n e e' (at_level s p) levels orders a =
    (ap (first_node s p) (levels s p a), ap (last_node s p) (levels s p a))
links_away n e e' (in_block r) levels orders a =
    (ap later_node (orders r a), ap earlier_node (orders r a))

Wrote-by :
    (owned : List ℕ) (n : Node) (e e' : MatchingEngine)
    → Kept owned e e'
    → ((s : Side) (p : ℕ) → at_level s p ≢ n → get_level s p e' ≡ get_level s p e)
    → ((r : ℕ) → in_block r ≢ n → get_order r e' ≡ get_order r e)
    → Wrote owned n e e'
Wrote-by owned n e e' kept levels orders = record {
  kept = kept;
  next_away = λ x a. (links_away n e e' x levels orders a).0;
  prev_away = λ x a. (links_away n e e' x levels orders a).1;
}

pub store-length :
    (pool pool' : Pool Order) (p : ℕ) (o : Order)
    → store p o pool ≡ some pool'
    → length pool'.blocks ≡ length pool.blocks
unfolding store write_block
store-length pool pool' p o h = ground (arith, h, length-set pool.blocks p (live o))

level_there :
    (s : Side) (p : ℕ) (pool : Pool Order) (e : MatchingEngine)
    → get_level s p (record e { pool = pool }) ≡ get_level s p e
level_there yes_side p pool e = refl
level_there no_side p pool e = refl

-- A write to an owned block is defined.
pub write_order :
    (owned : List ℕ) (e : MatchingEngine) (q : ℕ) (o o' : Order)
    → Owns e.pool owned
    → mem q owned ≡ true
    → get_order q e ≡ some o
    → Same o o'
    → (e' : MatchingEngine) × (set_order q o' e ≡ some e')
      × (get_order q e' ≡ some o')
      × Wrote owned (in_block q) e e'
write_order owned e q o o' v m h same =
    let (pool, done, read, others, v') = store_lem e.pool owned q o' v m in
    (
      record e { pool = pool },
      rw done refl,
      read,
      Wrote-by owned (in_block q) e (record e { pool = pool })
          (record {
            owns = v';
            order_of = λ r x g. elim (ℕ_discrete r q) [
              | yes f ↦
                  let it : some o ≡ some x = sym h ∙ sym (ap (λ t. get_order t e) f) ∙ g in
                  let is : o ≡ x = ground (arith, it) in
                  (o', ap (λ t. load t pool) f ∙ read, subst (λ t. Same t o') is same)
              | no f ↦ (x, others r f ∙ g, record { order_id = refl; side = refl; price = refl })
            ];
            blocks = store-length e.pool pool q o' done;
            bids_length = refl;
            asks_length = refl;
            orders = refl;
            next_order_id = refl;
            best_bid = refl;
            best_ask = refl;
          })
          (λ s p a. level_there s p pool e) (λ r a. others r (λ f. a (ap in_block f))),
    )

pub level_read :
    (s : Side) (p : ℕ) (l l' : PriceLevel) (e : MatchingEngine)
    → get_level s p e ≡ some l
    → get_level s p (set_level s p l' e) ≡ some l'
level_read yes_side p l l' e h = get_elem?-set_self e.bids p l' (get_elem?-in e.bids p l h)
level_read no_side p l l' e h = get_elem?-set_self e.asks p l' (get_elem?-in e.asks p l h)

level_away :
    (s t : Side) (p q : ℕ) (l : PriceLevel) (e : MatchingEngine)
    → at_level t q ≢ at_level s p
    → get_level t q (set_level s p l e) ≡ get_level t q e
level_away yes_side yes_side p q l e a =
    get_elem?-set_ne e.bids p q l (λ f. a (ap (at_level yes_side) (sym f)))
level_away yes_side no_side p q l e a = refl
level_away no_side yes_side p q l e a = refl
level_away no_side no_side p q l e a =
    get_elem?-set_ne e.asks p q l (λ f. a (ap (at_level no_side) (sym f)))

order_there :
    (s : Side) (p q : ℕ) (l : PriceLevel) (e : MatchingEngine)
    → get_order q (set_level s p l e) ≡ get_order q e
order_there yes_side p q l e = refl
order_there no_side p q l e = refl

level_Kept :
    (owned : List ℕ) (e : MatchingEngine) (s : Side) (p : ℕ) (l : PriceLevel)
    → Owns e.pool owned
    → Kept owned e (set_level s p l e)
level_Kept owned e yes_side p l v = record {
  owns = v;
  order_of = λ q o h. (o, h, record { order_id = refl; side = refl; price = refl });
  blocks = refl;
  bids_length = length-set e.bids p l;
  asks_length = refl;
  orders = refl;
  next_order_id = refl;
  best_bid = refl;
  best_ask = refl;
}
level_Kept owned e no_side p l v = record {
  owns = v;
  order_of = λ q o h. (o, h, record { order_id = refl; side = refl; price = refl });
  blocks = refl;
  bids_length = refl;
  asks_length = length-set e.asks p l;
  orders = refl;
  next_order_id = refl;
  best_bid = refl;
  best_ask = refl;
}

pub write_level :
    (owned : List ℕ) (e : MatchingEngine) (s : Side) (p : ℕ) (l : PriceLevel)
    → Owns e.pool owned
    → Wrote owned (at_level s p) e (set_level s p l e)
write_level owned e s p l v =
    Wrote-by owned (at_level s p) e (set_level s p l e) (level_Kept owned e s p l v)
      (λ t q a. level_away s t p q l e a) (λ r a. order_there s p r l e)
