-- ===== src/Sim/MatchingEngine/Queues/Served.antt =====
-- sim/domain/matching_engine.cpp: whose turn it is at a price, against the orders that waited when the
-- call began.
use kalshi_cpp.Prelude.{
  ℕ, ◌+◌, ◌<◌, ◌≡◌, ◌≢◌, inl, inr, refl, sym, ap, subst, ◌∙◌, Bool, true, false, ◌||◌, some, List,
  [], ◌∷◌, ◌++◌, arith, ◌==◌, Bool-cases, append_assoc, append-nil, ℕ_discrete,
}
use kalshi_cpp.Core.Pool.Ids.{mem, remove, mem-remove, mem-remove_ne, mem-remove_self}
use kalshi_cpp.Sim.MatchingEngine.State.{Side, Fill, Order, MatchingEngine, get_order}
use kalshi_cpp.Sim.MatchingEngine.Queues.Ring.{at_level, in_block, some-inj}
use kalshi_cpp.Sim.MatchingEngine.Queues.Nodes.{next_node, Same, Same-trans, Kept, Located}
use kalshi_cpp.Sim.MatchingEngine.Queues.Linked.{Linked}
use kalshi_cpp.Sim.MatchingEngine.Queues.Leaving.{Left}
use kalshi_cpp.Sim.MatchingEngine.Queues.Oldest.{oldest}

-- Some trade is with the order of this number.
abbrev pub traded : ℕ → List Fill → Bool
traded id [] = false
traded id (f ∷ fs) = f.maker_order_id == id || traded id fs

-- The trade `f`, after the trades `done`, is with an order that waits in `e` on the side and at the
-- price of `f`, and the orders that wait there with smaller numbers have traded before.
pub record Due (side : Side) (e : MatchingEngine) (held : List ℕ) (done : List Fill) (f : Fill)
    : Type 0 where
  pub block : ℕ
  pub order : Order
  pub waits : mem block held ≡ true
  pub there : get_order block e ≡ some order
  pub its_id : order.order_id ≡ f.maker_order_id
  pub its_side : order.side ≡ side
  pub its_price : order.price ≡ f.price
  pub in_turn :
      (r : ℕ) (x : Order)
      → mem r held ≡ true
      → get_order r e ≡ some x
      → x.side ≡ side
      → x.price ≡ f.price
      → x.order_id < f.maker_order_id
      → traded x.order_id done ≡ true

abbrev pub Served : Side → MatchingEngine → List ℕ → List Fill → List Fill → Type 0
Served side e held done [] = Unit {0}
Served side e held done (f ∷ fs) = Due side e held done f × Served side e held (done ++ f ∷ []) fs

Served-snoc :
    (side : Side) (e : MatchingEngine) (held : List ℕ) (done fs : List Fill) (f : Fill)
    → Served side e held done fs
    → Due side e held (done ++ fs) f
    → Served side e held done (fs ++ f ∷ [])
Served-snoc side e held done [] f t d = (subst (λ l. Due side e held l f) (append-nil done) d, tt)
Served-snoc side e held done (g ∷ fs) f t d = (
  t.0,
  Served-snoc side e held (done ++ g ∷ []) fs f t.1
      (subst (λ l. Due side e held l f) (sym (append_assoc done (g ∷ []) fs)) d),
)

traded-snoc :
    (id : ℕ) (fs : List Fill) (f : Fill) → traded id fs ≡ true → traded id (fs ++ f ∷ []) ≡ true
traded-snoc id [] f h = cc
traded-snoc id (g ∷ fs) f h = ground (arith, traded-snoc id fs f)

traded-last :
    (id : ℕ) (fs : List Fill) (f : Fill) → f.maker_order_id ≡ id → traded id (fs ++ f ∷ []) ≡ true
traded-last id [] f h = ground (arith, h)
traded-last id (g ∷ fs) f h = ground (arith, traded-last id fs f h)

-- From the engine `e₀` with the orders `held₀` on: those that wait no more have traded.
pub record Played (side : Side) (e₀ : MatchingEngine) (held₀ : List ℕ) (e : MatchingEngine)
    (held : List ℕ) (fills : List Fill) : Type 0 where
  pub within : (r : ℕ) → mem r held ≡ true → mem r held₀ ≡ true
  pub same :
      (r : ℕ) (x : Order)
      → mem r held ≡ true
      → get_order r e₀ ≡ some x
      → (x' : Order) × (get_order r e ≡ some x') × Same x x'
  pub gone :
      (r : ℕ) (x : Order)
      → mem r held₀ ≡ true
      → mem r held ≡ false
      → get_order r e₀ ≡ some x
      → traded x.order_id fills ≡ true
  pub served : Served side e₀ held₀ [] fills

pub Played-start :
    (side : Side) (e₀ e : MatchingEngine) (held : List ℕ)
    → ((q : ℕ) → mem q held ≡ true → get_order q e ≡ get_order q e₀)
    → Played side e₀ held e held []
Played-start side e₀ e held h = record {
  within = λ r m. m;
  same = λ r x m t. (x, h r m ∙ t, record { order_id = refl; side = refl; price = refl });
  gone = λ r x m n t. absurd (ground (arith, m, n));
  served = tt;
}

module _ (side : Side) (e₀ : MatchingEngine) (b : ℕ) (held₀ : List ℕ) (v₀ : Linked e₀ b held₀) where
  -- A trade with the head of a level is due.
  due :
      (e : MatchingEngine) (id : ℕ) (held : List ℕ) (fills : List Fill) (ptr c : ℕ) (f : Fill)
      → Played side e₀ held₀ e held fills
      → Linked e id held
      → (w : Located held e side ptr (some c)) → ptr < 101
      → next_node e (at_level side ptr) ≡ some (in_block c)
      → f.price ≡ ptr
      → f.maker_order_id ≡ w.1.0.order_id
      → Due side e₀ held₀ fills f
  due e id held fills ptr c f g v w h head at by_maker =
      let (m, (o, there, its_side, its_price)) = w in
      let y = v₀.resting c (g.within c m) in
      let now = g.same c y.order m y.there in
      let mine : now.0 ≡ o = some-inj _ _ (sym now.1 ∙ there) in
      let number : o.order_id ≡ y.order.order_id =
        sym (ap (λ (t : Order). t.order_id) mine) ∙ now.2.order_id in
      record {
        block = c;
        order = y.order;
        waits = g.within c m;
        there = y.there;
        its_id = sym number ∙ sym by_maker;
        its_side = sym now.2.side ∙ (ap (λ (t : Order). t.side) mine ∙ its_side);
        its_price = sym now.2.price ∙ (ap (λ (t : Order). t.price) mine ∙ (its_price ∙ sym at));
        in_turn = λ r x i t sd pr l. elim (Bool-cases (mem r held)) [
          | inr n ↦ g.gone r x i n t
          | inl waiting ↦
              let z = g.same r x waiting t in
              let first =
                oldest e id held v side ptr c o h head there (z.0.order_id + 1) r z.0
                  z.0.prev_in_level waiting z.1 (z.2.side ∙ sd) (z.2.price ∙ (pr ∙ at)) refl
                  (omega arith) in
              absurd (omega (arith, first, z.2.order_id, l, by_maker))
        ];
      }

  pub Played-trade :
      (owned : List ℕ) (e e₁ : MatchingEngine) (id : ℕ) (held : List ℕ) (fills : List Fill)
      (ptr c : ℕ) (f : Fill)
      → Played side e₀ held₀ e held fills
      → Linked e id held
      → (w : Located held e side ptr (some c)) → ptr < 101
      → next_node e (at_level side ptr) ≡ some (in_block c)
      → f.price ≡ ptr
      → f.maker_order_id ≡ w.1.0.order_id
      → Kept owned e e₁
      → Played side e₀ held₀ e₁ held (fills ++ f ∷ [])
  Played-trade owned e e₁ id held fills ptr c f g v w h head at by_maker k = record {
    within = g.within;
    same = λ r x m t.
        let y = g.same r x m t in
        let z = k.order_of r y.0 y.1 in (z.0, z.1, Same-trans x y.0 z.0 y.2 z.2);
    gone = λ r x m n t. traded-snoc x.order_id fills f (g.gone r x m n t);
    served =
        Served-snoc side e₀ held₀ [] fills f g.served
          (due e id held fills ptr c f g v w h head at by_maker);
  }

  -- The maker that leaves has just traded.
  pub Played-Left :
      (owned : List ℕ) (e e' : MatchingEngine) (id : ℕ) (held : List ℕ) (fills : List Fill) (c : ℕ)
      (o : Order) (f : Fill)
      → Played side e₀ held₀ e held (fills ++ f ∷ [])
      → Linked e id held
      → get_order c e ≡ some o
      → mem c held ≡ true
      → f.maker_order_id ≡ o.order_id
      → Left owned held id c e e'
      → Played side e₀ held₀ e' (remove c held) (fills ++ f ∷ [])
  Played-Left owned e e' id held fills c o f g v h m by_maker l = record {
    within = λ r i. g.within r (mem-remove r c held i);
    same = λ r x i t.
        let y = g.same r x (mem-remove r c held i) t in
        let apart : r ≢ c = (λ q. absurd (
          ground (
            arith,
            sym i ∙ (ap (λ u. mem u (remove c held)) q ∙ mem-remove_self c held v.once),
          ))) in
        let z = l.stays r y.0 apart y.1 in (z.0, z.1, Same-trans x y.0 z.0 y.2 z.2);
    gone = λ r x i n t. elim (ℕ_discrete r c) [
      | yes q ↦
          let y = g.same c x m (sym (ap (λ u. get_order u e₀) q) ∙ t) in
          let mine : y.0 ≡ o = some-inj _ _ (sym y.1 ∙ h) in
          traded-last x.order_id fills f
            (by_maker ∙ (sym (ap (λ (u : Order). u.order_id) mine) ∙ y.2.order_id))
      | no apart ↦ elim (Bool-cases (mem r held)) [
        | inl still ↦ absurd (ground (arith, mem-remove_ne r c held apart still, n))
        | inr left ↦ g.gone r x i left t
      ]
    ];
    served = g.served;
  }
