-- ===== src/Sim/MatchingEngine/Queues/Matching.antt =====
-- sim/domain/matching_engine.cpp: the loop over the makers of a level, and the queues.
use kalshi_cpp.Prelude.{
  ℕ, zero, suc, ◌<◌, ◌≡◌, ◌≢◌, inl, inr, refl, sym, ap, ap₂, subst, ◌∙◌, true, false, Option, none,
  some, List, [], ◌∷◌, ◌++◌, arith, length, ◌==◌, Bool-cases,
}
use kalshi_cpp.Core.Pool.Ids.{mem, remove, mem-remove_ne, length-remove}
use kalshi_cpp.Core.Pool.Ownership.{Owns}
use kalshi_cpp.Sim.MatchingEngine.State.{Side, Fill, Order, MatchingEngine, get_order}
use kalshi_cpp.Sim.MatchingEngine.Match.{trade, remove_maker, match_level}
use kalshi_cpp.Sim.MatchingEngine.Queues.Ring.{at_level, in_block, some-inj}
use kalshi_cpp.Sim.MatchingEngine.Queues.Nodes.{pointer, later_node, next_node, Located}
use kalshi_cpp.Sim.MatchingEngine.Queues.Linked.{Linked, level_at, price_in, around}
use kalshi_cpp.Sim.MatchingEngine.Queues.Leaving.{Left, remove_maker_lem}
use kalshi_cpp.Sim.MatchingEngine.Queues.Arrival.{Member-more}
use kalshi_cpp.Sim.MatchingEngine.Queues.Trading.{Scanning, Scanning-Still, trade_lem}
use kalshi_cpp.Sim.MatchingEngine.Queues.Turns.{
  InTurn, Before, Reached, InTurn-snoc, Before-snoc, Reached-snoc, NextMaker,
}
use kalshi_cpp.Sim.MatchingEngine.Queues.Served.{Played, Played-trade, Played-Left}

match_level-full :
    (fuel : ℕ) (s : Side) (ptr p c : ℕ) (fills : List Fill) (e : MatchingEngine) (taker : Order)
    → get_order p e ≡ some taker
    → (taker.qty_remaining == 0) ≡ true
    → match_level (suc fuel) s ptr p (some c) fills e ≡ some (fills, e)
unfolding match_level
match_level-full fuel s ptr p c fills e taker h z = rw (h, z) refl

match_level-part :
    (fuel : ℕ) (s : Side) (ptr p c left : ℕ) (fills : List Fill) (f : Fill) (e e₁ : MatchingEngine)
    (taker : Order)
    → get_order p e ≡ some taker
    → (taker.qty_remaining == 0) ≡ false
    → trade s ptr p c e ≡ some (f, left, e₁)
    → (left == 0) ≡ false
    → match_level (suc fuel) s ptr p (some c) fills e ≡ some (fills ++ f ∷ [], e₁)
unfolding match_level
match_level-part fuel s ptr p c left fills f e e₁ taker h z t l = rw (h, z, t, l) refl

match_level-next :
    (fuel : ℕ) (s : Side) (ptr p c left : ℕ) (next : Option ℕ) (fills : List Fill) (f : Fill)
    (e e₁ e₂ : MatchingEngine) (taker : Order)
    → get_order p e ≡ some taker
    → (taker.qty_remaining == 0) ≡ false
    → trade s ptr p c e ≡ some (f, left, e₁)
    → (left == 0) ≡ true
    → remove_maker s ptr c e₁ ≡ some (next, e₂)
    → match_level (suc fuel) s ptr p (some c) fills e
      ≡ match_level fuel s ptr p next (fills ++ f ∷ []) e₂
unfolding match_level
match_level-next fuel s ptr p c left next fills f e e₁ e₂ taker h z t l r = rw (h, z, t, l, r) refl

-- What the loop over a level leaves, at some set of orders that still wait.
abbrev pub Matched :
    MatchingEngine
    → List ℕ
    → ℕ
    → ℕ
    → Side
    → ℕ
    → Side
    → ℕ
    → Option (List Fill × MatchingEngine)
    → Type 0
Matched e₀ held₀ p id s price level ptr x =
    (r : List Fill × MatchingEngine) × (held : List ℕ) × (x ≡ some r)
    × Scanning r.1 p id s price held
    × InTurn r.0
    × Reached s ptr r.0
    × Played level e₀ held₀ r.1 held r.0

-- A maker that is next has a larger number.
abbrev Later : MatchingEngine → Option ℕ → ℕ → Type 0
Later e none id = Unit {0}
Later e (some r) id = (x : Order) → get_order r e ≡ some x → id < x.order_id

-- The maker `c` at the level has left, and its successor is of the level.
module _ (e e' : MatchingEngine) (p id : ℕ) (s : Side) (price : ℕ) (held : List ℕ) (c : ℕ)
    (o : Order) (v : Scanning e p id s price held) (m : mem c held ≡ true)
    (h : get_order c e ≡ some o) (l : Left (p ∷ held) held id c e e') where
  not_taker : p ≢ c
  not_taker f = absurd (ground (arith, v.owns.owned_once.0, ap (λ t. mem t held) f, m))

  Scanning-Left : Scanning e' p id s price (remove c held)
  Scanning-Left =
      let x = l.stays p v.taker not_taker v.there in
      let out : ¬ (mem p held ≡ true) = (λ f. absurd (ground (arith, f, v.owns.owned_once.0))) in
      let a = l.apart p out not_taker in
      record {
        linked = l.linked;
        owns = subst (Owns e'.pool) (ground (arith, not_taker)) l.owns;
        taker = x.0;
        there = x.1;
        its_id = x.2.order_id ∙ v.its_id;
        its_side = x.2.side ∙ v.its_side;
        its_price = x.2.price ∙ v.its_price;
        out = a.0 ∙ v.out;
        alone = a.1 ∙ v.alone;
        next_id = l.next_order_id ∙ v.next_id;
        bid_in = omega (arith, v.bid_in, l.best_bid);
        ask_in = omega (arith, v.ask_in, l.best_ask);
        blocks = omega (arith, v.blocks, l.blocks);
      }

  next-apart : (r : ℕ) → o.next_in_level ≡ some r → r ≢ c
  next-apart r f g =
      let k =
        v.linked.ordered c r m (ap later_node h ∙ ap (λ t. some (pointer o.side o.price t)) f) in
      let same : k.former ≡ k.latter =
        some-inj _ _ (sym k.former_there ∙ sym (ap (λ t. get_order t e) g) ∙ k.latter_there) in
      omega (arith, k.later_id, ap (λ (t : Order). t.order_id) same)

  next-Located :
      (n : Option ℕ)
      → o.next_in_level ≡ n
      → o.price < 101
      → Located held e o.side o.price n
      → Located (remove c held) e' o.side o.price n
  next-Located none f at w = level_at e' o.side o.price l.linked.bids_length l.linked.asks_length at
  next-Located (some r) f at w =
      let (mr, (y, there, side, its_price)) = w in
      let z = l.stays r y (next-apart r f) there in
      (
        mem-remove_ne r c held (next-apart r f) mr,
        (z.0, z.1, z.2.side ∙ side, z.2.price ∙ its_price),
      )

  next-Later : (n : Option ℕ) → o.next_in_level ≡ n → Later e' n o.order_id
  next-Later none f = tt
  next-Later (some r) f = λ x there.
      let k =
        v.linked.ordered c r m (ap later_node h ∙ ap (λ t. some (pointer o.side o.price t)) f) in
      let mine : k.former ≡ o = some-inj _ _ (sym k.former_there ∙ h) in
      let z = l.stays r k.latter (next-apart r f) k.latter_there in
      let same : z.0 ≡ x = some-inj _ _ (sym z.1 ∙ there) in
      omega (
        arith,
        k.later_id,
        ap (λ (t : Order). t.order_id) mine,
        ap (λ (t : Order). t.order_id) same,
        z.2.order_id,
      )

-- After the trade, the maker is removed.
removed :
    (e : MatchingEngine) (p id : ℕ) (s : Side) (price : ℕ) (held : List ℕ) (level : Side)
    (ptr c : ℕ)
    → Scanning e p id s price held
    → ptr < 101
    → (w : Located held e level ptr (some c))
    → (next : Option ℕ) × (e' : MatchingEngine) × (remove_maker level ptr c e ≡ some (next, e'))
      × Scanning e' p id s price (remove c held)
      × Located (remove c held) e' level ptr next
      × Later e' next w.1.0.order_id
      × Left (p ∷ held) held id c e e'
      × (next_node e (at_level level ptr) ≡ some (in_block c)
          → next_node e' (at_level level ptr) ≡ some (pointer level ptr next))
removed e p id s price held level ptr c v in_range w =
    let (m, (o, h, side, at)) = w in
    let owned : List ℕ = p ∷ held in
    let r =
      remove_maker_lem owned held (λ q i. Member-more held p (in_block q) i) e id v.linked c o m h
        v.owns (omega (arith, v.blocks, v.owns.count, v.linked.room)) in
    let within = around held held (λ q i. i) e id v.linked c o m h in
    let placed =
      next-Located e r.0 p id s price held c o v m h r.2 o.next_in_level refl
        (price_in held held (λ q i. i) e id v.linked c o m h) within.1 in
    (
      o.next_in_level,
      r.0,
      subst (λ t. remove_maker t ptr c e ≡ some (o.next_in_level, r.0)) side
          (subst (λ t. remove_maker o.side t c e ≡ some (o.next_in_level, r.0)) at r.1),
      Scanning-Left e r.0 p id s price held c o v m h r.2,
      subst (λ t. Located (remove c held) r.0 t ptr o.next_in_level) side
          (subst (λ t. Located (remove c held) r.0 o.side t o.next_in_level) at placed),
      next-Later e r.0 p id s price held c o v m h r.2 o.next_in_level refl,
      r.2,
      λ head.
          let first = (v.linked.ring.forth (at_level level ptr) (in_block c) in_range head).1 in
          r.2.head_led level ptr first
          ∙ (ap later_node h ∙ ap₂ (λ t u. some (pointer t u o.next_in_level)) side at),
    )

-- One more trade, with the maker whose turn it is.
module _ (s : Side) (ptr id : ℕ) (f : Fill) (fills : List Fill) (at : f.price ≡ ptr)
    (by_maker : f.maker_order_id ≡ id) where
  InTurn-more : InTurn fills → Before ptr id fills → InTurn (fills ++ f ∷ [])
  InTurn-more t b = InTurn-snoc f fills t (
      subst (λ p. Before p f.maker_order_id fills) (sym at)
        (subst (λ i. Before ptr i fills) (sym by_maker) b))

  Reached-more : Reached s ptr fills → Reached s ptr (fills ++ f ∷ [])
  Reached-more r =
      subst (λ p. Reached s p (fills ++ f ∷ [])) at
        (Reached-snoc s f fills (subst (λ p. Reached s p fills) (sym at) r))

  NextMaker-more :
      (e : MatchingEngine) (n : Option ℕ)
      → Before ptr id fills
      → Later e n id
      → NextMaker e ptr (fills ++ f ∷ []) n
  NextMaker-more e none b l = tt
  NextMaker-more e (some c) b l = λ o h. Before-snoc ptr id o.order_id f fills b by_maker (l o h)

-- The inner loop ends: each maker it goes past has left. It goes on in the order of the numbers.
pub match_level_lem :
    (e₀ : MatchingEngine) (b₀ : ℕ) (held₀ : List ℕ) (v₀ : Linked e₀ b₀ held₀) (fuel : ℕ)
    (e : MatchingEngine) (p id : ℕ) (s : Side) (price : ℕ) (held : List ℕ) (level : Side) (ptr : ℕ)
    (cur : Option ℕ) (fills : List Fill)
    → Scanning e p id s price held
    → ptr < 101
    → length held < fuel
    → Located held e level ptr cur
    → InTurn fills
    → Reached s ptr fills
    → NextMaker e ptr fills cur
    → next_node e (at_level level ptr) ≡ some (pointer level ptr cur)
    → Played level e₀ held₀ e held fills
    → Matched e₀ held₀ p id s price level ptr (match_level fuel level ptr p cur fills e)
unfolding match_level
match_level_lem e₀ b₀ held₀ v₀ zero e p id s price held level ptr cur fills v h enough w t u b hd
      g =
    absurd (omega (arith, enough))
match_level_lem e₀ b₀ held₀ v₀ (suc fuel) e p id s price held level ptr none fills v h enough w t u
      b hd g =
    ((fills, e), held, refl, v, t, u, g)
match_level_lem e₀ b₀ held₀ v₀ (suc fuel) e p id s price held level ptr (some c) fills v h enough w
      t u b hd g =
    elim (Bool-cases (v.taker.qty_remaining == 0)) [
      | inl full ↦
          let done = match_level-full fuel level ptr p c fills e v.taker v.there full in
          ((fills, e), held, done, v, t, u, g)
      | inr more ↦
          let (f, left, e₁, traded, still, at, by_maker) =
            trade_lem e p id s price held level ptr c v h w in
          let v₁ = Scanning-Still e e₁ p id s price held v still in
          let turn : Before ptr w.1.0.order_id fills = b w.1.0 w.1.1 in
          let t₁ = InTurn-more s ptr w.1.0.order_id f fills at by_maker t turn in
          let u₁ = Reached-more s ptr w.1.0.order_id f fills at by_maker u in
          let g₁ =
            Played-trade level e₀ b₀ held₀ v₀ (p ∷ held) e e₁ id held fills ptr c f g v.linked w h
              hd at by_maker still.kept in
          elim (Bool-cases (left == 0)) [
            | inl up ↦
                let (x, there, same) = still.kept.order_of c w.1.0 w.1.1 in
                let w₁ : Located held e₁ level ptr (some c) =
                  (w.0, (x, there, same.side ∙ w.1.2, same.price ∙ w.1.3)) in
                let (next, e₂, gone, v₂, w₂, later, l, lead) =
                  removed e₁ p id s price held level ptr c v₁ h w₁ in
                let g₂ =
                  Played-Left level e₀ b₀ held₀ v₀ (p ∷ held) e₁ e₂ id held fills c x f g₁ v₁.linked
                    there w.0 (by_maker ∙ sym same.order_id) l in
                let hd₂ = lead (still.next_same (at_level level ptr) ∙ hd) in
                let b₂ =
                  NextMaker-more s ptr w.1.0.order_id f fills at by_maker e₂ next turn
                    (subst (Later e₂ next) same.order_id later) in
                let (r, held', done, v', t', u', g') =
                  match_level_lem e₀ b₀ held₀ v₀ fuel e₂ p id s price (remove c held) level ptr next
                    (fills ++ f ∷ []) v₂ h (omega (arith, enough, length-remove c held w.0)) w₂ t₁
                    u₁ b₂ hd₂ g₂ in
                (
                  r,
                  held',
                  match_level-next fuel level ptr p c left next fills f e e₁ e₂ v.taker v.there more
                        traded up gone
                      ∙ done,
                  v',
                  t',
                  u',
                  g',
                )
            | inr rest ↦
                let done =
                  match_level-part fuel level ptr p c left fills f e e₁ v.taker v.there more traded
                    rest in
                ((fills ++ f ∷ [], e₁), held, done, v₁, t₁, u₁, g₁)
          ]
    ]
