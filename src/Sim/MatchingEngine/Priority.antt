-- ===== src/Sim/MatchingEngine/Priority.antt =====
-- sim/domain/matching_engine.cpp: the prices at which `place_limit` trades, best price first.
use kalshi_cpp.Prelude.{
  ℕ, zero, suc, ◌+◌, ◌≤◌, ◌<◌, ◌≡◌, ◌⊎◌, inl, inr, refl, sym, ap, subst, ◌∙◌, Bool, true, false,
  Option, none, some, List, [], ◌∷◌, ◌++◌, arith, length, ◌==◌, ◌&&◌, not, if◌then◌else◌,
  append_assoc, append-nil,
}
use kalshi_cpp.Prelude.Options.{bind-some}
use kalshi_cpp.Sim.MatchingEngine.State.{
  Side, yes_side, no_side, Fill, MatchingEngine, opposite, get_level, get_order,
}
use kalshi_cpp.Sim.MatchingEngine.Match.{
  trade, remove_maker, match_level, in_limit, advance, scan_levels,
}

-- `a` is not worse than `b` for a taker on the side.
abbrev pub NotWorse : Side → ℕ → ℕ → Type 0
NotWorse yes_side a b = a ≤ b
NotWorse no_side a b = b ≤ a

-- The prices start not better than `from`, get never better, and stay within the limit.
abbrev pub BestFirst : Side → ℕ → ℕ → List Fill → Type 0
BestFirst s from limit [] = Unit {0}
BestFirst s from limit (f ∷ fs) =
    NotWorse s from f.price × NotWorse s f.price limit × BestFirst s f.price limit fs

abbrev AllAt : ℕ → List Fill → Type 0
AllAt p [] = Unit {0}
AllAt p (f ∷ fs) = (f.price ≡ p) × AllAt p fs

and-left : (a b : Bool) → (a && b) ≡ true → a ≡ true
and-left true b h = refl
and-left false b h = cc

pub if-some {ℓ} :
    {A : Type ℓ} (b : Bool) (x y z : A)
    → (if b then x else y) ≡ z
    → ((b ≡ true) × (x ≡ z)) ⊎ ((b ≡ false) × (y ≡ z))
if-some true x y z e = inl (refl, e)
if-some false x y z e = inr (refl, e)

trade-price :
    (s : Side) (ptr incoming cur : ℕ) (e : MatchingEngine) (t : Fill × ℕ × MatchingEngine)
    → trade s ptr incoming cur e ≡ some t
    → t.0.price ≡ ptr
unfolding trade
trade-price s ptr incoming cur e t h = ground arith

-- The trades of one level are at its price.
match_level-AllAt :
    (fuel : ℕ) (s : Side) (ptr incoming : ℕ) (cur : Option ℕ) (fills : List Fill)
    (e : MatchingEngine) (r : List Fill × MatchingEngine)
    → match_level fuel s ptr incoming cur fills e ≡ some r
    → (new : List Fill) × (r.0 ≡ fills ++ new) × AllAt ptr new
unfolding match_level
match_level-AllAt zero s ptr incoming cur fills e r h = cc
match_level-AllAt (suc fuel) s ptr incoming none fills e r h =
    ([], ground (arith, append-nil fills), tt)
match_level-AllAt (suc fuel) s ptr incoming (some cur) fills e r h =
    let a = bind-some (get_order incoming e) _ r h in
    elim (if-some (a.0.qty_remaining == 0) (some (fills, e)) _ (some r) a.2) [
      | inl stop ↦ ([], ground (arith, append-nil fills, stop.1), tt)
      | inr go ↦
          let t = bind-some (trade s ptr incoming cur e) _ r go.1 in
          let price : t.0.0.price ≡ ptr = trade-price s ptr incoming cur e t.0 t.1 in
          elim (if-some (t.0.1 == 0) _ (some (fills ++ (t.0.0 ∷ []), t.0.2)) (some r) t.2) [
            | inl gone ↦
                let m = bind-some (remove_maker s ptr cur t.0.2) _ r gone.1 in
                let rest =
                  match_level-AllAt fuel s ptr incoming m.0.0 (fills ++ (t.0.0 ∷ [])) m.0.1 r m.2 in
                (t.0.0 ∷ rest.0, rest.1 ∙ append_assoc fills (t.0.0 ∷ []) rest.0, (price, rest.2))
            | inr last ↦ (t.0.0 ∷ [], ground (arith, last.1), (price, tt))
          ]
    ]

NotWorse-trans : (s : Side) (a b c : ℕ) → NotWorse s a b → NotWorse s b c → NotWorse s a c
NotWorse-trans yes_side a b c h k = omega arith
NotWorse-trans no_side a b c h k = omega arith

NotWorse-refl : (s : Side) (a : ℕ) → NotWorse s a a
NotWorse-refl yes_side a = omega arith
NotWorse-refl no_side a = omega arith

BestFirst-weaken :
    (s : Side) (from p limit : ℕ) (fs : List Fill)
    → NotWorse s from p
    → BestFirst s p limit fs
    → BestFirst s from limit fs
BestFirst-weaken s from p limit [] h b = tt
BestFirst-weaken s from p limit (f ∷ fs) h b = (NotWorse-trans s from p f.price h b.0, b.1, b.2)

BestFirst-append :
    (s : Side) (from p limit : ℕ) (new rest : List Fill)
    → NotWorse s from p
    → NotWorse s p limit
    → AllAt p new
    → BestFirst s p limit rest
    → BestFirst s from limit (new ++ rest)
BestFirst-append s from p limit [] rest h k a b = BestFirst-weaken s from p limit rest h b
BestFirst-append s from p limit (f ∷ fs) rest h k a b = (
  subst (NotWorse s from) (sym a.0) h,
  subst (λ t. NotWorse s t limit) (sym a.0) k,
  subst (λ t. BestFirst s t limit (fs ++ rest)) (sym a.0)
      (BestFirst-append s p p limit fs rest (NotWorse-refl s p) k a.1 b),
)

in_limit-NotWorse : (s : Side) (ptr price : ℕ) → in_limit s ptr price ≡ true → NotWorse s ptr price
in_limit-NotWorse yes_side ptr price h = ground arith
in_limit-NotWorse no_side ptr price h = ground arith

-- The pointer of the scan moves away from the best price, without a wrap of the uint8_t.
advance-NotWorse :
    (s : Side) (ptr price : ℕ)
    → NotWorse s ptr price
    → 0 < price
    → price < 100
    → ptr < 256
    → NotWorse s ptr (advance s ptr) × (advance s ptr < 256)
advance-NotWorse yes_side ptr price h lo hi b = (omega arith, omega arith)
advance-NotWorse no_side ptr price h lo hi b = (omega arith, omega arith)

pub scan_levels-BestFirst :
    (fuel : ℕ) (s : Side) (price incoming ptr : ℕ) (fills : List Fill) (e : MatchingEngine)
    (r : List Fill × MatchingEngine)
    → 0 < price
    → price < 100
    → ptr < 256
    → scan_levels fuel s price incoming ptr fills e ≡ some r
    → (new : List Fill) × (r.0 ≡ fills ++ new) × BestFirst s ptr price new
unfolding scan_levels
scan_levels-BestFirst zero s price incoming ptr fills e r lo hi b h = cc
scan_levels-BestFirst (suc fuel) s price incoming ptr fills e r lo hi b h =
    let a = bind-some (get_order incoming e) _ r h in
    elim (if-some (in_limit s ptr price && not (a.0.qty_remaining == 0)) _ (some (fills, e))
      (some r) a.2) [
        | inl go ↦
            let limit : NotWorse s ptr price = in_limit-NotWorse s ptr price (and-left _ _ go.0) in
            let on = advance-NotWorse s ptr price limit lo hi b in
            let level = bind-some (get_level (opposite s) ptr e) _ r go.1 in
            let m =
              bind-some
                (match_level (length e.pool.blocks + 1) (opposite s) ptr incoming level.0.head fills
                  e)
                _ r level.2 in
            let here =
              match_level-AllAt (length e.pool.blocks + 1) (opposite s) ptr incoming level.0.head
                fills e m.0 m.1 in
            let rest =
              scan_levels-BestFirst fuel s price incoming (advance s ptr) m.0.0 m.0.1 r lo hi on.1
                m.2 in
            (
              here.0 ++ rest.0,
              rest.1 ∙ (ap (λ t. t ++ rest.0) here.1 ∙ append_assoc fills here.0 rest.0),
              BestFirst-append s ptr ptr price here.0 rest.0 (NotWorse-refl s ptr) limit here.2
                  (BestFirst-weaken s ptr (advance s ptr) price rest.0 on.0 rest.2),
            )
        | inr stop ↦ ([], ground (arith, append-nil fills, stop.1), tt)
      ]
