-- ===== src/Sim/MatchingEngine/Queues/Ring.antt =====
-- sim/domain/matching_engine.cpp: links in both directions, as one ring for each price level. A ring
-- goes from the level through its orders, first come first, and back to the level.
use kalshi_cpp.Prelude.{
  ℕ, ◌≡◌, ◌≢◌, ◌⊎◌, inl, inr, refl, sym, ap, subst, ◌∙◌, Bool, true, false, Option, some, arith,
  ◌==◌, ◌&&◌, ==→eq, Bool-cases,
}
use kalshi_cpp.Sim.MatchingEngine.State.{Side, yes_side, no_side}

-- A place that links lead to: the level of a side and a price, or the order in a block.
pub data Node : Type 0 where
  at_level : Side → ℕ → Node
  in_block : ℕ → Node

abbrev side_eq : Side → Side → Bool
side_eq yes_side yes_side = true
side_eq yes_side no_side = false
side_eq no_side yes_side = false
side_eq no_side no_side = true

abbrev node_eq : Node → Node → Bool
node_eq (at_level s p) (at_level t q) = side_eq s t && p == q
node_eq (at_level s p) (in_block b) = false
node_eq (in_block b) (at_level s p) = false
node_eq (in_block a) (in_block b) = a == b

same_side : (s t : Side) → side_eq s t ≡ true → s ≡ t
same_side yes_side yes_side e = refl
same_side yes_side no_side e = cc
same_side no_side yes_side e = cc
same_side no_side no_side e = refl

same_node : (x y : Node) → node_eq x y ≡ true → x ≡ y
same_node (at_level s p) (at_level t q) e = elim (Bool-cases (side_eq s t)) [
  | inl f ↦
      ap (λ u. at_level u p) (same_side s t f) ∙ ap (at_level t) (==→eq p q (ground (arith, f)))
  | inr f ↦ absurd (ground (arith, f))
]
same_node (at_level s p) (in_block b) e = cc
same_node (in_block b) (at_level s p) e = cc
same_node (in_block a) (in_block b) e = ap in_block (==→eq a b e)

self_side : (s : Side) → side_eq s s ≡ true
self_side yes_side = refl
self_side no_side = refl

self_node : (x : Node) → node_eq x x ≡ true
self_node (at_level s p) = ground (arith, self_side s)
self_node (in_block b) = ground arith

pub Node-cases : (x y : Node) → (x ≡ y) ⊎ (x ≢ y)
Node-cases x y = elim (Bool-cases (node_eq x y)) [
  | inl e ↦ inl (same_node x y e)
  | inr e ↦ inr (λ f. absurd (ground (arith, e, sym (ap (node_eq x) f) ∙ self_node x)))
]

pub some-inj {ℓ} : {A : Type ℓ} (x y : A) → some x ≡ some y → x ≡ y
some-inj x y e = ground arith

-- From every member each link leads to a member, and the other link leads back.
pub record Ring (In : Node → Type 0) (next prev : Node → Option Node) : Type 0 where
  pub forth : (x y : Node) → In x → next x ≡ some y → In y × (prev y ≡ some x)
  pub back : (x y : Node) → In x → prev x ≡ some y → In y × (next y ≡ some x)

pub Ring-flip :
    (In : Node → Type 0) (next prev : Node → Option Node) → Ring In next prev → Ring In prev next
Ring-flip In next prev r = record { forth = r.back; back = r.forth }

-- `links'` is `links` with the link from `a` led to `b`.
pub record Led (links links' : Node → Option Node) (a b : Node) : Type 0 where
  pub here : links' a ≡ some b
  pub away : (x : Node) → x ≢ a → links' x ≡ links x

-- The same, but for what becomes of the links of `c`.
pub record LedPast (links links' : Node → Option Node) (c a b : Node) : Type 0 where
  pub here : links' a ≡ some b
  pub away : (x : Node) → x ≢ a → x ≢ c → links' x ≡ links x

-- The links around a member `c` are led past it.
module _ (In In' : Node → Type 0) (c : Node) (less : (x : Node) → In' x → In x × (x ≢ c))
    (rest : (x : Node) → In x → x ≢ c → In' x) where
  past :
      (next prev next' prev' : Node → Option Node) (a b : Node)
      → Ring In next prev
      → In c
      → next c ≡ some b
      → prev c ≡ some a
      → b ≢ c
      → LedPast next next' c a b
      → LedPast prev prev' c b a
      → (x y : Node) → In' x
      → next' x ≡ some y
      → In' y × (prev' y ≡ some x)
  past next prev next' prev' a b r ic to_b to_a ne n p x y ix e = elim (Node-cases x a) [
    | inl same ↦
        let there : b ≡ y = some-inj b y (sym n.here ∙ sym (ap next' same) ∙ e) in
        (
          subst In' there (rest b (r.forth c b ic to_b).0 ne),
          ap prev' (sym there) ∙ (p.here ∙ ap some (sym same)),
        )
    | inr apart ↦
        let old = r.forth x y (less x ix).0 (sym (n.away x apart (less x ix).1) ∙ e) in
        let not_c : y ≢ c = (λ f. apart (some-inj x a (sym old.1 ∙ (ap prev f ∙ to_a)))) in
        let not_b : y ≢ b =
          (λ f. (less x ix).1 (some-inj x c (sym old.1 ∙ (ap prev f ∙ (r.forth c b ic to_b).1)))) in
        (rest y old.0 not_c, p.away y not_b not_c ∙ old.1)
  ]

  pub Ring-remove :
      (next prev next' prev' : Node → Option Node) (a b : Node)
      → Ring In next prev
      → In c
      → next c ≡ some b
      → prev c ≡ some a
      → b ≢ c
      → LedPast next next' c a b
      → LedPast prev prev' c b a
      → Ring In' next' prev'
  Ring-remove next prev next' prev' a b r ic to_b to_a ne n p =
      let ne' : a ≢ c =
        (λ f. ne (some-inj b c (sym to_b ∙ sym (ap next f) ∙ (r.back c a ic to_a).1))) in
      record {
        forth = past next prev next' prev' a b r ic to_b to_a ne n p;
        back = past prev next prev' next' b a (Ring-flip In next prev r) ic to_a to_b ne' p n;
      }

-- A new member `c` between the neighbours `a` and `z`.
module _ (In In' : Node → Type 0) (c : Node) (outside : ¬ In c) (entered : In' c)
    (more : (x : Node) → In x → In' x) (split : (x : Node) → In' x → x ≢ c → In x) where
  between :
      (next prev next' prev' : Node → Option Node) (a z : Node)
      → Ring In next prev
      → In a
      → In z
      → prev z ≡ some a
      → (next' a ≡ some c) × (next' c ≡ some z)
      → ((x : Node) → x ≢ a → x ≢ c → next' x ≡ next x)
      → (prev' z ≡ some c) × (prev' c ≡ some a)
      → ((x : Node) → x ≢ z → x ≢ c → prev' x ≡ prev x)
      → (x y : Node) → In' x
      → next' x ≡ some y
      → In' y × (prev' y ≡ some x)
  between next prev next' prev' a z r ia iz to_a n n_away p p_away x y ix e =
      elim (Node-cases x a) [
        | inl f ↦
            let there : c ≡ y = some-inj c y (sym n.0 ∙ sym (ap next' f) ∙ e) in
            (subst In' there entered, ap prev' (sym there) ∙ (p.1 ∙ ap some (sym f)))
        | inr apart ↦ elim (Node-cases x c) [
          | inl f ↦
              let there : z ≡ y = some-inj z y (sym n.1 ∙ sym (ap next' f) ∙ e) in
              (subst In' there (more z iz), ap prev' (sym there) ∙ (p.0 ∙ ap some (sym f)))
          | inr old ↦
              let s = r.forth x y (split x ix old) (sym (n_away x apart old) ∙ e) in
              let not_z : y ≢ z = (λ f. apart (some-inj x a (sym s.1 ∙ (ap prev f ∙ to_a)))) in
              let not_c : y ≢ c = (λ f. outside (subst In f s.0)) in
              (more y s.0, p_away y not_z not_c ∙ s.1)
        ]
      ]

  pub Ring-enter :
      (next prev next' prev' : Node → Option Node) (a z : Node)
      → Ring In next prev
      → In z
      → prev z ≡ some a
      → (next' a ≡ some c) × (next' c ≡ some z)
      → ((x : Node) → x ≢ a → x ≢ c → next' x ≡ next x)
      → (prev' z ≡ some c) × (prev' c ≡ some a)
      → ((x : Node) → x ≢ z → x ≢ c → prev' x ≡ prev x)
      → Ring In' next' prev'
  Ring-enter next prev next' prev' a z r iz to_a n n_away p p_away =
      let old = r.back z a iz to_a in
      record {
        forth = between next prev next' prev' a z r old.0 iz to_a n n_away p p_away;
        back =
            between prev next prev' next' z a (Ring-flip In next prev r) iz old.0 old.1 p p_away n
              n_away;
      }
