-- ===== src/Core/FlatHashMap/Erase/Hole.antt =====
-- A table that is valid but for a hole, which keys may have passed: one step moves the hole on.
use kalshi_cpp.Prelude.{
  ℕ, ◌+◌, ◌^◌, ◌≤◌, ◌<◌, ◌≡◌, ◌≢◌, ◌⊎◌, inl, inr, sym, ap, subst, ◌∙◌, List, arith, length,
  ℕ_discrete,
}
use kalshi_cpp.Core.FlatHashMap.{free_key, Slot, next, probe_distance, key_at}
use kalshi_cpp.Core.FlatHashMap.Probe.{
  next-lt, probe_distance-lt, probe_distance_inj, probe_distance-next,
}
use kalshi_cpp.Core.FlatHashMap.Valid.{Valid}

module _ {V : Type 0} (w : ℕ) (narrow : w ≤ 64) where
  pub record Hole (slots : List (Slot V)) (pos : ℕ) : Type 0 where
    pub full_length : length slots ≡ 2 ^ w
    pub in_range : pos < 2 ^ w
    pub free : key_at slots pos ≡ free_key
    pub once :
        (i j : ℕ)
        → i < 2 ^ w
        → j < 2 ^ w
        → key_at slots i ≢ free_key
        → key_at slots i ≡ key_at slots j
        → i ≡ j
    pub passed :
        (i p : ℕ)
        → i < 2 ^ w
        → p < 2 ^ w
        → key_at slots i ≢ free_key
        → probe_distance (2 ^ w) (key_at slots i) p < probe_distance (2 ^ w) (key_at slots i) i
        → ((key_at slots p ≢ free_key)
            × (probe_distance (2 ^ w) (key_at slots i) p
                ≤ probe_distance (2 ^ w) (key_at slots p) p))
          ⊎ (p ≡ pos)

  -- A key that has passed the hole has passed the slot after it too, or stands there.
  beyond :
      (slots : List (Slot V)) (pos i : ℕ)
      → Hole slots pos
      → i < 2 ^ w
      → key_at slots i ≢ free_key
      → probe_distance (2 ^ w) (key_at slots i) pos < probe_distance (2 ^ w) (key_at slots i) i
      → (key_at slots (next (2 ^ w) pos) ≢ free_key)
        × (probe_distance (2 ^ w) (key_at slots i) pos
            < probe_distance (2 ^ w) (key_at slots (next (2 ^ w) pos)) (next (2 ^ w) pos))
  beyond slots pos i o hi real l =
      let from : ℕ = next (2 ^ w) pos in
      let k : ℕ = key_at slots i in
      let d : probe_distance (2 ^ w) k from ≡ probe_distance (2 ^ w) k pos + 1 =
        ground (arith, probe_distance-next w narrow k pos, probe_distance-lt w narrow k i) in
      elim (ℕ_discrete (probe_distance (2 ^ w) k from) (probe_distance (2 ^ w) k i)) [
        | yes e ↦
            let same : from ≡ i =
              probe_distance_inj w narrow k from i (next-lt w narrow pos) hi e in
            subst
              (λ q.
                (key_at slots q ≢ free_key)
                × (probe_distance (2 ^ w) k pos < probe_distance (2 ^ w) (key_at slots q) q))
              (sym same) (real, l)
        | no n ↦ elim (o.passed i from hi (next-lt w narrow pos) real (omega (arith, d))) [
          | inl r ↦ (r.0, omega (arith, d, r.1))
          | inr e ↦ absurd (omega (arith, d, ap (probe_distance (2 ^ w) k) e))
        ]
      ]

  -- The hole closes where the next slot is free or its key is at home.
  pub Hole-closed :
      (slots : List (Slot V)) (pos : ℕ)
      → Hole slots pos
      → (key_at slots (next (2 ^ w) pos) ≡ free_key)
        ⊎ (probe_distance (2 ^ w) (key_at slots (next (2 ^ w) pos)) (next (2 ^ w) pos) ≡ 0)
      → Valid (2 ^ w) slots
  Hole-closed slots pos o stop = record {
    full_length = o.full_length;
    once = o.once;
    passed = λ i p hi hp real l. elim (o.passed i p hi hp real l) [
      | inl r ↦ r
      | inr e ↦
          let b = beyond slots pos i o hi real (
            subst
              (λ q.
                probe_distance (2 ^ w) (key_at slots i) q
                < probe_distance (2 ^ w) (key_at slots i) i)
              e l) in
          absurd (elim stop [ inl f ↦ b.0 f | inr z ↦ omega (arith, b.1, z) ])
    ];
  }

  -- After a move, what a key has passed, other than the new hole, is as far from its home.
  kept :
      (slots slots' : List (Slot V)) (pos : ℕ)
      → Hole slots pos
      → key_at slots (next (2 ^ w) pos) ≢ free_key
      → probe_distance (2 ^ w) (key_at slots (next (2 ^ w) pos)) (next (2 ^ w) pos) ≢ 0
      → key_at slots' pos ≡ key_at slots (next (2 ^ w) pos)
      → key_at slots' (next (2 ^ w) pos) ≡ free_key
      → ((q : ℕ) → q ≢ pos → q ≢ next (2 ^ w) pos → key_at slots' q ≡ key_at slots q)
      → (i p : ℕ) → i < 2 ^ w
      → p < 2 ^ w
      → key_at slots' i ≢ free_key
      → probe_distance (2 ^ w) (key_at slots' i) p < probe_distance (2 ^ w) (key_at slots' i) i
      → p ≢ next (2 ^ w) pos
      → (key_at slots' p ≢ free_key)
        × (probe_distance (2 ^ w) (key_at slots' i) p ≤ probe_distance (2 ^ w) (key_at slots' p) p)
  kept slots slots' pos o taken away self gone others i p hi hp r d c =
      let from : ℕ = next (2 ^ w) pos in
      let y : ℕ = key_at slots from in
      let near : probe_distance (2 ^ w) y from ≡ probe_distance (2 ^ w) y pos + 1 =
        ground (arith, probe_distance-next w narrow y pos) in
      let ni : i ≢ from = λ e. r (ap (key_at slots') e ∙ gone) in
      elim (ℕ_discrete i pos) [
        | yes a ↦
            let ki : key_at slots' i ≡ y = ap (key_at slots') a ∙ self in
            let np : p ≢ pos = λ e. let same : p ≡ i = e ∙ sym a in grind (arith, same) in
            let kp : key_at slots' p ≡ key_at slots p = others p np c in
            let d' : probe_distance (2 ^ w) y p < probe_distance (2 ^ w) y pos =
              grind (arith, ki, a) in
            elim (o.passed from p (next-lt w narrow pos) hp taken (omega (arith, d', near))) [
              | inl b ↦ grind (arith, ki, kp, b)
              | inr b ↦ absurd (np b)
            ]
        | no a ↦
            let ki : key_at slots' i ≡ key_at slots i = others i a ni in
            let ri : key_at slots i ≢ free_key = λ f. r (ki ∙ f) in
            let d' : probe_distance (2 ^ w) (key_at slots i) p
                < probe_distance (2 ^ w) (key_at slots i) i =
              grind (arith, ki) in
            elim (ℕ_discrete p pos) [
              | yes b ↦
                  let kp : key_at slots' p ≡ y = ap (key_at slots') b ∙ self in
                  let m = beyond slots pos i o hi ri (grind (arith, d', b)) in
                  grind (arith, ki, kp, b, near, m)
              | no b ↦
                  let kp : key_at slots' p ≡ key_at slots p = others p b c in
                  elim (o.passed i p hi hp ri d') [
                    | inl m ↦ grind (arith, ki, kp, m)
                    | inr m ↦ absurd (b m)
                  ]
            ]
      ]

  -- The key after the hole moves into it, and its old slot is the hole.
  pub Hole-moved :
      (slots slots' : List (Slot V)) (pos : ℕ)
      → Hole slots pos
      → key_at slots (next (2 ^ w) pos) ≢ free_key
      → probe_distance (2 ^ w) (key_at slots (next (2 ^ w) pos)) (next (2 ^ w) pos) ≢ 0
      → length slots' ≡ length slots
      → key_at slots' pos ≡ key_at slots (next (2 ^ w) pos)
      → key_at slots' (next (2 ^ w) pos) ≡ free_key
      → ((q : ℕ) → q ≢ pos → q ≢ next (2 ^ w) pos → key_at slots' q ≡ key_at slots q)
      → Hole slots' (next (2 ^ w) pos)
  Hole-moved slots slots' pos o taken away l self gone others =
      let from : ℕ = next (2 ^ w) pos in
      let near : probe_distance (2 ^ w) (key_at slots from) from
          ≡ probe_distance (2 ^ w) (key_at slots from) pos + 1 =
        ground (arith, probe_distance-next w narrow (key_at slots from) pos) in
      let not_from : (i : ℕ) → key_at slots' i ≢ free_key → i ≢ from =
        (λ i r e. r (ap (key_at slots') e ∙ gone)) in
      record {
        full_length = l ∙ o.full_length;
        in_range = next-lt w narrow pos;
        free = gone;
        once = λ i j hi hj r e.
            let nj : j ≢ from = (λ f. r (e ∙ (ap (key_at slots') f ∙ gone))) in
            elim (ℕ_discrete i pos) [
              | yes a ↦ elim (ℕ_discrete j pos) [
                | yes b ↦ a ∙ sym b
                | no b ↦ absurd (
                    nj (
                      sym (
                        o.once from j (next-lt w narrow pos) hj taken
                          (sym self ∙ (ap (key_at slots') (sym a) ∙ (e ∙ others j b nj))))))
              ]
              | no a ↦
                  let ki = others i a (not_from i r) in
                  elim (ℕ_discrete j pos) [
                    | yes b ↦ absurd (
                        not_from i r (
                          o.once i from hi (next-lt w narrow pos) (λ f. r (ki ∙ f))
                            (sym ki ∙ (e ∙ (ap (key_at slots') b ∙ self)))))
                    | no b ↦ o.once i j hi hj (λ f. r (ki ∙ f)) (sym ki ∙ (e ∙ others j b nj))
                  ]
            ];
        passed = λ i p hi hp r d. elim (ℕ_discrete p from) [
          | yes c ↦ inr c
          | no c ↦ inl (kept slots slots' pos o taken away self gone others i p hi hp r d c)
        ];
      }
