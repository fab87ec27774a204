-- ===== src/Core/FlatHashMap/Insert/Present.antt =====
-- The loop of `insert` for a key that the table has: it gets to the key's slot without taking one over.
use kalshi_cpp.Prelude.{
  ℕ, zero, suc, ◌+◌, ◌^◌, ◌≤◌, ◌<◌, ◌≡◌, ◌≢◌, refl, sym, ap, subst, ◌∙◌, Bool, true, false, List,
  [], ◌∷◌, arith, set, length, if◌then◌else◌, ne→==, eq→==, ltb, ℕ_discrete,
}
use kalshi_cpp.Core.FlatHashMap.{
  free_key, Slot, Placed, next, probe_distance, key_at, value_at, place, stops, fill_slot, refused,
}
use kalshi_cpp.Core.FlatHashMap.Probe.{
  next-lt, probe_distance-lt, probe_distance_inj, probe_distance-next,
}
use kalshi_cpp.Core.FlatHashMap.Valid.{Valid, passed_key}

module _ {V : Type 0} where
  -- A table that has the same key in every slot is as valid.
  pub Valid-same :
      (size : ℕ) (slots slots' : List (Slot V))
      → length slots' ≡ length slots
      → ((q : ℕ) → key_at slots' q ≡ key_at slots q)
      → Valid size slots
      → Valid size slots'
  Valid-same size slots slots' l same ok = record {
    full_length = l ∙ ok.full_length;
    once = λ i j hi hj r e. ok.once i j hi hj (λ f. r (same i ∙ f)) (sym (same i) ∙ (e ∙ same j));
    passed = λ i p hi hp r d.
        let o = ok.passed i p hi hp (λ f. r (same i ∙ f)) in grind (arith, same i, same p);
  }

  pub set_same_key :
      (slots : List (Slot V)) (i : ℕ) (s : Slot V)
      → key_at slots i ≡ s.key
      → (q : ℕ) → key_at (set slots i s) q ≡ key_at slots q
  set_same_key [] i s e q = refl
  set_same_key (t ∷ slots) zero s e zero = sym e
  set_same_key (t ∷ slots) zero s e (suc q) = refl
  set_same_key (t ∷ slots) (suc i) s e zero = refl
  set_same_key (t ∷ slots) (suc i) s e (suc q) = set_same_key slots i s e q

module _ {V : Type 0} (w : ℕ) (narrow : w ≤ 64) where
  abbrev pub updated : List (Slot V) → ℕ → V → ℕ → Placed V
  updated slots k v i = record {
    ok = true;
    inserting_new = false;
    slots = set slots i (record { key = k; value = v });
  }

  at_key :
      (slots : List (Slot V)) (k : ℕ) (v : V) (i : ℕ) (other : Placed V)
      → k ≢ free_key
      → key_at slots i ≡ k
      → (if stops (key_at slots i) k then fill_slot slots k v i else other) ≡ updated slots k v i
  at_key slots k v i other real e = rw (e, ne→== k free_key real, eq→== k k refl) refl

  skip :
      (stop swapped : Bool) (a : Placed V) (f : Bool → Placed V)
      → stop ≡ false
      → swapped ≡ false
      → (if stop then a else f swapped) ≡ f false
  skip true swapped a f e g = cc
  skip false true a f e g = cc
  skip false false a f e g = refl

  -- On the way to the key, every slot is taken, by another key at least as far from its home.
  way :
      (slots : List (Slot V)) (k i pos : ℕ)
      → Valid (2 ^ w) slots
      → k ≢ free_key
      → i < 2 ^ w
      → key_at slots i ≡ k
      → pos < 2 ^ w
      → probe_distance (2 ^ w) k pos < probe_distance (2 ^ w) k i
      → (stops (key_at slots pos) k ≡ false)
        × (ltb (probe_distance (2 ^ w) (key_at slots pos) pos) (probe_distance (2 ^ w) k pos)
            ≡ false)
  way slots k i pos ok real hi e h l =
      let r = passed_key (2 ^ w) slots k i pos ok real e hi h l in
      let other : key_at slots pos ≢ k = λ f.
        let same : pos ≡ i = ok.once pos i h hi (λ g. real (sym f ∙ g)) (f ∙ sym e) in
        grind (arith, same) in
      (ground (arith, r.0, other), ground (arith, r.1))

  -- The loop from a slot on the way to the key's.
  pub place_old :
      (slots : List (Slot V)) (k : ℕ) (v : V) (i pos left : ℕ)
      → Valid (2 ^ w) slots
      → k ≢ free_key
      → i < 2 ^ w
      → key_at slots i ≡ k
      → pos < 2 ^ w
      → probe_distance (2 ^ w) k pos ≤ probe_distance (2 ^ w) k i
      → probe_distance (2 ^ w) k i ≤ probe_distance (2 ^ w) k pos + left
      → place (2 ^ w) slots k v pos (probe_distance (2 ^ w) k pos) left ≡ updated slots k v i
  unfolding place
  place_old slots k v i pos zero ok real hi e h le ge =
      let same : i ≡ pos = probe_distance_inj w narrow k i pos hi h (omega arith) in
      subst (λ q. place (2 ^ w) slots k v q (probe_distance (2 ^ w) k q) 0 ≡ updated slots k v i)
        same (at_key slots k v i (refused slots) real e)
  place_old slots k v i pos (suc left) ok real hi e h le ge =
      elim (ℕ_discrete (probe_distance (2 ^ w) k i) (probe_distance (2 ^ w) k pos)) [
        | yes q ↦
            subst
              (λ q.
                place (2 ^ w) slots k v q (probe_distance (2 ^ w) k q) (suc left)
                ≡ updated slots k v i)
              (probe_distance_inj w narrow k i pos hi h q) (at_key slots k v i _ real e)
        | no n ↦
            let l : probe_distance (2 ^ w) k pos < probe_distance (2 ^ w) k i = omega arith in
            let r = way slots k i pos ok real hi e h l in
            let d : probe_distance (2 ^ w) k (next (2 ^ w) pos) ≡ probe_distance (2 ^ w) k pos + 1 =
              ground (arith, probe_distance-next w narrow k pos, probe_distance-lt w narrow k i) in
            skip (stops (key_at slots pos) k)
              (ltb (probe_distance (2 ^ w) (key_at slots pos) pos) (probe_distance (2 ^ w) k pos))
              (fill_slot slots k v pos)
              (λ b.
                place (2 ^ w) (if b then set slots pos (record { key = k; value = v }) else slots)
                  (if b then key_at slots pos else k) (if b then value_at slots pos v else v)
                  (next (2 ^ w) pos)
                  ((if b
                      then probe_distance (2 ^ w) (key_at slots pos) pos
                      else probe_distance (2 ^ w) k pos)
                    + 1)
                  left)
              r.0 r.1
            ∙ (ap (λ t. place (2 ^ w) slots k v (next (2 ^ w) pos) t left) (sym d)
                ∙ place_old slots k v i (next (2 ^ w) pos) left ok real hi e (next-lt w narrow pos)
                    (omega (arith, d)) (omega (arith, d)))
      ]
