-- ===== src/Core/FlatHashMap/Find.antt =====
-- core/flat_hash_map.h: `find` gets to the slot of the key, or tells that there is none.
use kalshi_cpp.Prelude.{
  ℕ, zero, suc, ◌+◌, ◌^◌, ◌≤◌, ◌<◌, ◌≡◌, ◌≢◌, ◌⊎◌, inl, inr, sym, ap, ◌∙◌, Option, none, some, List,
  arith, if◌then◌else◌, ◌==◌, ==→eq, ==→ne, lt-cases, ℕ_discrete, if-elim,
}
use kalshi_cpp.Core.FlatHashMap.{
  free_key, Slot, FlatHashMap, home, next, probe_distance, key_at, seek, find,
}
use kalshi_cpp.Core.FlatHashMap.Probe.{
  home-lt, next-lt, probe_distance-lt, probe_distance-home, probe_distance_inj, probe_distance-next,
}
use kalshi_cpp.Core.FlatHashMap.Valid.{Valid, passed_key}

module _ {V : Type 0} (w : ℕ) (narrow : w ≤ 64) where
  -- What a search answers: the slot of the key, or that no slot has it.
  abbrev pub Found : List (Slot V) → ℕ → Option ℕ → Type 0
  Found slots key none = (p : ℕ) → p < 2 ^ w → key_at slots p ≢ key
  Found slots key (some p) = (p < 2 ^ w) × (key_at slots p ≡ key)

  -- A slot at the same distance from the key's home is the same slot.
  other_slot :
      (slots : List (Slot V)) (key pos p : ℕ)
      → key_at slots pos ≢ key
      → pos < 2 ^ w
      → p < 2 ^ w
      → probe_distance (2 ^ w) key p ≡ probe_distance (2 ^ w) key pos
      → key_at slots p ≢ key
  other_slot slots key pos p ne h hp e k =
      ne (ap (key_at slots) (sym (probe_distance_inj w narrow key p pos hp h e)) ∙ k)

  -- The search from a slot on, when every slot before it on the way has another key.
  pub seek_lem :
      (slots : List (Slot V)) (key pos left : ℕ)
      → Valid (2 ^ w) slots
      → key ≢ free_key
      → pos < 2 ^ w
      → (probe_distance (2 ^ w) key pos + left ≡ 2 ^ w) ⊎ (left ≡ 0)
      → ((p : ℕ) → p < 2 ^ w → probe_distance (2 ^ w) key p + left < 2 ^ w → key_at slots p ≢ key)
      → Found slots key (seek (2 ^ w) slots key pos left)
  unfolding seek
  seek_lem slots key pos zero v real h d before =
      if-elim (Found slots key) (key_at slots pos == key) (some pos) none
        (λ e. (h, ==→eq (key_at slots pos) key e))
        (λ e. λ p hp. before p hp (omega (arith, probe_distance-lt w narrow key p)))
  seek_lem slots key pos (suc left) v real h d before =
      let dist = probe_distance (2 ^ w) key pos in
      let here : dist + suc left ≡ 2 ^ w = ground arith in
      if-elim (Found slots key) (key_at slots pos == key) (some pos)
        (if key_at slots pos == free_key
          then none
          else seek (2 ^ w) slots key (next (2 ^ w) pos) left)
        (λ e. (h, ==→eq (key_at slots pos) key e))
        (λ e.
          if-elim (Found slots key) (key_at slots pos == free_key) none
            (seek (2 ^ w) slots key (next (2 ^ w) pos) left)
            (λ f. λ p hp k. elim (lt-cases (probe_distance (2 ^ w) key p) dist) [
              | inl l ↦ before p hp (omega arith) k
              | inr (inl l) ↦ other_slot slots key pos p (==→ne (key_at slots pos) key e) h hp l k
              | inr (inr l) ↦
                  (passed_key (2 ^ w) slots key p pos v real k hp h l).0
                    (==→eq (key_at slots pos) free_key f)
            ])
            (λ f.
              seek_lem slots key (next (2 ^ w) pos) left v real (next-lt w narrow pos)
                (ground (arith, probe_distance-next w narrow key pos))
                (λ p hp k. elim (ℕ_discrete (probe_distance (2 ^ w) key p) dist) [
                  | yes l ↦ other_slot slots key pos p (==→ne (key_at slots pos) key e) h hp l
                  | no n ↦ before p hp (omega arith)
                ])))

  -- find of a key other than EMPTY gets to the slot that holds the key, and answers nullptr only if
  -- no slot does.
  pub find_lem :
      (key : ℕ) (m : FlatHashMap V)
      → Valid (2 ^ w) m.slots
      → key ≢ free_key
      → Found m.slots key (find (2 ^ w) key m)
  unfolding find
  find_lem key m v real =
      seek_lem m.slots key (home (2 ^ w) key) (2 ^ w) v real (home-lt w narrow key)
        (inl (ground (arith, probe_distance-home w narrow key))) (λ p hp k. absurd (omega arith))
