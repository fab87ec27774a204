-- ===== src/Core/FlatHashMap/Erase/Shift.antt =====
-- core/flat_hash_map.h: the loop of `erase`, which ends when a free slot is within reach.
use kalshi_cpp.Prelude.{
  ℕ, zero, suc, ◌^◌, ◌<◌, ◌≡◌, ◌≢◌, refl, sym, ap, ◌∙◌, Option, some, List, arith, ◌==◌, ◌||◌,
  if-elim,
}
use kalshi_cpp.Core.FlatHashMap.{free_key, Slot, next, probe_distance, key_at, shift_back}
use kalshi_cpp.Core.FlatHashMap.Probe.{next-lt, walk}
use kalshi_cpp.Core.FlatHashMap.Valid.{Valid}
use kalshi_cpp.Core.FlatHashMap.Used.{used}
use kalshi_cpp.Core.FlatHashMap.Insert.Contents.{Has}
use kalshi_cpp.Core.FlatHashMap.Erase.Hole.{Hole, Hole-closed, Hole-moved}
use kalshi_cpp.Core.FlatHashMap.Erase.Move.{Move, Move-moved, moved}

module _ {V : Type 0} (w : ℕ) (narrow : w < 64) where
  -- What the loop of erase leaves: a valid table with the keys that were there.
  pub record Closed (slots : List (Slot V)) (r : Option (List (Slot V))) : Type 0 where
    pub slots' : List (Slot V)
    pub result : r ≡ some slots'
    pub valid : Valid (2 ^ w) slots'
    pub same_used : used slots' ≡ used slots
    pub onto : (k : ℕ) (v : V) → k ≢ free_key → Has (2 ^ w) slots k v → Has (2 ^ w) slots' k v
    pub back : (k : ℕ) (v : V) → k ≢ free_key → Has (2 ^ w) slots' k v → Has (2 ^ w) slots k v

  Closed-here : (slots : List (Slot V)) → Valid (2 ^ w) slots → Closed slots (some slots)
  Closed-here slots v = record {
    slots' = slots;
    result = refl;
    valid = v;
    same_used = refl;
    onto = λ k v r h. h;
    back = λ k v r h. h;
  }

  Closed-moved :
      (slots slots' : List (Slot V)) (pos from : ℕ) (r : Option (List (Slot V)))
      → Move (2 ^ w) slots slots' pos from
      → Closed slots' r
      → Closed slots r
  Closed-moved slots slots' pos from r m c = record {
    slots' = c.slots';
    result = c.result;
    valid = c.valid;
    same_used = c.same_used ∙ m.same_used;
    onto = λ k v r h. c.onto k v r (m.onto k v r h);
    back = λ k v r h. m.back k v r (c.back k v r h);
  }

  -- From a hole on, when another free slot is `n` slots after the next one.
  pub shift_back_lem :
      (slots : List (Slot V)) (pos n fuel : ℕ)
      → Hole w (omega arith) slots pos
      → n < fuel
      → key_at slots (walk (2 ^ w) n (next (2 ^ w) pos)) ≡ free_key
      → walk (2 ^ w) n (next (2 ^ w) pos) ≢ pos
      → Closed slots (shift_back (2 ^ w) slots pos (next (2 ^ w) pos) fuel)
  unfolding shift_back
  shift_back_lem slots pos n zero o l free other = absurd (omega arith)
  shift_back_lem slots pos zero (suc fuel) o l free other =
      if-elim (Closed slots)
        (key_at slots (next (2 ^ w) pos) == free_key
          || probe_distance (2 ^ w) (key_at slots (next (2 ^ w) pos)) (next (2 ^ w) pos) == 0)
        (some slots) _
        (λ e. Closed-here slots (Hole-closed w (omega arith) slots pos o (ground arith)))
        (λ e. absurd (ground arith))
  shift_back_lem slots pos (suc n) (suc fuel) o l free other =
      let from : ℕ = next (2 ^ w) pos in
      if-elim (Closed slots)
        (key_at slots from == free_key || probe_distance (2 ^ w) (key_at slots from) from == 0)
        (some slots) _
        (λ e. Closed-here slots (Hole-closed w (omega arith) slots pos o (ground arith)))
        (λ e.
          let taken : key_at slots from ≢ free_key = ground arith in
          let away : probe_distance (2 ^ w) (key_at slots from) from ≢ 0 = ground arith in
          let q : ℕ = walk (2 ^ w) n (next (2 ^ w) from) in
          let q_from : q ≢ from = (λ g. taken (ap (key_at slots) (sym g) ∙ free)) in
          let m : Move (2 ^ w) slots (moved slots pos from) pos from =
            Move-moved (2 ^ w) slots pos from o.full_length o.in_range (next-lt w (omega arith) pos)
              o.free taken in
          Closed-moved slots (moved slots pos from) pos from _ m (
            shift_back_lem (moved slots pos from) from n fuel
              (Hole-moved w (omega arith) slots (moved slots pos from) pos o taken away
                m.same_length m.filled m.freed m.others)
              (omega arith) (m.others q other q_from ∙ free) q_from))
