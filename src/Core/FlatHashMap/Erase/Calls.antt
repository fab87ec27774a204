-- ===== src/Core/FlatHashMap/Erase/Calls.antt =====
-- core/flat_hash_map.h: `erase` as a whole, on a table with a free slot.
use kalshi_cpp.Prelude.{
  ℕ, ◌+◌, ◌*◌, ◌^◌, ◌≤◌, ◌<◌, ◌≡◌, ◌≢◌, ◌⊎◌, inl, inr, refl, sym, ap, ◌∙◌, Bool, true, false,
  Option, none, some, List, arith, get_elem?-lt, ℕ_discrete, sub_size,
}
use kalshi_cpp.Core.FlatHashMap.{
  free_key, Slot, FlatHashMap, next, key_at, set_key, erase, erase_at, erased,
}
use kalshi_cpp.Core.FlatHashMap.Probe.{next-lt, walk_reaches}
use kalshi_cpp.Core.FlatHashMap.Valid.{Valid, key_at-Holds}
use kalshi_cpp.Core.FlatHashMap.Used.{used, used-le, free_slot, used-set_key_free}
use kalshi_cpp.Core.FlatHashMap.Find.{Found, find_lem}
use kalshi_cpp.Core.FlatHashMap.Insert.Contents.{Has}
use kalshi_cpp.Core.FlatHashMap.Insert.Calls.{Sound}
use kalshi_cpp.Core.FlatHashMap.Erase.Shift.{Closed, shift_back_lem}
use native.Mathlib.Nat.{pow-le-pow_right, mul-le-mul_left, mul-one, one-le-pow}
use kalshi_cpp.Core.FlatHashMap.Erase.Hole.{Hole}
use kalshi_cpp.Core.FlatHashMap.Erase.Move.{
  length-set_key, key_at-set_key_self, key_at-set_key_ne, get_elem?-set_key_ne,
}

module _ {V : Type 0} (w : ℕ) (narrow : w < 64) where
  -- What a call of erase leaves when the key was there.
  pub record Erasure (m : FlatHashMap V) (k : ℕ) (r : Option (Bool × FlatHashMap V)) : Type 0 where
    pub rest : FlatHashMap V
    pub result : r ≡ some (true, rest)
    pub sound : Sound w narrow rest
    pub absent : (q : ℕ) → q < 2 ^ w → key_at rest.slots q ≢ k
    pub kept :
        (k' : ℕ) (v : V)
        → k' ≢ free_key
        → k' ≢ k
        → Has (2 ^ w) m.slots k' v
        → Has (2 ^ w) rest.slots k' v
    pub only :
        (k' : ℕ) (v : V) → k' ≢ free_key → Has (2 ^ w) rest.slots k' v → Has (2 ^ w) m.slots k' v

  Hole-erased :
      (slots : List (Slot V)) (p : ℕ)
      → Valid (2 ^ w) slots
      → p < 2 ^ w
      → Hole w (omega arith) (set_key slots p free_key) p
  Hole-erased slots p v hp =
      let off : (i : ℕ) → key_at (set_key slots p free_key) i ≢ free_key → p ≢ i = (λ i r e.
        r (ap (key_at (set_key slots p free_key)) (sym e) ∙ key_at-set_key_self slots p)) in
      record {
        full_length = length-set_key slots p free_key ∙ v.full_length;
        in_range = hp;
        free = key_at-set_key_self slots p;
        once = λ i j hi hj r e.
            let ki = key_at-set_key_ne slots p i free_key (off i r) in
            let kj = key_at-set_key_ne slots p j free_key (off j (λ f. r (e ∙ f))) in
            v.once i j hi hj (λ f. r (ki ∙ f)) (sym ki ∙ (e ∙ kj));
        passed = λ i q hi hq r d.
            let ki = key_at-set_key_ne slots p i free_key (off i r) in
            elim (ℕ_discrete p q) [
              | yes e ↦ inr (sym e)
              | no n ↦
                  let kq = key_at-set_key_ne slots p q free_key n in
                  let o = v.passed i q hi hq (λ f. r (ki ∙ f)) (grind (arith, ki)) in
                  inl (grind (arith, ki, kq, o))
            ];
      }

  -- The erased key is in no slot.
  gone :
      (slots : List (Slot V)) (k p q : ℕ)
      → Valid (2 ^ w) slots
      → k ≢ free_key
      → p < 2 ^ w
      → key_at slots p ≡ k
      → q < 2 ^ w
      → key_at (set_key slots p free_key) q ≢ k
  gone slots k p q v real hp e hq f = elim (ℕ_discrete p q) [
    | yes g ↦
        real
          (sym f ∙ (ap (key_at (set_key slots p free_key)) (sym g) ∙ key_at-set_key_self slots p))
    | no n ↦
        let kq : key_at slots q ≡ k = sym (key_at-set_key_ne slots p q free_key n) ∙ f in
        n (v.once p q hp hq (λ g. real (sym e ∙ g)) (e ∙ sym kq))
  ]

  Erasure-Closed :
      (m : FlatHashMap V) (k p : ℕ) (r : Option (List (Slot V)))
      → Sound w narrow m
      → k ≢ free_key
      → p < 2 ^ w
      → key_at m.slots p ≡ k
      → Closed w narrow (set_key m.slots p free_key) r
      → Erasure m k (erased m r)
  unfolding erased
  Erasure-Closed m k p r s real hp e c =
      let removed : List (Slot V) = set_key m.slots p free_key in
      let fewer : used removed + 1 ≡ used m.slots =
        used-set_key_free m.slots p (λ f. real (sym e ∙ f)) in
      let word : 2 ^ w ≤ 2 ^ 63 =
        pow-le-pow_right {n = 2} (omega arith) {i = w} {j = 63} (omega arith) in
      let below : used m.slots ≤ 2 ^ w = omega (arith, used-le m.slots, s.valid.full_length) in
      record {
        rest = record { slots = c.slots'; count = sub_size m.count 1 };
        result = rw c.result refl;
        sound = record {
          valid = c.valid;
          counted = omega (arith, word, below, fewer, c.same_used, s.counted);
        };
        absent = λ q hq f.
            let slot = get_elem?-lt c.slots' q (omega (arith, hq, c.valid.full_length)) in
            let key : slot.0.key ≡ k =
              sym (key_at-Holds c.slots' q slot.0.key slot.0.value slot.1) ∙ f in
            let h = c.back slot.0.key slot.0.value (λ g. real (sym key ∙ g)) (q, hq, slot.1) in
            gone m.slots k p h.0 s.valid real hp e h.1
              (key_at-Holds removed h.0 slot.0.key slot.0.value h.2 ∙ key);
        kept = λ k' v r ne h. c.onto k' v r (
          h.0,
          h.1,
          get_elem?-set_key_ne m.slots p h.0 free_key (λ g.
                ne (sym (key_at-Holds m.slots h.0 k' v h.2) ∙ (ap (key_at m.slots) (sym g) ∙ e)))
              ∙ h.2,
        );
        only = λ k' v r h.
            let old = c.back k' v r h in
            let apart : p ≢ old.0 = (λ g. r (
              sym (key_at-Holds removed old.0 k' v old.2)
              ∙ (ap (key_at removed) (sym g) ∙ key_at-set_key_self m.slots p))) in
            (old.0, old.1, sym (get_elem?-set_key_ne m.slots p old.0 free_key apart) ∙ old.2);
      }

  -- The loop finds another free slot of the table.
  erase_found :
      (m : FlatHashMap V) (k p : ℕ)
      → Sound w narrow m
      → k ≢ free_key
      → used m.slots < 2 ^ w
      → p < 2 ^ w
      → key_at m.slots p ≡ k
      → Erasure m k (erase_at (2 ^ w) (some p) m)
  unfolding erase_at
  erase_found m k p s real room hp e =
      let free = free_slot m.slots (omega (arith, room, s.valid.full_length)) in
      let from : ℕ = next (2 ^ w) p in
      let n =
        walk_reaches w (omega arith) from free.0 (next-lt w (omega arith) p)
          (omega (arith, free.1, s.valid.full_length)) in
      let apart : p ≢ free.0 = (λ g. real (sym e ∙ (ap (key_at m.slots) g ∙ free.2))) in
      let enough : 2 ^ w ≤ 2 ^ w * 2 ^ w = omega (
        arith,
        mul-le-mul_left {m = 1} {n = 2 ^ w} (2 ^ w) (one-le-pow w 2 (omega arith)),
        mul-one (2 ^ w),
      ) in
      Erasure-Closed m k p _ s real hp e (
        shift_back_lem w narrow (set_key m.slots p free_key) p n.0 (2 ^ w * 2 ^ w)
          (Hole-erased m.slots p s.valid hp) (omega (arith, n.1, enough))
          (ap (key_at (set_key m.slots p free_key)) n.2
            ∙ (key_at-set_key_ne m.slots p free.0 free_key apart ∙ free.2))
          (λ g. apart (sym (sym n.2 ∙ g))))

  erase_by_find :
      (m : FlatHashMap V) (k : ℕ) (o : Option ℕ)
      → Sound w narrow m
      → k ≢ free_key
      → used m.slots < 2 ^ w
      → Found w (omega arith) m.slots k o
      → Erasure m k (erase_at (2 ^ w) o m)
        ⊎ ((erase_at (2 ^ w) o m ≡ some (false, m)) × ((q : ℕ) → q < 2 ^ w → key_at m.slots q ≢ k))
  unfolding erase_at
  erase_by_find m k none s real room f = inr (refl, f)
  erase_by_find m k (some p) s real room f = inl (erase_found m k p s real room f.0 f.1)

  -- erase of a key other than EMPTY from a sound table with a free slot returns: with true and a
  -- sound table without the key and with the others as they were, or, only if the table does not
  -- have the key, with false and the table unchanged.
  pub erase_lem :
      (m : FlatHashMap V) (k : ℕ)
      → Sound w narrow m
      → k ≢ free_key
      → used m.slots < 2 ^ w
      → Erasure m k (erase (2 ^ w) k m)
        ⊎ ((erase (2 ^ w) k m ≡ some (false, m)) × ((q : ℕ) → q < 2 ^ w → key_at m.slots q ≢ k))
  unfolding erase
  erase_lem m k s real room =
      erase_by_find m k _ s real room (find_lem w (omega arith) k m s.valid real)
