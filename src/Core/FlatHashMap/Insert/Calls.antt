-- ===== src/Core/FlatHashMap/Insert/Calls.antt =====
-- core/flat_hash_map.h: `insert` as a whole, on a table that holds the key or has a free slot.
use kalshi_cpp.Prelude.{
  ℕ, ◌-◌, ◌^◌, ◌≤◌, ◌<◌, ◌≡◌, ◌≢◌, inr, refl, sym, ap, subst, ◌∙◌, Bool, true, Option, none, some,
  List, arith, set, length-set, next_size,
}
use native.Mathlib.Nat.{pow-le-pow_right, mod-eq_of_lt}
use kalshi_cpp.Core.FlatHashMap.{
  free_key, Slot, Placed, FlatHashMap, home, probe_distance, key_at, place, counted, insert,
}
use kalshi_cpp.Core.FlatHashMap.Probe.{
  home-lt, probe_distance-lt, probe_distance-home, walk_reaches,
}
use kalshi_cpp.Core.FlatHashMap.Valid.{Valid}
use kalshi_cpp.Core.FlatHashMap.Used.{used, free_slot, used-set_taken}
use kalshi_cpp.Core.FlatHashMap.Find.{Found, find_lem}
use kalshi_cpp.Core.FlatHashMap.Insert.Contents.{Inserted, Inserted-set}
use kalshi_cpp.Core.FlatHashMap.Insert.Present.{place_old, updated, Valid-same, set_same_key}
use kalshi_cpp.Core.FlatHashMap.Insert.Loop.{Grown, place_new}

module _ {V : Type 0} (w : ℕ) (narrow : w < 64) where
  -- A table in use: valid, and size_ counts its keys.
  pub record Sound (m : FlatHashMap V) : Type 0 where
    pub valid : Valid (2 ^ w) m.slots
    pub counted : m.count ≡ used m.slots

  -- What a call of insert leaves when it succeeds.
  pub record Insertion (m : FlatHashMap V) (k : ℕ) (v : V) (r : Bool × FlatHashMap V) : Type 0 where
    pub ok : r.0 ≡ true
    pub sound : Sound r.1
    pub contents : Inserted (2 ^ w) m.slots k v r.1.slots

  -- The home of a key is the slot from which its distance is 0.
  place-home :
      (slots : List (Slot V)) (k : ℕ) (v : V)
      → place (2 ^ w) slots k v (home (2 ^ w) k) 0 (2 ^ w - 1)
        ≡ place
            (2 ^ w)
            slots
            k
            v
            (home (2 ^ w) k)
            (probe_distance (2 ^ w) k (home (2 ^ w) k))
            (2 ^ w - 1)
  place-home slots k v =
      ap (λ d. place (2 ^ w) slots k v (home (2 ^ w) k) d (2 ^ w - 1))
        (sym (probe_distance-home w (omega arith) k))

  Insertion-updated :
      (m : FlatHashMap V) (k : ℕ) (v : V) (p : ℕ)
      → Sound m
      → k ≢ free_key
      → p < 2 ^ w
      → key_at m.slots p ≡ k
      → Insertion m k v (counted (updated w (omega arith) m.slots k v p) m)
  unfolding counted
  Insertion-updated m k v p s real hp e =
      let slot : Slot V = record { key = k; value = v } in
      record {
        ok = refl;
        sound = record {
          valid =
              Valid-same (2 ^ w) m.slots (set m.slots p slot) (length-set m.slots p slot)
                (set_same_key m.slots p slot e) s.valid;
          counted = s.counted ∙ sym (used-set_taken m.slots p slot (λ f. real (sym e ∙ f)) real);
        };
        contents =
            Inserted-set (2 ^ w) m.slots k v p hp s.valid.full_length (inr e)
              (λ q hq f. s.valid.once q p hq hp (λ g. real (sym f ∙ g)) (f ∙ sym e));
      }

  Insertion-Grown :
      (m : FlatHashMap V) (k : ℕ) (v : V) (r : Placed V)
      → Sound m
      → used m.slots < 2 ^ w
      → Grown w (omega arith) m.slots k v r
      → Insertion m k v (counted r m)
  unfolding counted
  Insertion-Grown m k v r s room g =
      let word : 2 ^ w ≤ 2 ^ 63 =
        pow-le-pow_right {n = 2} (omega arith) {i = w} {j = 63} (omega arith) in
      record {
        ok = g.ok;
        sound = record {
          valid = g.valid;
          counted = rw g.inserting_new (
              ap (λ c. next_size c) s.counted
              ∙ (mod-eq_of_lt (omega (arith, room, word)) ∙ sym g.used_grows));
        };
        contents = g.contents;
      }

  insert_old :
      (m : FlatHashMap V) (k : ℕ) (v : V) (p : ℕ)
      → Sound m
      → k ≢ free_key
      → p < 2 ^ w
      → key_at m.slots p ≡ k
      → Insertion m k v (insert (2 ^ w) k v m)
  unfolding insert
  insert_old m k v p s real hp e =
      let found =
        place_old w (omega arith) m.slots k v p (home (2 ^ w) k) (2 ^ w - 1) s.valid real hp e
          (home-lt w (omega arith) k) (omega (arith, probe_distance-home w (omega arith) k))
          (omega (arith, probe_distance-lt w (omega arith) k p)) in
      subst (λ r. Insertion m k v (counted r m)) (sym (place-home m.slots k v ∙ found))
        (Insertion-updated m k v p s real hp e)

  insert_new :
      (m : FlatHashMap V) (k : ℕ) (v : V)
      → Sound m
      → k ≢ free_key
      → ((q : ℕ) → q < 2 ^ w → key_at m.slots q ≢ k)
      → used m.slots < 2 ^ w
      → Insertion m k v (insert (2 ^ w) k v m)
  unfolding insert
  insert_new m k v s real absent room =
      let free = free_slot m.slots (omega (arith, room, s.valid.full_length)) in
      let n =
        walk_reaches w (omega arith) (home (2 ^ w) k) free.0 (home-lt w (omega arith) k)
          (omega (arith, free.1, s.valid.full_length)) in
      Insertion-Grown m k v _ s room (
        place_new w (omega arith) m.slots k v (home (2 ^ w) k) 0 (2 ^ w - 1) n.0
          (record {
            valid = s.valid;
            real = real;
            in_range = home-lt w (omega arith) k;
            distance = sym (probe_distance-home w (omega arith) k);
            absent = absent;
            behind = λ p hp l. absurd (omega (arith, probe_distance-home w (omega arith) k));
          })
          (omega arith) (omega (arith, n.1)) (ap (key_at m.slots) n.2 ∙ free.2))

  insert_by_find :
      (m : FlatHashMap V) (k : ℕ) (v : V) (o : Option ℕ)
      → Sound m
      → k ≢ free_key
      → used m.slots < 2 ^ w
      → Found w (omega arith) m.slots k o
      → Insertion m k v (insert (2 ^ w) k v m)
  insert_by_find m k v none s real room f = insert_new m k v s real f room
  insert_by_find m k v (some p) s real room f = insert_old m k v p s real f.0 f.1

  pub insert_lem :
      (m : FlatHashMap V) (k : ℕ) (v : V)
      → Sound m
      → k ≢ free_key
      → used m.slots < 2 ^ w
      → Insertion m k v (insert (2 ^ w) k v m)
  insert_lem m k v s real room =
      insert_by_find m k v _ s real room (find_lem w (omega arith) k m s.valid real)
