-- ===== src/Core/FlatHashMap/Insert/Loop.antt =====
-- The loop of `insert` for a key that the table lacks, when a free slot is within reach.
use kalshi_cpp.Prelude.{
  ℕ, zero, suc, ◌+◌, ◌^◌, ◌≤◌, ◌<◌, ◌≡◌, ◌≢◌, inl, refl, sym, ap, subst, ◌∙◌, Bool, true, false,
  List, arith, set, if◌then◌else◌, eq→==, ltb, if-elim,
}
use kalshi_cpp.Core.FlatHashMap.{
  free_key, Slot, Placed, next, probe_distance, key_at, value_at, place, stops, fill_slot, refused,
}
use kalshi_cpp.Core.FlatHashMap.Probe.{walk, next-lt, probe_distance-next}
use kalshi_cpp.Core.FlatHashMap.Valid.{Valid, Holds-key_at, key_at-set_self, key_at-set_ne}
use kalshi_cpp.Core.FlatHashMap.Used.{used, used-set_free, used-set_taken}
use kalshi_cpp.Core.FlatHashMap.Insert.Fill.{Behind, Absent, Valid-set}
use kalshi_cpp.Core.FlatHashMap.Insert.Contents.{Inserted, Inserted-set, Inserted-swap}
use kalshi_cpp.Core.FlatHashMap.Insert.Carry.{Behind-next, Behind-resident, Absent-resident}

module _ {V : Type 0} (w : ℕ) (narrow : w ≤ 64) where
  -- The insertion of a new key succeeded.
  pub record Grown (slots : List (Slot V)) (k : ℕ) (v : V) (r : Placed V) : Type 0 where
    pub ok : r.ok ≡ true
    pub inserting_new : r.inserting_new ≡ true
    pub valid : Valid (2 ^ w) r.slots
    pub contents : Inserted (2 ^ w) slots k v r.slots
    pub used_grows : used r.slots ≡ used slots + 1

  -- The loop carries `k`, which is nowhere in the table, and has come `dist` slots from its home.
  pub record Carrying (slots : List (Slot V)) (k pos dist : ℕ) : Type 0 where
    pub valid : Valid (2 ^ w) slots
    pub real : k ≢ free_key
    pub in_range : pos < 2 ^ w
    pub distance : dist ≡ probe_distance (2 ^ w) k pos
    pub absent : Absent (2 ^ w) slots k
    pub behind : Behind (2 ^ w) slots k pos

  Grown-fill :
      (slots : List (Slot V)) (k : ℕ) (v : V) (pos dist : ℕ)
      → Carrying slots k pos dist
      → key_at slots pos ≡ free_key
      → Grown slots k v (fill_slot slots k v pos)
  Grown-fill slots k v pos dist c free = record {
    ok = refl;
    inserting_new = eq→== (key_at slots pos) free_key free;
    valid =
        Valid-set (2 ^ w) slots k v pos c.valid c.real c.in_range c.absent c.behind
          (λ n. absurd (n free));
    contents =
        Inserted-set (2 ^ w) slots k v pos c.in_range c.valid.full_length (inl free)
          (λ p hp e. absurd (c.absent p hp e));
    used_grows =
        used-set_free slots pos (record { key = k; value = v })
          (omega (arith, c.in_range, c.valid.full_length)) free c.real;
  }

  Carrying-on :
      (slots : List (Slot V)) (k pos dist : ℕ)
      → Carrying slots k pos dist
      → key_at slots pos ≢ free_key
      → dist + 1 < 2 ^ w
      → dist ≤ probe_distance (2 ^ w) (key_at slots pos) pos
      → Carrying slots k (next (2 ^ w) pos) (dist + 1)
  Carrying-on slots k pos dist c taken room far = record {
    valid = c.valid;
    real = c.real;
    in_range = next-lt w narrow pos;
    distance = ground (arith, probe_distance-next w narrow k pos, c.distance);
    absent = c.absent;
    behind =
        Behind-next w narrow slots k pos c.in_range (omega (arith, c.distance)) taken
          (omega (arith, c.distance)) c.behind;
  }

  Carrying-resident :
      (slots : List (Slot V)) (k : ℕ) (v : V) (pos dist : ℕ)
      → Carrying slots k pos dist
      → key_at slots pos ≢ free_key
      → dist < 2 ^ w
      → probe_distance (2 ^ w) (key_at slots pos) pos < dist
      → Carrying
          (set slots pos (record { key = k; value = v }))
          (key_at slots pos)
          (next (2 ^ w) pos)
          (probe_distance (2 ^ w) (key_at slots pos) pos + 1)
  Carrying-resident slots k v pos dist c taken room near =
      let s : Slot V = record { key = k; value = v } in
      let self : key_at (set slots pos s) pos ≡ k =
        key_at-set_self slots pos s (omega (arith, c.in_range, c.valid.full_length)) in
      record {
        valid =
            Valid-set (2 ^ w) slots k v pos c.valid c.real c.in_range c.absent c.behind
              (λ t. omega (arith, c.distance));
        real = taken;
        in_range = next-lt w narrow pos;
        distance = ground (arith, probe_distance-next w narrow (key_at slots pos) pos);
        absent =
            Absent-resident w narrow slots k v pos c.valid c.in_range (c.absent pos c.in_range)
              taken;
        behind =
            Behind-next w narrow (set slots pos s) (key_at slots pos) pos c.in_range (omega arith)
              (λ f. c.real (sym self ∙ f))
              (subst
                (λ t. probe_distance (2 ^ w) (key_at slots pos) pos ≤ probe_distance (2 ^ w) t pos)
                (sym self) (omega (arith, c.distance)))
              (Behind-resident w narrow slots k v pos c.valid c.in_range taken);
      }

  Grown-swap :
      (slots : List (Slot V)) (k : ℕ) (v : V) (pos dist : ℕ) (r : Placed V)
      → Carrying slots k pos dist
      → key_at slots pos ≢ free_key
      → Grown
          (set slots pos (record { key = k; value = v }))
          (key_at slots pos)
          (value_at slots pos v)
          r
      → Grown slots k v r
  Grown-swap slots k v pos dist r c taken g = record {
    ok = g.ok;
    inserting_new = g.inserting_new;
    valid = g.valid;
    contents =
        Inserted-swap (2 ^ w) slots k v pos (key_at slots pos) (value_at slots pos v) r.slots
          c.in_range c.valid.full_length taken c.real
          (Holds-key_at slots pos v (omega (arith, c.in_range, c.valid.full_length)))
          (c.absent pos c.in_range) c.absent
          (λ p hp e. c.valid.once p pos hp c.in_range (λ f. taken (sym e ∙ f)) e) g.contents;
    used_grows = omega (
      arith,
      g.used_grows,
      used-set_taken slots pos (record { key = k; value = v }) taken c.real,
    );
  }

  -- A free slot stays free when another one is written.
  free-set :
      (slots : List (Slot V)) (pos q : ℕ) (s : Slot V)
      → key_at slots pos ≢ free_key
      → key_at slots q ≡ free_key
      → key_at (set slots pos s) q ≡ free_key
  free-set slots pos q s taken free =
      key_at-set_ne slots pos q s (λ e. taken (ap (key_at slots) e ∙ free)) ∙ free

  -- Past a resident, whichever of the two keys is carried on.
  place_past :
      (slots : List (Slot V)) (k : ℕ) (v : V) (pos dist left n : ℕ)
      → Carrying slots k pos dist
      → key_at slots pos ≢ free_key
      → dist + suc left < 2 ^ w
      → key_at slots (walk (2 ^ w) n (next (2 ^ w) pos)) ≡ free_key
      → ((slots' : List (Slot V)) (k' : ℕ) (v' : V) (pos' dist' : ℕ)
          → Carrying slots' k' pos' dist'
          → dist' + left < 2 ^ w
          → key_at slots' (walk (2 ^ w) n pos') ≡ free_key
          → Grown slots' k' v' (place (2 ^ w) slots' k' v' pos' dist' left))
      → (swapped : Bool) → ltb (probe_distance (2 ^ w) (key_at slots pos) pos) dist ≡ swapped
      → Grown slots k v (
          place
            (2 ^ w)
            (if swapped then set slots pos (record { key = k; value = v }) else slots)
            (if swapped then key_at slots pos else k)
            (if swapped then value_at slots pos v else v)
            (next (2 ^ w) pos)
            ((if swapped then probe_distance (2 ^ w) (key_at slots pos) pos else dist) + 1)
            left)
  place_past slots k v pos dist left n c taken room free again true e =
      let near : probe_distance (2 ^ w) (key_at slots pos) pos < dist = ground arith in
      Grown-swap slots k v pos dist _ c taken (
        again _ _ _ _ _ (Carrying-resident slots k v pos dist c taken (omega arith) near)
          (omega arith) (free-set slots pos _ (record { key = k; value = v }) taken free))
  place_past slots k v pos dist left n c taken room free again false e =
      again _ _ _ _ _ (Carrying-on slots k pos dist c taken (omega arith) (ground arith))
        (omega arith) free

  pub place_new :
      (slots : List (Slot V)) (k : ℕ) (v : V) (pos dist left n : ℕ)
      → Carrying slots k pos dist
      → dist + left < 2 ^ w
      → n ≤ left
      → key_at slots (walk (2 ^ w) n pos) ≡ free_key
      → Grown slots k v (place (2 ^ w) slots k v pos dist left)
  unfolding place
  place_new slots k v pos dist zero zero c room near free =
      if-elim (Grown slots k v) (stops (key_at slots pos) k) (fill_slot slots k v pos)
        (refused slots) (λ e. Grown-fill slots k v pos dist c free) (λ e. absurd (ground (arith)))
  place_new slots k v pos dist zero (suc n) c room near free = absurd (omega arith)
  place_new slots k v pos dist (suc left) zero c room near free =
      if-elim (Grown slots k v) (stops (key_at slots pos) k) (fill_slot slots k v pos) _
        (λ e. Grown-fill slots k v pos dist c free) (λ e. absurd (ground (arith)))
  place_new slots k v pos dist (suc left) (suc n) c room near free =
      if-elim (Grown slots k v) (stops (key_at slots pos) k) (fill_slot slots k v pos) _
        (λ e. Grown-fill slots k v pos dist c (ground (arith, c.absent pos c.in_range)))
        (λ e.
          place_past slots k v pos dist left n c (ground arith) room free
            (λ slots' k' v' pos' dist' c' room' free'.
              place_new slots' k' v' pos' dist' left n c' room' (omega arith) free')
            (ltb (probe_distance (2 ^ w) (key_at slots pos) pos) dist) refl)
