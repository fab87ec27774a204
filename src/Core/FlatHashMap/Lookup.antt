-- ===== src/Core/FlatHashMap/Lookup.antt =====
-- core/flat_hash_map.h: the table as a finite map, seen through `find`.
use kalshi_cpp.Prelude.{
  ℕ, zero, suc, ◌^◌, ◌<◌, ◌≡◌, ◌≢◌, ◌⊎◌, inl, inr, refl, sym, ap, subst, ◌∙◌, Bool, true, false,
  Option, none, some, List, arith, get_elem?, length, replicate, length-replicate, if◌then◌else◌,
  if-elim, ◌==◌, ==→eq, ==→ne, get_elem?-lt,
}
use kalshi_cpp.Core.FlatHashMap.{free_key, Slot, FlatHashMap, key_at, find, insert, erase, init_map}
use kalshi_cpp.Core.FlatHashMap.Valid.{Valid, Holds, key_at-Holds}
use kalshi_cpp.Core.FlatHashMap.Used.{used}
use kalshi_cpp.Core.FlatHashMap.Find.{Found, find_lem}
use kalshi_cpp.Core.FlatHashMap.Insert.Contents.{Has}
use kalshi_cpp.Core.FlatHashMap.Insert.Calls.{Sound, Insertion, insert_lem}
use kalshi_cpp.Core.FlatHashMap.Erase.Calls.{erase_lem}

module _ {V : Type 0} where
  slot_value : Option (Slot V) → Option V
  slot_value none = none
  slot_value (some s) = some s.value

  unfoldable pub value_in : List (Slot V) → Option ℕ → Option V
  unfolding slot_value
  value_in slots none = none
  value_in slots (some p) = slot_value (get_elem? slots p)

  -- The value that the pointer of find leads to.
  unfoldable pub lookup : ℕ → ℕ → FlatHashMap V → Option V
  unfolding slot_value value_in
  lookup size key m = value_in m.slots (find size key m)

module _ {V : Type 0} (w : ℕ) (narrow : w < 64) where
  value_in-Has :
      (slots : List (Slot V)) (k : ℕ) (v : V) (o : Option ℕ)
      → Valid (2 ^ w) slots
      → k ≢ free_key
      → Found w (omega arith) slots k o
      → Has (2 ^ w) slots k v
      → value_in slots o ≡ some v
  unfolding value_in slot_value
  value_in-Has slots k v none ok real f h = absurd (f h.0 h.1 (key_at-Holds slots h.0 k v h.2))
  value_in-Has slots k v (some p) ok real f h =
      let same : p ≡ h.0 =
        ok.once p h.0 f.0 h.1 (λ g. real (sym f.1 ∙ g))
          (f.1 ∙ sym (key_at-Holds slots h.0 k v h.2)) in
      ap slot_value (ap (get_elem? slots) same ∙ h.2)

  lookup-Has :
      (m : FlatHashMap V) (k : ℕ) (v : V)
      → Valid (2 ^ w) m.slots
      → k ≢ free_key
      → Has (2 ^ w) m.slots k v
      → lookup (2 ^ w) k m ≡ some v
  unfolding lookup
  lookup-Has m k v ok real h =
      value_in-Has m.slots k v _ ok real (find_lem w (omega arith) k m ok real) h

  value_in-absent :
      (slots : List (Slot V)) (k : ℕ) (o : Option ℕ)
      → Found w (omega arith) slots k o
      → ((q : ℕ) → q < 2 ^ w → key_at slots q ≢ k)
      → value_in slots o ≡ none
  unfolding value_in
  value_in-absent slots k none f a = refl
  value_in-absent slots k (some p) f a = absurd (a p f.0 f.1)

  lookup-absent :
      (m : FlatHashMap V) (k : ℕ)
      → Valid (2 ^ w) m.slots
      → k ≢ free_key
      → ((q : ℕ) → q < 2 ^ w → key_at m.slots q ≢ k)
      → lookup (2 ^ w) k m ≡ none
  unfolding lookup
  lookup-absent m k ok real a = value_in-absent m.slots k _ (find_lem w (omega arith) k m ok real) a

  Has-cases :
      (slots : List (Slot V)) (k : ℕ) (o : Option ℕ)
      → length slots ≡ 2 ^ w
      → Found w (omega arith) slots k o
      → ((v : V) × Has (2 ^ w) slots k v) ⊎ ((q : ℕ) → q < 2 ^ w → key_at slots q ≢ k)
  Has-cases slots k none l f = inr f
  Has-cases slots k (some p) l f =
      let s = get_elem?-lt slots p (omega (arith, l, f.0)) in
      let key : s.0.key ≡ k = sym (key_at-Holds slots p s.0.key s.0.value s.1) ∙ f.1 in
      inl (s.0.value, (p, f.0, subst (λ t. Holds slots p t s.0.value) key s.1))

  -- A key that two tables agree on is found alike in both.
  lookup-agree :
      (m m' : FlatHashMap V) (k : ℕ)
      → Valid (2 ^ w) m.slots
      → Valid (2 ^ w) m'.slots
      → k ≢ free_key
      → ((v : V) → Has (2 ^ w) m.slots k v → Has (2 ^ w) m'.slots k v)
      → ((v : V) → Has (2 ^ w) m'.slots k v → Has (2 ^ w) m.slots k v)
      → lookup (2 ^ w) k m' ≡ lookup (2 ^ w) k m
  lookup-agree m m' k ok ok' real onto back =
      elim (Has-cases m.slots k _ ok.full_length (find_lem w (omega arith) k m ok real)) [
        | inl h ↦ lookup-Has m' k h.0 ok' real (onto h.0 h.1) ∙ sym (lookup-Has m k h.0 ok real h.1)
        | inr a ↦
            elim (Has-cases m'.slots k _ ok'.full_length (find_lem w (omega arith) k m' ok' real)) [
              | inl h ↦
                  let old = back h.0 h.1 in
                  absurd (a old.0 old.1 (key_at-Holds m.slots old.0 k h.0 old.2))
              | inr a' ↦ lookup-absent m' k ok' real a' ∙ sym (lookup-absent m k ok real a)
            ]
      ]

  pub lookup-insert :
      (m : FlatHashMap V) (k k' : ℕ) (v : V)
      → Sound w narrow m
      → k ≢ free_key
      → k' ≢ free_key
      → used m.slots < 2 ^ w
      → lookup (2 ^ w) k' (insert (2 ^ w) k v m).1
        ≡ (if k' == k then some v else lookup (2 ^ w) k' m)
  lookup-insert m k k' v s real real' room =
      let r : Insertion w narrow m k v (insert (2 ^ w) k v m) =
        insert_lem w narrow m k v s real room in
      let m' : FlatHashMap V = (insert (2 ^ w) k v m).1 in
      if-elim (λ o. lookup (2 ^ w) k' m' ≡ o) (k' == k) (some v) (lookup (2 ^ w) k' m)
        (λ e.
          ap (λ t. lookup (2 ^ w) t m') (==→eq k' k e)
          ∙ lookup-Has m' k v r.sound.valid real r.contents.placed)
        (λ e.
          let ne : k' ≢ k = ==→ne k' k e in
          lookup-agree m m' k' s.valid r.sound.valid real' (λ u h. r.contents.kept k' u real' ne h)
            (λ u h. elim (r.contents.only k' u real' h) [ inl q ↦ absurd (ne q.0) | inr q ↦ q.1 ]))

  -- erase returns; after it find does not get to `k`, and gets to what it got to before for every
  -- other key; the table has a free slot and the keys are not EMPTY.
  pub lookup-erase :
      (m : FlatHashMap V) (k k' : ℕ)
      → Sound w narrow m
      → k ≢ free_key
      → k' ≢ free_key
      → used m.slots < 2 ^ w
      → (found : Bool) × (m' : FlatHashMap V) × (erase (2 ^ w) k m ≡ some (found, m'))
        × Sound w narrow m'
        × (lookup (2 ^ w) k' m' ≡ (if k' == k then none else lookup (2 ^ w) k' m))
  lookup-erase m k k' s real real' room = elim (erase_lem w narrow m k s real room) [
    | inl r ↦ (
      true,
      r.rest,
      r.result,
      r.sound,
      if-elim (λ o. lookup (2 ^ w) k' r.rest ≡ o) (k' == k) none (lookup (2 ^ w) k' m)
          (λ e.
            ap (λ t. lookup (2 ^ w) t r.rest) (==→eq k' k e)
            ∙ lookup-absent r.rest k r.sound.valid real r.absent)
          (λ e.
            lookup-agree m r.rest k' s.valid r.sound.valid real'
              (λ u h. r.kept k' u real' (==→ne k' k e) h) (λ u h. r.only k' u real' h)),
    )
    | inr r ↦ (
      false,
      m,
      r.0,
      s,
      if-elim (λ o. lookup (2 ^ w) k' m ≡ o) (k' == k) none (lookup (2 ^ w) k' m)
          (λ e. ap (λ t. lookup (2 ^ w) t m) (==→eq k' k e) ∙ lookup-absent m k s.valid real r.1)
          (λ e. refl),
    )
  ]

  key_at-replicate : (n q : ℕ) (s : Slot V) → s.key ≡ free_key → key_at (replicate n s) q ≡ free_key
  key_at-replicate zero q s e = refl
  key_at-replicate (suc n) zero s e = e
  key_at-replicate (suc n) (suc q) s e = key_at-replicate n q s e

  used-replicate : (n : ℕ) (s : Slot V) → s.key ≡ free_key → used (replicate n s) ≡ 0
  used-replicate zero s e = refl
  used-replicate (suc n) s e = ground (arith, used-replicate n s e)

  -- The constructor leaves a sound table, in which find gets to no key.
  pub init_map-Sound :
      (zeroed : V)
      → Sound w narrow (init_map (2 ^ w) zeroed)
        × ((k : ℕ) → k ≢ free_key → lookup (2 ^ w) k (init_map (2 ^ w) zeroed) ≡ none)
  unfolding init_map
  init_map-Sound zeroed =
      let s : Slot V = record { key = free_key; value = zeroed } in
      let none_there : (q : ℕ) → key_at (replicate (2 ^ w) s) q ≡ free_key =
        (λ q. key_at-replicate (2 ^ w) q s refl) in
      let valid : Valid (2 ^ w) (replicate (2 ^ w) s) = record {
        full_length = length-replicate (2 ^ w) s;
        once = λ i j hi hj r e. absurd (r (none_there i));
        passed = λ i p hi hp r d. absurd (r (none_there i));
      } in
      (
        record { valid = valid; counted = sym (used-replicate (2 ^ w) s refl) },
        λ k real.
            lookup-absent (init_map (2 ^ w) zeroed) k valid real
              (λ q hq e. real (sym e ∙ none_there q)),
      )
