-- ===== src/Core/FlatHashMap/Size.antt =====
-- core/flat_hash_map.h: how insert and erase change size_, and erase all keys at once.
use kalshi_cpp.Prelude.{
  ℕ, ◌+◌, ◌^◌, ◌≤◌, ◌<◌, ◌≡◌, ◌≢◌, sym, ap, ◌∙◌, Bool, Option, none, some, List, arith,
  if◌then◌else◌, ◌==◌, sub_size,
}
use native.Mathlib.Nat.{pow-le-pow_right}
use kalshi_cpp.Core.FlatHashMap.{
  free_key, Slot, FlatHashMap, find, insert, counted, erase, erase_at, erased,
}
use kalshi_cpp.Core.FlatHashMap.Lookup.{lookup, value_in, lookup-erase}
use kalshi_cpp.Core.FlatHashMap.Used.{used, used-le}
use kalshi_cpp.Core.FlatHashMap.Insert.Calls.{Sound}

module _ {V : Type 0} where
  pub count-insert :
      (size k : ℕ) (v : V) (m : FlatHashMap V) → (insert size k v m).1.count ≤ m.count + 1
  unfolding insert counted
  count-insert size k v m = ground arith

  count-erased :
      (m m' : FlatHashMap V) (found : Bool) (o : Option (List (Slot V)))
      → erased m o ≡ some (found, m')
      → m'.count ≡ sub_size m.count 1
  unfolding erased
  count-erased m m' found none e = cc
  count-erased m m' found (some slots) e = ground (arith, e)

  count-erase_at :
      (size : ℕ) (m m' : FlatHashMap V) (found : Bool) (v : V) (o : Option ℕ)
      → value_in m.slots o ≡ some v
      → erase_at size o m ≡ some (found, m')
      → m'.count ≡ sub_size m.count 1
  unfolding erase_at value_in
  count-erase_at size m m' found v none h e = cc
  count-erase_at size m m' found v (some p) h e = count-erased m m' found _ e

module _ {V : Type 0} (w : ℕ) (narrow : w < 64) where
  pub count-erase :
      (m m' : FlatHashMap V) (k : ℕ) (found : Bool) (v : V)
      → Sound w narrow m'
      → lookup (2 ^ w) k m ≡ some v
      → erase (2 ^ w) k m ≡ some (found, m')
      → m.count < 2 ^ 64
      → m'.count + 1 ≡ m.count
  unfolding erase lookup
  count-erase m m' k found v s h e small =
      let c = count-erase_at (2 ^ w) m m' found v (find (2 ^ w) k m) h e in
      let word : 2 ^ w ≤ 2 ^ 63 =
        pow-le-pow_right {n = 2} (omega arith) {i = w} {j = 63} (omega arith) in
      omega (arith, c, word, small, s.counted, s.valid.full_length, used-le m'.slots)

  -- What erase leaves, seen through find for all keys.
  pub erase_for_all :
      (m : FlatHashMap V) (k : ℕ)
      → Sound w narrow m
      → k ≢ free_key
      → used m.slots < 2 ^ w
      → (found : Bool) × (m' : FlatHashMap V) × (erase (2 ^ w) k m ≡ some (found, m'))
        × Sound w narrow m'
        × ((k' : ℕ)
            → k' ≢ free_key
            → lookup (2 ^ w) k' m' ≡ (if k' == k then none else lookup (2 ^ w) k' m))
  erase_for_all m k s real room =
      let r = lookup-erase w narrow m k k s real real room in
      (
        r.0,
        r.1,
        r.2,
        r.3,
        λ k' real'.
            let t = lookup-erase w narrow m k k' s real real' room in
            let same : some (t.0, t.1) ≡ some (r.0, r.1) = sym t.2 ∙ r.2 in
            let map : t.1 ≡ r.1 = ground (arith, same) in sym (ap (lookup (2 ^ w) k') map) ∙ t.4,
      )
