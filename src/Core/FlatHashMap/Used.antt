-- ===== src/Core/FlatHashMap/Used.antt =====
-- The number of taken slots, which size_ counts.
use kalshi_cpp.Prelude.{
  ℕ, zero, suc, ◌+◌, ◌≤◌, ◌<◌, ◌≡◌, ◌≢◌, refl, List, [], ◌∷◌, arith, set, length, if◌then◌else◌,
  ◌==◌, ==→eq, Bool-cases, inl, inr,
}
use kalshi_cpp.Core.FlatHashMap.{free_key, Slot, key_at, set_key}

module _ {V : Type 0} where
  abbrev taken : Slot V → ℕ
  taken s = if s.key == free_key then 0 else 1

  abbrev pub used : List (Slot V) → ℕ
  used [] = 0
  used (s ∷ slots) = taken s + used slots

  pub used-le : (slots : List (Slot V)) → used slots ≤ length slots
  used-le [] = omega arith
  used-le (s ∷ slots) = ground (arith, used-le slots)

  -- A table with fewer keys than slots has a free slot.
  pub free_slot :
      (slots : List (Slot V))
      → used slots < length slots
      → (p : ℕ) × (p < length slots) × (key_at slots p ≡ free_key)
  free_slot [] h = absurd (omega arith)
  free_slot (s ∷ slots) h = elim (Bool-cases (s.key == free_key)) [
    | inl e ↦ (0, omega arith, ==→eq s.key free_key e)
    | inr e ↦ let r = free_slot slots (ground arith) in (suc r.0, omega (arith, r.1), r.2)
  ]

  pub used-set_free :
      (slots : List (Slot V)) (p : ℕ) (s : Slot V)
      → p < length slots
      → key_at slots p ≡ free_key
      → s.key ≢ free_key
      → used (set slots p s) ≡ used slots + 1
  used-set_free [] p s h f r = absurd (omega arith)
  used-set_free (t ∷ slots) zero s h f r = ground arith
  used-set_free (t ∷ slots) (suc p) s h f r =
      omega (arith, used-set_free slots p s (omega arith) f r)

  pub used-set_taken :
      (slots : List (Slot V)) (p : ℕ) (s : Slot V)
      → key_at slots p ≢ free_key
      → s.key ≢ free_key
      → used (set slots p s) ≡ used slots
  used-set_taken [] p s f r = refl
  used-set_taken (t ∷ slots) zero s f r = ground arith
  used-set_taken (t ∷ slots) (suc p) s f r = omega (arith, used-set_taken slots p s f r)

  pub used-set_key_free :
      (slots : List (Slot V)) (p : ℕ)
      → key_at slots p ≢ free_key
      → used (set_key slots p free_key) + 1 ≡ used slots
  used-set_key_free [] p f = absurd (f refl)
  used-set_key_free (t ∷ slots) zero f = ground arith
  used-set_key_free (t ∷ slots) (suc p) f = omega (arith, used-set_key_free slots p f)
