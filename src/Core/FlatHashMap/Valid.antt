-- ===== src/Core/FlatHashMap/Valid.antt =====
-- What holds of every table: keys stand once, and no key on the way to another is nearer its home.
use kalshi_cpp.Prelude.{
  ℕ, zero, suc, ◌≤◌, ◌<◌, ◌≡◌, ◌≢◌, refl, subst, sym, ap, ◌∙◌, some, List, [], ◌∷◌, arith,
  get_elem?, set, length,
}
use kalshi_cpp.Core.FlatHashMap.{free_key, Slot, probe_distance, key_at, value_at}

module _ {V : Type 0} where
  -- Robin Hood order: a slot that the key at `i` has passed holds a key at least as far from home.
  pub record Valid (size : ℕ) (slots : List (Slot V)) : Type 0 where
    pub full_length : length slots ≡ size
    pub once :
        (i j : ℕ)
        → i < size
        → j < size
        → key_at slots i ≢ free_key
        → key_at slots i ≡ key_at slots j
        → i ≡ j
    pub passed :
        (i p : ℕ)
        → i < size
        → p < size
        → key_at slots i ≢ free_key
        → probe_distance size (key_at slots i) p < probe_distance size (key_at slots i) i
        → (key_at slots p ≢ free_key)
          × (probe_distance size (key_at slots i) p ≤ probe_distance size (key_at slots p) p)

  -- Slot `p` holds the key with the value.
  abbrev pub Holds : List (Slot V) → ℕ → ℕ → V → Type 0
  Holds slots p k v = get_elem? slots p ≡ some (record { key = k; value = v })

  pub key_at-set_self :
      (slots : List (Slot V)) (p : ℕ) (s : Slot V)
      → p < length slots
      → key_at (set slots p s) p ≡ s.key
  key_at-set_self [] p s h = absurd (omega arith)
  key_at-set_self (t ∷ slots) zero s h = refl
  key_at-set_self (t ∷ slots) (suc p) s h = key_at-set_self slots p s (omega arith)

  pub key_at-set_ne :
      (slots : List (Slot V)) (p q : ℕ) (s : Slot V)
      → p ≢ q
      → key_at (set slots p s) q ≡ key_at slots q
  key_at-set_ne [] p q s h = refl
  key_at-set_ne (t ∷ slots) zero zero s h = absurd (h refl)
  key_at-set_ne (t ∷ slots) zero (suc q) s h = refl
  key_at-set_ne (t ∷ slots) (suc p) zero s h = refl
  key_at-set_ne (t ∷ slots) (suc p) (suc q) s h = key_at-set_ne slots p q s (λ e. h (ap suc e))

  pub key_at-Holds :
      (slots : List (Slot V)) (p k : ℕ) (v : V) → Holds slots p k v → key_at slots p ≡ k
  key_at-Holds [] p k v h = cc
  key_at-Holds (t ∷ slots) zero k v h = ground (arith, h)
  key_at-Holds (t ∷ slots) (suc p) k v h = key_at-Holds slots p k v h

  -- A slot in the table holds its key with its value.
  pub Holds-key_at :
      (slots : List (Slot V)) (p : ℕ) (d : V)
      → p < length slots
      → Holds slots p (key_at slots p) (value_at slots p d)
  Holds-key_at [] p d h = absurd (omega arith)
  Holds-key_at (t ∷ slots) zero d h = refl
  Holds-key_at (t ∷ slots) (suc p) d h = Holds-key_at slots p d (omega arith)

  -- The order, for a key that slot `i` is known to hold.
  pub passed_key :
      (size : ℕ) (slots : List (Slot V)) (key i p : ℕ)
      → Valid size slots
      → key ≢ free_key
      → key_at slots i ≡ key
      → i < size
      → p < size
      → probe_distance size key p < probe_distance size key i
      → (key_at slots p ≢ free_key)
        × (probe_distance size key p ≤ probe_distance size (key_at slots p) p)
  passed_key size slots key i p v real e hi hp =
      subst
        (λ k.
          probe_distance size k p < probe_distance size k i
          → (key_at slots p ≢ free_key)
            × (probe_distance size k p ≤ probe_distance size (key_at slots p) p))
        e (v.passed i p hi hp (λ f. real (sym e ∙ f)))
