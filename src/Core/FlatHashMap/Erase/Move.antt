-- ===== src/Core/FlatHashMap/Erase/Move.antt =====
-- The slot writes of `erase`: a slot copied over another, and a slot whose key is reset.
use kalshi_cpp.Prelude.{
  ℕ, zero, suc, ◌<◌, ◌≡◌, ◌≢◌, refl, sym, ap, subst, ◌∙◌, some, List, [], ◌∷◌, arith, set, length,
  length-set, get_elem?, get_elem?-lt, get_elem?-set_self, get_elem?-set_ne, ℕ_discrete,
}
use kalshi_cpp.Core.FlatHashMap.{free_key, Slot, key_at, set_key, copy_slot}
use kalshi_cpp.Core.FlatHashMap.Valid.{key_at-set_ne, key_at-Holds}
use kalshi_cpp.Core.FlatHashMap.Used.{used, used-set_free, used-set_key_free}
use kalshi_cpp.Core.FlatHashMap.Insert.Contents.{Has}

module _ {V : Type 0} where
  pub length-set_key : (slots : List (Slot V)) (p k : ℕ) → length (set_key slots p k) ≡ length slots
  length-set_key [] p k = refl
  length-set_key (s ∷ slots) zero k = refl
  length-set_key (s ∷ slots) (suc p) k = ap suc (length-set_key slots p k)

  pub key_at-set_key_self :
      (slots : List (Slot V)) (p : ℕ) → key_at (set_key slots p free_key) p ≡ free_key
  key_at-set_key_self [] p = refl
  key_at-set_key_self (s ∷ slots) zero = refl
  key_at-set_key_self (s ∷ slots) (suc p) = key_at-set_key_self slots p

  pub get_elem?-set_key_ne :
      (slots : List (Slot V)) (p q k : ℕ)
      → p ≢ q
      → get_elem? (set_key slots p k) q ≡ get_elem? slots q
  get_elem?-set_key_ne [] p q k h = refl
  get_elem?-set_key_ne (s ∷ slots) zero zero k h = absurd (h refl)
  get_elem?-set_key_ne (s ∷ slots) zero (suc q) k h = refl
  get_elem?-set_key_ne (s ∷ slots) (suc p) zero k h = refl
  get_elem?-set_key_ne (s ∷ slots) (suc p) (suc q) k h =
      get_elem?-set_key_ne slots p q k (λ e. h (ap suc e))

  pub key_at-set_key_ne :
      (slots : List (Slot V)) (p q k : ℕ) → p ≢ q → key_at (set_key slots p k) q ≡ key_at slots q
  key_at-set_key_ne [] p q k h = refl
  key_at-set_key_ne (s ∷ slots) zero zero k h = absurd (h refl)
  key_at-set_key_ne (s ∷ slots) zero (suc q) k h = refl
  key_at-set_key_ne (s ∷ slots) (suc p) zero k h = refl
  key_at-set_key_ne (s ∷ slots) (suc p) (suc q) k h =
      key_at-set_key_ne slots p q k (λ e. h (ap suc e))

  -- `slots_[pos] = slots_[from]; slots_[from].key = EMPTY`
  abbrev pub moved : List (Slot V) → ℕ → ℕ → List (Slot V)
  moved slots pos from = set_key (copy_slot slots pos from) from free_key

  copy_slot-some :
      (slots : List (Slot V)) (pos from : ℕ) (s : Slot V)
      → get_elem? slots from ≡ some s
      → copy_slot slots pos from ≡ set slots pos s
  copy_slot-some slots pos from s e = rw (e, copy_slot) refl

  pub record Move (size : ℕ) (slots slots' : List (Slot V)) (pos from : ℕ) : Type 0 where
    pub same_length : length slots' ≡ length slots
    pub filled : key_at slots' pos ≡ key_at slots from
    pub freed : key_at slots' from ≡ free_key
    pub others : (q : ℕ) → q ≢ pos → q ≢ from → key_at slots' q ≡ key_at slots q
    pub same_used : used slots' ≡ used slots
    pub onto : (k : ℕ) (v : V) → k ≢ free_key → Has size slots k v → Has size slots' k v
    pub back : (k : ℕ) (v : V) → k ≢ free_key → Has size slots' k v → Has size slots k v

  Move-set :
      (size : ℕ) (slots : List (Slot V)) (pos from : ℕ) (s : Slot V)
      → length slots ≡ size
      → pos < size
      → from < size
      → pos ≢ from
      → key_at slots pos ≡ free_key
      → get_elem? slots from ≡ some s
      → s.key ≢ free_key
      → Move size slots (set_key (set slots pos s) from free_key) pos from
  Move-set size slots pos from s l hp hf ne free e real =
      let t : List (Slot V) = set slots pos s in
      let from_key : key_at slots from ≡ s.key = key_at-Holds slots from s.key s.value e in
      let t_pos : get_elem? t pos ≡ some s =
        get_elem?-set_self slots pos s (omega (arith, l, hp)) in
      let ne' : from ≢ pos = (λ q. ne (sym q)) in
      let at_pos : get_elem? (set_key t from free_key) pos ≡ some s =
        get_elem?-set_key_ne t from pos free_key ne' ∙ t_pos in
      record {
        same_length = length-set_key t from free_key ∙ length-set slots pos s;
        filled = key_at-Holds (set_key t from free_key) pos s.key s.value at_pos ∙ sym from_key;
        freed = key_at-set_key_self t from;
        others = λ q np nf.
            key_at-set_key_ne t from q free_key (λ g. nf (sym g))
            ∙ key_at-set_ne slots pos q s (λ g. np (sym g));
        same_used =
            let t_from : key_at t from ≢ free_key =
              (λ f. real (sym from_key ∙ (sym (key_at-set_ne slots pos from s ne) ∙ f))) in
            omega (
              arith,
              used-set_key_free t from t_from,
              used-set_free slots pos s (omega (arith, l, hp)) free real,
            );
        onto = λ k v r h.
            let np : pos ≢ h.0 = (λ g.
              r (sym (key_at-Holds slots h.0 k v h.2) ∙ (ap (key_at slots) (sym g) ∙ free))) in
            elim (ℕ_discrete from h.0) [
              | yes g ↦ (pos, hp, at_pos ∙ (sym e ∙ (ap (get_elem? slots) g ∙ h.2)))
              | no g ↦ (
                h.0,
                h.1,
                get_elem?-set_key_ne t from h.0 free_key g
                    ∙ (get_elem?-set_ne slots pos h.0 s np ∙ h.2),
              )
            ];
        back = λ k v r h.
            let nf : from ≢ h.0 = (λ g. r (
              sym (key_at-Holds (set_key t from free_key) h.0 k v h.2)
              ∙ (ap (key_at (set_key t from free_key)) (sym g) ∙ key_at-set_key_self t from))) in
            elim (ℕ_discrete pos h.0) [
              | yes g ↦
                  (from, hf, e ∙ (sym at_pos ∙ (ap (get_elem? (set_key t from free_key)) g ∙ h.2)))
              | no g ↦ (
                h.0,
                h.1,
                sym (get_elem?-set_ne slots pos h.0 s g)
                    ∙ (sym (get_elem?-set_key_ne t from h.0 free_key nf) ∙ h.2),
              )
            ];
      }

  pub Move-moved :
      (size : ℕ) (slots : List (Slot V)) (pos from : ℕ)
      → length slots ≡ size
      → pos < size
      → from < size
      → key_at slots pos ≡ free_key
      → key_at slots from ≢ free_key
      → Move size slots (moved slots pos from) pos from
  Move-moved size slots pos from l hp hf free taken =
      let s = get_elem?-lt slots from (omega (arith, l, hf)) in
      let key : key_at slots from ≡ s.0.key = key_at-Holds slots from s.0.key s.0.value s.1 in
      subst (λ u. Move size slots (set_key u from free_key) pos from)
        (sym (copy_slot-some slots pos from s.0 s.1))
        (Move-set size slots pos from s.0 l hp hf (λ e. taken (ap (key_at slots) (sym e) ∙ free))
          free s.1 (λ f. taken (key ∙ f)))
