-- ===== src/Core/FlatHashMap/Insert/Contents.antt =====
-- What a table holds, and how writing one slot changes it.
use kalshi_cpp.Prelude.{
  ℕ, ◌<◌, ◌≡◌, ◌≢◌, ◌⊎◌, inl, inr, subst, sym, ap, ◌∙◌, some, List, arith, get_elem?, set, length,
  ℕ_discrete, get_elem?-set_self, get_elem?-set_ne,
}
use kalshi_cpp.Core.FlatHashMap.{free_key, Slot, key_at}
use kalshi_cpp.Core.FlatHashMap.Valid.{Holds, key_at-Holds}

module _ {V : Type 0} (size : ℕ) where
  -- Some slot holds the key with the value.
  abbrev pub Has : List (Slot V) → ℕ → V → Type 0
  Has slots k v = (p : ℕ) × (p < size) × Holds slots p k v

  -- After an insertion: the key with its value, and what was there before under the other keys.
  pub record Inserted (slots : List (Slot V)) (k : ℕ) (v : V) (slots' : List (Slot V))
      : Type 0 where
    pub placed : Has slots' k v
    pub kept : (k' : ℕ) (v' : V) → k' ≢ free_key → k' ≢ k → Has slots k' v' → Has slots' k' v'
    pub only :
        (k' : ℕ) (v' : V)
        → k' ≢ free_key
        → Has slots' k' v'
        → ((k' ≡ k) × (v' ≡ v)) ⊎ ((k' ≢ k) × Has slots k' v')

  Has-eq :
      (slots : List (Slot V)) (k k' : ℕ) (v v' : V)
      → k ≡ k'
      → v ≡ v'
      → Has slots k v
      → Has slots k' v'
  Has-eq slots k k' v v' e f x = subst (λ t. Has slots t v') e (subst (λ t. Has slots k t) f x)

  -- A free slot, or the key's own one, takes the key and the value.
  pub Inserted-set :
      (slots : List (Slot V)) (k : ℕ) (v : V) (pos : ℕ)
      → pos < size
      → length slots ≡ size
      → (key_at slots pos ≡ free_key) ⊎ (key_at slots pos ≡ k)
      → ((p : ℕ) → p < size → key_at slots p ≡ k → p ≡ pos)
      → Inserted slots k v (set slots pos (record { key = k; value = v }))
  Inserted-set slots k v pos h l open_slot unique =
      let s : Slot V = record { key = k; value = v } in
      let self : get_elem? (set slots pos s) pos ≡ some s =
        get_elem?-set_self slots pos s (omega arith) in
      record {
        placed = (pos, h, self);
        kept = λ k' v' real ne old.
            let p = old.0 in
            let key : key_at slots p ≡ k' = key_at-Holds slots p k' v' old.2 in
            let apart : pos ≢ p = λ e. elim open_slot [
              | inl f ↦ real (sym key ∙ (ap (key_at slots) (sym e) ∙ f))
              | inr f ↦ ne (sym key ∙ (ap (key_at slots) (sym e) ∙ f))
            ] in
            (p, old.1, get_elem?-set_ne slots pos p s apart ∙ old.2);
        only = λ k' v' real new. elim (ℕ_discrete pos new.0) [
          | yes e ↦
              let here : some s ≡ some (record { key = k'; value = v' }) =
                sym self ∙ (ap (get_elem? (set slots pos s)) e ∙ new.2) in
              inl (ground (arith, here))
          | no n ↦
              let old : Holds slots new.0 k' v' =
                sym (get_elem?-set_ne slots pos new.0 s n) ∙ new.2 in
              inr (
                (λ e. n (sym (unique new.0 new.1 (key_at-Holds slots new.0 k' v' old ∙ e)))),
                (new.0, new.1, old),
              )
        ];
      }

  -- A key takes over a slot, and the resident is then inserted.
  pub Inserted-swap :
      (slots : List (Slot V)) (k : ℕ) (v : V) (pos r : ℕ) (u : V) (final : List (Slot V))
      → pos < size
      → length slots ≡ size
      → r ≢ free_key
      → k ≢ free_key
      → Holds slots pos r u
      → r ≢ k
      → ((p : ℕ) → p < size → key_at slots p ≢ k)
      → ((p : ℕ) → p < size → key_at slots p ≡ r → p ≡ pos)
      → Inserted (set slots pos (record { key = k; value = v })) r u final
      → Inserted slots k v final
  Inserted-swap slots k v pos r u final h l rr rk holds ne absent unique done =
      let s : Slot V = record { key = k; value = v } in
      let self : get_elem? (set slots pos s) pos ≡ some s =
        get_elem?-set_self slots pos s (omega arith) in
      record {
        placed = done.kept k v rk (λ e. ne (sym e)) (pos, h, self);
        kept = λ k' v' real nk old. elim (ℕ_discrete pos old.0) [
          | yes e ↦
              let there : some (record { key = r; value = u })
                  ≡ some (record { key = k'; value = v' }) =
                sym holds ∙ (ap (get_elem? slots) e ∙ old.2) in
              let same : (r ≡ k') × (u ≡ v') = ground (arith, there) in
              Has-eq final r k' u v' same.0 same.1 done.placed
          | no n ↦
              done.kept k' v' real
                (λ e. n (sym (unique old.0 old.1 (key_at-Holds slots old.0 k' v' old.2 ∙ e))))
                (old.0, old.1, get_elem?-set_ne slots pos old.0 s n ∙ old.2)
        ];
        only = λ k' v' real new. elim (done.only k' v' real new) [
          | inl e ↦
              inr (
                (λ q. ne (sym e.0 ∙ q)),
                Has-eq slots r k' u v' (sym e.0) (sym e.1) (pos, h, holds),
              )
          | inr o ↦ elim (ℕ_discrete pos o.1.0) [
            | yes e ↦
                let here : some s ≡ some (record { key = k'; value = v' }) =
                  sym self ∙ (ap (get_elem? (set slots pos s)) e ∙ o.1.2) in
                inl (ground (arith, here))
            | no n ↦
                let old : Holds slots o.1.0 k' v' =
                  sym (get_elem?-set_ne slots pos o.1.0 s n) ∙ o.1.2 in
                inr (
                  (λ e. absent o.1.0 o.1.1 (key_at-Holds slots o.1.0 k' v' old ∙ e)),
                  (o.1.0, o.1.1, old),
                )
          ]
        ];
      }
