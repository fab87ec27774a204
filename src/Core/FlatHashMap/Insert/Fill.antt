-- ===== src/Core/FlatHashMap/Insert/Fill.antt =====
-- A key written into a slot: the table stays valid, and its contents.
use kalshi_cpp.Prelude.{
  ℕ, ◌≤◌, ◌<◌, ◌≡◌, ◌≢◌, sym, ap, ◌∙◌, List, arith, set, ℕ_discrete, length-set,
}
use kalshi_cpp.Core.FlatHashMap.{free_key, Slot, probe_distance, key_at}
use kalshi_cpp.Core.FlatHashMap.Valid.{Valid, key_at-set_self, key_at-set_ne}

module _ {V : Type 0} (size : ℕ) where
  -- The way of a carried key, up to `pos`: every slot is taken, by a key as far from home.
  abbrev pub Behind : List (Slot V) → ℕ → ℕ → Type 0
  Behind slots k pos =
      (p : ℕ)
      → p < size
      → probe_distance size k p < probe_distance size k pos
      → (key_at slots p ≢ free_key)
        × (probe_distance size k p ≤ probe_distance size (key_at slots p) p)

  abbrev pub Absent : List (Slot V) → ℕ → Type 0
  Absent slots k = (p : ℕ) → p < size → key_at slots p ≢ k

  pub Valid-set :
      (slots : List (Slot V)) (k : ℕ) (v : V) (pos : ℕ)
      → Valid size slots
      → k ≢ free_key
      → pos < size
      → Absent slots k
      → Behind slots k pos
      → (key_at slots pos ≢ free_key
          → probe_distance size (key_at slots pos) pos ≤ probe_distance size k pos)
      → Valid size (set slots pos (record { key = k; value = v }))
  Valid-set slots k v pos ok real h absent behind weaker =
      let slots' : List (Slot V) = set slots pos (record { key = k; value = v }) in
      let self : key_at slots' pos ≡ k =
        key_at-set_self slots pos (record { key = k; value = v }) (omega (arith, ok.full_length)) in
      let others : (q : ℕ) → pos ≢ q → key_at slots' q ≡ key_at slots q =
        λ q ne. key_at-set_ne slots pos q (record { key = k; value = v }) ne in
      record {
        full_length = length-set slots pos (record { key = k; value = v }) ∙ ok.full_length;
        once = λ i j hi hj ri e. elim (ℕ_discrete pos i) [
          | yes a ↦ elim (ℕ_discrete pos j) [
            | yes b ↦ sym a ∙ b
            | no b ↦
                absurd
                  (absent j hj (sym (others j b) ∙ (sym e ∙ (ap (key_at slots') (sym a) ∙ self))))
          ]
          | no a ↦ elim (ℕ_discrete pos j) [
            | yes b ↦
                absurd (absent i hi (sym (others i a) ∙ (e ∙ (ap (key_at slots') (sym b) ∙ self))))
            | no b ↦
                ok.once i j hi hj (λ f. ri (others i a ∙ f)) (sym (others i a) ∙ (e ∙ others j b))
          ]
        ];
        passed = λ i p hi hp ri l. elim (ℕ_discrete pos i) [
          | yes a ↦
              let ki : key_at slots' i ≡ k = ap (key_at slots') (sym a) ∙ self in
              elim (ℕ_discrete pos p) [
                | yes b ↦ let same : i ≡ p = sym a ∙ b in grind (arith, same)
                | no b ↦
                    let kp : key_at slots' p ≡ key_at slots p = others p b in
                    let r = behind p hp in grind (arith, ki, kp, a)
              ]
          | no a ↦
              let ki : key_at slots' i ≡ key_at slots i = others i a in
              let ri' : key_at slots i ≢ free_key = (λ f. ri (ki ∙ f)) in
              elim (ℕ_discrete pos p) [
                | yes b ↦
                    let kp : key_at slots' p ≡ k = ap (key_at slots') (sym b) ∙ self in
                    let r = ok.passed i p hi hp ri' in grind (arith, ki, kp, b, weaker)
                | no b ↦
                    let kp : key_at slots' p ≡ key_at slots p = others p b in
                    let r = ok.passed i p hi hp ri' in ground (arith, ki, kp, ri')
              ]
        ];
      }
