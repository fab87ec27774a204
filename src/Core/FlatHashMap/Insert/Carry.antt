-- ===== src/Core/FlatHashMap/Insert/Carry.antt =====
-- One step of the insertion past a resident: what the carried key's way is after it.
use kalshi_cpp.Prelude.{
  ℕ, ◌+◌, ◌^◌, ◌≤◌, ◌<◌, ◌≡◌, ◌≢◌, subst, sym, ap, ◌∙◌, List, arith, set, ℕ_discrete,
}
use kalshi_cpp.Core.FlatHashMap.{free_key, Slot, next, probe_distance, key_at}
use kalshi_cpp.Core.FlatHashMap.Probe.{probe_distance_inj, probe_distance-next}
use kalshi_cpp.Core.FlatHashMap.Valid.{Valid, key_at-set_self, key_at-set_ne}
use kalshi_cpp.Core.FlatHashMap.Insert.Fill.{Behind, Absent}

module _ {V : Type 0} (w : ℕ) (narrow : w ≤ 64) where
  -- The slots on the way up to the next one are those up to this one, and this one.
  pub Behind-next :
      (slots : List (Slot V)) (k pos : ℕ)
      → pos < 2 ^ w
      → probe_distance (2 ^ w) k pos + 1 < 2 ^ w
      → key_at slots pos ≢ free_key
      → probe_distance (2 ^ w) k pos ≤ probe_distance (2 ^ w) (key_at slots pos) pos
      → Behind (2 ^ w) slots k pos
      → Behind (2 ^ w) slots k (next (2 ^ w) pos)
  Behind-next slots k pos h room taken far behind p hp l =
      elim (ℕ_discrete (probe_distance (2 ^ w) k p) (probe_distance (2 ^ w) k pos)) [
        | yes e ↦
            let same : p ≡ pos = probe_distance_inj w narrow k p pos hp h e in
            (
              (λ f. taken (sym (ap (key_at slots) same) ∙ f)),
              subst (λ q. probe_distance (2 ^ w) k q ≤ probe_distance (2 ^ w) (key_at slots q) q)
                  (sym same) far,
            )
        | no n ↦ behind p hp (ground (arith, probe_distance-next w narrow k pos))
      ]

  -- The resident whose slot is taken over has its own way behind it, and the new key's slot.
  pub Behind-resident :
      (slots : List (Slot V)) (k : ℕ) (v : V) (pos : ℕ)
      → Valid (2 ^ w) slots
      → pos < 2 ^ w
      → key_at slots pos ≢ free_key
      → Behind (2 ^ w) (set slots pos (record { key = k; value = v })) (key_at slots pos) pos
  Behind-resident slots k v pos ok h taken p hp l = elim (ℕ_discrete pos p) [
    | yes e ↦ grind (arith, e)
    | no n ↦
        let kp = key_at-set_ne slots pos p (record { key = k; value = v }) n in
        let r = ok.passed pos p h hp taken l in grind (arith, kp, r)
  ]

  pub Absent-resident :
      (slots : List (Slot V)) (k : ℕ) (v : V) (pos : ℕ)
      → Valid (2 ^ w) slots
      → pos < 2 ^ w
      → key_at slots pos ≢ k
      → key_at slots pos ≢ free_key
      → Absent (2 ^ w) (set slots pos (record { key = k; value = v })) (key_at slots pos)
  Absent-resident slots k v pos ok h ne taken p hp e = elim (ℕ_discrete pos p) [
    | yes q ↦ ne (
        sym e
        ∙ (ap (key_at (set slots pos (record { key = k; value = v }))) (sym q)
            ∙ key_at-set_self slots pos (record { key = k; value = v })
                (omega (arith, ok.full_length))))
    | no n ↦ n (
        ok.once pos p h hp taken
          (sym e ∙ key_at-set_ne slots pos p (record { key = k; value = v }) n))
  ]
