-- ===== src/Core/Pool/Ids.antt =====
-- Lists of block indices without repetition: what the client and the pool hold.
use kalshi_cpp.Prelude.{
  ℕ, zero, suc, ◌+◌, ◌<◌, ◌≡◌, ◌≢◌, inl, inr, refl, sym, ap, ◌∙◌, Bool, true, false, ◌||◌, List, [],
  ◌∷◌, arith, length, if◌then◌else◌, ◌==◌, ==→eq, Bool-cases,
}

abbrev pub mem : ℕ → List ℕ → Bool
mem p [] = false
mem p (q ∷ qs) = p == q || mem p qs

abbrev pub Nodup : List ℕ → Type 0
Nodup [] = Unit {0}
Nodup (p ∷ ps) = (mem p ps ≡ false) × Nodup ps

abbrev pub remove : ℕ → List ℕ → List ℕ
remove p [] = []
remove p (q ∷ qs) = if p == q then qs else q ∷ remove p qs

abbrev pub up : ℕ → ℕ → List ℕ
up i zero = i ∷ []
up i (suc n) = i ∷ up (i + 1) n

pub mem-up : (p i n : ℕ) → p < i → mem p (up i n) ≡ false
mem-up p i zero h = ground arith
mem-up p i (suc n) h = ground (arith, mem-up p (i + 1) n)

pub Nodup-up : (i n : ℕ) → Nodup (up i n)
Nodup-up i zero = (refl, tt)
Nodup-up i (suc n) = (mem-up i (i + 1) n (omega arith), Nodup-up (i + 1) n)

pub length-up : (i n : ℕ) → length (up i n) ≡ n + 1
length-up i zero = omega arith
length-up i (suc n) = omega (arith, length-up (i + 1) n)

-- A block that moves from the front of the unused ones to the owned ones is apart from the rest.
pub apart-moved :
    (q p : ℕ) (ps owned : List ℕ)
    → mem p ps ≡ false
    → mem q ps ≡ true
    → mem q owned ≡ false
    → mem q (p ∷ owned) ≡ false
apart-moved q p ps owned f m o = elim (Bool-cases (q == p)) [
  | inl e ↦ let m' : mem p ps ≡ true = ap (λ t. mem t ps) (sym (==→eq q p e)) ∙ m in cc
  | inr e ↦ ground (arith)
]

pub mem-split :
    (q p : ℕ) (ps : List ℕ) (b : ℕ)
    → p < b
    → (mem q ps ≡ true → q < b)
    → mem q (p ∷ ps) ≡ true
    → q < b
mem-split q p ps b h f m = elim (Bool-cases (q == p)) [
  | inl e ↦ ground (arith, ==→eq q p e)
  | inr e ↦ f (ground arith)
]

pub mem-remove : (q p : ℕ) (ps : List ℕ) → mem q (remove p ps) ≡ true → mem q ps ≡ true
mem-remove q p [] m = m
mem-remove q p (r ∷ ps) m = ground (arith, mem-remove q p ps)

pub mem-remove_ne : (q p : ℕ) (ps : List ℕ) → q ≢ p → mem q ps ≡ true → mem q (remove p ps) ≡ true
mem-remove_ne q p [] ne m = m
mem-remove_ne q p (r ∷ ps) ne m = elim (Bool-cases (p == r)) [
  | inl e ↦ ground (arith, ==→eq p r e)
  | inr e ↦ ground (arith, mem-remove_ne q p ps ne)
]

pub mem-remove_self : (p : ℕ) (ps : List ℕ) → Nodup ps → mem p (remove p ps) ≡ false
mem-remove_self p [] d = refl
mem-remove_self p (r ∷ ps) d = elim (Bool-cases (p == r)) [
  | inl e ↦ rw (e, ==→eq p r e, d.0)
  | inr e ↦ rw (e, e, mem-remove_self p ps d.1)
]

pub Nodup-remove : (p : ℕ) (ps : List ℕ) → Nodup ps → Nodup (remove p ps)
Nodup-remove p [] d = tt
Nodup-remove p (r ∷ ps) d = elim (p == r) as (λ b. Nodup (if b then ps else r ∷ remove p ps)) [
  | true ↦ d.1
  | false ↦ (ground (arith, mem-remove r p ps, d.0), Nodup-remove p ps d.1)
]

pub length-remove : (p : ℕ) (ps : List ℕ) → mem p ps ≡ true → length (remove p ps) + 1 ≡ length ps
length-remove p [] m = cc
length-remove p (r ∷ ps) m = ground (arith, length-remove p ps)

pub apart-given :
    (q p : ℕ) (unused owned : List ℕ)
    → Nodup owned
    → (mem q unused ≡ true → mem q owned ≡ false)
    → mem q (p ∷ unused) ≡ true
    → mem q (remove p owned) ≡ false
apart-given q p unused owned d a m = elim (Bool-cases (q == p)) [
  | inl e ↦ ap (λ t. mem t (remove p owned)) (==→eq q p e) ∙ mem-remove_self p owned d
  | inr e ↦ ground (arith, mem-remove q p owned)
]
