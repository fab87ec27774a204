-- ===== src/Prelude/Strings/Search.antt =====
-- What `find` answers: the first occurrence at or behind the position.
use kalshi_cpp.Prelude.{
  ℕ, zero, suc, ◌+◌, ◌-◌, ◌≤◌, ◌<◌, ◌≡◌, inl, inr, refl, sym, ap, ◌∙◌, true, false, none, some, [],
  ◌∷◌, ◌++◌, drop-append, arith, ◌==◌, Bytes, length, take, drop, drop-drop, length-drop,
  Bool-cases, Option-cases,
}
use kalshi_cpp.Prelude.Strings.{starts_with, find_at, find}

find_at-here :
    (pat : Bytes) (c : ℕ) (cs : Bytes) (i : ℕ)
    → starts_with pat (c ∷ cs) ≡ true
    → find_at pat (c ∷ cs) i ≡ some i
unfolding find_at
find_at-here pat c cs i h = rw h refl

find_at-skip :
    (pat : Bytes) (c : ℕ) (cs : Bytes) (i : ℕ)
    → starts_with pat (c ∷ cs) ≡ false
    → find_at pat (c ∷ cs) i ≡ find_at pat cs (suc i)
unfolding find_at
find_at-skip pat c cs i h = rw h refl

drop-suc : (c : ℕ) (cs : Bytes) (i j : ℕ) → suc i ≤ j → drop (j - i) (c ∷ cs) ≡ drop (j - suc i) cs
drop-suc c cs i j h = ap (λ n. drop n (c ∷ cs)) {x = j - i} {y = suc (j - suc i)} (omega arith)

-- An answer is an occurrence.
find_at-occurs :
    (pat s : Bytes) (i j : ℕ)
    → find_at pat s i ≡ some j
    → (i ≤ j) × (starts_with pat (drop (j - i) s) ≡ true)
unfolding find_at
find_at-occurs pat [] i j h = cc
find_at-occurs pat (c ∷ cs) i j h = elim (Bool-cases (starts_with pat (c ∷ cs))) [
  | inl e ↦
      let same : i ≡ j = let f : some i ≡ some j = sym (find_at-here pat c cs i e) ∙ h in cc in
      let at : drop (j - i) (c ∷ cs) ≡ c ∷ cs =
        ap (λ n. drop n (c ∷ cs)) {x = j - i} {y = 0} (omega arith) in
      (omega arith, ap (starts_with pat) at ∙ e)
  | inr e ↦
      let rest = find_at-occurs pat cs (suc i) j (sym (find_at-skip pat c cs i e) ∙ h) in
      (omega arith, ap (starts_with pat) (drop-suc c cs i j rest.0) ∙ rest.1)
]

-- An occurrence is found, or one before it.
find_at-finds :
    (pat s : Bytes) (i q : ℕ)
    → i ≤ q
    → q - i < length s
    → starts_with pat (drop (q - i) s) ≡ true
    → (j : ℕ) × (find_at pat s i ≡ some j) × (j ≤ q)
unfolding find_at
find_at-finds pat [] i q le lt h = absurd (omega arith)
find_at-finds pat (c ∷ cs) i q le lt h = elim (Bool-cases (starts_with pat (c ∷ cs))) [
  | inl e ↦ (i, find_at-here pat c cs i e, le)
  | inr e ↦
      let later : suc i ≤ q = elim (Bool-cases (i == q)) [
        | inl f ↦
            let same : drop (q - i) (c ∷ cs) ≡ c ∷ cs =
              ap (λ n. drop n (c ∷ cs)) {x = q - i} {y = 0} (ground arith) in
            let yes : starts_with pat (c ∷ cs) ≡ true = sym (ap (starts_with pat) same) ∙ h in cc
        | inr f ↦ ground arith
      ] in
      let (j, found, le') =
        find_at-finds pat cs (suc i) q later (omega arith)
          (sym (ap (starts_with pat) (drop-suc c cs i q later)) ∙ h) in
      (j, find_at-skip pat c cs i e ∙ found, le')
]

pub starts_with-length : (pat s : Bytes) → starts_with pat s ≡ true → length pat ≤ length s
starts_with-length [] s h = omega arith
starts_with-length (p ∷ ps) [] h = cc
starts_with-length (p ∷ ps) (c ∷ cs) h = ground (arith, starts_with-length ps cs)

starts_with-take :
    (pat s : Bytes) (k : ℕ)
    → starts_with pat (take k s) ≡ true
    → (length pat ≤ k) × (starts_with pat s ≡ true)
starts_with-take [] s k h = (omega arith, refl)
starts_with-take (p ∷ ps) s zero h = cc
starts_with-take (p ∷ ps) [] (suc k) h = cc
starts_with-take (p ∷ ps) (c ∷ cs) (suc k) h = ground (arith, starts_with-take ps cs k)

length-take_le : (k : ℕ) (s : Bytes) → length (take k s) ≤ k
length-take_le zero s = omega arith
length-take_le (suc k) [] = omega arith
length-take_le (suc k) (c ∷ cs) = omega (arith, length-take_le k cs)

find_at-short : (pat s : Bytes) (i : ℕ) → length s < length pat → find_at pat s i ≡ none
unfolding find_at
find_at-short pat [] i h = refl
find_at-short pat (c ∷ cs) i h = elim (Bool-cases (starts_with pat (c ∷ cs))) [
  | inl e ↦ absurd (omega (arith, starts_with-length pat (c ∷ cs) e))
  | inr e ↦ find_at-skip pat c cs i e ∙ find_at-short pat cs (suc i) (omega arith)
]

-- A text cut before the end of the first occurrence has none.
find_at-take :
    (pat s : Bytes) (i j k : ℕ)
    → find_at pat s i ≡ some j
    → i + k < j + length pat
    → find_at pat (take k s) i ≡ none
unfolding find_at
find_at-take pat [] i j k h lt = cc
find_at-take pat (c ∷ cs) i j zero h lt = refl
find_at-take pat (c ∷ cs) i j (suc k) h lt = elim (Bool-cases (starts_with pat (c ∷ cs))) [
  | inl e ↦
      let same : i ≡ j = let f : some i ≡ some j = sym (find_at-here pat c cs i e) ∙ h in cc in
      find_at-short pat (c ∷ take k cs) i (omega (arith, length-take_le k cs))
  | inr e ↦
      let skip : starts_with pat (c ∷ take k cs) ≡ false =
        elim (Bool-cases (starts_with pat (c ∷ take k cs))) [
          | inl f ↦ let t = starts_with-take pat (c ∷ cs) (suc k) f in cc
          | inr f ↦ f
        ] in
      find_at-skip pat c (take k cs) i skip
      ∙ find_at-take pat cs (suc i) j k (sym (find_at-skip pat c cs i e) ∙ h) (omega arith)
]

starts_with-more :
    (pat s t : Bytes) → length pat ≤ length s → starts_with pat (s ++ t) ≡ starts_with pat s
starts_with-more [] s t h = refl
starts_with-more (p ∷ ps) [] t h = absurd (omega arith)
starts_with-more (p ∷ ps) (c ∷ cs) t h = ground (arith, starts_with-more ps cs t)

-- What is behind the first occurrence does not matter.
find_at-append :
    (pat s t : Bytes) (i j : ℕ) → find_at pat s i ≡ some j → find_at pat (s ++ t) i ≡ some j
unfolding find_at
find_at-append pat [] t i j h = cc
find_at-append pat (c ∷ cs) t i j h =
    let (le, at) = find_at-occurs pat (c ∷ cs) i j h in
    let fits : length pat ≤ length (c ∷ cs) =
      omega
        (arith, starts_with-length pat (drop (j - i) (c ∷ cs)) at, length-drop (j - i) (c ∷ cs)) in
    let same = starts_with-more pat (c ∷ cs) t fits in
    elim (Bool-cases (starts_with pat (c ∷ cs))) [
      | inl e ↦ find_at-here pat c (cs ++ t) i (same ∙ e) ∙ (sym (find_at-here pat c cs i e) ∙ h)
      | inr e ↦
          find_at-skip pat c (cs ++ t) i (same ∙ e)
          ∙ find_at-append pat cs t (suc i) j (sym (find_at-skip pat c cs i e) ∙ h)
    ]

pub find-occurs :
    (s pat : Bytes) (pos j : ℕ)
    → find s pat pos ≡ some j
    → (pos ≤ j) × (starts_with pat (drop j s) ≡ true)
unfolding find
find-occurs s pat pos j h =
    let (le, at) = find_at-occurs pat (drop pos s) pos j h in
    (
      le,
      ap (starts_with pat) (
            sym (
              drop-drop pos (j - pos) s
              ∙ ap (λ n. drop n s) {x = pos + (j - pos)} {y = j} (omega arith)))
          ∙ at,
    )

pub find-finds :
    (s pat : Bytes) (pos q : ℕ)
    → pos ≤ q
    → q < length s
    → starts_with pat (drop q s) ≡ true
    → (j : ℕ) × (find s pat pos ≡ some j) × (pos ≤ j) × (j ≤ q)
unfolding find
find-finds s pat pos q le lt h =
    let at : drop (q - pos) (drop pos s) ≡ drop q s =
      drop-drop pos (q - pos) s ∙ ap (λ n. drop n s) {x = pos + (q - pos)} {y = q} (omega arith) in
    let (j, found, le') =
      find_at-finds pat (drop pos s) pos q le (omega (arith, length-drop pos s))
        (ap (starts_with pat) at ∙ h) in
    (j, found, (find_at-occurs pat (drop pos s) pos j found).0, le')

-- A text cut before the end of the first occurrence has none.
pub find-take :
    (s pat : Bytes) (j k : ℕ)
    → find s pat 0 ≡ some j
    → k < j + length pat
    → find (take k s) pat 0 ≡ none
unfolding find
find-take s pat j k h lt = find_at-take pat s 0 j k h (omega arith)

pub find-append : (s t pat : Bytes) (j : ℕ) → find s pat 0 ≡ some j → find (s ++ t) pat 0 ≡ some j
unfolding find
find-append s t pat j h = find_at-append pat s t 0 j h

-- A search may begin later, up to where the first occurrence is.
pub find-later :
    (s pat : Bytes) (pos : ℕ)
    → 0 < length pat
    → ((j : ℕ) → find s pat 0 ≡ some j → pos ≤ j)
    → find s pat pos ≡ find s pat 0
find-later s pat pos nonempty bound = elim (Option-cases (find s pat 0)) [
  | inr (j, e) ↦
      let (ge, at) = find-occurs s pat 0 j e in
      let inside : j < length s =
        omega (arith, starts_with-length pat (drop j s) at, length-drop j s) in
      let (k, found, le1, le2) = find-finds s pat pos j (bound j e) inside at in
      let (k_ge, k_at) = find-occurs s pat pos k found in
      let (m, first, m_ge, m_le) = find-finds s pat 0 k (omega arith) (omega arith) k_at in
      let same : some m ≡ some j = sym first ∙ e in
      let eq : m ≡ j = cc in found ∙ (ap some {x = k} {y = j} (omega arith) ∙ sym e)
  | inl e ↦ elim (Option-cases (find s pat pos)) [
    | inl f ↦ f ∙ sym e
    | inr (k, f) ↦
        let (k_ge, k_at) = find-occurs s pat pos k f in
        let inside : k < length s =
          omega (arith, starts_with-length pat (drop k s) k_at, length-drop k s) in
        let (m, first, m_ge, m_le) = find-finds s pat 0 k (omega arith) inside k_at in
        let clash : some m ≡ none = sym first ∙ e in cc
  ]
]

-- An occurrence that ends in the front part is one of the front part.
pub find-cut :
    (s t pat : Bytes) (j : ℕ)
    → 0 < length pat
    → find (s ++ t) pat 0 ≡ some j
    → j + length pat ≤ length s
    → (k : ℕ) × (find s pat 0 ≡ some k)
find-cut s t pat j nonempty e fits =
    let (ge, at) = find-occurs (s ++ t) pat 0 j e in
    let front : starts_with pat (drop j s) ≡ true =
      sym (starts_with-more pat (drop j s) t (omega (arith, length-drop j s)))
      ∙ (ap (starts_with pat) (sym (drop-append j s t (omega arith))) ∙ at) in
    let (k, found, le1, le2) = find-finds s pat 0 j (omega arith) (omega arith) front in (k, found)
