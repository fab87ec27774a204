-- ===== src/Prelude/Strings/Segments.antt =====
-- `find` and `substr` at a position of a text whose rest is known piece by piece.
use kalshi_cpp.Prelude.{
  ℕ, suc, ◌+◌, ◌≤◌, ◌<◌, ◌≡◌, ◌≢◌, refl, sym, ap, ◌∙◌, true, some, [], ◌∷◌, ◌++◌, arith, Bytes,
  length, take, drop, drop-drop, length-drop, sub_size, ◌^◌, take-length, take-all, drop-length,
  length-append,
}
use kalshi_cpp.Prelude.Strings.{starts_with, find_at, find, substr, add_size, npos}

-- No byte of the text is `b`.
abbrev pub Lacks : ℕ → Bytes → Type 0
Lacks b [] = Unit {0}
Lacks b (c ∷ cs) = (c ≢ b) × Lacks b cs

-- From position `pos` on, the text is `t`.
abbrev pub At : Bytes → ℕ → Bytes → Type 0
At s pos t = (pos ≤ length s) × (drop pos s ≡ t)

pub At-start : (s : Bytes) → At s 0 s
At-start s = (omega arith, refl)

pub At-next : (s : Bytes) (pos : ℕ) (x t : Bytes) → At s pos (x ++ t) → At s (pos + length x) t
At-next s pos x t (le, at) = (
  omega (arith, length-drop pos s, ap (length {A = ℕ}) at, length-append x t),
  sym (drop-drop pos (length x) s) ∙ (ap (drop (length x)) at ∙ drop-length x t),
)

pub At-eq : (s : Bytes) (pos pos' : ℕ) (t : Bytes) → pos ≡ pos' → At s pos t → At s pos' t
At-eq s pos pos' t e (le, at) = (omega arith, ap (λ n. drop n s) (sym e) ∙ at)

pub At-length : (s : Bytes) (pos : ℕ) (t : Bytes) → At s pos t → pos + length t ≡ length s
At-length s pos t (le, at) = omega (arith, length-drop pos s, ap (length {A = ℕ}) at)

pub substr-At :
    (s : Bytes) (pos : ℕ) (x t : Bytes) → At s pos (x ++ t) → substr s pos (length x) ≡ some x
unfolding substr
substr-At s pos x t (le, at) =
    let all : take (length x) (drop pos s) ≡ x = ap (take (length x)) at ∙ take-length x t in
    ground (arith, all)

pub substr-tail :
    (s : Bytes) (pos : ℕ) (t : Bytes) → At s pos t → length s < 2 ^ 62 → substr s pos npos ≡ some t
unfolding substr
substr-tail s pos t (le, at) size =
    let all : take npos (drop pos s) ≡ t =
      ap (take npos) at
      ∙ take-all npos t (omega (arith, length-drop pos s, ap (length {A = ℕ}) at)) in
    ground (arith, all)

pub starts_with-append : (pat t : Bytes) → starts_with pat (pat ++ t) ≡ true
starts_with-append [] t = refl
starts_with-append (p ∷ ps) t = ground (arith, starts_with-append ps t)

find_at-past :
    (p : ℕ) (ps x t : Bytes) (i : ℕ)
    → Lacks p x
    → find_at (p ∷ ps) (x ++ t) i ≡ find_at (p ∷ ps) t (i + length x)
unfolding find_at
find_at-past p ps [] t i h = ap (find_at (p ∷ ps) t) {x = i} {y = i + 0} (omega arith)
find_at-past p ps (c ∷ cs) t i (ne, h) =
    let rest : find_at (p ∷ ps) (cs ++ t) (suc i) ≡ find_at (p ∷ ps) t (suc i + length cs) =
      find_at-past p ps cs t (suc i) h in
    let at : find_at (p ∷ ps) t (suc i + length cs) ≡ find_at (p ∷ ps) t (i + suc (length cs)) =
      ap (find_at (p ∷ ps) t) {x = suc i + length cs} {y = i + suc (length cs)} (omega arith) in
    ground (arith, rest, at)

find_at-now : (p : ℕ) (ps t : Bytes) (i : ℕ) → find_at (p ∷ ps) (p ∷ (ps ++ t)) i ≡ some i
unfolding find_at
find_at-now p ps t i = ground (arith, starts_with-append ps t)

-- The pattern behind a piece without its first byte is found there.
pub find-At :
    (s : Bytes) (pos p : ℕ) (ps x t : Bytes)
    → Lacks p x
    → At s pos (x ++ (p ∷ (ps ++ t)))
    → find s (p ∷ ps) pos ≡ some (pos + length x)
unfolding find
find-At s pos p ps x t h (le, at) =
    ap (λ u. find_at (p ∷ ps) u pos) at
    ∙ (find_at-past p ps x (p ∷ (ps ++ t)) pos h ∙ find_at-now p ps t (pos + length x))

-- A line that is not followed by an empty one is passed over by a search for the end of the headers.
pub find_at-line :
    (x t : Bytes) (c i : ℕ)
    → Lacks 13 x
    → c ≢ 13
    → find_at (13 ∷ 10 ∷ 13 ∷ 10 ∷ []) (x ++ (13 ∷ 10 ∷ c ∷ t)) i
      ≡ find_at (13 ∷ 10 ∷ 13 ∷ 10 ∷ []) (c ∷ t) (i + length x + 2)
find_at-line x t c i h ne =
    find_at-past 13 (10 ∷ 13 ∷ 10 ∷ []) x (13 ∷ 10 ∷ c ∷ t) i h ∙ skip (i + length x)
  where
    skip :
        (j : ℕ)
        → find_at (13 ∷ 10 ∷ 13 ∷ 10 ∷ []) (13 ∷ 10 ∷ c ∷ t) j
          ≡ find_at (13 ∷ 10 ∷ 13 ∷ 10 ∷ []) (c ∷ t) (j + 2)
    skip j =
        let at : find_at (13 ∷ 10 ∷ 13 ∷ 10 ∷ []) (c ∷ t) (suc (suc j))
            ≡ find_at (13 ∷ 10 ∷ 13 ∷ 10 ∷ []) (c ∷ t) (j + 2) =
          ap (find_at (13 ∷ 10 ∷ 13 ∷ 10 ∷ []) (c ∷ t)) {x = suc (suc j)} {y = j + 2}
            (omega arith) in
        unfold find_at in ground (arith, at)

pub find_at-end :
    (x t : Bytes) (i : ℕ)
    → Lacks 13 x
    → find_at (13 ∷ 10 ∷ 13 ∷ 10 ∷ []) (x ++ (13 ∷ 10 ∷ 13 ∷ 10 ∷ t)) i ≡ some (i + length x)
find_at-end x t i h =
    find_at-past 13 (10 ∷ 13 ∷ 10 ∷ []) x (13 ∷ 10 ∷ 13 ∷ 10 ∷ t) i h
    ∙ find_at-now 13 (10 ∷ 13 ∷ 10 ∷ []) t (i + length x)

pub Lacks-append : (b : ℕ) (x y : Bytes) → Lacks b x → Lacks b y → Lacks b (x ++ y)
Lacks-append b [] y hx hy = hy
Lacks-append b (c ∷ cs) y (ne, hx) hy = (ne, Lacks-append b cs y hx hy)

pub sub_size-add : (a b : ℕ) → a + b < 2 ^ 62 → sub_size (a + b) a ≡ b
sub_size-add a b h = omega arith

pub add_size-small : (a b : ℕ) → a + b < 2 ^ 62 → add_size a b ≡ a + b
add_size-small a b h = omega arith
