-- ===== src/Prelude/Strings.antt =====
-- std::string as the program uses it: `find`, `substr`, and a map with text keys.
pub mod Search
pub mod Segments
use kalshi_cpp.Prelude.{
  ℕ, zero, suc, ◌+◌, ◌-◌, ◌%◌, ◌≡◌, refl, Bool, true, false, ◌&&◌, Option, none, some, List, [],
  ◌∷◌, ◌==◌, if◌then◌else◌, Bytes, bytes_eq, length, take, drop, ltb, size_mod,
}

-- std::string::npos
abbrev pub npos : ℕ
npos = size_mod - 1

-- size_t `a + b`
abbrev pub add_size : ℕ → ℕ → ℕ
add_size a b = (a + b) % size_mod

abbrev pub starts_with : Bytes → Bytes → Bool
starts_with [] s = true
starts_with (p ∷ ps) [] = false
starts_with (p ∷ ps) (c ∷ cs) = p == c && starts_with ps cs

-- The first occurrence in a text that begins at position `i`; `pat` is not empty.
unfoldable pub find_at : Bytes → Bytes → ℕ → Option ℕ
find_at pat [] i = none
find_at pat (c ∷ cs) i =
    let rest = find_at pat cs (suc i) in if starts_with pat (c ∷ cs) then some i else rest

-- `s.find(pat, pos)`, with `none` for npos
unfoldable pub find : Bytes → Bytes → ℕ → Option ℕ
unfolding find_at
find s pat pos = find_at pat (drop pos s) pos

abbrev pub or_npos : Option ℕ → ℕ
or_npos none = npos
or_npos (some i) = i

-- `s.substr(pos, n)`; `none` is std::out_of_range
unfoldable pub substr : Bytes → ℕ → ℕ → Option Bytes
substr s pos n = if ltb (length s) pos then none else some (take n (drop pos s))

-- `m[key] = content` on an std::unordered_map
unfoldable pub put : Bytes → Bytes → List (Bytes × Bytes) → List (Bytes × Bytes)
put key v [] = (key, v) ∷ []
put key v (e ∷ es) = if bytes_eq key e.0 then (key, v) ∷ es else e ∷ put key v es
