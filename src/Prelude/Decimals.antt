-- ===== src/Prelude/Decimals.antt =====
-- std::to_string of a number below 2^64, std::stoi, and the reading of decimal digits.
use Prim.Native.Nat.{ℕ, zero, suc, ◌+◌, ◌-◌, ◌*◌, ◌/◌, ◌%◌, ◌^◌, ◌<◌}
use mathlib.Core.Path.{◌≡◌, refl, sym, ap, subst, ◌∙◌}
use mathlib.Core.Logic.{inl, inr}
use mathlib.Core.Bool.{Bool, true, false, ◌&&◌, ◌||◌}
use mathlib.Core.Option.{Option, none, some}
use mathlib.Core.List.{[], ◌∷◌, ◌++◌, append-nil}
use native.Mathlib.Omega.{arith}
use native.Mathlib.Nat.{pow-suc}
use kalshi_cpp.Prelude.Tests.{◌==◌, leb, if◌then◌else◌, Bool-cases}
use kalshi_cpp.Prelude.Ints.{ℤ, pos, negsuc}
use kalshi_cpp.Prelude.Texts.{Bytes}

abbrev pub is_digit : ℕ → Bool
is_digit c = leb b'0' c && leb c b'9'

-- Reads the digits at the front of a text onto the value so far.
unfoldable pub read_digits : ℕ → Bytes → ℕ × Bytes
read_digits acc [] = (acc, [])
read_digits acc (c ∷ cs) =
    let rest = read_digits (acc * 10 + (c - b'0')) cs in if is_digit c then rest else (acc, c ∷ cs)

-- A text that no digit begins.
abbrev pub StopsDigits : Bytes → Type 0
StopsDigits [] = Unit {0}
StopsDigits (c ∷ cs) = is_digit c ≡ false

pub read_digits-stop : (acc : ℕ) (r : Bytes) → StopsDigits r → read_digits acc r ≡ (acc, r)
unfolding read_digits
read_digits-stop acc [] h = refl
read_digits-stop acc (c ∷ cs) h = rw h refl

-- The last `n` digits of `v` in front of the text.
unfoldable pub digits_onto : ℕ → ℕ → Bytes → Bytes
digits_onto zero v out = out
digits_onto (suc n) v out =
    let rest = digits_onto n (v / 10) ((b'0' + v % 10) ∷ out) in if v == 0 then out else rest

-- A number below 2^64 has at most 20 digits.
unfoldable pub to_string : ℕ → Bytes
unfolding digits_onto
to_string v = if v == 0 then b'0' ∷ [] else digits_onto 20 v []

abbrev is_space : ℕ → Bool
is_space c = c == 32 || (leb 9 c && leb c 13)

unfoldable pub skip_spaces : Bytes → Bytes
skip_spaces [] = []
skip_spaces (c ∷ cs) = let rest = skip_spaces cs in if is_space c then rest else c ∷ cs

-- `none` is std::invalid_argument or std::out_of_range.
unfoldable pub unsigned_part : Bytes → ℕ → Option ℕ
unsigned_part [] limit = none
unsigned_part (c ∷ cs) limit =
    let v = (read_digits 0 (c ∷ cs)).0 in if is_digit c && leb v limit then some v else none

abbrev to_pos : Option ℕ → Option ℤ
to_pos none = none
to_pos (some v) = some (pos v)

abbrev to_neg : Option ℕ → Option ℤ
to_neg none = none
to_neg (some zero) = some (pos 0)
to_neg (some (suc v)) = some (negsuc v)

unfoldable pub signed_part : Bytes → Option ℤ
unfolding unsigned_part read_digits
signed_part [] = none
signed_part (c ∷ cs) =
    if c == b'-'
    then to_neg (unsigned_part cs (2 ^ 31))
    else (if c == b'+'
        then to_pos (unsigned_part cs (2 ^ 31 - 1))
        else to_pos (unsigned_part (c ∷ cs) (2 ^ 31 - 1)))

-- `std::stoi(s)`
unfoldable pub stoi : Bytes → Option ℤ
unfolding skip_spaces signed_part
stoi s = signed_part (skip_spaces s)

-- All the digits that `digits_onto` puts in front, and the value that they add up to.
abbrev pub AllDigits : Bytes → Type 0
AllDigits [] = Unit {0}
AllDigits (c ∷ cs) = (is_digit c ≡ true) × AllDigits cs

digits_onto-read :
    (n v : ℕ) (out r : Bytes)
    → v < 10 ^ n
    → AllDigits out
    → (read_digits 0 (digits_onto n v out ++ r) ≡ read_digits v (out ++ r))
      × AllDigits (digits_onto n v out)
unfolding digits_onto read_digits
digits_onto-read zero v out r h d = let e : v ≡ 0 = ground arith in (ground arith, d)
digits_onto-read (suc n) v out r h d = elim (Bool-cases (v == 0)) [
  | inl z ↦ let e : v ≡ 0 = ground arith in (rw e refl, rw z d)
  | inr p ↦
      let digit : is_digit (b'0' + v % 10) ≡ true = ground arith in
      let value : v / 10 * 10 + (b'0' + v % 10 - b'0') ≡ v = omega arith in
      let (back, ds) =
        digits_onto-read n (v / 10) ((b'0' + v % 10) ∷ out) r (omega (arith, pow-suc 10 n))
          (digit, d) in
      (rw p (back ∙ rw (digit, value) refl), rw p ds)
]

digits_onto-cons :
    (n v : ℕ) (c : ℕ) (out : Bytes)
    → (d : ℕ) × (rest : Bytes) × (digits_onto n v (c ∷ out) ≡ d ∷ rest)
unfolding digits_onto
digits_onto-cons zero v c out = (c, out, refl)
digits_onto-cons (suc n) v c out = elim (Bool-cases (v == 0)) [
  | inl z ↦ (c, out, rw z refl)
  | inr p ↦
      let (d, rest, e) = digits_onto-cons n (v / 10) (b'0' + v % 10) (c ∷ out) in (d, rest, rw p e)
]

digits_onto-first :
    (n v : ℕ) → (v == 0) ≡ false → (d : ℕ) × (rest : Bytes) × (digits_onto (suc n) v [] ≡ d ∷ rest)
unfolding digits_onto
digits_onto-first n v p =
    let (d, rest, e) = digits_onto-cons n (v / 10) (b'0' + v % 10) [] in (d, rest, rw p e)

to_string-zero : (v : ℕ) → (v == 0) ≡ true → to_string v ≡ b'0' ∷ []
unfolding to_string
to_string-zero v z = rw z refl

to_string-pos : (v : ℕ) → (v == 0) ≡ false → to_string v ≡ digits_onto 20 v []
unfolding to_string
to_string-pos v p = ap (λ b. if b then b'0' ∷ [] else digits_onto 20 v []) p

-- What is known of a printed number: digits, at least one, that read back as the number.
pub to_string-digits :
    (v : ℕ) (r : Bytes)
    → v < 2 ^ 64
    → StopsDigits r
    → (c : ℕ) × (cs : Bytes) × (to_string v ≡ c ∷ cs)
      × AllDigits (c ∷ cs)
      × (read_digits 0 ((c ∷ cs) ++ r) ≡ (v, r))
to_string-digits v r h stops = elim (Bool-cases (v == 0)) [
  | inl z ↦
      let e : v ≡ 0 = ground arith in
      (
        b'0',
        [],
        to_string-zero v z,
        (refl, tt),
        rw e (unfold read_digits in read_digits-stop 0 r stops),
      )
  | inr p ↦
      let (d, rest, first) = digits_onto-first 19 v p in
      let (back, ds) = digits_onto-read 20 v [] r (omega arith) tt in
      (
        d,
        rest,
        to_string-pos v p ∙ first,
        subst AllDigits first ds,
        sym (ap (λ t. read_digits 0 (t ++ r)) first) ∙ (back ∙ read_digits-stop v r stops),
      )
]

stoi-digits :
    (v c : ℕ) (cs : Bytes)
    → AllDigits (c ∷ cs)
    → read_digits 0 (c ∷ cs) ≡ (v, [])
    → v < 2 ^ 31
    → stoi (c ∷ cs) ≡ some (pos v)
unfolding stoi
stoi-digits v c cs (d, ds) back h =
    let solid : is_space c ≡ false = ground arith in
    let first : skip_spaces (c ∷ cs) ≡ c ∷ cs = unfold skip_spaces in rw solid refl in
    let minus : (c == b'-') ≡ false = ground arith in
    let plus : (c == b'+') ≡ false = ground arith in
    let fits : leb v (2 ^ 31 - 1) ≡ true = ground arith in
    let number : unsigned_part (c ∷ cs) (2 ^ 31 - 1) ≡ some v =
      unfold unsigned_part in ground (arith, back, fits, d) in
    ap signed_part first ∙ (unfold signed_part in rw (minus, plus, number) refl)

-- Every number below 2^31 is read back from its print.
pub stoi-to_string : (v : ℕ) → v < 2 ^ 31 → stoi (to_string v) ≡ some (pos v)
stoi-to_string v h =
    let (c, cs, e, ds, back) = to_string-digits v [] (omega arith) tt in
    let whole : read_digits 0 (c ∷ cs) ≡ (v, []) =
      sym (ap (read_digits 0) (append-nil (c ∷ cs))) ∙ back in
    ap stoi e ∙ stoi-digits v c cs ds whole h
