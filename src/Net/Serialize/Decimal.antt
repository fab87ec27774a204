-- ===== src/Net/Serialize/Decimal.antt =====
-- The decimal printers against a decimal reader.
use native.Mathlib.Nat.{pow-suc}
use kalshi_cpp.Prelude.{
  ℕ, zero, suc, ◌+◌, ◌-◌, ◌*◌, ◌/◌, ◌%◌, ◌^◌, ◌≤◌, ◌<◌, ◌≡◌, refl, ◌∙◌, true, some, [], ◌∷◌, ◌++◌,
  arith, leb, ◌==◌, Bytes, length, Bool-cases, inl, inr,
}
use kalshi_cpp.Prelude.Decimals.{is_digit, read_digits, StopsDigits, read_digits-stop}
use kalshi_cpp.Net.Serialize.{push_digits, emit_u64, emit_u8}

-- The digits of `v` before what the buffer holds: reading them from 0 gives `v`, and goes on.
push_digits-read :
    (n v : ℕ) (buf r : Bytes)
    → v < 10 ^ n
    → (out : Bytes) × (push_digits n v buf ≡ some out)
      × (length out ≤ length buf + n)
      × (read_digits 0 (out ++ r) ≡ read_digits v (buf ++ r))
unfolding push_digits read_digits
push_digits-read zero v buf r h = (buf, ground arith, omega arith, ground arith)
push_digits-read (suc n) v buf r h = elim (Bool-cases (v == 0)) [
  | inl z ↦ (buf, rw z refl, omega arith, ground arith)
  | inr p ↦
      let (out, run, len, back) =
        push_digits-read n (v / 10) ((b'0' + v % 10) ∷ buf) r (omega (arith, pow-suc 10 n)) in
      let digit : is_digit (b'0' + v % 10) ≡ true = ground arith in
      let value : v / 10 * 10 + (b'0' + v % 10 - b'0') ≡ v = omega arith in
      (out, rw p run, omega arith, back ∙ rw (digit, value) refl)
]

-- Every uint64 has at most the 20 digits that fit the buffer, and they read back as the number.
pub emit_u64-read :
    (v : ℕ) (r : Bytes)
    → v < 2 ^ 64
    → StopsDigits r
    → (out : Bytes) × (emit_u64 v ≡ some out)
      × (length out ≤ 20)
      × (read_digits 0 (out ++ r) ≡ (v, r))
unfolding emit_u64
emit_u64-read v r h stops = elim (Bool-cases (v == 0)) [
  | inl z ↦
      let e : v ≡ 0 = ground arith in
      (b'0' ∷ [], rw z refl, omega arith, rw e (unfold read_digits in read_digits-stop 0 r stops))
  | inr p ↦
      let (out, run, len, back) = push_digits-read 20 v [] r (omega arith) in
      (out, rw p run, len, back ∙ read_digits-stop v r stops)
]

pub emit_u8-read :
    (v : ℕ) (r : Bytes)
    → v < 100
    → StopsDigits r
    → (length (emit_u8 v) ≤ 2) × (read_digits 0 (emit_u8 v ++ r) ≡ (v, r))
unfolding emit_u8 read_digits
emit_u8-read v r h stops = elim (Bool-cases (leb 10 v)) [
  | inl big ↦
      let d1 : is_digit (b'0' + v / 10) ≡ true = ground arith in
      let d2 : is_digit (b'0' + v % 10) ≡ true = ground arith in
      let e : (0 * 10 + (b'0' + v / 10 - b'0')) * 10 + (b'0' + v % 10 - b'0') ≡ v = omega arith in
      (rw big (omega arith), rw (big, d1, d2, e) (read_digits-stop v r stops))
  | inr small ↦
      let d2 : is_digit (b'0' + v % 10) ≡ true = ground arith in
      let e : 0 * 10 + (b'0' + v % 10 - b'0') ≡ v = ground arith in
      (rw small (omega arith), rw (small, d2, e) (read_digits-stop v r stops))
]
