-- ===== src/Core/Spsc/Wrap.antt =====
-- Counters that wrap, and slots, in terms of counters that do not.
use Prim.Native.Nat.{◌∣◌}
use native.Mathlib.Nat.{mod-mod_of_dvd, div-add-mod, pow-suc, mul-mod_right, dvd_of_mod-eq-zero}
use kalshi_cpp.Prelude.{
  size_mod, sub_size, next_size, ℕ, zero, suc, ◌+◌, ◌-◌, ◌*◌, ◌/◌, ◌%◌, ◌^◌, ◌≤◌, ◌<◌, ◌≡◌, ap, ◌∙◌,
  ◌≢◌, arith, dec_le,
}
use kalshi_cpp.Prelude.Bits.{bit_and-mask}
use kalshi_cpp.Core.Spsc.{slot}

-- A difference of wrapped counters is the difference, where that fits.
pub sub_size-mod :
    (a b : ℕ) → b ≤ a → a < b + size_mod → sub_size (a % size_mod) (b % size_mod) ≡ a - b
sub_size-mod a b h l = omega arith

pub next_size-mod : (a : ℕ) → next_size (a % size_mod) ≡ (a + 1) % size_mod
next_size-mod a = omega arith

pow_split : (n k : ℕ) → k ≤ n → 2 ^ n ≡ 2 ^ k * 2 ^ (n - k)
pow_split n zero h = let e : n - 0 ≡ n = omega arith in omega (arith, ap (λ (t : ℕ). 2 ^ t) e)
pow_split n (suc k) h =
    let e : n - k ≡ suc (n - suc k) = omega arith in
    let half : 2 ^ (n - k) ≡ 2 ^ suc (n - suc k) = ap (λ (t : ℕ). 2 ^ t) e in
    pow_split n k (omega arith)
    ∙ (ap (λ (t : ℕ). 2 ^ k * t) (half ∙ pow-suc 2 (n - suc k)) ∙ rw (pow-suc 2 k) (omega arith))

pow_dvd : (n k : ℕ) → k ≤ n → 2 ^ k ∣ 2 ^ n
pow_dvd n k h =
    dvd_of_mod-eq-zero (2 ^ k) (rw (pow_split n k h) (mul-mod_right (2 ^ k) (2 ^ (n - k))))

-- Two counters less than a capacity apart have different slots.
pub mod-ne : (m i j : ℕ) → i < j → j < i + m → i % m ≢ j % m
mod-ne m i j h l e = elim (dec_le (j / m) (i / m)) [
  | yes le ↦ grind (arith, div-add-mod i m, div-add-mod j m)
  | no gt ↦ grind (arith, div-add-mod i m, div-add-mod j m)
]

pub slot-mod :
    (k capacity a : ℕ) → capacity ≡ 2 ^ k → k ≤ 64 → slot capacity (a % size_mod) ≡ a % capacity
unfolding slot
slot-mod k capacity a e h =
    rw (e, bit_and-mask k (a % size_mod)) (mod-mod_of_dvd (2 ^ k) a (pow_dvd 64 k h))
