-- ===== src/Prelude/Bits.antt =====
-- `x & (2^k - 1)` as a remainder, at every width, from the digit recursion of the native operation.
use Prim.Native.Nat.{
  ℕ, zero, suc, ◌+◌, ◌-◌, ◌*◌, ◌/◌, ◌%◌, ◌^◌, ◌≤◌, ◌<◌, min, bit_and, digits, bit_and-bitwise,
}
use mathlib.Core.Path.{◌≡◌, refl, sym, ap, ◌∙◌}
use native.Mathlib.Nat.{
  pow-suc, pow-zero, mul-one, mul_assoc, one-le-pow, pow-le-pow_right, mod-le, div-add-mod,
  mul-add-mod_self_left, mod-eq_of_lt, mod-lt,
}
use native.Mathlib.Omega.{arith}

abbrev and_fuel : ℕ → ℕ → ℕ → ℕ
and_fuel n a b = digits (λ b. zero) min n a b

and_fuel_irrelevant : (n m a b : ℕ) → a ≤ n → a ≤ m → and_fuel n a b ≡ and_fuel m a b
and_fuel_irrelevant zero zero a b p q = refl
and_fuel_irrelevant zero (suc m) zero b p q = refl
and_fuel_irrelevant zero (suc m) (suc a) b p q = absurd (omega arith)
and_fuel_irrelevant (suc n) zero zero b p q = refl
and_fuel_irrelevant (suc n) zero (suc a) b p q = absurd (omega arith)
and_fuel_irrelevant (suc n) (suc m) zero b p q = refl
and_fuel_irrelevant (suc n) (suc m) (suc a) b p q =
    omega (arith, and_fuel_irrelevant n m (suc a / 2) (b / 2) (omega arith) (omega arith))

pub bit_and_halves : (a b : ℕ) → bit_and a b ≡ bit_and (a / 2) (b / 2) * 2 + min (a % 2) (b % 2)
bit_and_halves zero b = omega (arith, bit_and-bitwise 0 b, bit_and-bitwise 0 (b / 2))
bit_and_halves (suc a) b = omega (
  arith,
  bit_and-bitwise (suc a) b,
  bit_and-bitwise (suc a / 2) (b / 2),
  and_fuel_irrelevant a (suc a / 2) (suc a / 2) (b / 2) (omega arith) (omega arith),
)

bit_and-zero_below : (n a : ℕ) → a ≤ n → bit_and a 0 ≡ 0
bit_and-zero_below n zero h = refl
bit_and-zero_below zero (suc a) h = absurd (omega arith)
bit_and-zero_below (suc n) (suc a) h =
    omega (arith, bit_and_halves (suc a) 0, bit_and-zero_below n (suc a / 2) (omega arith))

-- The remainder by twice `m`, from the remainder of the half.
double_rem : (a m : ℕ) → 0 < m → a % (2 * m) ≡ 2 * (a / 2 % m) + a % 2
double_rem a m h =
    let r = 2 * (a / 2 % m) + a % 2 in
    let split : 2 * m * (a / 2 / m) + r ≡ a =
      omega (arith, div-add-mod (a / 2) m, ap (λ (t : ℕ). 2 * t) (div-add-mod (a / 2) m)) in
    ap (λ (t : ℕ). t % (2 * m)) (sym split)
    ∙ (mul-add-mod_self_left (2 * m) (a / 2 / m) r ∙ mod-eq_of_lt (omega (arith, mod-lt (a / 2) h)))

-- A mask of the `k` low bits keeps the remainder by `2 ^ k`.
pub bit_and-mask : (k a : ℕ) → bit_and a (2 ^ k - 1) ≡ a % 2 ^ k
bit_and-mask zero a = omega (arith, bit_and-zero_below a a (omega arith))
bit_and-mask (suc k) a = ground (
  arith,
  bit_and_halves a (2 ^ suc k - 1),
  pow-suc 2 k,
  one-le-pow k 2,
  bit_and-mask k (a / 2),
  double_rem a (2 ^ k) (one-le-pow k 2 (omega arith)),
)

-- A mask without the `k` low bits of `n + k` takes the remainder by `2 ^ k` away.
pub bit_and-clear : (k n x : ℕ) → x < 2 ^ (n + k) → bit_and x (2 ^ (n + k) - 2 ^ k) ≡ x - x % 2 ^ k
bit_and-clear zero n x h = bit_and-mask (n + 0) x ∙ (mod-eq_of_lt h ∙ omega arith)
bit_and-clear (suc k) n x h =
    let big : 2 ^ (n + suc k) ≡ 2 ^ (n + k) * 2 =
      ap (λ t. 2 ^ t) {x = n + suc k} {y = suc (n + k)} (omega arith) ∙ pow-suc 2 (n + k) in
    let small : 2 ^ suc k ≡ 2 ^ k * 2 = pow-suc 2 k in
    let le : 2 ^ k ≤ 2 ^ (n + k) =
      pow-le-pow_right {n = 2} (omega arith) {i = k} {j = n + k} (omega arith) in
    let m : ℕ = 2 ^ (n + suc k) - 2 ^ suc k in
    let half : m / 2 ≡ 2 ^ (n + k) - 2 ^ k = omega (arith, big, small, le) in
    let rem : x % 2 ^ suc k ≡ 2 * (x / 2 % 2 ^ k) + x % 2 =
      ap (λ t. x % t) {x = 2 ^ suc k} {y = 2 * 2 ^ k} (omega (arith, small))
      ∙ double_rem x (2 ^ k) (omega (arith, one-le-pow k 2)) in
    let low : bit_and (x / 2) (m / 2) ≡ x / 2 - x / 2 % 2 ^ k =
      ap (bit_and (x / 2)) half ∙ bit_and-clear k n (x / 2) (omega (arith, h, big)) in
    let even : m % 2 ≡ 0 = omega (arith, big, small, le) in
    omega (arith, bit_and_halves x m, low, rem, even, mod-le (x / 2) (2 ^ k))

pub pow-add : (a m n : ℕ) → a ^ (m + n) ≡ a ^ m * a ^ n
pow-add a m zero =
    ap (λ t. a ^ t) {x = m + 0} {y = m} (omega arith)
    ∙ (sym (mul-one (a ^ m)) ∙ ap (λ t. a ^ m * t) (sym (pow-zero a)))
pow-add a m (suc n) =
    ap (λ t. a ^ t) {x = m + suc n} {y = suc (m + n)} (omega arith)
    ∙ (pow-suc a (m + n)
        ∙ (ap (λ t. t * a) (pow-add a m n)
            ∙ (mul_assoc (a ^ m) (a ^ n) a ∙ ap (λ t. a ^ m * t) (sym (pow-suc a n)))))
