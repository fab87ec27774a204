-- ===== src/Bench/Synthetic/Ranges.antt =====
-- bench/bench_hotpath_multi.cpp: the bounds of the drawn numbers and of the buckets.
use native.Mathlib.Nat.{pow-suc, mod-lt, pow-le-pow_right}
use kalshi_cpp.Prelude.{
  ℕ, zero, suc, ◌+◌, ◌-◌, ◌*◌, ◌/◌, ◌%◌, ◌^◌, ◌≤◌, ◌<◌, ◌≡◌, ◌⊎◌, inl, inr, refl, sym, ap, subst,
  ◌∙◌, Bool, true, arith, ltb, ◌==◌, if◌then◌else◌, if-elim, Bool-cases,
}
use kalshi_cpp.Bench.Synthetic.{next, range, coin, signed, draw, halvings, bucket, bucket_count}

no_wrap :
    (lo hi d : ℕ)
    → lo ≤ hi
    → hi < 2 ^ 32 - 1
    → d < hi - lo + 1
    → (lo + d % 2 ^ 32) % 2 ^ 32 ≡ lo + d
no_wrap lo hi d le small h = omega arith

-- A drawn number is in its range, which is not empty and does not have all the words.
pub range-in :
    (lo hi s : ℕ) → lo ≤ hi → hi < 2 ^ 32 - 1 → (lo ≤ (range lo hi s).0) × ((range lo hi s).0 ≤ hi)
unfolding range
range-in lo hi s le small =
    let width : (hi + 2 ^ 32 - lo + 1) % 2 ^ 32 ≡ hi - lo + 1 = omega arith in
    let drawn : next s % (hi - lo + 1) < hi - lo + 1 = mod-lt (next s) (omega arith) in
    let value : (range lo hi s).0 ≡ lo + next s % (hi - lo + 1) =
      ap (λ w. (lo + next s % w % 2 ^ 32) % 2 ^ 32) width
      ∙ no_wrap lo hi (next s % (hi - lo + 1)) le small drawn in
    (omega (arith, value), omega (arith, value, drawn))

halvings-log :
    (n v b : ℕ)
    → 0 < v
    → v < 2 ^ suc n
    → (r : ℕ) × (halvings n v b ≡ b + r) × (2 ^ r ≤ v) × (v < 2 ^ suc r)
unfolding halvings
halvings-log zero v b h lt = (0, omega arith, omega arith, omega arith)
halvings-log (suc n) v b h lt = elim (Bool-cases (v / 2 == 0)) [
  | inl z ↦ (0, rw (halvings, z) (omega arith), ground arith, ground arith)
  | inr p ↦
      let (r, e, lo, hi) =
        halvings-log n (v / 2) (b + 1) (ground arith) (omega (arith, pow-suc 2 (suc n))) in
      (
        suc r,
        rw (halvings, p) (e ∙ omega arith),
        omega (arith, pow-suc 2 r),
        omega (arith, pow-suc 2 (suc r)),
      )
]

-- A synthetic message names one of the 256 markets, has a price from 1 to 99 and a delta from -50 to 50
-- that is not zero.
pub draw-in :
    (i s : ℕ)
    → ((draw i s).0.tid ≤ 255)
      × ((1 ≤ (draw i s).0.price) × ((draw i s).0.price ≤ 99))
      × (size : ℕ) × (up : Bool) × ((draw i s).0.delta ≡ signed size up)
      × (1 ≤ size)
      × (size ≤ 50)
unfolding draw
draw-in i s =
    let tid = range-in 0 255 s (omega arith) (omega arith) in
    let s1 : ℕ = (range 0 255 s).1 in
    let s2 : ℕ = (range 1 99 s1).1 in
    let s3 : ℕ = (range 1 50 s2).1 in
    let price = range-in 1 99 s1 (omega arith) (omega arith) in
    let size = range-in 1 50 s2 (omega arith) (omega arith) in
    (tid.1, price, (range 1 50 s2).0, (coin s3).0, refl, size.0, size.1)

-- What holds of a bucket and a number of cycles.
abbrev Ends : ℕ → ℕ → Type 0
Ends c k =
    (k < bucket_count)
    × ((c < 2 ^ 7) ⊎ (2 ^ 7 * 2 ^ k ≤ c))
    × ((k ≡ bucket_count - 1) ⊎ (c < 2 ^ 7 * 2 ^ suc k))

Ends-capped :
    (c b : ℕ)
    → 2 ^ b ≤ c / 2 ^ 7
    → c / 2 ^ 7 < 2 ^ suc b
    → Ends c (if ltb b bucket_count then b else bucket_count - 1)
Ends-capped c b lo hi =
    if-elim (Ends c) (ltb b bucket_count) b (bucket_count - 1)
      (λ e. (ground arith, inr (omega (arith, lo)), inr (omega (arith, hi))))
      (λ e.
        let big : 2 ^ 23 ≤ 2 ^ b =
          pow-le-pow_right {n = 2} (omega arith) {i = 23} {j = b} (ground arith) in
        (omega arith, inr (omega (arith, lo, big)), inl refl))

halvings-small : (n v b : ℕ) → (v == 0) ≡ true → halvings (suc n) v b ≡ b
unfolding halvings
halvings-small n v b z = let half : (v / 2 == 0) ≡ true = ground arith in rw (halvings, half) refl

-- A number of cycles from 2^7 on falls into the bucket k of the 24 whose ends 2^(7+k) and 2^(8+k) it lies
-- between, the last bucket having no upper end; a smaller one falls into bucket 0.
pub bucket-ends :
    (c : ℕ)
    → c < 2 ^ 64
    → (bucket c < bucket_count)
      × ((c < 2 ^ 7) ⊎ (2 ^ 7 * 2 ^ bucket c ≤ c))
      × ((bucket c ≡ bucket_count - 1) ⊎ (c < 2 ^ 7 * 2 ^ suc (bucket c)))
unfolding bucket
bucket-ends c small = elim (Bool-cases (c / 2 ^ 7 == 0)) [
  | inl z ↦
      let zero_th : halvings 64 (c / 2 ^ 7) 0 ≡ 0 = halvings-small 63 (c / 2 ^ 7) 0 z in
      subst (λ b. Ends c (if ltb b bucket_count then b else bucket_count - 1)) (sym zero_th)
        (omega arith, inl (ground arith), inr (ground arith))
  | inr p ↦
      let (r, e, lo, hi) = halvings-log 64 (c / 2 ^ 7) 0 (ground arith) (omega arith) in
      let same : halvings 64 (c / 2 ^ 7) 0 ≡ r = omega (arith, e) in
      subst (λ b. Ends c (if ltb b bucket_count then b else bucket_count - 1)) (sym same)
        (Ends-capped c r lo hi)
]
