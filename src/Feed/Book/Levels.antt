-- ===== src/Feed/Book/Levels.antt =====
-- One side of the book: what the cached best bid means, and that `apply` keeps it so.
use kalshi_cpp.Prelude.{
  ℕ, zero, suc, ◌≤◌, ◌<◌, ◌≡◌, refl, sym, ◌∙◌, ◌&&◌, ◌≢◌, subst, ◌⊎◌, inl, inr, true, false, some,
  List, arith, set, length, length-set, get_or-set_self, get_or-set_ne, ℤ, pos, negsuc, ◌+ℤ◌, ◌≤ℤ◌,
  ◌<ℤ◌, ℕ_discrete, ltb, ◌==◌, eq→==, Bool-cases, lt-cases,
}
use kalshi_cpp.Feed.Parser.{int32_min, int32_max}
use kalshi_cpp.Feed.Book.{level, rescan, add_int32, new_best, apply_side, is_zero, is_positive}

-- `best` is the highest price with a quantity, or 0 where there is none.
pub record IsTop (levels : List ℤ) (best : ℕ) : Type 0 where
  pub live : best ≢ 0 → pos 0 <ℤ level levels best
  pub above : (p : ℕ) → best < p → level levels p ≡ pos 0

pub record IsSide (levels : List ℤ) (best : ℕ) : Type 0 where
  pub width : length levels ≡ 100
  pub in_range : best < 100
  pub natural : (p : ℕ) → pos 0 ≤ℤ level levels p
  pub top : IsTop levels best

-- A quantity that is not negative is zero or positive.
is_zero-pos : (q : ℤ) → pos 0 ≤ℤ q → is_zero q ≡ false → pos 0 <ℤ q
is_zero-pos (pos zero) h z = cc
is_zero-pos (pos (suc n)) h z = omega arith
is_zero-pos (negsuc n) h z = omega arith

is_zero-eq : (q : ℤ) → is_zero q ≡ true → q ≡ pos 0
is_zero-eq (pos zero) z = refl
is_zero-eq (pos (suc n)) z = cc
is_zero-eq (negsuc n) z = cc

is_positive-lt : (q : ℤ) → is_positive q ≡ true → pos 0 <ℤ q
is_positive-lt (pos zero) z = cc
is_positive-lt (pos (suc n)) z = omega arith
is_positive-lt (negsuc n) z = cc

not_positive : (q : ℤ) → pos 0 ≤ℤ q → is_positive q ≡ false → q ≡ pos 0
not_positive (pos zero) h z = refl
not_positive (pos (suc n)) h z = cc
not_positive (negsuc n) h z = absurd (omega arith)

-- The scan stops at the highest quantity that is not above its start.
rescan-IsTop :
    (levels : List ℤ) (b : ℕ)
    → ((p : ℕ) → pos 0 ≤ℤ level levels p)
    → ((p : ℕ) → b < p → level levels p ≡ pos 0)
    → IsTop levels (rescan levels b) × (rescan levels b ≤ b)
unfolding rescan
rescan-IsTop levels zero nat above =
    (record { live = λ h. absurd (h refl); above = above }, omega arith)
rescan-IsTop levels (suc b) nat above = elim (Bool-cases (is_zero (level levels (suc b)))) [
  | inl z ↦
      let ih = rescan-IsTop levels b nat (λ p h. elim (lt-cases (suc b) p) [
        | inl l ↦ above p l
        | inr (inl e) ↦ subst (λ (k : ℕ). level levels k ≡ pos 0) e (is_zero-eq _ z)
        | inr (inr g) ↦ absurd (omega arith)
      ]) in
      rw z (ih.0, omega (arith, ih.1))
  | inr n ↦ rw n (record { live = λ _. is_zero-pos _ (nat (suc b)) n; above = above }, omega arith)
]

module _ (levels : List ℤ) (best price : ℕ) (nat : (p : ℕ) → pos 0 ≤ℤ level levels p)
    (live : best ≢ 0 → best ≢ price → pos 0 <ℤ level levels best)
    (above : (p : ℕ) → p ≢ price → best < p → level levels p ≡ pos 0) where
  keep-IsTop :
      (is_positive (level levels price) ≡ true → price ≤ best)
      → (price ≡ best → is_zero (level levels price) ≡ false)
      → IsTop levels best
  keep-IsTop low full = record {
    live = λ h. elim (ℕ_discrete best price) [
      | yes e ↦
          subst (λ (k : ℕ). pos 0 <ℤ level levels k) (sym e)
            (is_zero-pos _ (nat price) (full (sym e)))
      | no n ↦ live h n
    ];
    above = λ p h. elim (ℕ_discrete p price) [
      | yes e ↦
          subst (λ (k : ℕ). level levels k ≡ pos 0) (sym e)
            (elim (Bool-cases (is_positive (level levels price))) [
              | inl z ↦ absurd (omega (arith, low z))
              | inr z ↦ not_positive _ (nat price) z
            ])
      | no n ↦ above p n h
    ];
  }

  raise-IsTop : is_positive (level levels price) ≡ true → best < price → IsTop levels price
  raise-IsTop z lt = record {
    live = λ _. is_positive-lt _ z;
    above = λ p h. above p (omega arith) (omega arith);
  }

  new_best-IsTop :
      IsTop levels (new_best levels best price)
      × ((new_best levels best price ≡ price) ⊎ (new_best levels best price ≤ best))
  unfolding new_best
  new_best-IsTop = elim (Bool-cases (is_positive q && ltb best price)) [
    | inl up ↦ rw up (raise-IsTop (ground arith) (ground arith), inl refl)
    | inr stay ↦ elim (Bool-cases (price == best && is_zero q)) [
      | inl drained ↦
          let e : price ≡ best = ground arith in
          let z : is_zero q ≡ true = ground arith in
          let (top, le) = rescan-IsTop levels best nat (λ p h. above p (omega arith) h) in
          rw (stay, drained) (top, inr le)
      | inr full ↦
          rw (stay, full)
            (
              keep-IsTop (λ z. ground arith) (λ e. ground (arith, eq→== price best e)),
              inr (omega arith),
            )
    ]
  ]
    where
      q : ℤ
      q = level levels price

abbrev pub InRange : ℤ → Type 0
InRange q = (pos 0 ≤ℤ q) × (q ≤ℤ int32_max)

add_int32_fits : (a b : ℤ) → InRange (a +ℤ b) → add_int32 a b ≡ some (a +ℤ b)
unfolding add_int32
add_int32_fits a b h = ground arith

-- What `apply_side` does to a good side, where the new quantity is in range.
pub apply_side_lem :
    (levels : List ℤ) (best price : ℕ) (delta : ℤ)
    → IsSide levels best
    → 1 ≤ price
    → price ≤ 99
    → InRange (level levels price +ℤ delta)
    → let levels' = set levels price (level levels price +ℤ delta) in
      let best' = new_best levels' best price in
      (apply_side levels best price delta ≡ some (levels', best')) × IsSide levels' best'
unfolding apply_side
apply_side_lem levels best price delta side low high fits = (
  ground (arith, add_int32_fits (level levels price) delta fits),
  record {
    width = length-set levels price q ∙ side.width;
    in_range = elim top.1 [ inl e ↦ omega arith | inr l ↦ omega (arith, side.in_range) ];
    natural = nat;
    top = top.0;
  },
)
  where
    q : ℤ
    q = level levels price +ℤ delta

    levels' : List ℤ
    levels' = set levels price q

    self : level levels' price ≡ q
    self = get_or-set_self levels price q (pos 0) (omega (arith, side.width))

    other : (p : ℕ) → p ≢ price → level levels' p ≡ level levels p
    other p n = get_or-set_ne levels price p q (pos 0) (λ e. n (sym e))

    nat : (p : ℕ) → pos 0 ≤ℤ level levels' p
    nat p = elim (ℕ_discrete p price) [
      | yes e ↦ rw (e, self) fits.0
      | no n ↦ rw (other p n) (side.natural p)
    ]

    top :
        IsTop levels' (new_best levels' best price)
        × ((new_best levels' best price ≡ price) ⊎ (new_best levels' best price ≤ best))
    top =
        new_best-IsTop levels' best price nat (λ h n. rw (other best n) (side.top.live h))
          (λ p n l. other p n ∙ side.top.above p l)

negative_tests : (q : ℤ) → q <ℤ pos 0 → (is_positive q ≡ false) × (is_zero q ≡ false)
negative_tests (pos n) h = absurd (omega arith)
negative_tests (negsuc n) h = (refl, refl)

-- A write that takes the quantity below zero moves no best bid.
pub apply_side_negative :
    (levels : List ℤ) (best price : ℕ) (delta : ℤ)
    → length levels ≡ 100
    → price < 100
    → level levels price +ℤ delta <ℤ pos 0
    → int32_min ≤ℤ level levels price +ℤ delta
    → let levels' = set levels price (level levels price +ℤ delta) in
      (apply_side levels best price delta ≡ some (levels', best)) × (level levels' price <ℤ pos 0)
unfolding apply_side add_int32 new_best
apply_side_negative levels best price delta width high below fits =
    (ground (arith, self, negative_tests q below), rw self below)
  where
    q : ℤ
    q = level levels price +ℤ delta

    self : level (set levels price q) price ≡ q
    self = get_or-set_self levels price q (pos 0) (omega (arith, width))
