-- ===== src/Core/Arena/Blocks.antt =====
-- core/arena_alloc.h: the blocks that `allocate` gives, their alignment and their order.
use kalshi_cpp.Prelude.{
  ℕ, ◌+◌, ◌-◌, ◌*◌, ◌/◌, ◌%◌, ◌^◌, ◌≤◌, ◌<◌, ◌≡◌, ◌⊎◌, inl, inr, refl, sym, ap, subst, ◌∙◌, true,
  Option, none, some, List, [], ◌∷◌, arith, ◌==◌, if◌then◌else◌, dec_le, size_mod, sub_size, eq→==,
}
use kalshi_cpp.Prelude.Options.{◌>>=◌}
use kalshi_cpp.Prelude.Bits.{pow-add, bit_and-mask, bit_and-clear}
use kalshi_cpp.Core.Arena.{Arena, align_up, allocate, take_block}
use Prim.Native.Nat.{bit_and}
use native.Mathlib.Nat.{
  mod-eq_of_lt, mod-lt, one-le-pow, pow-le-pow_right, mod_self, mod-add-mod, div-add-mod,
  mul-mod_right, mul_assoc,
}

-- A multiple of `m` between another one and the next is that one.
aligned_gap : (m p d : ℕ) → p % m ≡ 0 → (p + d) % m ≡ 0 → d < m → d ≡ 0
aligned_gap m p d hp hr h =
    let rem : (p % m + d) % m ≡ 0 = mod-add-mod p m d ∙ hr in
    let same : p % m + d ≡ d = omega (arith, hp) in
    sym (mod-eq_of_lt h) ∙ (ap (λ t. t % m) (sym same) ∙ rem)

rounded : (m y : ℕ) → (y - y % m) % m ≡ 0
rounded m y =
    ap (λ t. t % m) {x = y - y % m} {y = m * (y / m)} (omega (arith, div-add-mod y m))
    ∙ mul-mod_right m (y / m)

take_block-fits :
    (p bytes : ℕ) (a : Arena)
    → p + bytes < size_mod
    → p + bytes ≤ a.capacity
    → take_block p bytes a ≡ (some (a.base + p), record a { offset = p + bytes })
unfolding take_block
take_block-fits p bytes a h l = ground arith

take_block-full :
    (p bytes : ℕ) (a : Arena)
    → p + bytes < size_mod
    → a.capacity < p + bytes
    → take_block p bytes a ≡ (none, a)
unfolding take_block
take_block-full p bytes a h l = ground arith

module _ (k : ℕ) (narrow : k ≤ 61) where
  fits : 2 ^ k ≤ 2 ^ 61
  fits = pow-le-pow_right {n = 2} (omega arith) {i = k} {j = 61} narrow

  positive : 0 < 2 ^ k
  positive = omega (arith, one-le-pow k 2)

  is_power : (bit_and (2 ^ k) (sub_size (2 ^ k) 1) == 0) ≡ true
  is_power = eq→== (bit_and (2 ^ k) (sub_size (2 ^ k) 1)) 0 (
      ap (bit_and (2 ^ k)) {x = sub_size (2 ^ k) 1} {y = 2 ^ k - 1} (omega (arith, fits, positive))
      ∙ (bit_and-mask k (2 ^ k) ∙ mod_self (2 ^ k)))

  align_up-eq :
      (offset : ℕ)
      → offset ≤ 2 ^ 62
      → align_up offset (2 ^ k) ≡ offset + 2 ^ k - 1 - (offset + 2 ^ k - 1) % 2 ^ k
  unfolding align_up
  align_up-eq offset h =
      let y : ℕ = offset + 2 ^ k - 1 in
      let whole : 2 ^ (64 - k + k) ≡ size_mod =
        ap (λ t. 2 ^ t) {x = 64 - k + k} {y = 64} (omega arith) in
      ap (λ t. bit_and t (size_mod - 1 - sub_size (2 ^ k) 1))
        {x = sub_size ((offset + 2 ^ k) % size_mod) 1} {y = y} (omega (arith, fits, positive))
      ∙ (ap (bit_and y) {x = size_mod - 1 - sub_size (2 ^ k) 1} {y = 2 ^ (64 - k + k) - 2 ^ k}
            (omega (arith, fits, positive, whole))
          ∙ bit_and-clear k (64 - k) y (omega (arith, fits, positive, whole)))

  -- The least multiple of the alignment from the offset on.
  align_up-least :
      (offset : ℕ)
      → offset ≤ 2 ^ 62
      → (align_up offset (2 ^ k) % 2 ^ k ≡ 0)
        × (offset ≤ align_up offset (2 ^ k))
        × (align_up offset (2 ^ k) < offset + 2 ^ k)
  align_up-least offset h =
      let y : ℕ = offset + 2 ^ k - 1 in
      let e = align_up-eq offset h in
      let r = mod-lt y positive in
      (
        ap (λ t. t % 2 ^ k) e ∙ rounded (2 ^ k) y,
        omega (arith, e, r),
        omega (arith, e, r, positive),
      )

  allocate-eq :
      (bytes : ℕ) (a : Arena)
      → allocate bytes (2 ^ k) a ≡ some (take_block (align_up a.offset (2 ^ k)) bytes a)
  unfolding allocate
  allocate-eq bytes a =
      ap (λ b. if b then some (take_block (align_up a.offset (2 ^ k)) bytes a) else none) is_power

  -- If the least aligned block does not fit, no aligned one does.
  least :
      (p q bytes : ℕ) (a : Arena)
      → a.capacity < p + bytes
      → (p % 2 ^ k ≡ 0) × (a.offset ≤ p) × (p < a.offset + 2 ^ k)
      → q % 2 ^ k ≡ 0
      → a.offset ≤ q
      → a.capacity < q + bytes
  least p q bytes a full l hq hl = elim (dec_le p q) [
    | yes h ↦ omega arith
    | no h ↦
        let gap : p - q ≡ 0 =
          aligned_gap (2 ^ k) q (p - q) hq
            (ap (λ t. t % 2 ^ k) {x = q + (p - q)} {y = p} (omega arith) ∙ l.0)
            (omega (arith, l)) in
        absurd (omega arith)
  ]

  -- By distances from the base.
  allocate-offsets :
      (bytes : ℕ) (a : Arena)
      → a.offset ≤ a.capacity
      → a.capacity < 2 ^ 62
      → bytes < 2 ^ 62
      → ((p : ℕ) × (allocate bytes (2 ^ k) a
            ≡ some (some (a.base + p), record a { offset = p + bytes }))
          × (p % 2 ^ k ≡ 0)
          × (a.offset ≤ p)
          × (p + bytes ≤ a.capacity))
        ⊎ ((allocate bytes (2 ^ k) a ≡ some (none, a))
            × ((p : ℕ) → p % 2 ^ k ≡ 0 → a.offset ≤ p → a.capacity < p + bytes))
  allocate-offsets bytes a ok small few =
      let p : ℕ = align_up a.offset (2 ^ k) in
      let l = align_up-least a.offset (omega arith) in
      let below : p + bytes < size_mod = omega (arith, l, fits) in
      elim (dec_le (p + bytes) a.capacity) [
        | yes h ↦
            inl (p, allocate-eq bytes a ∙ ap some (take_block-fits p bytes a below h), l.0, l.1, h)
        | no h ↦ inr (
          allocate-eq bytes a ∙ ap some (take_block-full p bytes a below (omega arith)),
          λ q hq hl. least p q bytes a (omega arith) l hq hl,
        )
      ]

-- A page of memory, to which mmap aligns the region.
abbrev pub page : ℕ
page = 2 ^ 12

-- An alignment of a page or less, on a region at the start of a page.
module _ (k : ℕ) (within_page : k ≤ 12) (a : Arena) (paged : a.base % page ≡ 0) where
  wide : k ≤ 61
  wide = omega (arith, within_page)

  base_aligned : a.base % 2 ^ k ≡ 0
  base_aligned =
      let whole : 2 ^ k * 2 ^ (12 - k) ≡ page =
        sym (pow-add 2 k (12 - k)) ∙ ap (λ t. 2 ^ t) {x = k + (12 - k)} {y = 12} (omega arith) in
      let pages : a.base ≡ page * (a.base / page) = omega (arith, paged, div-add-mod a.base page) in
      let whole_base : a.base ≡ 2 ^ k * (2 ^ (12 - k) * (a.base / page)) =
        pages
        ∙ (ap (λ t. t * (a.base / page)) (sym whole)
            ∙ mul_assoc (2 ^ k) (2 ^ (12 - k)) (a.base / page)) in
      ap (λ t. t % 2 ^ k) whole_base ∙ mul-mod_right (2 ^ k) (2 ^ (12 - k) * (a.base / page))

  -- Behind an aligned base the address is aligned where the distance is.
  address_aligned : (p : ℕ) → (a.base + p) % 2 ^ k ≡ p % 2 ^ k
  address_aligned p =
      sym (mod-add-mod a.base (2 ^ k) p)
      ∙ ap (λ t. (t + p) % 2 ^ k) base_aligned
      ∙ ap (λ t. t % 2 ^ k) {x = 0 + p} {y = p} (omega arith)

  -- When mmap put a region of less than 2^62 bytes at the start of a page, allocate of less than 2^62
  -- bytes is defined for an alignment that is a power of two up to a page of 2^12 bytes: it answers an
  -- aligned address between the offset and the end of the region, and the offset then is at the end of
  -- the block; or, only if no block at an aligned address from the offset on fits, nullptr and no
  -- change.
  pub allocate-least :
      (bytes : ℕ)
      → a.offset ≤ a.capacity
      → a.capacity < 2 ^ 62
      → bytes < 2 ^ 62
      → ((p : ℕ) × (allocate bytes (2 ^ k) a
            ≡ some (some (a.base + p), record a { offset = p + bytes }))
          × ((a.base + p) % 2 ^ k ≡ 0)
          × (a.offset ≤ p)
          × (p + bytes ≤ a.capacity))
        ⊎ ((allocate bytes (2 ^ k) a ≡ some (none, a))
            × ((p : ℕ) → (a.base + p) % 2 ^ k ≡ 0 → a.offset ≤ p → a.capacity < p + bytes))
  allocate-least bytes ok small few = elim (allocate-offsets k wide bytes a ok small few) [
    | inl given ↦ inl (given.0, given.1, address_aligned given.0 ∙ given.2, given.3, given.4)
    | inr none_fits ↦ inr (none_fits.0, λ p h. none_fits.1 p (sym (address_aligned p) ∙ h))
  ]

-- Blocks, each a start and a length, one after the other between two bounds.
abbrev pub InOrder : ℕ → List (ℕ × ℕ) → ℕ → Type 0
InOrder lo [] hi = lo ≤ hi
InOrder lo (b ∷ bs) hi = (lo ≤ b.0) × InOrder (b.0 + b.1) bs hi

abbrev kept : Option ℕ → ℕ → List (ℕ × ℕ) → List (ℕ × ℕ)
kept none bytes bs = bs
kept (some p) bytes bs = (p, bytes) ∷ bs

-- A client that makes requests, each a length and the exponent of an alignment, in turn; the blocks
-- that it gets.
abbrev pub blocks_of : List (ℕ × ℕ) → Arena → Option (List (ℕ × ℕ))
blocks_of [] a = some []
blocks_of (r ∷ rs) a = do
  answer ← allocate r.0 (2 ^ r.1) a
  bs ← blocks_of rs answer.1
  some (kept answer.0 r.0 bs)

abbrev pub Modest : List (ℕ × ℕ) → Type 0
Modest [] = Unit {0}
Modest (r ∷ rs) = (r.0 < 2 ^ 62) × (r.1 ≤ 61) × Modest rs

-- In a region of less than 2^62 bytes, however many requests for blocks below 2^62 and alignments up
-- to 2^61 are made, all are answered, and the blocks given out are one after the other, from the offset
-- on and within the region.
pub blocks_of-InOrder :
    (rs : List (ℕ × ℕ)) (a : Arena)
    → a.offset ≤ a.capacity
    → a.capacity < 2 ^ 62
    → Modest rs
    → (bs : List (ℕ × ℕ)) × (blocks_of rs a ≡ some bs)
      × InOrder (a.base + a.offset) bs (a.base + a.capacity)
blocks_of-InOrder [] a ok small m = ([], refl, omega (arith, ok))
blocks_of-InOrder (r ∷ rs) a ok small m = elim (allocate-offsets r.1 m.1 r.0 a ok small m.0) [
  | inl given ↦
      let a' : Arena = record a { offset = given.0 + r.0 } in
      let rest = blocks_of-InOrder rs a' given.4 small m.2 in
      let start : a.base + (given.0 + r.0) ≡ a.base + given.0 + r.0 = omega arith in
      (
        (a.base + given.0, r.0) ∷ rest.0,
        rw (given.1, rest.1) refl,
        (omega (arith, given.3), subst (λ t. InOrder t rest.0 (a.base + a.capacity)) start rest.2),
      )
  | inr none_fits ↦
      let rest = blocks_of-InOrder rs a ok small m.2 in
      (rest.0, rw (none_fits.0, rest.1) refl, rest.2)
]
