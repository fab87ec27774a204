-- ===== src/Core/FlatHashMap/Probe.antt =====
-- The arithmetic of probing: how the distance from a key's home grows along the ring of slots.
use kalshi_cpp.Prelude.{
  dec_le, ℕ, zero, ◌/◌, suc, ◌+◌, ◌-◌, ◌*◌, ◌%◌, ◌^◌, ◌≤◌, ◌<◌, ◌≡◌, sym, ap, ◌∙◌, arith, ◌==◌,
  if◌then◌else◌, size_mod, sub_size,
}
use kalshi_cpp.Prelude.Bits.{bit_and-mask}
use kalshi_cpp.Core.FlatHashMap.{hash, home, next, probe_distance}
use kalshi_cpp.Prelude.Bits.{pow-add}
use native.Mathlib.Nat.{
  add-mod_right, mod-lt, mod-add-mod, one-le-pow, mul_assoc, add_comm, suc-mod, div-add-mod,
  add-mul-mod_self_left, mod_self, mod-eq_of_lt,
}

hash-lt : (key : ℕ) → hash key < size_mod
unfolding hash
hash-lt key = mod-lt _ (omega arith)

rem-rem : (x m k : ℕ) → x % (m * k) % m ≡ x % m
rem-rem x m k = sym (
    ap (λ t. t % m)
      (sym (div-add-mod x (m * k))
        ∙ (add_comm (m * k * (x / (m * k))) (x % (m * k))
            ∙ ap (λ t. x % (m * k) + t) (mul_assoc m k (x / (m * k)))))
    ∙ add-mul-mod_self_left (x % (m * k)) m (k * (x / (m * k))))

-- A remainder grows by one, or falls to 0.
mod-suc_cases : (x m : ℕ) → 0 < m → (x + 1) % m ≡ (if x % m + 1 == m then 0 else x % m + 1)
mod-suc_cases x m h =
    ground (arith, suc-mod x m, mod_self m, mod-lt x h, mod-eq_of_lt {n = x % m + 1} {m = m})

-- `n` slots on, around the ring.
abbrev pub walk : ℕ → ℕ → ℕ → ℕ
walk size zero pos = pos
walk size (suc n) pos = walk size n (next size pos)

module _ (w : ℕ) (narrow : w ≤ 64) where
  word_split : size_mod ≡ 2 ^ w * 2 ^ (64 - w)
  word_split = ap (λ n. 2 ^ n) {x = 64} {y = w + (64 - w)} (omega arith) ∙ pow-add 2 w (64 - w)

  positive : 0 < 2 ^ w
  positive = omega (arith, one-le-pow w 2)

  past_word : (x : ℕ) → (x + size_mod) % 2 ^ w ≡ x % 2 ^ w
  past_word x =
      ap (λ t. (x + t) % 2 ^ w) word_split ∙ add-mul-mod_self_left x (2 ^ w) (2 ^ (64 - w))

  word-mod : (x : ℕ) → x % size_mod % 2 ^ w ≡ x % 2 ^ w
  word-mod x = ap (λ t. x % t % 2 ^ w) word_split ∙ rem-rem x (2 ^ w) (2 ^ (64 - w))

  -- The distance as a remainder: the constant added is the complement of the hash.
  probe_distance-mod :
      (key pos : ℕ) → probe_distance (2 ^ w) key pos ≡ (pos + (size_mod - hash key)) % 2 ^ w
  unfolding probe_distance
  probe_distance-mod key pos =
      bit_and-mask w (sub_size pos (hash key))
      ∙ (word-mod (pos + size_mod - hash key) ∙ ap (λ t. t % 2 ^ w) (omega (arith, hash-lt key)))

  next-mod : (pos : ℕ) → next (2 ^ w) pos ≡ (pos + 1) % 2 ^ w
  unfolding next
  next-mod pos = bit_and-mask w (pos + 1)

  home-mod : (key : ℕ) → home (2 ^ w) key ≡ hash key % 2 ^ w
  unfolding home
  home-mod key = bit_and-mask w (hash key)

  pub home-lt : (key : ℕ) → home (2 ^ w) key < 2 ^ w
  home-lt key = ground (arith, home-mod key, mod-lt (hash key) positive)

  pub next-lt : (pos : ℕ) → next (2 ^ w) pos < 2 ^ w
  next-lt pos = ground (arith, next-mod pos, mod-lt (pos + 1) positive)

  pub probe_distance-lt : (key pos : ℕ) → probe_distance (2 ^ w) key pos < 2 ^ w
  probe_distance-lt key pos =
      ground (arith, probe_distance-mod key pos, mod-lt (pos + (size_mod - hash key)) positive)

  pub probe_distance-home : (key : ℕ) → probe_distance (2 ^ w) key (home (2 ^ w) key) ≡ 0
  probe_distance-home key =
      probe_distance-mod key (home (2 ^ w) key)
      ∙ (ap (λ t. (t + (size_mod - hash key)) % 2 ^ w) (home-mod key)
          ∙ (mod-add-mod (hash key) (2 ^ w) (size_mod - hash key)
              ∙ (ap (λ t. t % 2 ^ w) (omega (arith, hash-lt key))
                  ∙ (past_word 0 ∙ mod-eq_of_lt positive))))

  -- The position from the distance.
  position-of_distance :
      (key pos : ℕ) → pos < 2 ^ w → (probe_distance (2 ^ w) key pos + hash key) % 2 ^ w ≡ pos
  position-of_distance key pos h =
      ap (λ t. (t + hash key) % 2 ^ w) (probe_distance-mod key pos)
      ∙ (mod-add-mod (pos + (size_mod - hash key)) (2 ^ w) (hash key)
          ∙ (ap (λ t. t % 2 ^ w) (omega (arith, hash-lt key)) ∙ (past_word pos ∙ mod-eq_of_lt h)))

  pub probe_distance_inj :
      (key p q : ℕ)
      → p < 2 ^ w
      → q < 2 ^ w
      → probe_distance (2 ^ w) key p ≡ probe_distance (2 ^ w) key q
      → p ≡ q
  probe_distance_inj key p q hp hq e =
      sym (position-of_distance key p hp)
      ∙ (ap (λ t. (t + hash key) % 2 ^ w) e ∙ position-of_distance key q hq)

  -- One slot on, the distance is one more, or 0 at the end of the ring.
  pub probe_distance-next :
      (key pos : ℕ)
      → probe_distance (2 ^ w) key (next (2 ^ w) pos) ≡ (
          if probe_distance (2 ^ w) key pos + 1 == 2 ^ w
          then 0
          else probe_distance (2 ^ w) key pos + 1)
  probe_distance-next key pos =
      probe_distance-mod key (next (2 ^ w) pos)
      ∙ (ap (λ t. (t + (size_mod - hash key)) % 2 ^ w) (next-mod pos)
          ∙ (mod-add-mod (pos + 1) (2 ^ w) (size_mod - hash key)
              ∙ (ap (λ t. t % 2 ^ w) (omega arith)
                  ∙ (mod-suc_cases (pos + (size_mod - hash key)) (2 ^ w) positive
                      ∙ ap (λ t. if t + 1 == 2 ^ w then 0 else t + 1)
                          (sym (probe_distance-mod key pos))))))

  walk-mod : (n p : ℕ) → p < 2 ^ w → walk (2 ^ w) n p ≡ (p + n) % 2 ^ w
  walk-mod zero p h = sym (ap (λ t. t % 2 ^ w) {x = p + 0} {y = p} (omega arith) ∙ mod-eq_of_lt h)
  walk-mod (suc n) p h =
      walk-mod n (next (2 ^ w) p) (next-lt p)
      ∙ (ap (λ t. (t + n) % 2 ^ w) (next-mod p)
          ∙ (mod-add-mod (p + 1) (2 ^ w) n
              ∙ ap (λ t. t % 2 ^ w) {x = p + 1 + n} {y = p + suc n} (omega arith)))

  -- Every slot is reached from every other one in less than a round.
  pub walk_reaches :
      (p q : ℕ) → p < 2 ^ w → q < 2 ^ w → (n : ℕ) × (n < 2 ^ w) × (walk (2 ^ w) n p ≡ q)
  walk_reaches p q hp hq = elim (dec_le p q) [
    | yes l ↦ (
      q - p,
      omega arith,
      walk-mod (q - p) p hp
          ∙ (ap (λ t. t % 2 ^ w) {x = p + (q - p)} {y = q} (omega arith) ∙ mod-eq_of_lt hq),
    )
    | no l ↦ (
      q + 2 ^ w - p,
      omega arith,
      walk-mod (q + 2 ^ w - p) p hp
          ∙ (ap (λ t. t % 2 ^ w) {x = p + (q + 2 ^ w - p)} {y = q + 2 ^ w} (omega arith)
              ∙ (add-mod_right q (2 ^ w) ∙ mod-eq_of_lt hq)),
    )
  ]
