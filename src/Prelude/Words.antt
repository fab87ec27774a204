-- ===== src/Prelude/Words.antt =====
-- size_t, 64 bits wide.
use Prim.Native.Nat.{ℕ, ◌+◌, ◌-◌, ◌%◌, ◌^◌}

abbrev pub size_mod : ℕ
size_mod = 2 ^ 64

-- size_t `a - b` and `a + 1`
abbrev pub sub_size : ℕ → ℕ → ℕ
sub_size a b = (a + size_mod - b) % size_mod

abbrev pub next_size : ℕ → ℕ
next_size a = (a + 1) % size_mod
