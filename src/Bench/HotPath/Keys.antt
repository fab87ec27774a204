-- ===== src/Bench/HotPath/Keys.antt =====
-- bench/bench_hotpath_multi.cpp: the keys of the markets.
use Prim.Native.Nat.{bit_xor}
use kalshi_cpp.Prelude.{
  ℕ, zero, suc, ◌<◌, ◌≡◌, ◌≢◌, refl, sym, ap, ◌∙◌, false, [], ◌∷◌, ◌++◌, arith, ◌==◌, ==→ne, ==→eq,
  if-elim, Bytes, length,
}
use kalshi_cpp.Core.FlatHashMap.{free_key}
use kalshi_cpp.Bench.HotPath.{fnv, hash_ticker, ticker_strnlen}

-- The mark of a free slot is the hash of no ticker.
pub hash_ticker-ne : (s : Bytes) → hash_ticker s ≢ free_key
unfolding hash_ticker
hash_ticker-ne s =
    let h : ℕ = fnv 0xcbf29ce484222325 s in
    if-elim (λ x. x ≢ free_key) (h == free_key) (bit_xor h 1) h
      (λ e f.
        let flipped : bit_xor h 1 ≡ bit_xor free_key 1 =
          ap (λ t. bit_xor t 1) (==→eq h free_key e) in
        omega (arith, sym flipped ∙ f))
      (λ e. ==→ne h free_key e)

-- No byte of the text is the end of a C string.
abbrev pub NoEnd : Bytes → Type 0
NoEnd [] = Unit {0}
NoEnd (c ∷ cs) = (c ≢ 0) × NoEnd cs

-- In a buffer that holds a ticker and its end, the bounded length is that of the ticker.
pub ticker_strnlen-text :
    (t rest : Bytes) (n : ℕ)
    → NoEnd t
    → length t < n
    → ticker_strnlen (t ++ (0 ∷ rest)) n ≡ length t
unfolding ticker_strnlen
ticker_strnlen-text [] rest zero e h = absurd (omega arith)
ticker_strnlen-text [] rest (suc n) e h = refl
ticker_strnlen-text (c ∷ cs) rest zero e h = absurd (omega arith)
ticker_strnlen-text (c ∷ cs) rest (suc n) (ne, e) h =
    let other : (c == 0) ≡ false = ground arith in
    rw (ticker_strnlen, other) (ap suc (ticker_strnlen-text cs rest n e (omega arith)))
