-- ===== src/Bench/Synthetic.antt =====
-- bench/bench_hotpath_multi.cpp: the random numbers, the messages made of them, and the buckets of the
-- histogram.
pub mod Ranges
use Prim.Native.Nat.{bit_xor}
use kalshi_cpp.Prelude.{
  ℕ, zero, suc, ◌+◌, ◌-◌, ◌*◌, ◌/◌, ◌%◌, ◌^◌, Bool, true, false, Option, List, [], ◌∷◌, ◌++◌, ltb,
  ◌==◌, if◌then◌else◌, Bytes, codes, length, size_mod, ℤ, pos, negsuc,
}
use kalshi_cpp.Prelude.Decimals.{to_string}

-- `s ^= s << 13; s ^= s >> 7; s ^= s << 17;`
unfoldable pub next : ℕ → ℕ
next s =
    let a = bit_xor s (s * 2 ^ 13 % size_mod) in
    let b = bit_xor a (a / 2 ^ 7) in bit_xor b (b * 2 ^ 17 % size_mod)

-- `lo + static_cast<uint32_t>(next() % (hi - lo + 1))`, and the state behind it
unfoldable pub range : ℕ → ℕ → ℕ → ℕ × ℕ
range lo hi s =
    let width = (hi + 2 ^ 32 - lo + 1) % 2 ^ 32 in ((lo + next s % width % 2 ^ 32) % 2 ^ 32, next s)

-- `(next() & 1)`
unfoldable pub coin : ℕ → Bool × ℕ
coin s = (next s % 2 == 1, next s)

-- What a synthetic message says.
pub record Draw : Type 0 where
  pub tid : ℕ
  pub price : ℕ
  pub delta : ℤ
  pub side : Bytes
  pub ts : ℕ
  pub seq : ℕ

-- `static_cast<int32_t>(size) * (up ? 1 : -1)`
abbrev pub signed : ℕ → Bool → ℤ
signed zero up = pos zero
signed (suc n) true = pos (suc n)
signed (suc n) false = negsuc n

-- The draws of one message, in the order of the code.
unfoldable pub draw : ℕ → ℕ → Draw × ℕ
draw i s =
    let (tid, s₁) = range 0 255 s in
    let (price, s₂) = range 1 99 s₁ in
    let (size, s₃) = range 1 50 s₂ in
    let (up, s₄) = coin s₃ in
    let (yes_side, s₅) = coin s₄ in
    (
      record {
        tid = tid;
        price = price;
        delta = signed size up;
        side = if yes_side then codes "yes" else codes "no";
        ts = 1700000000000 + next s₅ % 1000000;
        seq = i + 1;
      },
      next s₅,
    )

-- `%03u`
unfoldable pub padded : ℕ → Bytes
padded n =
    if ltb n 10
    then codes "00" ++ to_string n
    else if ltb n 100
    then codes "0" ++ to_string n
    else to_string n

-- `%d`
unfoldable pub signed_text : ℤ → Bytes
signed_text (pos n) = to_string n
signed_text (negsuc n) = codes "-" ++ to_string (suc n)

unfoldable pub payload : Draw → Bytes
payload d =
    codes "{\"type\":\"orderbook_delta\",\"sid\":1,\"seq\":"
    ++ (to_string d.seq
        ++ (codes ",\"msg\":{\"market_ticker\":\"MKT-"
            ++ (padded d.tid
                ++ (codes "\",\"price\":"
                    ++ (to_string d.price
                        ++ (codes ",\"delta\":"
                            ++ (signed_text d.delta
                                ++ (codes ",\"side\":\""
                                    ++ (d.side
                                        ++ (codes "\",\"ts\":"
                                            ++ (to_string d.ts ++ codes "}}")))))))))))

-- The loop of `build_payload_pool`, with the number of messages to come.
unfoldable pub build_payloads : ℕ → ℕ → ℕ → List Bytes
build_payloads zero i s = []
build_payloads (suc n) i s = let (d, s') = draw i s in payload d ∷ build_payloads n (i + 1) s'

-- The name that `register_markets` gives to a market.
unfoldable pub market_name : ℕ → Bytes
market_name i = codes "MKT-" ++ padded i

unfoldable pub market_names : ℕ → ℕ → List Bytes
market_names zero i = []
market_names (suc n) i = market_name i ∷ market_names n (i + 1)

-- `while (v >>= 1) ++b;` on a 64-bit word, which has at most 64 rounds
unfoldable pub halvings : ℕ → ℕ → ℕ → ℕ
halvings zero v b = b
halvings (suc n) v b = let rest = halvings n (v / 2) (b + 1) in if v / 2 == 0 then b else rest

abbrev pub bucket_count : ℕ
bucket_count = 24

-- The bucket of a number of cycles.
unfoldable pub bucket : ℕ → ℕ
bucket c = let b = halvings 64 (c / 2 ^ 7) 0 in if ltb b bucket_count then b else bucket_count - 1
