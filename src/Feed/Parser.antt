-- ===== src/Feed/Parser.antt =====
-- feed/parser.h and feed/parser.cpp: `OrderbookParser::parse_orderbook_delta`.
-- simdjson is a parameter: what the code asks of a document, each answer `none` on an error code.
pub mod Accepts
use Prim.Native.String.{String}
use kalshi_cpp.Prelude.{
  ℕ, suc, ◌^◌, ◌-◌, Bool, true, false, ◌||◌, Option, none, some, List, ◌∷◌, ◌++◌, ltb, ltb_ℤ,
  if◌then◌else◌, length, drop, ℤ, pos, negsuc, pos_part, Bytes, codes, bytes_eq,
}

pub data Side : Type 0 where
  yes_side no_side : Side

-- `char ticker[32]` is a list of 32 bytes.
pub record OrderbookDelta : Type 0 where
  pub ticker : Bytes
  pub ts : ℤ
  pub sid : ℕ
  pub seq : ℕ
  pub delta : ℤ
  pub price : ℕ
  pub side : Side

-- `find_field_unordered(key).get(out)`, at each type that the code asks for.
pub record Simdjson : Type 1 where
  pub Document : Type 0
  pub Object : Type 0
  pub iterate : Bytes → Option Document
  pub get_uint64 : Document → String → Option ℕ
  pub get_object : Document → String → Option Object
  pub object_uint64 : Object → String → Option ℕ
  pub object_int64 : Object → String → Option ℤ
  pub object_string : Object → String → Option Bytes

abbrev pub int32_min : ℤ
int32_min = negsuc (2 ^ 31 - 1)

abbrev pub int32_max : ℤ
int32_max = pos (2 ^ 31 - 1)

-- A step reads and writes `out`; `none` is `return false`, which leaves `out` as it then is.
abbrev pub Parse : Type 0 → Type 0
Parse A = OrderbookDelta → Option A × OrderbookDelta

infixl 5 ◌>>=◌ ◌>>◌
abbrev pub ◌>>=◌ : {A B : Type 0} → Parse A → (A → Parse B) → Parse B
◌>>=◌ m f out = let (r, out') = m out in elim r [ none ↦ (none, out') | some a ↦ f a out' ]

abbrev pub ◌>>◌ : {B : Type 0} → Parse (Unit {0}) → Parse B → Parse B
m >> k = m >>= λ _. k

abbrev pub need : {A : Type 0} → Option A → Parse A
need r out = (r, out)

abbrev pub reject_if : Bool → Parse (Unit {0})
reject_if b out = ((if b then none else some tt), out)

abbrev pub write : (OrderbookDelta → OrderbookDelta) → Parse (Unit {0})
write f out = (some tt, f out)

-- `memcpy(out.ticker, sv.data(), sv.size()); out.ticker[sv.size()] = '\0'`: the rest stays.
unfoldable pub copy_ticker : Bytes → Bytes → Bytes
copy_ticker sv old = sv ++ (0 ∷ drop (suc (length sv)) old)

unfoldable pub read_side : Bytes → Option Side
read_side sv =
    if bytes_eq sv (codes "yes")
    then some yes_side
    else if bytes_eq sv (codes "no")
    then some no_side
    else none

module _ (json : Simdjson) where
  open json use {
    Document, Object, iterate, get_uint64, get_object, object_uint64, object_int64, object_string,
  }

  -- The fields of the document itself.
  parse_header : Document → Parse Object
  parse_header doc = do
    sid ← need (get_uint64 doc "sid")
    write (λ o. record o { sid = sid })
    seq ← need (get_uint64 doc "seq")
    write (λ o. record o { seq = seq })
    need (get_object doc "msg")

  -- The fields of `msg`, in the order in which the code asks for them.
  parse_ticker : Object → Parse (Unit {0})
  parse_ticker msg = do
    sv ← need (object_string msg "market_ticker")
    reject_if (ltb 31 (length sv))
    write (λ o. record o { ticker = copy_ticker sv o.ticker })

  parse_price : Object → Parse (Unit {0})
  parse_price msg = do
    price ← need (object_uint64 msg "price")
    reject_if (ltb price 1 || ltb 99 price)
    write (λ o. record o { price = price })

  parse_delta : Object → Parse (Unit {0})
  parse_delta msg = do
    delta ← need (object_int64 msg "delta")
    reject_if (ltb_ℤ delta int32_min || ltb_ℤ int32_max delta)
    write (λ o. record o { delta = delta })

  parse_ts : Object → Parse (Unit {0})
  parse_ts msg = do ts ← need (object_int64 msg "ts"); write (λ o. record o { ts = ts })

  parse_side : Object → Parse (Unit {0})
  parse_side msg = do
    sv ← need (object_string msg "side")
    side ← need (read_side sv)
    write (λ o. record o { side = side })

  parse_msg : Object → Parse (Unit {0})
  parse_msg msg = do
    parse_ticker msg
    parse_price msg
    parse_delta msg
    parse_ts msg
    parse_side msg

  -- The result of the C++ function, and `out` as the call leaves it.
  unfoldable pub parse_orderbook_delta : Bytes → OrderbookDelta → Bool × OrderbookDelta
  unfolding parse_header parse_msg parse_ticker parse_price parse_delta parse_ts parse_side
  parse_orderbook_delta input out = elim (iterate input) [
    | none ↦ (false, out)
    | some doc ↦
        let (r, out') = (parse_header doc >>= parse_msg) out in
        elim r [ none ↦ (false, out') | some _ ↦ (true, out') ]
  ]
