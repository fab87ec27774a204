-- ===== src/Feed/Parser/Accepts.antt =====
-- What `parse_orderbook_delta` accepts, and what it has then written.
use kalshi_cpp.Prelude.{
  ℕ, suc, ◌≤◌, ◌≡◌, refl, ◌↔◌, inl, inr, true, some, ◌∷◌, ◌++◌, arith, length, drop, ℤ, ◌≤ℤ◌, Bytes,
  codes, bytes_eq→eq, Option-cases,
}
use kalshi_cpp.Feed.Parser.{
  Side, yes_side, no_side, OrderbookDelta, Simdjson, int32_min, int32_max, copy_ticker, read_side,
  parse_orderbook_delta, parse_ticker, parse_price, parse_delta, parse_ts, parse_side, parse_msg,
  Parse, ◌>>◌,
}

-- The wire word of a side.
abbrev pub side_word : Side → Bytes
side_word yes_side = codes "yes"
side_word no_side = codes "no"

-- The message, field by field, that an accepted input carries into `out`.
pub record Carries (json : Simdjson) (input : Bytes) (out d : OrderbookDelta) : Type 0 where
  pub doc : json.Document
  pub msg : json.Object
  pub text : Bytes
  pub is_doc : json.iterate input ≡ some doc
  pub has_sid : json.get_uint64 doc "sid" ≡ some d.sid
  pub has_seq : json.get_uint64 doc "seq" ≡ some d.seq
  pub has_msg : json.get_object doc "msg" ≡ some msg
  pub has_ticker : json.object_string msg "market_ticker" ≡ some text
  pub short : length text ≤ 31
  pub copied : d.ticker ≡ text ++ (0 ∷ drop (suc (length text)) out.ticker)
  pub has_price : json.object_uint64 msg "price" ≡ some d.price
  pub price_low : 1 ≤ d.price
  pub price_high : d.price ≤ 99
  pub has_delta : json.object_int64 msg "delta" ≡ some d.delta
  pub delta_low : int32_min ≤ℤ d.delta
  pub delta_high : d.delta ≤ℤ int32_max
  pub has_ts : json.object_int64 msg "ts" ≡ some d.ts
  pub has_side : json.object_string msg "side" ≡ some (side_word d.side)

read_side-word : (s : Side) → read_side (side_word s) ≡ some s
unfolding read_side
read_side-word yes_side = refl
read_side-word no_side = refl

word-read_side : (sv : Bytes) (s : Side) → read_side sv ≡ some s → sv ≡ side_word s
unfolding read_side
word-read_side sv s h = ground (arith, bytes_eq→eq sv (codes "yes"), bytes_eq→eq sv (codes "no"))

-- Inversion of a step that succeeds: it succeeds itself, and the rest goes on from its `out`.
>>-eq-some :
    {B : Type 0} (m : Parse (Unit {0})) (k : Parse B) (out : OrderbookDelta) {b : B}
    {d : OrderbookDelta}
    → (m >> k) out ≡ (some b, d)
    → (m out ≡ (some tt, (m out).1)) × (k (m out).1 ≡ (some b, d))
>>-eq-some m k out h = elim (Option-cases (m out).0) [
  | inl e ↦ ground arith
  | inr (a, e) ↦ (ground arith, ground arith)
]

module _ (json : Simdjson) (msg : json.Object) (out d : OrderbookDelta) where
  parse_ticker-some :
      parse_ticker json msg out ≡ (some tt, d)
      → (text : Bytes) × (json.object_string msg "market_ticker" ≡ some text)
        × (length text ≤ 31)
        × (d ≡ record out { ticker = copy_ticker text out.ticker })
  unfolding parse_ticker
  parse_ticker-some h = elim (Option-cases (json.object_string msg "market_ticker")) [
    | inl e ↦ ground arith
    | inr (text, e) ↦ (text, e, ground arith, ground arith)
  ]

  parse_price-some :
      parse_price json msg out ≡ (some tt, d)
      → (price : ℕ) × (json.object_uint64 msg "price" ≡ some price)
        × (1 ≤ price)
        × (price ≤ 99)
        × (d ≡ record out { price = price })
  unfolding parse_price
  parse_price-some h = elim (Option-cases (json.object_uint64 msg "price")) [
    | inl e ↦ ground arith
    | inr (price, e) ↦ (price, e, ground arith, ground arith, ground arith)
  ]

  parse_delta-some :
      parse_delta json msg out ≡ (some tt, d)
      → (delta : ℤ) × (json.object_int64 msg "delta" ≡ some delta)
        × (int32_min ≤ℤ delta)
        × (delta ≤ℤ int32_max)
        × (d ≡ record out { delta = delta })
  unfolding parse_delta
  parse_delta-some h = elim (Option-cases (json.object_int64 msg "delta")) [
    | inl e ↦ ground arith
    | inr (delta, e) ↦ (delta, e, ground arith, ground arith, ground arith)
  ]

  parse_ts-some :
      parse_ts json msg out ≡ (some tt, d)
      → (ts : ℤ) × (json.object_int64 msg "ts" ≡ some ts) × (d ≡ record out { ts = ts })
  unfolding parse_ts
  parse_ts-some h = elim (Option-cases (json.object_int64 msg "ts")) [
    | inl e ↦ ground arith
    | inr (ts, e) ↦ (ts, e, ground arith)
  ]

  parse_side-some :
      parse_side json msg out ≡ (some tt, d)
      → (side : Side) × (json.object_string msg "side" ≡ some (side_word side))
        × (d ≡ record out { side = side })
  unfolding parse_side
  parse_side-some h = elim (Option-cases (json.object_string msg "side")) [
    | inl e ↦ ground arith
    | inr (sv, e) ↦ elim (Option-cases (read_side sv)) [
      | inl e' ↦ ground arith
      | inr (side, e') ↦ (side, ground (arith, word-read_side sv side e'), ground arith)
    ]
  ]

parse_msg-some :
    (json : Simdjson) (input : Bytes) (doc : json.Document) (msg : json.Object)
    (out mid d : OrderbookDelta)
    → json.iterate input ≡ some doc
    → json.get_uint64 doc "sid" ≡ some mid.sid
    → json.get_uint64 doc "seq" ≡ some mid.seq
    → json.get_object doc "msg" ≡ some msg
    → mid.ticker ≡ out.ticker
    → parse_msg json msg mid ≡ (some tt, d)
    → Carries json input out d
unfolding parse_msg copy_ticker
parse_msg-some json input doc msg out mid d is_doc sid seq has_msg same h =
    let sides = parse_side json msg in
    let times = parse_ts json msg >> sides in
    let deltas = parse_delta json msg >> times in
    let prices = parse_price json msg >> deltas in
    let (t, h1) = >>-eq-some (parse_ticker json msg) prices mid {d = d} h in
    let (text, t1, t2, t3) = parse_ticker-some json msg mid _ t in
    let (p, h2) = >>-eq-some (parse_price json msg) deltas _ {d = d} h1 in
    let (price, p1, p2, p3, p4) = parse_price-some json msg _ _ p in
    let (e, h3) = >>-eq-some (parse_delta json msg) times _ {d = d} h2 in
    let (delta, e1, e2, e3, e4) = parse_delta-some json msg _ _ e in
    let (w, h4) = >>-eq-some (parse_ts json msg) sides _ {d = d} h3 in
    let (ts, w1, w2) = parse_ts-some json msg _ _ w in
    let (side, s1, s2) = parse_side-some json msg _ d h4 in
    record {
      doc = doc;
      msg = msg;
      text = text;
      is_doc = is_doc;
      has_sid = ground arith;
      has_seq = ground arith;
      has_msg = has_msg;
      has_ticker = t1;
      short = t2;
      copied = ground arith;
      has_price = ground arith;
      price_low = ground arith;
      price_high = ground arith;
      has_delta = ground arith;
      delta_low = ground arith;
      delta_high = ground arith;
      has_ts = ground arith;
      has_side = ground arith;
    }

module _ (json : Simdjson) (input : Bytes) (out d : OrderbookDelta) where
  accept-Carries : parse_orderbook_delta json input out ≡ (true, d) → Carries json input out d
  unfolding parse_orderbook_delta
  accept-Carries h = elim (Option-cases (json.iterate input)) [
    | inl e ↦ ground arith
    | inr (doc, e) ↦ elim (Option-cases (json.get_uint64 doc "sid")) [
      | inl e1 ↦ ground arith
      | inr (sid, e1) ↦ elim (Option-cases (json.get_uint64 doc "seq")) [
        | inl e2 ↦ ground arith
        | inr (seq, e2) ↦ elim (Option-cases (json.get_object doc "msg")) [
          | inl e3 ↦ ground arith
          | inr (msg, e3) ↦
              let mid = record out { sid = sid; seq = seq } in
              parse_msg-some json input doc msg out mid d e e1 e2 e3 refl (ground arith)
        ]
      ]
    ]
  ]

  Carries-accept : Carries json input out d → parse_orderbook_delta json input out ≡ (true, d)
  unfolding parse_orderbook_delta copy_ticker
  Carries-accept c = ground (arith, read_side-word d.side)

-- `parse_orderbook_delta` returns true, leaving the message `d` in `out`, exactly when every field
-- is present at its type, the ticker has at most 31 bytes, the price is in 1 to 99, the delta fits
-- an int32 and the side is "yes" or "no", and `d` holds these values, the ticker ended by a zero.
pub parse_orderbook_delta_accepts :
    (json : Simdjson) (input : Bytes) (out d : OrderbookDelta)
    → (parse_orderbook_delta json input out ≡ (true, d)) ↔ Carries json input out d
parse_orderbook_delta_accepts json input out d =
    (accept-Carries json input out d, Carries-accept json input out d)
