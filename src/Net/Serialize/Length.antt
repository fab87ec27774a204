-- ===== src/Net/Serialize/Length.antt =====
-- How much `serialize_action` writes.
use kalshi_cpp.Prelude.{
  ℕ, ◌+◌, ◌≤◌, ◌<◌, ◌^◌, ◌≡◌, refl, false, some, [], ◌∷◌, ◌++◌, arith, ltb, Bytes, codes, length,
  length-append,
}
use kalshi_cpp.Feed.Parser.{Side, yes_side, no_side}
use kalshi_cpp.Strategy.OrderManager.{Action, ActionKind, place, cancel}
use kalshi_cpp.Net.Serialize.{serialize_action, action_text, c_string, emit_u8, side_text}
use kalshi_cpp.Net.Serialize.Decimal.{emit_u64-read}

length-emit_u8 : (v : ℕ) → length (emit_u8 v) ≤ 2
unfolding emit_u8
length-emit_u8 v = ground arith

length-side_text : (s : Side) → length (side_text s) ≤ 3
length-side_text yes_side = omega arith
length-side_text no_side = omega arith

length-c_string : (t : Bytes) → length (c_string t) ≤ length t
unfolding c_string
length-c_string [] = omega arith
length-c_string (c ∷ cs) = ground (arith, length-c_string cs)

-- Both kinds write from 27 to 119 bytes beside the ticker.
action_text-length :
    (a : Action) (k : ActionKind) (ticker : Bytes)
    → a.qty < 2 ^ 64
    → a.client_id < 2 ^ 64
    → (out : Bytes) × (action_text a k ticker ≡ some out)
      × (length (c_string ticker) + 27 ≤ length out)
      × (length out ≤ length (c_string ticker) + 119)
unfolding action_text
action_text-length a place ticker hq hi =
    let (id, run_id, id_len, _) = emit_u64-read a.client_id [] hi tt in
    let (qty, run_qty, qty_len, _) = emit_u64-read a.qty [] hq tt in
    (
      codes "{\"action\":\"place\",\"ticker\":\""
          ++ (c_string ticker
              ++ (codes "\",\"side\":\""
                  ++ (side_text a.side
                      ++ (codes "\",\"price\":"
                          ++ (emit_u8 a.price
                              ++ (codes ",\"qty\":"
                                  ++ (qty ++ (codes ",\"client_id\":" ++ (id ++ codes "}"))))))))),
      rw (run_qty, run_id) refl,
      simp length-append (omega arith),
      simp length-append (omega (arith, length-emit_u8 a.price, length-side_text a.side)),
    )
action_text-length a cancel ticker hq hi =
    let (id, run_id, id_len, _) = emit_u64-read a.client_id [] hi tt in
    (
      codes "{\"action\":\"cancel\",\"ticker\":\""
          ++ (c_string ticker ++ (codes "\",\"client_id\":" ++ (id ++ codes "}"))),
      rw run_id refl,
      simp length-append (omega arith),
      simp length-append (omega arith),
    )

-- With a capacity of 256 or more, a ticker that a parsed delta can carry (31 bytes at most) and
-- numbers that fit their types, what is written stays within 256 bytes, so within the buffer.
pub serialize_action_fits :
    (a : Action) (ticker : Bytes) (size : ℕ)
    → a.qty < 2 ^ 32
    → a.client_id < 2 ^ 64
    → length ticker ≤ 31
    → 256 ≤ size
    → (out : Bytes) × (serialize_action a ticker size ≡ some out)
      × (length out ≤ 256)
      × (length out ≤ size)
unfolding serialize_action
serialize_action_fits a ticker size hq hi short room =
    let (out, run, _, high) = action_text-length a a.kind ticker (omega (arith, hq)) hi in
    let wide : ltb size 256 ≡ false = ground arith in
    let len = length-c_string ticker in (out, rw wide run, omega arith, omega arith)

-- The capacity is compared with 256 only, not with what the ticker needs: at every capacity that
-- passes the test, a ticker that is at least as long as the capacity makes the function write past it.
pub serialize_action_overruns :
    (a : Action) (ticker : Bytes) (size : ℕ)
    → a.qty < 2 ^ 32
    → a.client_id < 2 ^ 64
    → 256 ≤ size
    → size ≤ length (c_string ticker)
    → (out : Bytes) × (serialize_action a ticker size ≡ some out) × (size < length out)
unfolding serialize_action
serialize_action_overruns a ticker size hq hi room long =
    let (out, run, low, _) = action_text-length a a.kind ticker (omega (arith, hq)) hi in
    let wide : ltb size 256 ≡ false = ground arith in (out, rw wide run, omega arith)
