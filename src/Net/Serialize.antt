-- ===== src/Net/Serialize.antt =====
-- net/serialize.cpp: `serialize_action`. The result is the bytes written from `out` on; the size that
-- the function returns is their number, and one above `cap` stands for a write past the buffer.
pub mod Decimal
pub mod Message
pub mod Length
use kalshi_cpp.Prelude.{
  ℕ, zero, suc, ◌+◌, ◌/◌, ◌%◌, Option, none, some, List, [], ◌∷◌, ◌++◌, ltb, leb, ◌==◌,
  if◌then◌else◌, Bytes, codes,
}
use kalshi_cpp.Feed.Parser.{Side, yes_side, no_side}
use kalshi_cpp.Strategy.OrderManager.{Action, ActionKind, place, cancel}

-- `strlen`: the bytes before the first zero.
unfoldable pub c_string : Bytes → Bytes
c_string [] = []
c_string (c ∷ cs) = if c == 0 then [] else c ∷ c_string cs

-- `while (v > 0) { buf[len++] = '0' + v % 10; v /= 10; }` with room for `n` more digits in `buf`,
-- whose last byte is the head of the list; `none` is a write past its end.
pub push_digits : ℕ → ℕ → Bytes → Option Bytes
push_digits zero v buf = if v == 0 then some buf else none
push_digits (suc n) v buf =
    let rest = push_digits n (v / 10) ((b'0' + v % 10) ∷ buf) in if v == 0 then some buf else rest

-- `emit_u64`; `while (len > 0) *p++ = buf[--len];` writes the buffer from its last byte on.
pub emit_u64 : ℕ → Option Bytes
emit_u64 v = if v == 0 then some (b'0' ∷ []) else push_digits 20 v []

pub emit_u8 : ℕ → Bytes
emit_u8 v = (if leb 10 v then (b'0' + v / 10) ∷ [] else []) ++ ((b'0' + v % 10) ∷ [])

abbrev pub side_text : Side → Bytes
side_text yes_side = codes "yes"
side_text no_side = codes "no"

infixl 5 ◌>>=◌
abbrev pub ◌>>=◌ : Option Bytes → (Bytes → Option Bytes) → Option Bytes
none >>= f = none
some a >>= f = f a

place_text : Action → Bytes → Option Bytes
place_text a ticker = do
  qty ← emit_u64 a.qty
  id ← emit_u64 a.client_id
  some (
      codes "{\"action\":\"place\",\"ticker\":\""
      ++ (c_string ticker
          ++ (codes "\",\"side\":\""
              ++ (side_text a.side
                  ++ (codes "\",\"price\":"
                      ++ (emit_u8 a.price
                          ++ (codes ",\"qty\":"
                              ++ (qty ++ (codes ",\"client_id\":" ++ (id ++ codes "}"))))))))))

cancel_text : Action → Bytes → Option Bytes
cancel_text a ticker = do
  id ← emit_u64 a.client_id
  some (
      codes "{\"action\":\"cancel\",\"ticker\":\""
      ++ (c_string ticker ++ (codes "\",\"client_id\":" ++ (id ++ codes "}"))))

action_text : Action → ActionKind → Bytes → Option Bytes
unfolding place_text cancel_text
action_text a place = place_text a
action_text a cancel = cancel_text a

-- `none` is a write past the digit buffer; a write past `cap` shows in the length. With `cap < 256`
-- nothing is written.
pub serialize_action : Action → Bytes → ℕ → Option Bytes
unfolding action_text
serialize_action a ticker cap = if ltb cap 256 then some [] else action_text a a.kind ticker
