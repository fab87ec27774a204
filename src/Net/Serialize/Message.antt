-- ===== src/Net/Serialize/Message.antt =====
-- A reader of the wire form, and the round trip.
use kalshi_cpp.Prelude.{
  ℕ, ◌<◌, ◌^◌, ◌≢◌, Option, none, some, [], ◌∷◌, ◌==◌, if◌then◌else◌, Bytes, codes,
}
use kalshi_cpp.Feed.Parser.{Side, read_side}
use kalshi_cpp.Strategy.OrderManager.{Action, ActionKind, place, cancel}
use kalshi_cpp.Net.Serialize.{c_string}
use kalshi_cpp.Prelude.Decimals.{read_digits}

pub data Message : Type 0 where
  placing : Bytes → Side → ℕ → ℕ → ℕ → Message
  cancelling : Bytes → ℕ → Message

pub strip : Bytes → Bytes → Option Bytes
strip [] s = some s
strip (c ∷ cs) [] = none
strip (c ∷ cs) (d ∷ ds) = if c == d then strip cs ds else none

pub until_quote : Bytes → Bytes × Bytes
until_quote [] = ([], [])
until_quote (c ∷ cs) =
    if c == b'"' then ([], c ∷ cs) else (let (t, r) = until_quote cs in (c ∷ t, r))

infixl 5 ◌>>=◌
abbrev ◌>>=◌ : {A B : Type 0} → Option A → (A → Option B) → Option B
none >>= f = none
some a >>= f = f a

read_place : Bytes → Option Message
read_place s = do
  let (ticker, s1) = until_quote s
  s2 ← strip (codes "\",\"side\":\"") s1
  let (word, s3) = until_quote s2
  side ← read_side word
  s4 ← strip (codes "\",\"price\":") s3
  let (price, s5) = read_digits 0 s4
  s6 ← strip (codes ",\"qty\":") s5
  let (qty, s7) = read_digits 0 s6
  s8 ← strip (codes ",\"client_id\":") s7
  let (id, s9) = read_digits 0 s8
  rest ← strip (codes "}") s9
  some (placing ticker side price qty id)

read_cancel : Bytes → Option Message
read_cancel s = do
  let (ticker, s1) = until_quote s
  s2 ← strip (codes "\",\"client_id\":") s1
  let (id, s3) = read_digits 0 s2
  rest ← strip (codes "}") s3
  some (cancelling ticker id)

read_either : Option Bytes → Option Bytes → Option Message
unfolding read_place read_cancel
read_either (some r) c = read_place r
read_either none (some r) = read_cancel r
read_either none none = none

pub read_message : Bytes → Option Message
unfolding read_either
read_message s =
    read_either (strip (codes "{\"action\":\"place\",\"ticker\":\"") s)
      (strip (codes "{\"action\":\"cancel\",\"ticker\":\"") s)

-- The message that an action stands for.
pub message_of : Action → ActionKind → Bytes → Message
message_of a place ticker = placing (c_string ticker) a.side a.price a.qty a.client_id
message_of a cancel ticker = cancelling (c_string ticker) a.client_id

-- A ticker that JSON needs no escape for, as far as the quote goes.
abbrev pub NoQuote : Bytes → Type 0
NoQuote [] = Unit {0}
NoQuote (c ∷ cs) = (c ≢ b'"') × NoQuote cs

-- Where the source's types hold the numbers, and the price is one that the market has.
pub record IsSendable (a : Action) (ticker : Bytes) : Type 0 where
  pub price : a.price < 100
  pub qty : a.qty < 2 ^ 32
  pub client_id : a.client_id < 2 ^ 64
  pub quotable : NoQuote ticker
