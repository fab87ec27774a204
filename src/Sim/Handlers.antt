-- ===== src/Sim/Handlers.antt =====
-- sim/http/handlers.h, sim/http/handlers.cpp: the handlers of orders, and the routes of sim/main.cpp.
-- simdjson is a parameter: what the code asks of a document, each answer `none` on an error code.
pub mod Orders
pub mod Main
use Prim.Native.String.{String}
use kalshi_cpp.Prelude.{
  ℕ, ◌%◌, ◌^◌, Bool, true, false, ◌||◌, not, Option, none, some, List, [], ◌∷◌, ◌++◌, ltb, ltb_ℤ,
  if◌then◌else◌, ℤ, pos, pos_part, Bytes, codes, bytes_eq,
}
use kalshi_cpp.Prelude.Decimals.{to_string}
use kalshi_cpp.Prelude.Runs.{
  Run, value, returns, throws, undefined, running, ◌>>=◌, ◌>>◌, or_return,
}
use kalshi_cpp.Sim.MatchingEngine.State.{Side, yes_side, no_side, Fill, PlaceResult, MatchingEngine}
use kalshi_cpp.Sim.MatchingEngine.Calls.{place_limit}
use kalshi_cpp.Sim.MarketRegistry.{MarketRegistry, get_engine}
use kalshi_cpp.Sim.RestServer.{Request, Response}

-- `parser.iterate`, and `doc.find_field_unordered(key)` at the types that the code asks for.
pub record Json : Type 1 where
  pub Document : Type 0
  pub iterate : Bytes → Option Document
  pub get_string : Document → String → Option Bytes
  pub get_int64 : Document → String → Option ℤ

unfoldable pub make_error : ℕ → String → Response
make_error status msg = record {
  status = status;
  content_type = codes "application/json";
  body = codes "{\"error\":\"" ++ (codes msg ++ codes "\"}");
}

-- What the checks leave in `ticker`, `side`, `price` and `qty`.
pub record Placement : Type 0 where
  pub ticker : Bytes
  pub side : Side
  pub price : ℕ
  pub qty : ℕ

-- A failed check returns an error of status 400.
abbrev pub Checking : Type 0 → Type 0
Checking A = Run Response A

abbrev pub check : Bool → String → Checking (Unit {0})
check bad msg = if bad then returns (make_error 400 msg) else value tt

abbrev pub need : {A : Type 0} → Option A → String → Checking A
need o msg = or_return (make_error 400 msg) o

abbrev pub no_text : Bytes → Bool
no_text [] = true
no_text (c ∷ cs) = false

unfoldable pub read_side : Bytes → Option Side
read_side text =
    if bytes_eq text (codes "YES")
    then some yes_side
    else if bytes_eq text (codes "NO")
    then some no_side
    else none

-- `static_cast<uint8_t>` and `static_cast<uint32_t>` of a number that is not negative.
abbrev pub to_u8 : ℤ → ℕ
to_u8 z = pos_part z % 2 ^ 8

abbrev pub to_u32 : ℤ → ℕ
to_u32 z = pos_part z % 2 ^ 32

module _ (json : Json) where
  open json use {Document, iterate, get_string, get_int64}

  pub read_ticker : Document → Checking Bytes
  read_ticker doc = do
    ticker ← need (get_string doc "ticker") "missing or invalid 'ticker'"
    check (no_text ticker) "ticker empty"
    value ticker

  pub read_order_side : Document → Checking Side
  read_order_side doc = do
    side_str ← need (get_string doc "side") "missing or invalid 'side'"
    need (read_side side_str) "side must be 'YES' or 'NO'"

  pub read_price : Document → Checking ℕ
  read_price doc = do
    price_raw ← need (get_int64 doc "price") "missing or invalid 'price'"
    check (ltb_ℤ price_raw (pos 1) || ltb_ℤ (pos 99) price_raw) "price out of range (1-99)"
    value (to_u8 price_raw)

  pub read_qty : Document → Checking ℕ
  read_qty doc = do
    qty_raw ← need (get_int64 doc "qty") "missing or invalid 'qty'"
    check (not (ltb_ℤ (pos 0) qty_raw) || ltb_ℤ (pos 1000000) qty_raw) "qty out of range"
    value (to_u32 qty_raw)

  -- The checks, in the order of the code.
  pub read_order : Bytes → Checking Placement
  read_order body = do
    doc ← need (iterate body) "malformed JSON"
    ticker ← read_ticker doc
    side ← read_order_side doc
    price ← read_price doc
    qty ← read_qty doc
    value (record { ticker = ticker; side = side; price = price; qty = qty })

unfoldable pub fill_text : Fill → Bytes
fill_text f =
    codes "{\"maker_order_id\":"
    ++ (to_string f.maker_order_id
        ++ (codes ",\"taker_order_id\":"
            ++ (to_string f.taker_order_id
                ++ (codes ",\"price\":"
                    ++ (to_string f.price
                        ++ (codes ",\"qty\":"
                            ++ (to_string f.qty
                                ++ (codes ",\"ts\":" ++ (to_string f.ts ++ codes "}")))))))))

-- The fills behind the first have a comma in front.
unfoldable pub more_fills : List Fill → Bytes
more_fills [] = []
more_fills (f ∷ fs) = codes "," ++ (fill_text f ++ more_fills fs)

unfoldable pub fills_text : List Fill → Bytes
fills_text [] = []
fills_text (f ∷ fs) = fill_text f ++ more_fills fs

abbrev pub bool_text : Bool → Bytes
bool_text true = codes "true"
bool_text false = codes "false"

unfoldable pub order_text : PlaceResult → Bytes
order_text result =
    codes "{\"order_id\":"
    ++ (to_string result.order_id
        ++ (codes ",\"qty_resting\":"
            ++ (to_string result.qty_resting
                ++ (codes ",\"accepted\":"
                    ++ (bool_text result.accepted
                        ++ (codes ",\"fills\": [" ++ (fills_text result.fills ++ codes "]}")))))))

unfoldable pub order_response : PlaceResult → Response
order_response result = record {
  status = 200;
  content_type = codes "application/json";
  body = order_text result;
}

-- The engine that the pointer leads to, after a call through it.
unfoldable pub set_engine :
    Bytes → MatchingEngine → List (Bytes × MatchingEngine) → List (Bytes × MatchingEngine)
set_engine ticker e [] = []
set_engine ticker e (m ∷ ms) =
    if bytes_eq ticker m.0 then (m.0, e) ∷ ms else m ∷ set_engine ticker e ms

-- The order goes to the engine of its ticker, for client 1; `none` is undefined behaviour there.
unfoldable pub place_order : Placement → ℕ → MarketRegistry → Option (Response × MarketRegistry)
place_order p now reg = elim (get_engine p.ticker reg) [
  | none ↦ some (make_error 404 "no such market", reg)
  | some engine ↦ elim (place_limit 1 p.side p.price p.qty now engine) [
    | none ↦ none
    | some (result, engine') ↦
        some (order_response result, record { engines = set_engine p.ticker engine' reg.engines })
  ]
]

-- An early return leaves the registry as it is.
unfoldable pub answer_order :
    Checking Placement → ℕ → MarketRegistry → Option (Response × MarketRegistry)
answer_order (value p) now reg = place_order p now reg
answer_order (returns error) now reg = some (error, reg)
answer_order throws now reg = none
answer_order undefined now reg = none
answer_order running now reg = none

unfoldable pub handle_place_order :
    Json → Request → ℕ → MarketRegistry → Option (Response × MarketRegistry)
handle_place_order json req now reg = answer_order (read_order json req.body) now reg

unfoldable pub handle_get_orderbook : Request → MarketRegistry → Response
handle_get_orderbook req reg = make_error 501 "endpoint developing"

unfoldable pub handle_cancel_order : Request → MarketRegistry → Response
handle_cancel_order req reg = make_error 501 "endpoint developing"
