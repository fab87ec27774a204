-- ===== src/Witness/NetExamples.antt =====
-- The wire form of a place, and a ticker that is too long.
use kalshi_cpp.Prelude.{◌≤◌, ◌<◌, ◌≡◌, some, arith, Bytes, codes, length, replicate}
use kalshi_cpp.Feed.Parser.{yes_side}
use kalshi_cpp.Strategy.OrderManager.{Action, place}
use kalshi_cpp.Net.Serialize.{serialize_action, c_string}
use kalshi_cpp.Net.Serialize.Length.{serialize_action_fits, serialize_action_overruns}

abbrev bid : Action
bid = record { kind = place; side = yes_side; price = 41; qty = 10; client_id = 1 }

serialize_action_fits_example :
    (out : Bytes) × (serialize_action bid (codes "DEMO-1") 256 ≡ some out)
    × (length out ≤ 256)
    × (length out ≤ 256)
serialize_action_fits_example =
    serialize_action_fits bid (codes "DEMO-1") 256 (omega arith) (omega arith) (omega arith)
      (omega arith)

abbrev long_ticker : Bytes
long_ticker = replicate 256 b'A'

serialize_action_overruns_example :
    (out : Bytes) × (serialize_action bid long_ticker 256 ≡ some out) × (256 < length out)
unfolding c_string
serialize_action_overruns_example =
    serialize_action_overruns bid long_ticker 256 (omega arith) (omega arith) (omega arith)
      (omega arith)
