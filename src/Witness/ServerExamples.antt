-- ===== src/Witness/ServerExamples.antt =====
-- The server on a request in three pieces, a client that is accepted, and a connection that is refused.
use kalshi_cpp.Prelude.{
  ◌≡◌, refl, inr, true, false, some, List, [], ◌∷◌, ◌++◌, length, Bytes, codes, arith,
  if◌then◌else◌,
}
use kalshi_cpp.Prelude.Decimals.{
  to_string, digits_onto, stoi, skip_spaces, signed_part, unsigned_part, read_digits,
}
use kalshi_cpp.Prelude.Runs.{Ends}
use kalshi_cpp.Sim.Reactor.{Reactor}
use kalshi_cpp.Sim.RestServer.{
  Request, Handler, Routes, dispatch, Written, took, interrupted, write_loop, reason_phrase,
}
use kalshi_cpp.Sim.RestServer.Answer.{serialize_response}
use kalshi_cpp.Sim.RestServer.Parse.{Headers, parse_request}
use kalshi_cpp.Sim.RestServer.Parse.Prefixes.{put_all}
use kalshi_cpp.Sim.RestServer.Parse.Terminates.{parse_request-Ends}
use kalshi_cpp.Sim.RestServer.Connections.{
  Buffers, in_buffer, erase_buffer, kept_open, closed, on_connection_event,
}
use kalshi_cpp.Sim.RestServer.Connections.Pieces.{pieces-served, arrive, last_event, all_pieces}
use kalshi_cpp.Sim.RestServer.Listener.{
  Listener, init_listener, Callback, Accept, client, accept_again, accept_failed, on_listener_event,
}
use kalshi_cpp.Sim.RestServer.Listener.Descriptors.{on_listener_event-settles, settled}
use kalshi_cpp.Net.RestClient.{Dialled, init_client, connect, destroy}
use kalshi_cpp.Net.RestClient.Descriptor.{destroy-connect}

abbrev broken : Bytes
broken = codes "GET / HTTP/1.1" ++ (13 ∷ 10 ∷ codes "Content-Length: x" ++ (13 ∷ 10 ∷ 13 ∷ 10 ∷ []))

parse_request-Ends_example : Ends (parse_request broken)
parse_request-Ends_example = parse_request-Ends broken (omega arith)

abbrev echo : Handler
echo req = record { status = 200; content_type = codes "text/plain"; body = req.body }

abbrev routes : Routes
routes = (codes "POST /e", echo) ∷ []

abbrev post : Bytes
post = codes "POST"

abbrev path : Bytes
path = codes "/e"

abbrev version : Bytes
version = codes "HTTP/1.1"

abbrev lines : Headers
lines = (codes "Content-Length", codes "2") ∷ []

abbrev body : Bytes
body = codes "ok"

abbrev parsed : Request
parsed = record { method = post; path = path; headers = put_all lines []; body = body }

abbrev events : List (List Bytes)
events = (codes "POST /e HTTP/1.1" ∷ (13 ∷ 10 ∷ []) ∷ []) ∷ []

abbrev pieces : List Bytes
pieces = (codes "Content-Length: 2" ++ (13 ∷ 10 ∷ 13 ∷ 10 ∷ [])) ∷ []

abbrev writes : List Written
writes = took (length (serialize_response (dispatch parsed routes))) ∷ interrupted ∷ []

abbrev buffers : Buffers
buffers = []

pieces-served_example :
    ((arrive 4 routes events buffers).sent ≡ [])
    × ((arrive 4 routes events buffers).progress ≡ kept_open)
    × (on_connection_event 4 routes writes
          (last_event pieces body)
          (arrive 4 routes events buffers).buffers
        ≡ record {
          buffers = erase_buffer 4 buffers;
          sent = (write_loop (serialize_response (dispatch parsed routes)) 0 writes).0;
          progress = closed;
        })
unfolding in_buffer write_loop serialize_response to_string digits_onto dispatch reason_phrase stoi
    skip_spaces signed_part unsigned_part read_digits all_pieces
pieces-served_example =
    pieces-served post path version lines body 4 routes writes events pieces body buffers true
      (omega arith, omega arith, omega arith, omega arith, omega arith)
      ((omega arith, omega arith, omega arith), tt) (omega arith) ((λ e. refl), tt) (inr refl) refl
      refl (omega arith) refl

abbrev fresh : Listener
fresh = init_listener 8443

abbrev reactor : Reactor Callback
reactor = record { running = true; callbacks = []; pending_removes = [] }

abbrev accepts : List Accept
accepts = client 7 true true ∷ accept_failed ∷ client 8 false true ∷ accept_again ∷ []

on_listener_event-settles_example :
    settled 8
      (on_listener_event accepts fresh reactor).1
      (on_listener_event accepts fresh reactor).2
    ≡ true
on_listener_event-settles_example = on_listener_event-settles accepts fresh reactor 8 refl

abbrev refusing : Dialled
refusing = record { resolved = true; socket = some 3; connected = false }

abbrev host : Bytes
host = codes "localhost"

abbrev port : Bytes
port = codes "8443"

destroy-connect_example :
    ((connect refusing (init_client host port)).0 ≡ false)
    × ((destroy (connect refusing (init_client host port)).1).closed
        ≡ (if false then 3 ∷ [] else 3 ∷ 3 ∷ []))
destroy-connect_example = destroy-connect refusing host port 3 refl refl
