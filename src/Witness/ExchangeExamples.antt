-- ===== src/Witness/ExchangeExamples.antt =====
-- A request over two reads and its answer over two, through the client and the server.
use kalshi_cpp.Prelude.{
  ◌≡◌, refl, Option, none, some, List, [], ◌∷◌, ◌++◌, ◌-◌, length, take, drop, Bytes, codes, arith,
  pos,
}
use kalshi_cpp.Prelude.Strings.{find, find_at, substr, put}
use kalshi_cpp.Prelude.Decimals.{to_string, digits_onto}
use kalshi_cpp.Prelude.Runs.{returns}
use kalshi_cpp.Sim.RestServer.{
  Request, Handler, Routes, route, dispatch, Written, took, interrupted, write_loop, reason_phrase,
}
use kalshi_cpp.Sim.RestServer
use kalshi_cpp.Sim.RestServer.Answer.{serialize_response}
use kalshi_cpp.Sim.RestServer.Parse.{parse_request, header_loop, check_length}
use kalshi_cpp.Sim.RestServer.Connections.{
  Buffers, in_buffer, set_buffer, on_connection_event, respond, close_connection,
}
use kalshi_cpp.Sim.RestServer.Connections.Pieces.{all_pieces, arrive}
use kalshi_cpp.Net.RestClient.{RestClient, init_client, request, send_request}
use kalshi_cpp.Net.RestClient.Received.{answers}
use kalshi_cpp.Net.RestClient.Reply.{insert_all}
use kalshi_cpp.Net.Exchange.{exchange, reply_headers, sent_request}

abbrev up : Handler
up req = record { status = 200; content_type = codes "text/plain"; body = codes "yes" }

abbrev routes : Routes
routes = (codes "GET /up", up) ∷ []

abbrev client : RestClient
client = init_client (codes "h") (codes "1")

abbrev get_text : Bytes
get_text =
    codes "GET /up HTTP/1.1"
    ++ (13 ∷ 10 ∷ codes "Host: h"
        ++ (13 ∷ 10 ∷ codes "Connection: close" ++ (13 ∷ 10 ∷ 13 ∷ 10 ∷ [])))

abbrev get : Bytes
get = codes "GET"

abbrev path : Bytes
path = codes "/up"

abbrev empty : Bytes
empty = []

abbrev reply_text : Bytes
reply_text =
    codes "HTTP/1.1 200 OK"
    ++ (13 ∷ 10 ∷ codes "Content-Type: text/plain"
        ++ (13 ∷ 10 ∷ codes "Content-Length: 3"
            ++ (13 ∷ 10 ∷ codes "Connection: close" ++ (13 ∷ 10 ∷ 13 ∷ 10 ∷ codes "yes"))))

abbrev client_writes : List Written
client_writes = took 7 ∷ interrupted ∷ took (length get_text - 7) ∷ interrupted ∷ []

abbrev server_writes : List Written
server_writes = took (length reply_text) ∷ interrupted ∷ []

abbrev first_event : List (List Bytes)
first_event = (take 10 get_text ∷ []) ∷ []

abbrev no_more : List Bytes
no_more = []

abbrev last_piece : Bytes
last_piece = drop 10 get_text

abbrev reads : List (Option Bytes)
reads = some (take 20 reply_text) ∷ none ∷ some (drop 20 reply_text) ∷ []

abbrev buffers : Buffers
buffers = []

abbrev answer : RestServer.Response
answer = dispatch (sent_request client get path empty empty) routes

exchange_example :
    (send_request client get path empty empty client_writes (answers reads)).1
    ≡ returns (record {
      status = pos answer.status;
      headers = insert_all (reply_headers answer) [];
      body = answer.body;
    })
unfolding request send_request write_loop serialize_response to_string digits_onto dispatch
    reason_phrase on_connection_event parse_request header_loop check_length respond
    close_connection in_buffer set_buffer find find_at substr put arrive all_pieces
exchange_example =
    exchange client get path empty empty routes 5 buffers first_event no_more last_piece
      client_writes server_writes reads
      (
        omega arith,
        omega arith,
        omega arith,
        omega arith,
        omega arith,
        omega arith,
        omega arith,
        omega arith,
      )
      (omega arith, omega arith, omega arith) (omega arith, (omega arith, tt)) refl
      (omega arith, tt) refl refl refl (omega arith) refl
