-- ===== src/Sim/RestServer.antt =====
-- sim/http/rest_server.h, sim/http/rest_server.cpp: the routes of the server, and the loop that writes
-- a response. A handler is a function from requests to responses.
pub mod Parse
pub mod Answer
pub mod Connections
pub mod Listener
pub mod Routing
pub mod Writing
use kalshi_cpp.Prelude.{
  ℕ, ◌+◌, Bool, true, false, Option, none, some, List, [], ◌∷◌, ◌++◌, length, take, drop, ◌==◌,
  if◌then◌else◌, Bytes, codes, bytes_eq,
}

-- The headers are pairs of a name and its content.
pub record Request : Type 0 where
  pub method : Bytes
  pub path : Bytes
  pub headers : List (Bytes × Bytes)
  pub body : Bytes

pub record Response : Type 0 where
  pub status : ℕ
  pub content_type : Bytes
  pub body : Bytes

abbrev pub Handler : Type 0
Handler = Request → Response

abbrev pub Routes : Type 0
Routes = List (Bytes × Handler)

-- `method + " " + path`
abbrev pub route_key : Bytes → Bytes → Bytes
route_key method path = method ++ (codes " " ++ path)

abbrev pub find_route : Bytes → Routes → Option Handler
find_route key [] = none
find_route key (r ∷ rs) = if bytes_eq key r.0 then some r.1 else find_route key rs

-- `routes_[key] = handler`
abbrev pub set_route : Bytes → Handler → Routes → Routes
set_route key h [] = (key, h) ∷ []
set_route key h (r ∷ rs) = if bytes_eq key r.0 then (key, h) ∷ rs else r ∷ set_route key h rs

unfoldable pub route : Bytes → Bytes → Handler → Routes → Routes
route method path h routes = set_route (route_key method path) h routes

abbrev pub not_found : Response
not_found = record { status = 404; content_type = codes "text/plain"; body = codes "Not Found" }

pub answer_with : Option Handler → Request → Response
answer_with none req = not_found
answer_with (some h) req = h req

unfoldable pub dispatch : Request → Routes → Response
unfolding answer_with
dispatch req routes = answer_with (find_route (route_key req.method req.path) routes) req

unfoldable pub reason_phrase : ℕ → Bytes
reason_phrase status =
    if status == 200
    then codes "OK"
    else (if status == 400
        then codes "Bad Request"
        else (if status == 404
            then codes "Not Found"
            else (if status == 500 then codes "Internal Server Error" else codes "Unknown Status")))

-- What a call of write answers: so many bytes taken, EINTR, or another error.
pub data Written : Type 0 where
  took : ℕ → Written
  interrupted : Written
  failed : Written

-- The loop of `write_response_` on the answers of write, with the number of bytes sent: what the
-- socket took, and the answer, or `none` while the loop waits for another call of write.
unfoldable pub write_loop : Bytes → ℕ → List Written → Bytes × Option Bool
write_loop resp sent [] = ([], if sent == length resp then some true else none)
write_loop resp sent (w ∷ ws) = if sent == length resp then ([], some true) else elim w [
  | interrupted ↦ write_loop resp sent ws
  | failed ↦ ([], some false)
  | took n ↦ let rest = write_loop resp (sent + n) ws in (take n (drop sent resp) ++ rest.0, rest.1)
]
