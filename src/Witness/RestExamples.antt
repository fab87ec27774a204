-- ===== src/Witness/RestExamples.antt =====
-- Two routes, and a response that is written in two pieces.
use kalshi_cpp.Prelude.{◌≡◌, ◌&&◌, refl, List, [], ◌∷◌, if◌then◌else◌, bytes_eq, codes, drop, arith}
use kalshi_cpp.Sim.RestServer.{
  Request, Handler, Routes, route, dispatch, Written, took, interrupted, write_loop,
}
use kalshi_cpp.Sim.RestServer.Routing.{dispatch-route}
use kalshi_cpp.Sim.RestServer.Writing.{write_loop-sends}

abbrev health : Handler
health req = record { status = 200; content_type = codes "text/plain"; body = req.body }

abbrev request : Request
request = record { method = codes "GET"; path = codes "/up"; headers = []; body = codes "x" }

abbrev routes : Routes
routes = []

dispatch-route_example : dispatch request (route (codes "GET") (codes "/up") health routes) ≡ (
    if bytes_eq (codes "GET") (codes "GET") && bytes_eq (codes "/up") (codes "/up")
    then health request
    else dispatch request routes)
dispatch-route_example =
    dispatch-route (codes "GET") (codes "/up") health request routes
      (omega arith, (omega arith, (omega arith, tt)))
      (omega arith, (omega arith, (omega arith, tt)))

abbrev writes : List Written
writes = took 2 ∷ interrupted ∷ took 1 ∷ []

write_loop-sends_example : (write_loop (codes "abc") 0 writes).0 ≡ drop 0 (codes "abc")
unfolding write_loop
write_loop-sends_example =
    write_loop-sends (codes "abc") 0 writes (omega arith, (omega arith, tt)) refl
