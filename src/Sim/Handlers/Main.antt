-- ===== src/Sim/Handlers/Main.antt =====
-- sim/main.cpp: the market and the routes of the simulator. The handler of orders is a parameter, since
-- it changes the registry that it captured.
use kalshi_cpp.Prelude.{◌≡◌, refl, ap, ◌∙◌, Bool, ◌&&◌, [], if◌then◌else◌, codes, bytes_eq, arith}
use kalshi_cpp.Sim.MarketRegistry.{MarketRegistry, add_market}
use kalshi_cpp.Sim.RestServer.{Request, Response, Handler, Routes, route, not_found, dispatch}
use kalshi_cpp.Sim.RestServer.Routing.{NoSpace, dispatch-route}

unfoldable pub main_registry : MarketRegistry
main_registry = (add_market (codes "DEMO-1") (record { engines = [] })).1

unfoldable pub status_handler : Handler
status_handler req = record {
  status = 200;
  content_type = codes "application/json";
  body = codes "{\"status\": \"ok\"}";
}

unfoldable pub balance_handler : Handler
balance_handler req = record {
  status = 200;
  content_type = codes "application/json";
  body = codes "{\"balance\": 10000}";
}

unfoldable pub main_routes : Handler → Routes
main_routes orders = route (codes "POST") (codes "/portfolio/orders") orders (
    route (codes "GET") (codes "/portfolio/balance") balance_handler
      (route (codes "GET") (codes "/exchange/status") status_handler []))

-- The simulator answers orders posted to /portfolio/orders with the handler of orders, the two other
-- routes with their fixed answers, and everything else with not found; the method has no space.
pub dispatch-main_routes :
    (orders : Handler) (req : Request)
    → NoSpace req.method
    → dispatch req (main_routes orders) ≡ (
        if bytes_eq req.method (codes "POST") && bytes_eq req.path (codes "/portfolio/orders")
        then orders req
        else (if bytes_eq req.method (codes "GET") && bytes_eq req.path (codes "/portfolio/balance")
            then balance_handler req
            else (if bytes_eq req.method (codes "GET")
                  && bytes_eq req.path (codes "/exchange/status")
                then status_handler req
                else not_found)))
unfolding main_routes
dispatch-main_routes orders req h =
    let status : Routes = route (codes "GET") (codes "/exchange/status") status_handler [] in
    let balance : Routes =
      route (codes "GET") (codes "/portfolio/balance") balance_handler status in
    let empty : dispatch req [] ≡ not_found = unfold dispatch in refl in
    let s1 =
      dispatch-route (codes "GET") (codes "/exchange/status") status_handler req [] (omega arith)
        h in
    let s2 =
      dispatch-route (codes "GET") (codes "/portfolio/balance") balance_handler req status
        (omega arith) h in
    let s3 =
      dispatch-route (codes "POST") (codes "/portfolio/orders") orders req balance (omega arith)
        h in
    s3
    ∙ ap
        (if_else
          (bytes_eq req.method (codes "POST") && bytes_eq req.path (codes "/portfolio/orders"))
          (orders req))
        (s2
          ∙ ap
              (if_else
                (bytes_eq req.method (codes "GET")
                  && bytes_eq req.path (codes "/portfolio/balance"))
                (balance_handler req))
              (s1
                ∙ ap
                    (if_else
                      (bytes_eq req.method (codes "GET")
                        && bytes_eq req.path (codes "/exchange/status"))
                      (status_handler req))
                    empty))
  where
    if_else : Bool → Response → Response → Response
    if_else b x y = if b then x else y
