-- ===== src/Witness/HandlerExamples.antt =====
-- An order for the market DEMO-1, over a small instance of the JSON library.
use text.Mathlib.Text.{◌==◌}
use kalshi_cpp.Prelude.{◌⊎◌, some, [], if◌then◌else◌, Bytes, codes, pos}
use kalshi_cpp.Sim.RestServer.{Request}
use kalshi_cpp.Sim.Handlers.{Json, handle_place_order}
use kalshi_cpp.Sim.Handlers.Main.{main_registry}
use kalshi_cpp.Sim.Handlers.Orders.{Refused, NoMarket, SentOn, handle_place_order_lem}

-- A document is its ticker; every document sells 5 at 40.
abbrev json : Json
json = record {
  Document = Bytes;
  iterate = λ body. some body;
  get_string = λ doc key. if key == "ticker" then some doc else some (codes "NO");
  get_int64 = λ doc key. if key == "price" then some (pos 40) else some (pos 5);
}

abbrev order : Request
order = record {
  method = codes "POST";
  path = codes "/portfolio/orders";
  headers = [];
  body = codes "DEMO-1";
}

handle_place_order_lem_example :
    Refused json order 9 main_registry (handle_place_order json order 9 main_registry)
    ⊎ (NoMarket json order 9 main_registry (handle_place_order json order 9 main_registry)
        ⊎ SentOn json order 9 main_registry (handle_place_order json order 9 main_registry))
handle_place_order_lem_example = handle_place_order_lem json order 9 main_registry
