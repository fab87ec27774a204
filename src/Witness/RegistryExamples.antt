-- ===== src/Witness/RegistryExamples.antt =====
-- A registry with one market.
use kalshi_cpp.Prelude.{◌≡◌, some, [], ◌∷◌, not, if◌then◌else◌, Bytes, bytes_eq, codes, arith}
use kalshi_cpp.Sim.MatchingEngine.State.{init_engine}
use kalshi_cpp.Sim.MarketRegistry.{
  MarketRegistry, add_market, get_engine, has_market, list_markets, tickers, find_engine,
}
use kalshi_cpp.Sim.MarketRegistry.Markets.{Listed, value_or, add_market_lem, add_market-Listed}

abbrev rain : Bytes
rain = codes "RAIN"

abbrev snow : Bytes
snow = codes "SNOW"

abbrev registry : MarketRegistry
registry = record { engines = (rain, init_engine) ∷ [] }

registry-Listed : Listed registry
unfolding list_markets has_market tickers find_engine
registry-Listed t = ground arith

add_market_lem_example :
    (get_engine rain (add_market snow registry).1 ≡ (
      if bytes_eq rain snow
      then some (value_or (get_engine snow registry) init_engine)
      else get_engine rain registry))
    × ((add_market snow registry).0 ≡ not (has_market snow registry))
add_market_lem_example = add_market_lem snow rain registry

abbrev grown : MarketRegistry
grown = (add_market snow registry).1

add_market-Listed_example : Listed grown
add_market-Listed_example = add_market-Listed snow registry registry-Listed
