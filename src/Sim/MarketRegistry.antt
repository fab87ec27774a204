-- ===== src/Sim/MarketRegistry.antt =====
-- sim/domain/market_registry.h, sim/domain/market_registry.cpp: the engines by ticker. The unordered
-- map is a list of pairs in an order that nothing depends on.
pub mod Markets
use kalshi_cpp.Prelude.{
  Bool, true, false, Option, none, some, List, [], ◌∷◌, if◌then◌else◌, Bytes, bytes_eq,
}
use kalshi_cpp.Sim.MatchingEngine.State.{MatchingEngine, init_engine}

pub record MarketRegistry : Type 0 where
  pub engines : List (Bytes × MatchingEngine)

-- `engines_.find(ticker)`
unfoldable pub find_engine : Bytes → List (Bytes × MatchingEngine) → Option MatchingEngine
find_engine ticker [] = none
find_engine ticker (m ∷ ms) = if bytes_eq ticker m.0 then some m.1 else find_engine ticker ms

abbrev pub is_some : Option MatchingEngine → Bool
is_some none = false
is_some (some e) = true

-- `try_emplace` leaves a market that is there as it is.
unfoldable pub emplace : Option MatchingEngine → Bytes → MarketRegistry → Bool × MarketRegistry
emplace none ticker r = (true, record { engines = (ticker, init_engine) ∷ r.engines })
emplace (some e) ticker r = (false, r)

unfoldable pub add_market : Bytes → MarketRegistry → Bool × MarketRegistry
unfolding find_engine emplace
add_market ticker r = emplace (find_engine ticker r.engines) ticker r

-- The pointer to the engine, as the engine that it leads to.
unfoldable pub get_engine : Bytes → MarketRegistry → Option MatchingEngine
unfolding find_engine
get_engine ticker r = find_engine ticker r.engines

unfoldable pub has_market : Bytes → MarketRegistry → Bool
unfolding find_engine
has_market ticker r = is_some (find_engine ticker r.engines)

unfoldable pub tickers : List (Bytes × MatchingEngine) → List Bytes
tickers [] = []
tickers (m ∷ ms) = m.0 ∷ tickers ms

unfoldable pub list_markets : MarketRegistry → List Bytes
unfolding tickers
list_markets r = tickers r.engines
