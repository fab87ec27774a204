-- ===== src/Sim/MarketRegistry/Markets.antt =====
-- sim/domain/market_registry.cpp: what add_market changes, and what list_markets lists.
use kalshi_cpp.Prelude.{
  ℕ, ◌+◌, ◌≡◌, inl, inr, refl, ap, ◌∙◌, not, Option, none, some, List, [], ◌∷◌, arith,
  if◌then◌else◌, if-elim, Bool-cases, Bytes, bytes_eq, bytes_eq→eq,
}
use kalshi_cpp.Sim.MatchingEngine.State.{MatchingEngine, init_engine}
use kalshi_cpp.Sim.MarketRegistry.{
  MarketRegistry, find_engine, is_some, emplace, tickers, add_market, get_engine, has_market,
  list_markets,
}

abbrev pub value_or : Option MatchingEngine → MatchingEngine → MatchingEngine
value_or none d = d
value_or (some e) d = e

-- How many times a list has a ticker.
abbrev pub occurrences : Bytes → List Bytes → ℕ
occurrences t [] = 0
occurrences t (u ∷ us) = (if bytes_eq t u then 1 else 0) + occurrences t us

add_by :
    (o : Option MatchingEngine) (ticker t : Bytes) (r : MarketRegistry)
    → find_engine ticker r.engines ≡ o
    → find_engine t (emplace o ticker r).1.engines
      ≡ (if bytes_eq t ticker then some (value_or o init_engine) else find_engine t r.engines)
unfolding find_engine emplace
add_by none ticker t r e = refl
add_by (some m) ticker t r e =
    if-elim (λ x. find_engine t r.engines ≡ x) (bytes_eq t ticker) (some m)
      (find_engine t r.engines)
      (λ h. ap (λ u. find_engine u r.engines) (bytes_eq→eq t ticker h) ∙ e) (λ h. refl)

add_answer :
    (o : Option MatchingEngine) (ticker : Bytes) (r : MarketRegistry)
    → (emplace o ticker r).0 ≡ not (is_some o)
unfolding emplace
add_answer none ticker r = refl
add_answer (some m) ticker r = refl

-- After add_market of a ticker, that ticker has the engine that it had, or else a fresh one, and every
-- other ticker has what it had; the answer is whether the ticker was new.
pub add_market_lem :
    (ticker t : Bytes) (r : MarketRegistry)
    → (get_engine t (add_market ticker r).1 ≡ (
        if bytes_eq t ticker
        then some (value_or (get_engine ticker r) init_engine)
        else get_engine t r))
      × ((add_market ticker r).0 ≡ not (has_market ticker r))
unfolding get_engine add_market has_market
add_market_lem ticker t r = (
  add_by (find_engine ticker r.engines) ticker t r refl,
  add_answer (find_engine ticker r.engines) ticker r,
)

-- list_markets lists each ticker that has a market once, and no other.
abbrev pub Listed : MarketRegistry → Type 0
Listed r = (t : Bytes) → occurrences t (list_markets r) ≡ (if has_market t r then 1 else 0)

emplace-Listed :
    (o : Option MatchingEngine) (ticker : Bytes) (r : MarketRegistry)
    → find_engine ticker r.engines ≡ o
    → Listed r
    → Listed (emplace o ticker r).1
unfolding emplace list_markets has_market find_engine tickers
emplace-Listed none ticker r e l t = elim (Bool-cases (bytes_eq t ticker)) [
  | inl h ↦
      let same : find_engine t r.engines ≡ none =
        ap (λ u. find_engine u r.engines) (bytes_eq→eq t ticker h) ∙ e in
      let none_listed : occurrences t (tickers r.engines) ≡ 0 =
        l t ∙ ap (λ o. if is_some o then 1 else 0) same in
      ground (arith, h, none_listed)
  | inr h ↦ ground (arith, h, l t)
]
emplace-Listed (some m) ticker r e l t = l t

-- If list_markets lists each ticker that has a market once and no other, it does so after add_market.
pub add_market-Listed :
    (ticker : Bytes) (r : MarketRegistry) → Listed r → Listed (add_market ticker r).1
unfolding add_market
add_market-Listed ticker r l = emplace-Listed (find_engine ticker r.engines) ticker r refl l
