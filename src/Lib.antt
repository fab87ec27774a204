-- ===== src/Lib.antt =====
-- kalshi-cpp: a client of a prediction market (src/) and a simulator of the exchange (sim/).
--
-- The client's hot path goes from the bytes of a market-data message to the bytes of an order: the
-- parser fills an OrderbookDelta, a queue carries it to the strategy's thread, the book adds it to
-- the quantity at its side and price, the signal turns the book's best bids into a target quote, the
-- order manager compares the target with its open orders, and the serializer writes each action.
--
-- Files and code:
--   Core/Spsc.antt: src/core/spsc_queue.h (SPSCQueue). The methods are functions on a record of the
--     two counters, their cached copies and the slots; Core/Spsc/Machine.antt cuts try_push and
--     try_pop at each access of an atomic or a slot, and runs two threads in any order.
--   Core/Pool.antt: src/core/pool_alloc.h (Pool). A block is named by its index and holds a link of the
--     free list or an object; Core/Pool/Ownership.antt says who owns which block.
--   Core/FlatHashMap.antt: src/core/flat_hash_map.h (FlatHashMap). Probe has the arithmetic of the
--     ring, Valid the order of the keys, Insert and Erase the loops, Lookup the map that find shows.
--   Core/Arena.antt: src/core/arena_alloc.h (Arena). A pointer is an address; mmap's answer is a
--     parameter.
--   Sim/MarketRegistry.antt: sim/domain/market_registry.h, sim/domain/market_registry.cpp.
--   Sim/Reactor.antt: sim/reactor.h, sim/reactor.cpp, on the answers of epoll as a list.
--   Sim/RestServer.antt: sim/http/rest_server.h, sim/http/rest_server.cpp: the routes, the reason
--     phrases, and the write loop. Parse has parse_request, Answer serialize_response, Connections the
--     events of a connection, Listener the set-up and the loop of accept; what the operating system
--     answers is a list or a record.
--   Sim/Handlers.antt: sim/http/handlers.h, sim/http/handlers.cpp, and sim/main.cpp in Main.
--   Net/RestClient.antt: src/net/rest_client.h, src/net/rest_client.cpp; Net/Exchange.antt puts it
--     against the server.
--   Bench: bench/bench_hotpath_multi.cpp and bench/bench_hotpath.cpp, which put the parts of the hot path
--     together: Tick is one delta at one market, HotPath the markets by ticker, Synthetic the messages.
--   Sim/MatchingEngine: sim/domain/matching_engine.h, sim/domain/matching_engine.cpp. State has the
--     engine's record and its accesses to orders and levels, Match the loops that trade, Calls
--     place_limit and cancel; Priority and Outcome are about the trades and what a call leaves;
--     Queues is about the linked orders between and during the calls (WellFormed, Scanning).
--   Feed/Parser.antt: src/feed/parser.h, src/feed/parser.cpp (parse_orderbook_delta).
--   Feed/Book.antt: src/feed/book.h, src/feed/book.cpp (Book::apply and the accessors).
--   Strategy/Signal.antt: src/strategy/signal.h, src/strategy/signal.cpp (Signal::evaluate).
--   Strategy/OrderManager.antt: src/strategy/order_manager.h, src/strategy/order_manager.cpp.
--   Net/Serialize.antt: src/net/serialize.cpp (serialize_action and its lambdas).
--   Prelude and its children are the shared helpers; Witness holds the theorems at concrete inputs.
--
-- Conventions: machine integers are natural numbers with their wrap-around written out, signed ones
-- are integers with undefined overflow as none. An array is a list of its length. simdjson is a
-- parameter (Feed/Parser.antt, Simdjson): a document, and for each field a value or an error.
-- The search loops of the hash map run on Capacity - ctr; the loop of erase runs on Capacity squared
-- steps, of which a table with a free slot uses less than Capacity.
-- The engine's loops run on fuel: 256 steps for the levels, whose index is a uint8_t, and one more
-- than the pool has blocks for the makers of a level.
-- The digit loop of emit_u64 runs on the 20 places of its buffer, which hold every uint64.
-- The queue's interleavings take each piece as atomic and in program order; the release and acquire
-- orders of the source are what makes that so for the slots.
-- The header loop of parse_request runs on the length of the buffer, since a line has two bytes at least;
-- that of the client likewise. std::to_string has the 20 digits of a word. Loops that wait for the
-- operating system run on its answers.
-- Not modelled: the calls of the operating system and of OpenSSL themselves (src/system, src/net/auth.h,
-- sim/compat); src/core/clock.h, which calibrates with floating point; the other benchmarks and the
-- experiments, which measure or try out what is modelled here.

pub mod Prelude
pub mod Core
pub mod Feed
pub mod Strategy
pub mod Net
pub mod Sim
pub mod Bench
mod Witness
