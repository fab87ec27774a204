-- ===== src/Feed.antt =====
-- feed/: the market-data parser and the client's order book.
pub mod Parser
pub mod Book
