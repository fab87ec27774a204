-- ===== src/Witness.antt =====
-- The theorems at concrete inputs, and runs of the definitions.
mod FeedExamples
mod StrategyExamples
mod NetExamples
mod CoreExamples
mod PoolExamples
mod MapExamples
mod EngineExamples
mod ArenaExamples
mod RegistryExamples
mod ReactorExamples
mod RestExamples
mod ExchangeExamples
mod ServerExamples
mod HandlerExamples
mod HotPathExamples
