-- ===== src/Examples.antt =====
-- Concrete runs: the theorems on ads, the queue manager, the processor, the repositories, the services,
-- the cache, the handlers, the parsers and the configuration, applied where their hypotheses hold.
mod Data
mod Coding
mod Ads
mod Queues
mod Workers
mod Stores
mod Services
mod Caches
mod Databases
mod Handling
mod Texts
mod Settings
