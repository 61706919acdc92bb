-- ===== src/Lib.antt =====
-- A verification development for the ad processing queue: ads are created over an HTTP API, stored
-- in a repository, queued in Redis by priority and arrival, taken off by a processor and handed to
-- its workers; texts in natural language are parsed into commands that change priorities or ask
-- for the state of the queue.
--
-- The parts, and which file models which. Ad.antt: internal/domain/ad/ad.go, factory.go and
-- errors.go. A method of `*Ad` is a function from the entity to a result with the new entity:
-- StartProcessing is `start_processing`, ChangePriority `change_priority`,
-- CalculateEffectivePriority `calculate_effective_priority`, Factory.CreateAd `create_ad`, and so
-- on. Ad/Lifecycle.antt and Ad/Starvation.antt are about sequences of calls and about the boost of
-- waiting ads. Queue.antt: internal/domain/queue/queue.go, the queue item and the configuration;
-- Queue/Order.antt is about the item's own score. Redis.antt: the commands of the Redis client that
-- the program uses, as a record of functions on an abstract store, with laws that state their
-- documented effect on sorted sets. Redis/Sets.antt has the sorted sets themselves,
-- Redis/Memory.antt a server in memory. RedisQueue.antt and its children:
-- internal/infrastructure/cache/redis_queue_manager.go, over any such client. Enqueue, Dequeue,
-- UpdatePriority and Remove are `enqueue`, `dequeue`, `update_priority` and `remove`; Batch.antt has
-- DequeueBatch and GetNext, Sizes.antt GetPosition, GetSize and GetSizeByPriority, Boost.antt
-- ApplyAntiStarvation, Hash.antt getShardKey and hashAdID, Score.antt calculateScore, Exchange.antt
-- the nested loops that sort, Configuration.antt UpdateConfig and GetConfig with the text that is
-- stored. The other children are proofs, named for what they prove. Repository.antt:
-- internal/domain/ad/repository.go as a record of operations with the laws that the clients rely on.
-- Repository/Memory.antt is internal/infrastructure/persistence/memory_ad_repository.go and
-- Repository/Postgres.antt is internal/infrastructure/persistence/postgres_ad_repository.go, two
-- instances of it, with the tables of migrations/. Repository/Optimized.antt and its children:
-- internal/infrastructure/persistence/optimized_postgres_repository.go, a primary and its read
-- replicas. Save and SaveBatch are `save` and `save_batch`; Reading.antt has FindByID, Queries.antt
-- FindByIDBatch, FindByStatus, GetHealthStats, prepareStatements and Close, Updates.antt
-- UpdateStatus and UpdateStatusBatch. What database/sql makes of a `[]string` argument is a parameter
-- that may refuse it, as it does with lib/pq, and whether the column `status` is an enumeration, as
-- in migrations/, or text, as in deployments/docker/init-db.sql, is another. Cache.antt and its children:
-- internal/infrastructure/cache/high_performance_cache.go, on the commands of Redis for texts
-- (Redis/Keys.antt), which are a parameter. Cache.antt has the first level and the statistics,
-- Levels.antt GetAd, SetAd and DeleteAd, Batches.antt SetAdBatch, GetAdBatch, InvalidatePattern,
-- PrefetchAds and WarmupCache. Processor.antt: cmd/ad-processor/main.go. distributeItems is
-- `distribute_items`, processAd is `process_ad`, and one tick of pollQueue is `poll` in
-- Processor/Polling.antt. Service.antt: internal/application/service/ad_service.go, on a repository
-- and a Redis client. Handlers.antt, Handlers/Ads.antt and Handlers/Commands.antt:
-- internal/interfaces/http/handlers/ad_handler.go and command_handler.go, on the services. A handler
-- gets what the framework has taken from the request and gives a status code with a body or with the
-- text of an error. Command.antt: internal/domain/command/command.go. Command/Parser.antt has Parse
-- of internal/infrastructure/external/mock_command_parser.go, on the matcher of
-- Command/Patterns.antt, and Command/Phrases.antt the sentences it is made for.
-- Command/RemoteParser.antt is internal/infrastructure/external/google_adk_command_parser.go, on the
-- answers of the remote service, and Command/Fallback.antt says which of these are of no use.
-- Command/Executor.antt has the validation of
-- internal/infrastructure/external/mock_command_parser.go and the whole of
-- internal/infrastructure/external/mock_command_executor.go, Command/CommandService.antt is
-- internal/application/service/command_service.go, and Command/Recent.antt is
-- internal/infrastructure/persistence/memory_command_repository.go. Command/Execution.antt and
-- Command/ReadOnly.antt are about the execution of commands. Config.antt: the references to the
-- environment and the conversion of values of pkg/config/config.go; Config/References.antt says what
-- a reference becomes. Prelude.antt: what the modules share; Prelude/Decimal.antt has the printing
-- and reading of numbers by Go's standard library. Examples.antt: the theorems applied at concrete
-- inputs.
--
-- State is passed explicitly: an operation takes the store and returns it with a result. The clock,
-- fresh identifiers and the cancellation of a context are arguments. Times and durations of ads are
-- nanoseconds and those of scores Unix seconds, as in the source. An error is a constructor that
-- says which return of the code it is; the texts of errors are left out where no code compares them,
-- and those of result messages.
--
-- Numbers: a Go `int` is an integer that does not wrap, save for the hashes of identifiers, which
-- are 64-bit patterns with their wrap-around; a text is read as a number only within 64 bits.
-- Versions are natural numbers. Scores are float64 in the source and integers here, which is exact
-- while they are whole numbers below 2^53: for priorities up to 900000, the valid ones 1 to 5 among
-- them; above, Go rounds and the model does not. The score of queue.go is kept exact, times 10^9.
-- Duration.antt has `int(d.Seconds())` with the rounding of float64. A column of type TIMESTAMPTZ
-- keeps whole microseconds: what it keeps of a time in nanoseconds is a parameter of both PostgreSQL
-- repositories. The statements on scores bound the arrival by the
-- year 2286, the largest time that calculateScore allows for.
--
-- Loops are structural recursion over the list or the number of shards that is left; the loops of
-- the exchange sort run on the length of the list, which is what the source's index counts. The loop
-- of InvalidatePattern over its batches runs on fuel, and the number of keys is enough for it; with a
-- batch size of 0 the source calls DEL without a key for ever, unless Redis refuses. The digits of a
-- number are printed on fuel one above the number.
--
-- Assumptions: operations run one at a time, none interleaves within another; reads leave a store
-- as it is; the shard count is positive (with none, getShardKey divides by zero in Go). What a
-- statement needs of Redis, of a repository, of JSON or of the constraints of the table is a
-- hypothesis of it.
--
-- Not modelled: the wiring of the servers and of the HTTP routes, the two health checks with
-- constant answers, the prompt for the remote parser and its HTTP call, the sizes of connection
-- pools, and the reading of configuration files, logging, metrics and migrations, which are calls of
-- libraries; the goroutines and tickers of the processor are seen as sequences of ticks and of
-- processed items, and the locks of the cache are left out.
pub mod Prelude
pub mod Ad
pub mod Queue
pub mod Redis
pub mod RedisQueue
pub mod Repository
pub mod Processor
pub mod Service
pub mod Cache
pub mod Duration
pub mod Config
pub mod Command
pub mod Handlers
pub mod Examples
