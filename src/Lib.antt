-- ===== src/Lib.antt =====
-- The JSON-RPC relay: what it keeps in memory to protect the network and its operator, and the checks
-- and conversions on the way of a transaction.
--
-- The relay (packages/relay) answers Ethereum's JSON-RPC on a Hedera network. A request first passes a
-- rate limiter. A raw transaction takes the lock of its sender, is checked, is put into the pool of
-- pending transactions, and is paid from the budget of HBAR; the lock is then released and the pool
-- forgets the transaction. packages/ws-server serves the same methods over WebSockets, with
-- subscriptions that a poller feeds. The parts and their files:
--
--   RateLimit        packages/relay/src/lib/services/rateLimiterService: LruRateLimitStore.ts
--                    (RateLimit.antt) and IPRateLimiterService over any store (RateLimit/Service);
--                    RedisRateLimitStore.ts (RateLimit/Redis), whose script is one step.
--   Lock             lib/services/lockService/LocalLockStrategy.ts and LockService.normalizeAddress.
--                    acquireLock waits for a mutex: Lock/Strategy has the part before the wait
--                    (get_or_create_state) and the part after it (enter) as two operations, and
--                    Lock/Steps interleaves those of all callers with releases and timers.
--                    RedisLockStrategy.ts is Lock/Redis: a round of its loop is a function of what
--                    others do meanwhile, and Lock/RedisSafety interleaves single commands.
--   Precheck         lib/precheck.ts: each check returns its error or passes, and
--                    send_raw_transaction_check has them in the order of the code.
--   TxPool           lib/services/transactionPoolService (LocalPendingTransactionStorage.ts,
--                    transactionPoolService.ts) and lib/txpool.ts (TxPool/Api); in TxPool/Redis
--                    RedisPendingTransactionStorage.ts, in TxPool/Refinement what both promise, and in
--                    TxPool/Agreement the runs of both, in which calls have times.
--   Hbar             lib/services/hbarLimitService/index.ts (Hbar/Limiter, Hbar/Reset) over the
--                    repositories of lib/db/repositories/hbarLimiter (Hbar/Plans) and the keys under
--                    which they store (Hbar/Keys).
--   Common           lib/services/ethService/ethCommonService: CommonService.ts and commonWorker.ts,
--                    block parameters (Blocks), ranges of blocks (Ranges), topics and logs (Logs),
--                    and gas prices (Fees), with the buffer on the price of utils.ts.
--   Filters          lib/services/ethService/ethFilterService/FilterService.ts.
--   Dispatch         lib/dispatcher/rpcMethodDispatcher.ts and lib/validators/index.ts: from a request to
--                    the method that answers it.
--   FeeHistory       lib/services/ethService/feeService/FeeService.ts: eth_feeHistory.
--   Transactions     lib/services/ethService/transactionService/TransactionService.ts:
--                    sendRawTransaction (Sending), over the account lock, the checks, the pool and
--                    the gas price, with the submission and the answers to its errors (Submission).
--   Caching          lib/clients/cache/localLRUCache.ts: the shared cache and that of the reserved keys.
--   Formatters       packages/relay/src/formatters.ts: numbers, prefixes, int64, amounts, ids
--                    of transactions.
--   WsServer         packages/ws-server/src: metrics/connectionLimiter.ts (Limiter),
--                    service/subscriptionService.ts (Subscriptions), service/pollerService.ts
--                    (Poller), and what the handlers of eth_subscribe and eth_unsubscribe do to the
--                    counter of a socket (Handlers).
--   Prelude          helpers: text as code units, association lists for objects and Maps, lists
--                    without repetition for Sets, results, integers, and the interface of lru-cache.
--
-- State is a record, and an operation takes it and returns it. Names are those of the source in snake
-- case. What throws returns none or an error. Numbers are natural numbers where the source keeps no
-- negative one, and integers elsewhere; they do not round as JavaScript's do above 2 ^ 53, except where
-- weibarHexToTinyBarInt makes a number of a BigInt (Formatters/Amounts). All readings of the clock in
-- one operation are one number, now, except in the loop of the HBAR limiter's reset time (Hbar/Reset),
-- which reads it anew each time. Options of the configuration are arguments.
--
-- Code outside the repository is a parameter with the laws that the relay relies on: lru-cache
-- (Prelude/Lru; it may evict any entry when another is set), async-mutex (Lock/Strategy), ethers'
-- decoding of transactions (TxPool/Api), JSON and SHA-256 (WsServer/Subscriptions).
-- ICacheClient, the relay's own interface between the HBAR repositories and the caches of lib/clients,
-- is a parameter as well (Hbar/Cache): its laws are those of a cache that evicts nothing while a call
-- runs, which the caches of the relay are not always, and Hbar/Decision uses none of them.
-- The mirror node is a parameter too: a request has a number, and the answer may depend on it, so that
-- two requests of one call may see different chains (Common); Filters/Chain states what is relied on
-- of its blocks. Transactions takes the answers of HAPIService, and of the mirror node after a
-- submission, as a record, and LockService as an interface without laws: what it states is which calls
-- of LockService are made, and Lock has what the strategies do with them.
-- The commands of Redis are parameters with the laws that Redis documents (RateLimit/Redis,
-- Lock/Redis, TxPool/Redis); the scripts of the relay are translated. Keys expire in the counters of
-- RateLimit/Redis and in the sets of TxPool/Redis, whose commands run at a time; TxPool/Expiry has
-- until when a key lives. In Lock/Redis that a key expires is no step.
-- Hbar/MapCache, RateLimit/Counters, Lock/KeyMaps and TxPool/TimedSets have the laws of their parameter.
--
-- Fuel: the loop that moves the reset time of the HBAR limiter has fuel for three tests, which are
-- enough while the clock moves by at most a limit duration meanwhile (Hbar/Reset); the digits of a
-- number in base 16 have fuel for more digits than the number has; the rounding of a BigInt to a
-- number of JavaScript has fuel for all powers of 2 below 2 ^ 1024 (Formatters/Amounts); a waiter for
-- the lock in Redis has as much fuel as rounds are asked for; the wait for an account's nonce is
-- bounded by the retries of the code. All other loops go down a list.
--
-- Not modelled: the cache in Redis and that a command of Redis fails while a lock is acquired, the
-- factories that choose a store, the clients of the mirror node and of the consensus nodes, the HTTP
-- server and the configuration (input, output and glue), log messages and most metrics, blocks,
-- contracts and debug methods, the methods that read transactions and receipts, the search of keys
-- by pattern in a cache, and the plans that the HBAR limiter takes from a file when it starts.
pub mod Caching
pub mod Common
pub mod Dispatch
pub mod FeeHistory
pub mod Filters
pub mod Formatters
pub mod Hbar
pub mod Lock
pub mod Precheck
pub mod Prelude
pub mod RateLimit
pub mod Transactions
pub mod TxPool
pub mod WsServer
