-- ===== src/Lib.antt =====
-- kaka is a rate limiting library. A limiter answers `Allow(key)` with a `Result` or an error.
--   limiter.go, metrics.go  the contract: `Core` (requests' answers, sink calls as events, a limiter as
--     a state with one operation). `time.Time` and `time.Duration` are integers of nanoseconds, with
--     `Sub` saturating as in Go: `Clock`.
--   */key_validation.go, redis/key.go  the blank-key checks: `Key`, on the UTF-8 bytes of a key.
--   layered/limiter.go  `Layered`: `new_layered` is `New`, `allow` is `Allow`, `after_local` what
--     follows the local layer's answer, `remote_allow` is `remoteAllow`. Both layers are any limiters.
--   memory/options.go, eviction.go, clock.go  `Memory.Options`: options, defaults and the check that a
--     constructor panics on.
--   memory/hash.go  `Memory.Hash`: FNV-1a on uint64 and the choice of a shard.
--   memory/sharded_store.go, state_store.go  `Memory.Shard` is what happens to one shard under its
--     lock, `Memory.Store` the store: `reserve_slot`, `get_or_create_map`, `get_or_create_lru`,
--     `with_state`, `sweep_expired`, `evict_any_other` and `drain_evictions` are the methods of those
--     names. The order in which the runtime ranges over a map is a parameter, `visit`.
--     `Memory.Store.Threads` is the store with goroutines: `Pc` is where one stands in `withState`, `move`
--     its next turn, which ends before its next access to a lock or to the counter of live keys, and
--     `Step` a turn of any of them. `Threads/Inv` says what holds between turns, `Threads/Effects` and the
--     files after it what a turn may do, and `Safety`, `Atomic` and `Progress` what follows.
--   memory/sliding_window_log.go  `Memory.Window`: what `recordAndDecide` does to one key's log;
--     `Memory.SlidingWindow`: `NewSlidingWindow`, and `Allow` on the store; its
--     `Threads` is the limiter that goroutines share.
--   memory/numeric.go, token_bucket.go, leaky_bucket.go  `Memory.Numeric` is the rounding of
--     floating-point results, `Memory.TokenBucket` and `Memory.LeakyBucket` the constructors, the
--     decisions on one key's bucket and `Allow`, whose steps the two share in `Memory.Limiter`.
--   redis/  `Redis`: options.go and limiter.go, and what the `Allow` of the three limiters has in common.
--     `Redis.Script` is script.go, over a server that is a parameter. `Redis.Limiters`: the constructors
--     and `Allow` of the three limiters, over a `ScriptRunner`, which is the interface `scriptRunner`.
--   middleware/  `Middleware`: the handlers for net/http, Gin, Echo and Fiber, as the list of calls that
--     a request causes.
--   internal/contracttest/  `Contract`: the tests that every limiter is to pass, as functions of its
--     `Allow`. A call has read the clock before it takes effect: the order in which the workers' calls
--     take effect and the times that they have read are arguments.
--
-- The parts meet in `Core`: the layered limiter and the adapters take any `Limiter`; the store takes
-- the function that it runs on a key's state, which for the sliding window is `record_and_decide`.
--
-- float64 is a parameter, the interface `Double` with the laws `IsIeee` of IEEE 754: the order, the signs
-- of rounded results, conversions that are in range, and exactness on whole numbers up to 2 ^ 53.
-- `Double.Whole` meets them with the integers and a NaN. That `visit` gives entries of the map it was
-- called with is a hypothesis, `Ranges`.
--
-- Fuel and bounds. The binary search gets one more than the length of the log, `reserveSlot` three
-- rounds; both are shown to be enough. A store's index lookups and a log's indices return `none` where
-- Go would panic. `int` and `int64` are unbounded; uint64 keeps its wrap-around.
--
-- Not modelled: the Lua scripts, which are in another language and run on the server; benchmarks and
-- examples, which are glue and I/O.
pub mod Prelude
pub mod Core
pub mod Clock
pub mod Contract
pub mod Double
pub mod Key
pub mod Layered
pub mod Memory
pub mod Middleware
pub mod Redis
