-- ===== src/Lib.antt =====
-- Sentinel, a rate limiter: its decision core and what it is proved to do.
--
-- The program decides for each request whether a client may proceed. internal/store keeps a registry
-- of clients, each with one token bucket per tier (internal/multibucket), besides one global bucket
-- and one bucket per source address. A request passes the global bucket, then the bucket of its
-- address, then its own; each bucket (internal/bucket) refills by elapsed time and may have a
-- sliding-window counter (internal/window) as a second gate. A scheduler calls back into the store to
-- refill buckets that are due; internal/security validates names and configurations before they reach
-- the store, and internal/config validates the start-up configuration. internal/server serves the client
-- and the admin API over the store, with internal/audit, internal/metrics and internal/fairness beside it.
--
-- Files:
--   Base, Base/*       names passed on from the libraries, Boolean tests, lists, byte strings, and the
--                      integers with the wrap-around of int64 (add64, mul64, div64, wrap64); Base/Sort
--                      and Base/Decimal have what sort and fmt of the standard library give
--   Time               time.Time as nanoseconds since 1970, time.Duration as int64
--   Dict               Go maps keyed by strings
--   Window, Window/*   internal/window/window.go: New, Allow, Cleanup, Count, compactLocked, pushLocked
--   Bucket, Bucket/*   internal/bucket/bucket.go: New, normalize, Allow, lazyRefill, ScheduledRefill,
--                      UpdateConfig, Block, Unblock and the getters; Bucket/Race has Allow and
--                      ScheduledRefill cut at their accesses to the atomics, and interleaved
--   Multibucket, ...   internal/multibucket/multibucket.go: every method of ClientBuckets
--   Security, ...      internal/security/sanitize.go: the validations, HashToken, ConstantTimeEqual;
--                      Security/Sanitize has SanitizeForLog
--   Agenda             the Scheduler interface of internal/store/store.go with the laws that the store
--                      relies on, an instance argument of everything that schedules
--   Store              internal/store/store.go: ids, state, creation and eviction of clients and of
--                      per-IP buckets; Store/Serve has Allow and OnDue, Store/Admin the rest
--   Heap, Heap/*       the operations of Go's container/heap over an interface of the slice
--   Scheduler, ...     internal/scheduler/heap.go and scheduler.go; Scheduler/Attach fills Agenda,
--                      Scheduler/Loop has Run among the calls of Schedule and Remove
--   Float              the operations of float64 that the program uses, an instance argument
--   Metrics, ...       internal/metrics/metrics.go: counters, gauges, the histogram, the registry;
--                      Metrics/Text has the text that write and Handler print
--   Fairness, ...      internal/fairness/fairness.go: every method of Tracker
--   Audit, ...         internal/audit/audit.go: the sampling of the audit log and its records
--   Server, ...        internal/server/identity.go, and the checks of handleRequest in
--                      internal/server/client_server.go; Server/Service is what both servers share,
--                      Server/Client the rest of handleRequest, Server/Admin the handlers of
--                      internal/server/admin_server.go and Server/Admin/Guard its authMiddleware;
--                      Server/Limit has the limiter of internal/server/middleware.go
--   Config, ...        internal/config/config.go: the schema, Default and Validate; Config/Text and
--                      Config/Tree have the parser of the YAML subset, Config/Load has Load
--   Sentinel, ...      cmd/sentinel/main.go: what main builds before it serves
--   Simulator, ...     cmd/simulator/main.go: runClient, percentile, printReport and the end of main
-- The children of a part state and prove its properties (Valid, Refine, Bound, Capacity, Safe and so
-- on); its Tests hold concrete instances of the theorems.
--
-- Correspondence. A struct is a record with the source's field names in snake case, a method a
-- function of the state that returns its result beside the new state, a pointer to a bucket the key
-- under which the bucket stands. Numbers of type int64, int and time.Duration are integers with every
-- operation of the source wrapped to 64 bits; instants are unbounded integers, and UnixNano wraps. A
-- panic for an index out of range is a value. Mutexes make a method one step; the double-checked
-- locks of the store are modelled for one call at a time. The compare-and-swap loops of a bucket are in
-- Bucket one call at a time and in Bucket/Race at every interleaving; the two agree on a call alone.
-- The order in which a map is visited is the order of the association list, which is arbitrary.
--
-- Bounds. A clock reading lies between 1970 and 2116 (2^62 nanoseconds), so that a sum of two stays in
-- range. A configuration is tame if its capacity is below 2^62 and it refills at most one token per
-- nanosecond, which covers the limits of ValidateBucketConfig. The loops of container/heap and the first
-- loop of processDue run on fuel: up_loop on one more than the index, down_loop on one more than the
-- number of places, take_due on one more than the number of entries; each round moves one level or takes
-- one entry off. All other loops are structural recursion on what they count down or visit.
--
-- The decimal text of an int64 has at most the nineteen digits that its model allows for.
--
-- Not modelled: the recovery from panics, the listeners and the TLS of internal/server; the rest of
-- cmd/sentinel (flags, files, signals, goroutines); in cmd/simulator HTTP, flags, goroutines and the
-- layout of the printed lines; logging. UpdateConfig of a bucket is not among the interleaved calls: no
-- code of the repository calls it. JSON, SHA-256, float64, quoted strings, SplitHostPort, TrimSpace and
-- the parsers of strconv and time are parameters. The timer of the scheduler's Run is the time that it was
-- set to, and its context may be done at any wait.
pub mod Agenda
pub mod Audit
pub mod Base
pub mod Bucket
pub mod Config
pub mod Dict
pub mod Fairness
pub mod Float
pub mod Heap
pub mod Metrics
pub mod Multibucket
pub mod Scheduler
pub mod Security
pub mod Sentinel
pub mod Server
pub mod Simulator
pub mod Store
pub mod Time
pub mod Window
