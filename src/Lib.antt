-- ===== src/Lib.antt =====
-- Celsian is a TypeScript web framework with the services that a server needs beside its requests.
-- This library models the stateful parts of those services, and the parsers that they read, and
-- proves what their callers rely on.
--
-- Base holds what the parts share: the native naturals with Boolean tests, lists, texts (lists of
-- UTF-16 code units), decidable equality and integers. Map is a JavaScript `Map` as an association
-- list in the order of insertion: `set` on a key that is there keeps its place, `delete` takes it
-- out, and a key is found from the front.
--
-- Queue is packages/core/src/queue.ts. `MemoryQueue` is the record of its lists and its in-flight
-- map, and each method is one function of the same name: push, pop, ack, nack, extend, deadLetter,
-- listDeadLetters, redriveDeadLetter, redriveDeadLetters, purgeDeadLetters and the sizes. pop is
-- reclaim_expired and then lease_next. Queue.Validity, Queue.Reclaim, Queue.Lease, Queue.Delivery,
-- Queue.Conservation and Queue.DeadLetters are about the queue's well-formedness, the reclaiming of
-- expired leases, their ownership, what a pop hands out, and where jobs go; Queue.StaleDeadLetter is
-- about a dead letter from a caller that has lost its lease.
--
-- Cache.Store is `MemoryKVStore` and Cache.Glob is `parseGlob` and `matchGlob`, both of
-- packages/cache/src/store.ts. The store is a least-recently-used cache in a `Map`: a read takes its
-- entry out and puts it in again at the end. Cache.Glob.Equivalence compares the rows of the
-- dynamic-programming matcher with a backtracking definition of a match. Cache.Store.Recency,
-- Cache.Store.Behind and Cache.Store.Kept are about the order of use, the entries that were used after
-- one, and how long a written value stays.
--
-- Cron is packages/core/src/cron.ts: Cron.Words the text operations of the language that it uses,
-- Cron.Fields the parser of an expression, Cron.Schedule the test of a date, and Cron.Scheduler the
-- scheduler, whose timer is the environment's.
--
-- Router is packages/core/src/router.ts. Router.Paths has the functions on paths, with
-- `decodeURIComponent` of the language; Router.Tree the nodes, the loop of `addRoute` and the walks
-- that collect routes; Router.Match `matchNode` and the two walks for a 405; and Router itself the
-- class, with its fast path for static routes. Router.Fixed, Router.FastPath, Router.Stored,
-- Router.Soundness, Router.Reaches, Router.Canonical and Router.Allowed are about the tree under
-- `addRoute`, the fast path, the routes that a match can return, a walk that finds nothing, the
-- spelling of paths, and the methods of a path.
-- An error that is thrown is a value, and the state that the code leaves behind stands beside it.
--
-- Encapsulation is packages/core/src/context.ts with the hook store of hooks.ts: Encapsulation.Types
-- and Encapsulation.Contexts are the classes `EncapsulationContext` and `ScopeRegistry`, with the
-- contexts in a heap and each route in Router beside the number of its binding, and
-- Encapsulation.Scopes is the resolution. Its fuel is the number of contexts, which bounds the depth
-- of their tree. Encapsulation.Steps has what plugins do as steps. Encapsulation.Isolation,
-- Encapsulation.Visits, Encapsulation.Complete and Encapsulation.Tree are about whose hooks a route
-- runs, by the search of the tree and the shape that it keeps, Encapsulation.Fresh and
-- Encapsulation.Forgotten about when a change reaches a route, and Encapsulation.Branches has lemmas.
--
-- Edge is packages/edge-router/src. Edge.Matching is match.ts, with a regular expression as the list
-- of its pieces; Edge.RouteCache, Edge.ProjectId and Edge.Service are router.ts, the fetch handler
-- with its table and its cache as a state; Edge.Cors, Edge.Proxy and Edge.Updates are the files of
-- these names. The URL parser of the platform, the fetch of a backend and the parsing of JSON are
-- parameters. Edge.Matching.Patterns has what a pattern means, read off its text, and
-- Edge.Matching.Captures the groups of a match; Edge.Matching.Routes, Edge.RouteCache.Laws,
-- Edge.Cors.Credentials, Edge.Updates.Installed and Edge.Service.Transparency are about the route that
-- is found, the size of the cache, credentials, what an update can install, and the router without
-- its cache. The headers that the proxy sets are taken to be valid, so setting one does not throw, and
-- `toUpperCase` is that of ASCII.
--
-- RateLimit.Store is the `MemoryRateLimitStore` of packages/rate-limit/src/index.ts, with the bounded
-- scan of `evictOne`. RateLimit.Store.Capacity, RateLimit.Store.Eviction and RateLimit.Store.Windows
-- are about its cap, the entry that it evicts, and the counts that it returns.
--
-- RateLimit.Address is packages/rate-limit/src/ip.ts, RateLimit.Client the key generator of
-- index.ts, and RateLimit.Hook its registration and its hook, on the store; the digest of a long key
-- is a parameter. RateLimit.Address.Printed, RateLimit.Address.Groups and RateLimit.Address.Canonical
-- are about the two printed forms of an address and canonical forms, RateLimit.Client.Spoofing about
-- what a client can do to its key, and RateLimit.Hook.Quota about what a window lets through.
--
-- Session is packages/cache/src/session.ts. Session.Store is the interface of the store that it uses,
-- with what sessions rely on, and Session.Memory fills it with the in-memory store of Cache.Store.
-- Session.Cookies writes and reads the cookie. Session.Fixation is about the ids of sessions, with
-- clients and handlers as a step relation, and Session.Cookies.ReadBack about the id that a cookie
-- carries. A store keeps a copy of what it is given: what a handler does to a session object after
-- it has saved it is not seen in the model's store until the next save.
--
-- Words has the text operations of the language that several parts call, Words.Escapes its
-- `encodeURIComponent`, and Words.Pieces lemmas on splitting and trimming.
--
-- Wire is packages/rpc/src/wire.ts. Wire.Types are the values and JSON, Wire.Platform the parts of the
-- language that the code calls, as a record, Wire.Encode and Wire.Decode the two directions. The fuel
-- of `decode` is the number of levels left of MAX_DECODE_DEPTH, at the end of which the code throws.
-- Wire.Clean says what is clean, where the payload of a RegExp tag stands, Wire.Scrubbed is about what
-- `decode` lets through, Wire.RoundTrip about what arrives, for numbers and objects that JSON writes
-- without a loss, and
-- Wire.Language is a small language for the runs.
--
-- Task is packages/core/src/task.ts. Task.Registry is `TaskRegistry` with the worker's effective
-- timeout. Task.Worker is what `TaskWorker` does with a message that it has popped, and
-- `createEnqueue`, over the record `QueueBackend` of the operations that it calls, which
-- `memory_backend` fills with those of Queue. Task.Registry.Timeouts is about the timeouts, and
-- Task.Worker.Ownership about the place of a job whose handler fails, by the theorems of
-- Queue.Conservation and Queue.StaleDeadLetter.
--
-- Readings of the clock and fresh tokens are arguments, one for each reading, so a theorem holds for
-- every order of times unless it says otherwise. Times, lengths and limits are naturals: a negative
-- or fractional option is outside the model, as is `Infinity`, which is a missing limit. An
-- asynchronous method that does not await anything is one step, and so is `setMany`, which awaits
-- between its writes. A re-drive of several dead letters takes one reading of the clock for all. A job
-- in the queue is a value: what its caller does to the object later is not seen. A loop over a `Map` that deletes
-- the entry it stands at walks the entries that the loop began with. The fuel of
-- `stride`, the loop `for (i = start; i <= stop; i += step)` of the cron parser, is one more than the
-- last value of the field, and as the step is positive the loop ends before that.
-- A job handler that throws at once ends a tick of the scheduler early; handlers here do not.
--
-- Not modelled: the request pipeline, the HTTP server and the adapters, which are I/O over the
-- platform's objects; the Redis backends, whose state is on a server; code generation and the
-- command line; and the parts of packages/core, packages/rpc and packages/jwt that are not named above, among
-- them the poll loop, start and stop of the task worker.
pub mod Base
pub mod Cache
pub mod Cron
pub mod Edge
pub mod Encapsulation
pub mod Map
pub mod Queue
pub mod RateLimit
pub mod Router
pub mod Session
pub mod Task
pub mod Wire
pub mod Words
