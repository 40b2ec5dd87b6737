-- ===== src/Lib.antt =====
-- The lock library under packages/: an interface for locks that lapse by themselves, an executor
-- that runs a task under such a lock, and one package per store that keeps the locks.
--
-- Prelude: names that all modules share, results and state with exceptions, tables.
-- Core: packages/core/src. Duration is duration.ts, Config lock-configuration.ts, utils.ts and
--   validate-identifier.ts, Lock simple-lock.ts, Storage storage-based-lock-provider.ts, Context
--   lock-assert.ts and lock-extender.ts, Executor locking-task-executor.ts, KeepAlive
--   keep-alive-lock-provider.ts, Tracking tracking-lock-provider.ts, Health lock-health.ts.
--   Contract states what lock-provider.ts promises of a provider, Storage/Contract what the
--   storage-based provider asks of an accessor. Methods are named as in the source, in snake case;
--   a class is a record of its fields, and a method acts on it.
-- InMemory: packages/in-memory/src.
-- Backend: what the storage accessors share: dates, and what drivers of versioned stores document.
-- S3: packages/s3/src. The accessor's four operations over HeadObject and PutObject.
-- Gcs, Couchbase: packages/gcs/src and packages/couchbase/src, built alike.
-- Datastore, Firestore: packages/datastore/src and packages/firestore/src, whose accessors run each
--   call in a transaction; Backend/Transactions says what is relied on.
-- CloudFrontKvs: packages/cloudfront-kvs/src. One attempt of a method is a function that may ask for
--   another, and for_attempts is the loop.
-- Etcd: packages/etcd/src, on what becomes of its leases.
-- Hazelcast, Nats: packages/hazelcast/src and packages/nats/src, each with the lock's own methods.
-- CloudflareKv: packages/cloudflare-kv/src, less its REST client.
-- CloudflareDo: packages/cloudflare-do/src, the handler of a Durable Object and its client.
-- Redis: packages/redis-core/src, with the scripts over the commands that they call.
-- Scheduler: packages/scheduler-core/src.
-- Middleware: packages/middleware-core/src. Merge is on the caches of middleware-config.ts,
--   Lifecycle is middleware-lifecycle.ts.
-- Tests: concrete inputs, and stores in memory for the accessors.
--
-- How they interact: the executor asks a provider for a lock, pushes it on the two stacks of the
-- context and unlocks whatever the stack holds at the end; the keep-alive provider wraps another
-- provider; the storage-based provider turns an accessor into a provider. The last is proved
-- against the accessor's contract, which the accessors of S3, Gcs, Couchbase, Datastore and
-- Firestore meet, and mutual exclusion is proved once, in Core/Contract/Exclusion, for every provider
-- that keeps the contract. The middleware runs a handler through the executor.
--
-- Time is whole milliseconds, and each read of the clock is an argument. An await is a point where
-- other instances act: an argument `others`, or a step of a transition system. A contract holds amid
-- whatever a relation `Others` lets them do, so that what a call itself does is told apart; that they
-- shorten no term that is not over is asked only for mutual exclusion. Overlapping calls of one lock
-- object are an argument `meanwhile`, or the steps of Core/Lock/Laws. Numbers are unbounded, since
-- the source's are far from 2 ^ 53. The eight bytes of a NATS entry are written out. No definition
-- needs fuel; the attempts of CloudFrontKvs are as many as its
-- configuration says. Drivers, the host name, JSON and dates are parameters; what is relied on is a
-- record of laws, which the tests instantiate with a store in memory.
--
-- Not modelled: fractional durations; the printed form of a health snapshot; the framework adapters,
-- which hand requests on; metrics; the REST client of packages/cloudflare-kv/src, which is
-- HTTP requests alone; the repository's own scripts; and the other stores.
pub mod Prelude
pub mod Core
pub mod Hazelcast
pub mod InMemory
pub mod Backend
pub mod S3
pub mod Gcs
pub mod Datastore
pub mod Etcd
pub mod Firestore
pub mod Couchbase
pub mod CloudFrontKvs
pub mod CloudflareDo
pub mod CloudflareKv
pub mod Middleware
pub mod Nats
pub mod Redis
pub mod Scheduler
pub mod Tests
