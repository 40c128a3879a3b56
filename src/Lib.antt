-- ===== src/Lib.antt =====
-- The notification service of this repository: it stores a request to notify, publishes it on a
-- queue, delivers it on one of four channels, and retries what has failed.
--
-- How the parts interact. A caller's request is stored in the table of notifications and published on
-- the topic `notifications.send` (`EnqueueNotification`), unless it is for a later time; a worker
-- publishes it then (`EnqueueDueScheduledNotifications`). The consumer of the topic delivers it and
-- settles its row: COMPLETED, or one more attempt and a time for the next. A second worker claims the
-- rows whose time has come in a transaction, with a lease, and publishes their ids on
-- `notifications.retry` (`EnqueuePendingRetries`), whose consumer delivers again. Users read their
-- in-app messages, and register device tokens; push topics are kept in a table of their own.
--
-- The files and the code that each is about:
--   Prelude     lists measured by native numbers, Boolean tests, lists of distinct texts
--   Go          what the code uses of Go: errors and errorx, durations, strings.TrimSpace, JSON values
--   Model       internal/model: the rows of the four tables
--   World       the shared state (tables, queue, delivery calls, Redis keys), the outside as a
--               parameter `Env`, and the monad `Exec` of the methods, with rules for properties of
--               all their steps
--   Aggregate   internal/aggregate: requests, views, conversions, and the payloads of the queues
--   Repository  internal/repository: the generic repository (base.go), Schema (the indexes and
--               defaults of internal/model), Notifications (notification.go), Mailboxes, FcmTokens,
--               PushTopics; Create, Bulk, Change (`Update`), Found (queries for one row), Unique,
--               Transaction, Failure, Exhaustion, Sound and Keeps prove what their names say
--   Cache       pkg/cache/cache.go: `SetNX` and what it is good for (Once), the other operations on keys
--               (Store), leaderboards (Board), streams (Stream)
--   Service     internal/service/notification.go: Send (the channels), Queue (enqueue and the
--               consumers), Poll (the workers' methods), Events (all of them, as a course of calls);
--               Backoff, Delivery, InApp, Invariant, Outcome, Enqueue, Published, Scheduled and Lease
--               are on them.
--               Mailbox, FcmToken and PushTopic are the services of the same names
--               (FcmToken: Registration and Spent are about `Register`)
--   Validator   pkg/validator/validator.go: the format of validation errors
--   Presentation  presentation: Http (the handlers and their responses; Contract is about sending),
--               Grpc (the server's method), Worker (the two workers as ticks; Course and Scheduled are
--               about them), Events (the broker and the consumers; Delivered follows a request to its
--               delivery)
--   Fcm         pkg/fcm/client.go: the FCM client; Batches, Counts and Topics are about its two
--               sends
--   Sms         pkg/sms: the Twilio client (Prefix is about it), the client without Twilio, the renderer
--   Email       pkg/email: the renderer, its escape of text (Escape is about it), the Resend client
--   Config      config/config.go: the settings and the environment; Number is about the numerals, Load
--               about the whole
--   Slug        internal/shared/helper/string.go: `NormalizeSlug`
--   Main        main.go: what the notification service is given; Reach is about whom its sends reach
--   Tests       the theorems at concrete states
--
-- How the code is represented. A method with the results `(A, error)` is an `Exec A`: a function
-- from the world to a result and a world, so that what was done before an error stays done. Times
-- are native numbers of nanoseconds, the zero time is 0, and `int` is ℤ without a bound except
-- where the program computes durations (64 bits, wrapped) and where the database converts to
-- `bigint` (out of range is an error). A loop is recursion on its list; only the batches of the FCM
-- client use fuel, the number of tokens left, of which each batch takes at least one; the endless
-- loops of the workers run for a number of ticks, and the subscription of a stream for a number of
-- turns, that a theorem leaves open. Each call that leaves the program is counted, and `Env` and
-- the clients answer by that number: any call of the database, the cache, the broker or a client
-- may fail, independently of the others. A statement of gorm has the meaning that gorm and
-- PostgreSQL document: soft-deleted rows are passed over, except by the raw UPDATE of
-- `RecordSendFailure`; unique indexes include deleted rows; a column's default replaces a zero
-- value; a transaction whose body or commit fails restores the tables. `FOR UPDATE SKIP LOCKED`
-- passes over the rows that `Env` says are locked by others.
--
-- Not modelled: the wiring of the HTTP and gRPC servers, of the hooks that start and stop the router
-- and of the tickers; the connection to the database; logging. Firebase, Resend, Twilio, MJML, gob,
-- the templates of Go, the decoder of `.env` and the validator's library are parameters. The service
-- knows the clients and renderers as interfaces, for which Main puts those of the program. Calls that
-- overlap are not interleaved statement by statement: each method runs as a whole, and other writers
-- show in `Env` only.
pub mod Prelude
pub mod Go
pub mod Model
pub mod World
pub mod Aggregate
pub mod Repository
pub mod Cache
pub mod Validator
pub mod Service
pub mod Presentation
pub mod Fcm
pub mod Sms
pub mod Email
pub mod Config
pub mod Slug
pub mod Main
pub mod Tests
