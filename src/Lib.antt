-- ===== src/Lib.antt =====
-- The verification library of eventify, a NestJS service that takes events over gRPC, stores them in
-- MongoDB, counts their use by API key in Redis, and pushes them and metrics to WebSocket clients.
--
-- The parts, and the files that model them:
--   Iam.Authentication, Iam.RedisService, Iam.Users, Iam.Guards: src/iam/authentication (the service
--     and its guards), src/integrations/redis/redis.service.ts, src/users. An account is signed up,
--     verified by a mailed code that Redis keeps for 600 seconds, and signed in; the id of the last
--     refresh token is kept in Redis, which each refresh replaces. The guards stand before
--     every handler.
--   ApiKey.Repository, ApiKey.Service, ApiKey.Usage: src/api-key. Keys live in MongoDB; the calls of a
--     key are counted in a Redis hash, and every thousandth call of a key writes the count to MongoDB.
--   Events.Batcher, Events.WebSocketBatcher: src/events/stream-event-batcher.service.ts and
--     src/websocket/stream-websocket-batcher.service.ts, the buffers between the gRPC stream and the
--     queues of the database writer and of the WebSocket broadcasts. Events.Service:
--     src/events/events.service.ts and its interceptor, which feed the usage count, both buffers and
--     the metrics queue.
--   Gateway: src/websocket/events-websocket.gateway.ts, the rooms of the connected sockets.
--   Events.Sessions: src/events/events.controller.ts, streams of events, opened one after the other.
--   EventsHttp.Repository, EventsHttp.Service: src/events-http, the search of stored events by pages
--     and their deletion.
--   Http.Exception, Http.Filter: src/common/filters, the answer to a request that failed and its log.
--   Iam.Controller: src/iam/authentication/authentication.controller.ts, with the session's cookie.
--   Iam.Mails: src/iam/email-templates, the mail with a verification code.
--   Events.Storing, Events.Broadcasting: the workers of the queues, src/events/event-to-db.processor.ts,
--     src/events/api-usage-tracker.processor.ts and src/websocket/events-websocket.processor.ts. The
--     jobs of a queue run one after the other, those that store events in any order.
--   Metrics: src/metrics/metrics-aggregation.service.ts. Keys and Commands are what an event writes to
--     Redis, Volume and Tables its counts by minute and by hour over a history, Window and Merge the
--     two windows that are read from them, Ranking and Rounding the lists and rates, Live the buffer of live
--     events, Dashboard what is shown, and Service the whole: an event, the interval and what they
--     broadcast. Debug has the callers of an event, src/metrics/metrics-aggregation.processor.ts and
--     src/metrics/metrics-debug.controller.ts.
--   Routes: src/events-http/events-http.controller.ts, src/api-key/api-key.controller.ts and
--     src/users/users.controller.ts behind the global guard of src/iam/iam.module.ts.
--   Server: the health of the process, its end, and the log of requests: src/health,
--     src/common/services/unhandled-exception.service.ts and
--     src/common/interceptors/error-logging.interceptor.ts; Notification, the worker of the mails and its
--     Gmail client in src/integrations/notification; and Config, what is read from the environment.
--   Protobuf: src/generated/google/protobuf/struct.ts, JavaScript values as messages.
--   Common: notation, tests, lists, dictionaries, JavaScript numbers as texts, and methods that change
--     a state and may throw. Stores: what is used of MongoDB and Redis, as records of operations with
--     their laws, with values of them.
--
-- A definition has the name of its function in the source, in snake case. A class with state is a
-- record and its methods are functions on it; a method that may throw gives an outcome beside the new
-- state, in both cases. The time, random values, new ids and salts are arguments. Timers are actions
-- of a history. A handler is one step: two calls do not interleave between awaits, but for the refreshes
-- of Iam.Authentication.Refresh.Race, the initialisation of a key's hash in ApiKey.Usage.Race and the
-- connections of Gateway.Late, which are split into their two phases.
--
-- Numbers are natural numbers where the source's are counts, sizes or milliseconds since 1970, and
-- Option ℤ where `parseInt` may give NaN; they are not rounded above 2 ^ 53. No definition takes
-- fuel: every loop goes over a list, and decimal printing is by well-founded recursion. The bounds are
-- the source's: batches of 10000 and 5000 events, a write to MongoDB at each 1000th call, codes for
-- 600 seconds.
--
-- Third-party code is a parameter: bcrypt, SHA-256, JWT and Mongoose's setters are the fields of
-- Platform, MongoDB and Redis those of Collection, EventCollection, Strings, Hashes and MetricsStore.
-- Their laws state documented behaviour, of MongoDB that of acknowledged writes; src/app.module.ts
-- asks for the write concern 0, which reports neither a duplicate key nor the number of deleted
-- documents. Stores, Metrics.Store.Memory, Iam.Platform.Plain and EventsHttp.Tests have values that
-- meet all the laws. JSON.parse and the reading of dates are functions given to the definitions, and
-- which texts Mongoose casts to a date is given by the collection. Divisions of the metrics are exact,
-- where the source has doubles.
--
-- The histories of Metrics.Volume are of events with a readable time and a payload that is not null;
-- Metrics.Service has the others. What an object inherits is modelled where an object is asked for a
-- key that comes from outside (Metrics.Merge).
--
-- Not modelled: failures of Redis while an event is counted; the checks and conversions of request
-- bodies and queries by class-validator and class-transformer; wiring, bootstrap and the generated
-- interfaces of the service, which are I/O or glue around third-party calls.
pub mod ApiKey
pub mod Common
pub mod Events
pub mod EventsHttp
pub mod Gateway
pub mod Http
pub mod Iam
pub mod Metrics
pub mod Protobuf
pub mod Routes
pub mod Server
pub mod Stores
