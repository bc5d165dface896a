-- ===== src/Lib.antt =====
-- A model of the server of PulseKeeper, an uptime monitor: the guard that keeps its outbound
-- requests away from internal addresses, the health check, the incidents, the expiry warnings, the
-- notifications and the channels that they go out by, the sweep that runs them over all due sites,
-- the users' sites, channels, settings and accounts, the analytics, the lists that the client
-- reads, the answers to errors, and the cleanup of old checks.
--
-- The parts and their files:
-- - Prelude: Boolean tests, lists over the native numbers, texts as UTF-16 code units, integers.
-- - Domain: server/src/types/domain.ts and server/src/constants/monitoring.ts.
-- - Errors: server/src/utils/AppError.ts, and all that a `catch` can see. Checked: synchronous
--   code that returns or throws an AppError.
-- - Async: the async functions as programs that act on a world. Each `await` of something outside,
--   each reading of the clock and each database call is one act; between two acts of a program
--   others may act. Async/Rules has the rules that hold at every act: `Keeps` (an invariant),
--   `Returns` (what a program can return), `Holds` (both, from worlds with the invariant) and
--   `NoThrow`. Async/Parallel interleaves programs, in any order that the world chooses, and is
--   `Promise.all`.
-- - Web: what comes from outside the repository: the URL parser, ipaddr.js, DNS, sockets.
-- - Store: the documents of server/src/models/, the database as one list of documents for each
--   collection, and the world: the environment (clock, faults of the database, resolver,
--   transport, webhooks, mail relay, scheduler), the database, what was sent outside, and the flag
--   of a sweep in progress. Store/Calls: a database call is atomic, and can fail before or after
--   its effect.
-- - Guard: server/src/utils/urlGuard.ts, with children on addresses, URLs and resolution.
-- - HealthCheck: server/src/services/healthCheck.service.ts, `runHealthCheck` and its loop of
--   redirects as `follow`; HealthCheck/Request is `performRequest`.
-- - Ssl: server/src/services/ssl.service.ts.
-- - Posting: server/src/services/channels/http.ts, the guarded POST. Adapters: the four transports
--   of server/src/services/channels/, as a registry of records.
-- - Notify: server/src/services/notification.service.ts.
-- - Incidents: server/src/services/incident.service.ts, and the partial unique index of
--   server/src/models/Incident.ts in `insert_active`.
-- - Concurrency: server/src/utils/concurrency.ts; the workers share a `Pool`.
-- - Monitoring: server/src/services/monitoring.service.ts up to `checkSite`; Monitoring/Running is
--   the sweep and the manual check.
-- - Sites: the documents of server/src/services/site.service.ts; Sites/Listing is `listSites`,
--   Sites/Service the other operations.
-- - Queries: server/src/services/incident.query.service.ts and
--   server/src/services/notification.query.service.ts. Paging: `buildPagination` of
--   server/src/utils/apiResponse.ts, and the skip and limit of the lists.
-- - Triggers: server/src/jobs/monitoringJob.ts and server/src/controllers/monitor.controller.ts;
--   Triggers/Secret is server/src/middleware/monitorSecret.ts.
-- - Replies: server/src/middleware/errorHandler.ts.
-- - Channels: server/src/services/channel.service.ts.
-- - UserSettings: server/src/services/settings.service.ts.
-- - Accounts: server/src/services/auth.service.ts and server/src/models/User.ts; Accounts/Sessions
--   is server/src/utils/jwt.ts, server/src/utils/cookies.ts, server/src/middleware/requireAuth.ts
--   and the sign-in handlers of server/src/controllers/auth.controller.ts.
-- - Analytics: server/src/services/analytics.service.ts; Analytics/Stats is the statistics panel,
--   the downtime and the timeline, Analytics/Rankings the rankings, Analytics/Reports the queries
--   and the three reports. Prelude/Grouping, Prelude/Sorting and Prelude/Sums are what they use of
--   MongoDB's pipelines.
-- - Retention: `runRetentionCleanup` of server/src/jobs/cleanupJob.ts.
-- - Tests: a small world, and the theorems applied to it.
--
-- A sweep reads the due sites, hands a `check_site` for each to `run_with_concurrency`, and each
-- check runs a health check, stores it, calls the incident service (which notifies), the uptime,
-- the certificate service (which notifies) and updates the site.
--
-- Bounds. `follow` runs on fuel, one more round than redirects are allowed; each round but the
-- last adds a redirect, so it is never used up. `worker` runs on fuel, one more round than there
-- are tasks; each round takes a task, so it is never used up either. Times are milliseconds and
-- counts are numbers without a bound, as the source's doubles stay exact far above them; the
-- uptime of a site is exact and in hundredths of a percent instead of a rounded double.
--
-- Not modelled: log lines; the AbortError branch of the health check, since nothing aborts; the
-- markup of a mail around the texts put into it; the rest of the HTTP layer, the client and the
-- seed data. A request emits one event at least, which Node's timeout option brings about.
-- `toLowerCase` is that of ASCII, which is what a parsed host name holds. A query without an order
-- finds documents in their order of insertion, `$group` gives its groups in an order of the model,
-- and a sort is stable. Averages and shares are exact and rounded once, where the source rounds
-- doubles. A POST ends with a timeout or an error at the latest. Node's net.isIP, bcryptjs, jsonwebtoken and
-- node-cron's validate are parameters, and so are the bytes of a text that Node's Buffer gives; a
-- token holds the id of its user.
pub mod Prelude
pub mod Domain
pub mod Errors
pub mod Async
pub mod Web
pub mod Store
pub mod Checked
pub mod Guard
pub mod HealthCheck
pub mod Posting
pub mod Adapters
pub mod Analytics
pub mod Paging
pub mod Queries
pub mod Notify
pub mod Channels
pub mod UserSettings
pub mod Accounts
pub mod Ssl
pub mod Incidents
pub mod Concurrency
pub mod Monitoring
pub mod Sites
pub mod Replies
pub mod Triggers
pub mod Retention
pub mod Tests
