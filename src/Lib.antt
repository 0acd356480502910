-- ===== src/Lib.antt =====
-- CubeForge is a platform that keeps the inventory of many tenants. People belong to tenants with a
-- role; integrations submit batches of stock movements; a nightly export carries what was recorded
-- to object storage, tenant by tenant. This library models that core, over the in-memory adapters
-- that the repository's own use cases run against.
--
-- The parts, and the files that model them (source paths are from the repository's root):
--   Access        src/domain/membership/role.ts, src/domain/identifiers.ts, src/domain/tenant,
--                 src/domain/person, src/domain/membership (Access/Entities), src/domain/access
--                 (Access/Decision: decideAccess), the identity store and its repositories in
--                 src/adapters/persistence/in-memory (Access/Directory), and
--                 src/application/tenant-authorization.ts (Access/Authorize)
--   UnitOfWork    runInTenant and runAsOperator of the in-memory units of work: a work that throws
--                 has both stores restored
--   Inventory     src/domain/inventory (Identifiers, Movement), in-memory-inventory-store.ts (Store)
--                 and src/application/inventory: record-movements.use-case.ts (Record), and
--                 declaring, listing and reading the stock (Catalogue)
--   Members       src/application/membership, src/application/person, src/application/tenant
--   Calendar      the day of a date in UTC, which src/domain/export/partition.ts takes from
--                 toISOString
--   Export        src/domain/export (Window, Cursor, Partition, Rows, Report),
--                 in-memory-export-store.ts (Store), in-memory-export-sink.ts (Sink) and
--                 src/application/export (ExportTenant, RunExport)
--   Credential    src/domain/credential (Session), in-memory-api-key-store.ts (Keys),
--                 in-memory-credential-store.ts and in-memory-authenticator-unit-of-work.ts
--                 (Store), src/adapters/crypto/access-token-issuer.ts (Tokens),
--                 src/application/authentication and the redemption of a setup token (Sessions),
--                 issuing setup tokens and API keys (Issuing), and
--                 src/application/principal-resolver.ts with describe-caller.use-case.ts (Principal)
--   Http          src/adapters/http: access/access.decorator.ts (Declaration) and
--                 access/access.guard.ts (Guard), over what the framework finds for a route and a
--                 request; principal.middleware.ts (Principal); domain-error.filter.ts and
--                 analytics-failure.filter.ts (Filter); the way from the middleware to the guard,
--                 which the framework makes (Edge); and the buckets of the throttling (Throttling)
--   Semantic      src/domain/semantic (Vocabulary, Question), src/domain/analytics/period.ts
--                 (Period), src/application/semantic (Asking), and in src/adapters/semantic
--                 member-mapping.ts (Members), cube-model.ts (Model) and cube-client.ts (Client)
--   Analytics     src/domain/analytics/answer-shape.ts (Shape), answer.ts with
--                 src/application/analytics (Reading), and in src/adapters/analytics
--                 athena-query-runner.ts (Runner) and athena-analytics.ts (Athena)
--   Cube          cube/configuration.js: the address of the engine (Host), queryRewrite (Rewrite),
--                 the repair of column types (Repair) and the dialect (Dialect)
--   Errors        src/domain/errors.ts and the failures of the export and the analytics, as values
--   Prelude       what the source takes from JavaScript: strings, maps, arrays, numbers and dates
--   Tests         runs on concrete data, and an instance of each theorem with hypotheses
--
-- A function that the source awaits on a store is a state action, Exec S A: it answers a value or a
-- failure, and the store. A unit of work runs such an action over both stores; the use cases are
-- these actions composed as the source composes them. A string is the list of its UTF-16 units, a
-- Map is a list of pairs in insertion order, a Set that is only asked for membership is a list
-- without repetitions. A number is a whole number or not one; the sums of the source stay below
-- 2^53, where they are exact. A bigint that counts transactions is a natural number.
--
-- Parameters stand for what is not in the repository: `date_from` for new Date(text), `lower` for
-- toLowerCase, `decode` for decodeURIComponent, `hostname` for the host of a URL, `le` for a
-- comparison by localeCompare that answers at most 0, `now` for the clock, `start` for Date.parse,
-- `number_from` for Number(text), `ask_as` for the semantic layer that answers a question, and
-- arguments for the generated identifiers and secrets. The record Crypto holds Argon2's
-- verification, SHA-256 and the signing and decoding of JSON web tokens; the record Exchange holds
-- the load of the semantic layer and the signing of its context. CubeSurroundings holds fetch, the
-- reading of JSON, the clock and the timer of the client; Engine and Clock hold those of the
-- runner, and Driver the operations of the semantic layer's driver. Nothing is assumed of them,
-- except where a result says so: that a signed token is not blank, that decoding gives back what
-- was signed, that Argon2 accepts a password against its own digest, that a load respects the
-- query's limit, and that a wait lasts as long as it was asked to.
--
-- The units of work put back different tables: that of a tenant both stores, an operator's the
-- identity store, the authenticator's the passwords, setup tokens and refresh tokens.
--
-- Fuel is used to print a number in decimal: there are at most n digits in n, and the fuel is
-- n + 1. It is used for the loops that wait for an engine or for the semantic layer, and for the
-- one that reads pages. Their results say how much is enough: with a clock that is not set back, a
-- round for each wait that fits in the time there is, and one more, and a round for each page. All
-- other recursion is structural.
--
-- Not modelled: the phrases for the log and the wording of messages; the JSON text of a snapshot
-- (restoring puts the four tables back, and not the transaction counter); the settings of the token
-- issuer, of the semantic layer and of the analytics; controllers of the HTTP edge and the counting
-- of the throttler, which are glue over a framework; PostgreSQL, DuckDB, S3 and the engine's
-- client, which are input and output; the templates of statements of the dialect.
pub mod Prelude
pub mod Errors
pub mod Access
pub mod Inventory
pub mod UnitOfWork
pub mod Members
pub mod Calendar
pub mod Credential
pub mod Export
pub mod Http
pub mod Semantic
pub mod Analytics
pub mod Cube
mod Tests
