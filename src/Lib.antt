-- ===== src/Lib.antt =====
-- TokenPilot: the control plane and the SDKs that meter, price, limit and route the model calls of
-- applications.
--
-- The parts that are modelled, and how they interact. An application reserves AIU (AI units, in
-- millionths) for a user before a model call; the reservation is settled or released by the caller,
-- charged by the worker when the usage event arrives, or expired by the sweeper. All of them are
-- transactions over the same tables of quotas, reservations and ledger entries. The SDK chooses the
-- target of the call by the published route plan, and the worker rates the event's usage in AIU.
--
-- Base holds what the others share: Base/Tests Boolean tests, Base/Lists lists over the native
-- numbers, Base/Int the integers (a BIGINT or a bigint), Base/Sort the stable sort, Base/Best the
-- first match in a sorted list.
--
-- Quota models the tables and the transactions over them.
--   Quota/Types    the rows of packages/db/prisma
--   Quota/Store    a transaction as a function of the store with an error, and the statements of
--                  the database client with the check constraints and unique indexes of the
--                  migrations; Quota/Rules and Quota/Queries are the rules to reason about them
--   Quota/Claims   apps/api/src/runtime/user-reservation-domain.ts: claims, summaries
--   Quota/Reserve, Quota/Transition
--                  apps/api/src/runtime/user-reservation.service.ts: create and existing; settle and
--                  release
--   Quota/Rollover rolloverReservationQuota of user-reservation-domain.ts
--   Quota/Policy, Quota/Materialize
--                  packages/db/src/aiu-quota-policies.ts: which rule applies, and how it becomes the
--                  user's quota
--   Quota/Settle   apps/worker/src/application-usage/user-aiu-settlement.ts
--   Quota/Sweep    apps/worker/src/maintenance/user-aiu-reservation-sweeper.ts
-- Quota/Balance states the invariant (Inv): per quota, the counters are the sums of the ledger, the
-- reserved counter is what the open reservations hold, and the keys and indexes fit; Quota/Rows,
-- Quota/OneRow and Quota/AllRows show it for the writes that the transactions share, and the
-- Safety, Replay and Written modules below each part for that part.
--
-- Pipeline models the usage pipeline of apps/worker/src/pipeline, which turns an accepted event
-- into an official settlement: Pipeline its rows, Pipeline/Errors errors.ts, Pipeline/Inbox
-- prisma-inbox-store.ts (Leasing and Calls below it), Pipeline/Attempt and Pipeline/Processor
-- processor.ts, and Pipeline/Replay what queues a row again (apps/api/src/dlq.service.ts and the
-- reconciliation's operation-executor.ts). Pipeline/Rows says what a call does to its row,
-- Pipeline/Once states and shows the invariant of the rows for each call, Pipeline/Interleaving
-- for workers that take turns, and Pipeline/Attempts and Pipeline/Ends for an attempt, whose other
-- workers are a function between its calls.
--
-- Ingestion models apps/api/src/usage-ingestion.service.ts, with the types of ingestion/types.ts:
-- Ingestion its tables, Ingestion/Persist the write of one event among the writes of others,
-- Ingestion/Service the checks of an event and the loop over a batch. Ingestion/Registered says
-- what a write leaves in the registry, Ingestion/Truth what the response of a batch says, and
-- Ingestion/Client puts the service behind the upload of Spool/Reporter: Delivery is about events
-- that the columns of the registry (packages/db/prisma/schema/32-usage-pipeline.prisma) can hold,
-- Blocked about one that they cannot. Ingestion/Properties models
-- ingestion/property-validation.ts.
--
-- Spool models the durable spool of usage events in the SDK: Spool its two tables and the calls of
-- sdks/node/src/runtime/usage-spool.ts, Spool/Reporter the upload of runtime-usage-reporter.ts,
-- with the check of a response of packages/contracts/src/machine-contracts.ts. Spool/Invariant is
-- about the keys, Spool/View has what the spool promises of each identifier, Spool/Progress what a
-- response removes, Spool/Flush when the upload ends and Spool/Stuck when it does not.
--
-- Poller models apps/worker/src/serial-poller.ts, with Poller/Safety for callers who wait and
-- Poller/Overlap for those who do not.
--
-- Features models the feature flags of an instance: packages/shared/src/feature-flags.ts, and in
-- Features/Update the change of them by an operator, packages/db/src/feature-flag-operator.ts;
-- Features/Validity says which configurations are valid, Features/Effect what a change leaves and
-- Features/Acceptance which changes succeed.
--
-- Token models apps/api/src/runtime/user-reservation-token.ts: Token/Split is about the parts of a
-- token, Token/RoundTrip about signed ones and Token/Authentic about those that are verified.
--
-- Rating models rateApplicationAiu of apps/worker/src/application-usage/rating.ts.
--
-- Routing models sdks/node/src/runtime/routing.ts; Routing/Matching has the conditions. Its
-- simulation by the control API has code of its own, in Routing/Simulation: route-matches.ts,
-- weighted-route-selection.ts and virtual-model.service.ts of apps/api/src/virtual-models, with the
-- default route of a publication, apps/api/src/runtime-configuration/runtime-publication-builder.ts.
-- Routing/Agreement and Routing/Simulation/Published compare the two.
--
-- Reconciliation models packages/reconciliation-engine/src: Reconciliation reconciler.ts and
-- metrics.ts, Reconciliation/Plans run-plan.ts and Reconciliation/Replay replay.ts. Reconciliation/Clean
-- compares two rows and Reconciliation/Keys two snapshots.
--
-- How the code's values are represented. Identifiers and texts that the code only compares are
-- numbers, with 0 for the empty text; a text that is searched is the list of its code units. An
-- instant is in milliseconds. A transaction of the quota code is serializable, so it is a function
-- of the store; one that fails leaves the store as it was. In the ingestion and the pipeline,
-- others write between the reads and the writes. A flush has fuel, the number of its rounds
-- (Spool/Flush says how many are enough); every other loop is over a list.
--
-- Parameters, for code that is not in the repository: decimal.js (Rating.Decimals, with its laws
-- in Rating.Laws.Laws, and Reconciliation.Costs), floating-point numbers (Routing.Floats and
-- Ingestion.Properties.Floats), the UTF-8 bytes of a text, what the columns of the registry hold
-- beside the reservation (Ingestion.Texts), the local time and the calendar of a time zone, HMAC,
-- base64url and JSON (Token.Libraries). The quota code takes signing, hashing and verifying a
-- token as one parameter of its own (Quota.Claims.Codec), and the ingestion its checks of an event
-- (Ingestion.Service.Checks).
--
-- Not modelled: the retries of a transaction on a write conflict, the audit rows of the quota
-- code, the upsert of the user before a reservation, the check on the period of a quota, the
-- schemas of the single fields of a response, failures of the connection to a database, cost
-- rating, the parsing of reconciliation metrics and the CSV export, the quota settings of a user,
-- the lanes in which a worker runs the pipeline and its outbox, segmentation, the control API's
-- other modules, the web console, ClickHouse and the Python SDK.
pub mod Base
pub mod Features
pub mod Pipeline
pub mod Poller
pub mod Quota
pub mod Rating
pub mod Reconciliation
pub mod Ingestion
pub mod Routing
pub mod Spool
pub mod Token
