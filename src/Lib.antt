-- ===== src/Lib.antt =====
-- dnd-notes: the control plane's fleet rollouts, role-sync retries and backups, the note store of a
-- tenant's API with its maintenance mode, and the activator, which wakes sleeping tenants.
--
-- A tenant is an installation of the API with a database of its own. The control plane provisions
-- tenants, and rolls a new version out over the whole fleet, one tenant after the other. Inside a
-- tenant the note store keeps campaigns, their memberships, their notes, and the share links that
-- open them.
--
-- Common holds what the parts share: Tests (Boolean tests on numbers), Lists, Text, Sort (ORDER BY),
-- and Prog, a state monad with errors, for asynchronous code that throws.
--
-- ControlPlane/Rollout models apps/control-plane/src/fleet-rollout-orchestrator.ts.
--   Tables: the rows, the advisory lock, the pool, and `await` for an awaited query. A `schedule` in
--     the state holds, for each query to come, the time that passes and what happens meanwhile:
--     nothing, a failure of the query, or an abort request by an operator. Theorems range over all
--     schedules, or over all that have no failure.
--   Run: runRollout, markRemainingTenantsSkipped, finalizeRollout. The loop is structural recursion
--     on the tenants, so no fuel is needed.
--   Start: startFleetRollout; the background task that it starts is a value, which `start_and_run`
--     runs to its end.
--   Reads: getCurrentFleetRollout, getFleetRollout, abortFleetRollout,
--     markOrphanRunningRolloutsFailed, buildRolloutWithCounts, mapRolloutRow.
--   Frame, Release, Rows, Writes, Skips, Ending, Stops, Aftermath, Outcome, Counts, Exclusion: the proofs, by
--     what they prove. Tests: a concrete fleet.
--
-- ControlPlane/RoleSync models apps/control-plane/src/role-sync-retry.ts: the tick over the pending
--   accounts, the backoff and stop(). The answers of the registry and of Keycloak are a parameter of
--   each tick; `stops` says at which await of a tick stop() is called, and an event calls it between
--   two ticks. Laws and Marks hold the proofs.
--
-- ControlPlane/Backup models apps/control-plane/src/backup-scheduler.ts.
--   World: the tables, the blobs, and the turns, which say of each awaited call whether it fails and
--     whether stop() is called meanwhile. Catalog: the operations of tenant-registry-postgres.ts and
--     tenant-backup-azure-blob.ts that the scheduler calls.
--   Schedule: nextScheduledTime, on the characters of the expression; times are milliseconds of UTC
--     since the epoch. Run: backupOneTenant, the tick and the timer; the dispatcher is an option.
--   Retention: runRetentionSweep; its children Newest, Sweep and Thorough hold the proofs.
--
-- ControlPlane/Uptime models getFleetUptimes of apps/control-plane/src/tenant-registry-postgres.ts: its four
--   queries and the walk over a tenant's transitions. Timeline describes the state at each
--   millisecond, and Laws compares the two.
--
-- ControlPlane/Subdomain models apps/control-plane/src/tenant-subdomain.ts on code points; Routing
--   relates it to the activator's resolver.
--
-- Api models the note store of apps/api/src; each operation is one transaction, a function of the
-- store. Store: the tables. Memberships and Consolidation: note-store-memberships.ts. Campaigns:
-- note-store-campaigns.ts and campaign.ts. ShareLinks: note-store-share-links.ts.
-- OwnerAccounts: note-store-owner-accounts.ts, with the lower-casing of JavaScript and of the database as
-- parameters; its Found, Laws and Links are about sign-ins. Guests and the other Laws modules hold the
-- proofs, the Tests concrete stores.
--
-- Api/References models apps/api/src/note-references.ts on code units. Each turn of the loop takes at
--   least five of them, so one more turn than the body is long is enough fuel; Ends proves it, and
--   RoundTrip is about bodies that are written from texts and references.
--
-- Api/Notes models the notes of apps/api/src/note-store.ts with the statements of note-store-notes.ts and
--   the tables of apps/api/migrations/0001_baseline.sql. Sync: which references a note gets, and the
--   synchronization at startup. Rows: the rows with the joined attributions. Writes: create,
--   update, delete, reset; what throws gives `failed` and no store, as the transaction is rolled
--   back. Reads: the lists, backlinks, sessions and statistics. A parameter `scan` says in which order
--   the database comes upon the rows of references, since ORDER BY leaves some of them tied. The
--   times of notes are milliseconds, identifiers and bodies code units. Links and Kept are the
--   lemmas of Invariant, the steps of a store; Pending and Strict describe the references of a note
--   without loops, Rebuilt those of all notes;
--   Written, Attributed and SameNote are the lemmas of ReadBack; Laws is about the linked notes and
--   Backlinks about the backlinks. Scenario has two notes that are linked.
--
-- Api/Maintenance models apps/api/src/control-state.ts, the control endpoints of
--   apps/api/src/routes/control-routes.ts, and the two middlewares of apps/api/src/app.ts that keep writes
--   out and count them. A tenant is the control state with the settled flag of each tracked request; the
--   handlers in between are events, in any order. Inflight is about the counter and the gate, Drain
--   about the wait, where the fuel is one more than the milliseconds of the grace, and Auth
--   about the tokens: Buffer.from and timingSafeEqual are parameters.
--
-- Activator/Activity models apps/activator/src/tenant-activity.ts: the cache of tenant identifiers,
-- recordActivity and markReady, with queries that may fail. Its calls run one after the other.
--
-- Activator/Resolver models apps/activator/src/tenant-resolver.ts, on the code points of the Host
--   header, and Activator/RequestKind request-kind.ts.
-- Activator/Handler models apps/activator/src/request-handler.ts: one function for handleRequest up
--   to its answer or to the race of the wake with the grace timer, one for the part after the race,
--   and functions for the background part of ensureWake. Flow puts them into a relation of steps, in
--   any order; what the cluster, the registry and the proxy answer comes with each step. The state
--   holds wakeInProgress, the requests in the race with what their wake has come to, the gauge of held
--   connections, and the calls made so far. Cases has a principle for one run of the handler,
--   OneAnswer, OneWake and Warrant an invariant each, Coalescing and Evidence the lemmas of the last
--   two, Tests a tenant that is woken.
--
-- Activator/Watch models apps/activator/src/deployment-watch.ts: the two caches with the handlers of
--   watch events and the calls that read and fill them. Wait is waitForReadyEndpoint: the fuel bounds
--   its rounds, and one more than the timeout has poll intervals is enough. Reconnect is the backoff
--   of runWatchLoop, in exact arithmetic. Cache and the Laws hold the proofs.
--
-- Activator/IdleScaler models apps/activator/src/idle-scaler.ts: main with its two loops. Before each
--   call a turn says what the activator and the operators do to the registry meanwhile, any function
--   of it, and whether the call fails. Times are microseconds, and what the driver makes of one that it
--   hands over as a Date is a parameter. Laws holds the proofs.
--
-- Web/References models how apps/web/src/note-references.ts finds and reads the references of a text and
--   what it writes; Agreement relates both to the parser of the API.
--
-- Parameters stand for what the program takes from elsewhere: the outcome of the provisioning
-- service for each tenant, the session that the pool hands out, the hash function, the order of
-- tied rows, the Dates of the driver, and the identifiers, tokens and times that node:crypto and the
-- clock give. Times of rollouts are numbers
-- of milliseconds; timestamps of the other rows of the note store are the texts in their columns,
-- which are compared as texts.
--
-- Not modelled: the HTTP layers, the clients of Kubernetes, Keycloak and blob storage, the user
-- interfaces but for the references, the database adapter, the activator's proxy, metrics and entry
-- point, the backup runners, and most of the tenant registry.
-- Log lines and the shape of JSON answers are left out.
pub mod Common
pub mod ControlPlane
pub mod Api
pub mod Activator
pub mod Web
