-- ===== src/Lib.antt =====
-- A verification library for the CourtHive competition server: the decisions that stand between a
-- request and a tournament record, the lock that orders the requests, and the checks that run behind them.
--
-- A mutation reaches the server with a user context (Access/Context: src/modules/account/auth). The
-- mutation gate (src/modules/factory/mutation-authorization.service.ts) reads what it needs of each
-- tournament, asks the access decisions (src/modules/factory/helpers/checkTournamentAccess.ts,
-- actingProviderScope.ts), then the caller's scoped grants, then the provider's permissions. A batch
-- that passes waits for the locks of its tournaments (src/services/tournamentMutex.ts) and is fetched,
-- run and saved (src/modules/factory/functions/private/executionQueue.ts), in one transaction with its
-- receipt where it is a durable command (src/storage/postgres/commandReceipts.ts). After the lock
-- is released the draws that it touched are scanned, and what changed in their findings is written
-- (src/modules/factory/helpers/executionQueueIntegrity.ts, drawIntegrityFindings.ts), and
-- the notices of the mutation become deltas of the read model
-- (src/modules/factory/projection/deltaBuffer.ts, buildProjectionDeltas.ts). A record that a client
-- sends whole passes a gate of its own (src/modules/factory/factory.service.ts); records are written
-- and deleted through src/storage/tournament-storage.service.ts. A session lives on refresh
-- tokens (src/services/refresh-token.service.ts).
--
--   Prelude    shared types, tests into Bool, lists and maps, and the lemmas on them.
--   Access     Context: UserContext and the flag. Tournament: canViewTournament,
--              canMutateTournament, canDeleteTournament, classifyAssignmentRole and the creator
--              extension. Calendar: scopeCalendarForUser, buildCalendarScope and the WHERE clause of
--              src/storage/postgres/postgres-calendar.storage.ts. Provider: actingProviderAllows,
--              sessionProviderId, checkProvider, checkUser.
--   Mutation   Target: resolveMutationTarget.ts. Window: grantWindowDenial.ts. Services: what the gate
--              calls. Scope: checkGrantScope. Gate: gate and checkProviderPermissionGate.
--   Grants     Validation: grantValidation.ts. Service: create and revoke of grants.service.ts, over the
--              table of src/storage/postgres/postgres-grant.storage.ts.
--   Tokens     Refresh: refresh-token.service.ts, over the table of
--              src/storage/postgres/postgres-refresh-token.storage.ts.
--   Projection Intents, Recorders: projectionTypes.ts and deltaBuffer.ts of
--              src/modules/factory/projection. Rows, Group, Build: buildProjectionDeltas.ts. Scope: from
--              the notices to the deltas.
--   Storage    Delete and Save: tournament-storage.service.ts, over the tables of
--              src/storage/postgres/postgres-tournament.storage.ts. Gate: saveTournamentRecords and
--              gateWholesaleSave of factory.service.ts.
--   Integrity  Gate: drawIntegrity.ts. Notices, Memory, Scan, Schedule: executionQueueIntegrity.ts (the
--              snapshot of the touched draws, the remembered findings, one scan, and the event loop
--              that runs scans). Findings: the service of drawIntegrityFindings.ts.
--   Queue      executionQueue.ts: the body of the lock as a trace of acts. References: the draws of score
--              entries. Documents: src/modules/factory/projection/participantDocumentRequests.ts.
--   Command    Receipts: src/storage/postgres/commandReceipts.ts, a command with a receipt and the ways
--              in which its COMMIT can end.
--   Mutex      Lock: acquire, release and the timer. Client: withTournamentLock as a step machine
--              over any number of calls; a history is a list of calls, steps and timeouts.
--
-- Functions are written with the source's branches in the source's order; an absent optional value is
-- none, and the truth value of an optional string is that of JavaScript. Log lines are left out.
-- Loops are structural recursion over the lists that they walk, so there is no fuel. The bounds are the
-- source's: 5000 remembered draws, 500 pending scans, 5000 queued rows in batches of 500.
-- Parameters, with nothing assumed of them: the predicates of the package
-- @courthive/provider-config, the row builders of tods-competition-factory and what it derives of a
-- record, database rows, the factory's scans, the digest of a text, Date.parse, toISOString, the upper
-- case of a string, whether it is blank and whether it is a UUID.
-- The policy that attachProviderPrivacyOnCreate adds has as a hypothesis that it changes neither the id
-- of a record nor its creator.
-- The sort of the lock's ids has its documented behaviour as a hypothesis where order matters.
-- Not modelled: the factory engine (a package), SQL and sockets, password and token packages.
pub mod Prelude
pub mod Access
pub mod Command
pub mod Grants
pub mod Integrity
pub mod Mutation
pub mod Mutex
pub mod Projection
pub mod Queue
pub mod Storage
pub mod Tokens
