-- ===== src/Lib.antt =====
-- Cernere is the account and identity service of a family of services: accounts with passkeys,
-- their admission by administrators, the recovery of an account, and federations of accounts that
-- services see under one number. These modules model the core of the server, in server/src, with
-- the database as a record of tables and every transaction as a function that returns the new
-- tables or an error.
--
-- - Base: shared names; results of fallible code (server/src/error.ts); tables as lists of rows
--   with the queries and statements that the program sends to its database.
--
-- - Notify: Events models server/src/notify/security-events.ts: an event of an account and the rows
--   of the outbox that deliver it; Outbox models server/src/notify/outbox-worker.ts, with the
--   random number of the backoff as a fraction.
--
-- - Federation: Policy models server/src/federation/policy.ts, Tables the three tables of
--   federations in server/src/db/schema.ts and what is consistent about them, Subject
--   server/src/federation/subject.ts and Store server/src/federation/store.ts. A join, a removal or
--   a change of the primary account reads the tables, asks Policy, writes the rows, and records an
--   event for each account by way of Notify.
--
-- - Auth: Tables models the tables of accounts and credentials in server/src/db/schema.ts, Access
--   server/src/auth/user-access.ts, Session server/src/auth/user-session-state.ts, Candidates
--   server/src/auth/passkey-candidates.ts, Devices server/src/auth/device-rotation.ts and
--   server/src/auth/device-credential.ts, Pairing server/src/auth/device-pairing.ts (with
--   Pairing.Approval for its approvePairing), and Recovery server/src/auth/recovery-code.ts and
--   server/src/auth/recovery-request.ts (with Recovery.Confirm for confirmRecovery). Pairing and
--   Recovery put a new key into Candidates and promote it; Access and Recovery advance the epoch of
--   an account, which Session compares with the one that a token names.
--
-- - Redis: the commands of Redis that the server sends, as an interface with what Redis documents
--   of them (a key lives for its lifetime, getdel reads and deletes, setnx sets only what is not
--   there), and calls that throw after commands have taken effect. Redis.Memory is a store in
--   memory that fulfils it.
--
-- - Federation.JoinRequest models server/src/federation/join-request.ts over any such store, and
--   the route join-complete of server/src/http/federation-handler.ts: JoinRequest has the records,
--   Operations the operations, and the other modules what holds over any sequence of them. In such
--   a sequence a completion is the whole route, or it begins, and later is finished or aborted, in
--   steps of their own. What the transaction of a join gives is an argument.
--
-- - Consent: Keys models server/src/consent/permission-keys.ts, Requirement
--   server/src/consent/requirement.ts with declaration-schema.ts, Store server/src/consent/store.ts
--   with grant.ts, and Gate server/src/consent/gate-policy.ts, gate.ts, ticket.ts and ticket-
--   flow.ts. The gate evaluates the stored consent with Requirement, leaves a ticket in Redis, and
--   the decision on the ticket goes to Store.
--
-- - IdCache models packages/id-cache/src/cache.ts, the cache of accounts in front of the identity
--   service, and IdCache.Middleware packages/id-cache/src/middleware.ts. A call of resolveUser is
--   two steps, look_up before the answer of the identity service and remember after it, so that
--   other calls may run in between. An identifier is a text there, since an empty one counts as
--   none.
--
-- - Service models the end of server/src/federation/subject.ts, where a service lets an account in:
--   it asks Federation for the account's number and Auth for the status of the primary account.
--
-- - The modules named Examples run the operations on small tables.
--
-- Functions, fields and constants have the source's names, in lower case with underscores:
-- joinFederation is join_federation, eligibleAt is eligible_at. Constructors stand for the texts of
-- the enumerations; the states open and locked of a join request are open_state and locked_state,
-- since the first is a word of the language.
--
-- A transaction that throws leaves the database as it was, so it returns only the error. Where the
-- source commits first and throws then (approvePairing after a wrong number, the conflict of two
-- uses of a recovery code) or writes outside of a transaction (the claim of a pairing), the
-- function returns the result beside the new tables.
--
-- A query with LIMIT 1 takes the first row that its condition holds of. Transactions are serial, so
-- row locks are not modelled. Foreign keys and unique indexes are not part of the tables; where a
-- theorem needs that a new identifier is not in use, it says so.
--
-- An identifier or a digest, which the program only compares, is a number. Times are milliseconds
-- as natural numbers. The current time, random values and new identifiers are arguments, except
-- that events and outbox rows draw theirs from a counter. Error texts for people are dropped, the
-- status and the code are kept. Rows of the audit of federations and of access decisions have no
-- identifier and time of their own.
--
-- The WebAuthn library is a function from a challenge to what it verified, the keyed digests of a
-- recovery code and of the secret of a device functions of their parts, and what Redis gives for
-- the key of a ceremony an argument: it may be absent at any time, which covers its expiry. No
-- hypothesis is made about any of them, except that a theorem on a rotation takes the new secret to
-- have another digest than the old one. Join requests and consent tickets do need what Redis keeps,
-- so they are over the interface of Redis. Of a secret that is presented, its length and digest are
-- kept. The summary of a browser's name is an argument too.
--
-- All loops run over lists and are structural; no fuel is used.
--
-- Not modelled: the wrappers that observe contracts; views that only read for display; the text
-- form of a recovery code; the gap between the reads and the writes of one operation on Redis; the
-- opt-outs after a denied consent, the finding of a service, the signup fields and the continuation
-- of a sign-in; projects, workloads, the OpenID provider, the HTTP and WebSocket handlers, the
-- frontend, the demo and the other packages.
pub mod Auth
pub mod Base
pub mod Consent
pub mod Federation
pub mod IdCache
pub mod Notify
pub mod Redis
pub mod Service
