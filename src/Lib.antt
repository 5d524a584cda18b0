-- ===== src/Lib.antt =====
-- A model of the escrow backend and what makes it correct.
--
-- The backend keeps escrows in a PostgreSQL table through Prisma, with a cache in front of it.
-- Requests of vendors and buyers, payments, events of a Soroban contract and two workers change the
-- same rows; each module here stands for one of these parts, and System puts them together.
--
-- Files:
--   Prelude, Prelude/*        names of the libraries passed on, Boolean tests, lists and text
--   Exec                      async methods: a result or a failure, beside the state that is left
--   Database, Database/Memory a Prisma table as an interface, and one in memory that meets it
--   Backend, Backend/Effects  the state that the services share, and what they are wired to
--   Escrow                    src/prisma/prisma.service.ts: records and enums
--   Escrow/Lifecycle          docs/state-machine.md as a relation on states
--   Escrow/Repository, Escrow/Repository/Claims
--                             src/escrow/escrow.repository.ts: cached reads, writes, and claims
--   Escrow/Repository/Coherence, .../Claims/Settled, .../Claims/Laws, .../Claims/Delivery
--                             what reads, writes and claims do to the table and the cache
--   Escrow/Evolves            the invariant of every action, and its rules
--   Escrow/Service            src/escrow/escrow.service.ts: findById, createEscrow, createIdempotent,
--                             cancelEscrow, cancelPendingEscrow, handleShipment, updateBuyerContact
--   Escrow/Tracking           src/escrow/escrow.service.ts: getTracking
--   Escrow/View               src/escrow/escrow.service.ts: public views, keys of evidence
--   Escrow/Sync               src/escrow/escrow.service.ts: syncStateFromChain
--   Dispute                   src/escrow/buyer-dispute.service.ts, src/admin/dispute/dispute.service.ts
--   Worker/AutoRelease        src/workers/auto-release.worker.ts
--   Worker/TrackingPoll       src/workers/tracking-poll.worker.ts, the items of a run one after another
--   Poller                    src/stellar/soroban-poller.service.ts and the cursor service: a poll
--   System                    all operations, in any order
--   CacheService              src/cache/cache.service.ts without Redis
--   Auth                      src/auth/sep10/sep10.service.ts
--   Auth/Guard                src/auth/guards/jwt.guard.ts, src/admin/guards/admin.guard.ts
--   ContractClient            src/stellar/contract.service.ts: its types; Confirm polls for a status,
--                             Invoke calls the contract, AutoRelease has the public methods
--   Dlq                       src/dlq: the dead-letter queue
--   Webhook                   src/webhooks/stellar-webhook.service.ts and its repository
--   Webhook/Replay            src/stellar/event-replay.service.ts
--   Vendor, Vendor/Preferences
--                             src/vendor: the profile's service and repository
--   Notification              src/notifications/notification-retry-queue.service.ts without Redis
--   Notification/Dispatch, Notification/Notify
--                             src/notifications/notifications.service.ts: one message, and whom an
--                             event is told to
--   Sanitization              src/common/sanitization/sanitize.util.ts
--   Encryption                src/common/sanitization: credential- and contact-encryption.util.ts
--   Logistics                 src/logistics/logistics.service.ts: the provider's key
--   Analytics                 src/vendor/analytics/analytics.service.ts: getTransactionStats
--   Tests, Tests/*            a backend in memory, on which the theorems are applied
-- The proofs about a part stand in the folder below it.
--
-- Conventions: a method is a function from the state to an outcome and a state. A `throw` is an
-- outcome that names the exception's class; the text of a message is not kept. A rejected query is the
-- failure `rejected`, and any query may be rejected. Times are milliseconds on a clock that operations
-- read. Amounts are whole numbers of the smallest unit and compared exactly, where the source converts
-- them to doubles, which tell amounts of up to 15 digits apart. Loops run over a list or over the
-- attempts that are left. Only the wait for a transaction has fuel, 122 looks: all but the first follow a pause of
-- TX_CONFIRM_POLL_INTERVAL_MS, of which 120 fit into TX_CONFIRM_TIMEOUT_MS.
--
-- One operation runs at a time. The races between two queries of one method are not in the model, but
-- for the claims, which are single conditional updates and so exclude each other in any order.
--
-- System takes the contract's answers as parameters and records the notices that are dispatched;
-- ContractClient and Notification model the two services behind them by themselves.
--
-- Not modelled: the HTTP layer, the Stellar SDK, mail and SMS providers and cryptography (parameters),
-- Redis, the vendors' account details, and the daily chart of their volume.
-- Of the profile's upsert in createEscrow the shared state keeps only for whom it was made; Vendor says
-- what it does to the profile.
pub mod Prelude
pub mod Exec
pub mod Database
pub mod Escrow
pub mod CacheService
pub mod Backend
pub mod Dispute
pub mod ContractClient
pub mod Sanitization
pub mod Encryption
pub mod Logistics
pub mod Analytics
pub mod Vendor
pub mod Auth
pub mod Dlq
pub mod Webhook
pub mod Notification
pub mod Worker
pub mod Poller
pub mod System
pub mod Tests
