-- ===== src/Lib.antt =====
-- Perihelion moves a user's funds from an EVM chain to Stellar: the user signs an intent, a mempool
-- publishes it, a solver decides whether to fill it, and relayers carry the messages between the
-- chains. This library models the TypeScript services.
--
-- * Sdk (sdk/src): Types for types.ts; Expiry, Intent and Signature for isExpired, validateIntent,
--   buildIntent and verifyIntent of intent.ts; Decimal for its amount grammars and `BigInt` on
--   texts; Stellar for the checksums and addresses of stellar.ts; Json for parsed JSON; Validate
--   and Validate/Records for the parsers of validate.ts; OnChain for the contract's statuses; Units
--   for units.ts; Client, Client/Pages and Client/Waiting for client.ts; EscrowClient for the refund
--   status of escrow-client.ts; Bytes for Node's buffers.
-- * Mempool (mempool/src): Store for IntentStore of store.ts, Store/Pages for its `list`; RateLimit
--   for the middleware of server.ts, Server for the handlers that change state and the lookup,
--   Server/Listing for the listing.
-- * Relayer (relayer/src): Types and DeadLetter for types.ts and dead-letter.ts, Backoff for
--   backoff.ts (which solver/src/backoff.ts repeats), Window for the headers and detectReorg, Relay
--   for relayOne and Tick for tick of relayer.ts; Wire, EvmWatcher and EvmWatcher/Poll for
--   evm-watcher.ts, SorobanWatcher for soroban-watcher.ts, SorobanDelivery for the
--   submission and the checks of soroban-delivery.ts, FileCheckpointStore for
--   file-checkpoint-store.ts.
-- * Solver (solver/src): SeenLru for seen-lru.ts, InFlight for InFlightTracker of inventory.ts,
--   Quote for computeProceeds and evaluate of quote.ts, Caches and Consider for the caches,
--   consider, scheduleRetry and tick of solver.ts, ReleasedWatcher for released-watcher.ts.
-- * Prelude holds what they share: `Map` with its insertion order (JsMap), texts as lists of code
--   units, integers, results; Tests has concrete runs.
--
-- The mempool's handlers run the SDK's parser, expiry test and signature check and then change the
-- store; the solver's loop uses the seen set, the retry states, the reservations and the decision,
-- which uses the SDK's expiry test; the relayer's tick uses the window, the dead-letter store and
-- the messages, which the watcher's poll returns. The SDK's listing is composed with the mempool's
-- handler, whose answer is sent as JSON and read by the SDK's parser (Client/Pages/Answers and
-- Listing).
--
-- State is passed explicitly: a method is a function from the state to the state and its result.
-- A `throw` is a result or `none`. The clock, random numbers and what a remote call returns are
-- arguments; viem's address tests, hashing and recovery, the price oracle, the estimators and the
-- balances are parameters. `BigInt` amounts and validated numbers are natural numbers, a
-- subtraction that can go below zero is a comparison or an integer.
--
-- Fuel: `walk_back` of Window gets the number of its block, which falls at each turn; printing a
-- number gets the number itself and one more; `walk` of Store/Walk is a client that follows the
-- cursors, and gets one request for each matching record and one more.
--
-- The scan of EvmWatcher/Poll gets one turn for each block and one for each unit of the range of a
-- request; `listPending` gets its own bound on the pages; `waitForSettlement` gets its timeout in
-- milliseconds and one more, since a poll takes a millisecond at least;
-- `poll_once` of ReleasedWatcher gets one turn for each block.
--
-- The loops of `submitAndWait` get one turn for each attempt that they allow and one more.
--
-- Not modelled: the delivery to EVM chains, building transactions and the dead letters on disk,
-- HTTP framing, metrics, logging and configuration, the best-effort status reports, a signature
-- verifier that throws in the solver's loop, signing by a wallet, timers and abort signals, and the
-- contracts. The refund scan and the decoder of cancellations in evm-watcher.ts are not modelled,
-- because they name fields and constants that the package does not declare, and the executor of the
-- solver is not modelled either.
pub mod Prelude
pub mod Sdk
pub mod Mempool
pub mod Relayer
pub mod Solver
pub mod Tests
