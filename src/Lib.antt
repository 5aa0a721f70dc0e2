-- ===== src/Lib.antt =====
-- Verification of stacks/gpt-webai-pro, the program that sends a prompt to a provider's web session
-- and keeps the answer. A supervisor process per call (stacks/gpt-webai-pro/src/supervisor/) works on
-- an SQLite database that all such processes share, and drives a daemon with a browser for each
-- account ("slot") by remote calls.
--
-- The files, each with the code it models (paths below stacks/gpt-webai-pro/src/):
--   Prelude            shared names, lists, tables as lists of rows, counting, sorting
--   Shared             shared/types.ts, shared/errors.ts
--   Database           supervisor/db.ts: `GwpDatabase`, one definition for each of its methods
--     Database/Store   the tables, the transactions, `immediate`
--     Database/Relates what a transaction relates, by its parts
--     Database/Sync    slots that left the configuration
--   Delivery           supervisor/run.ts: `armSendAttempt`, `confirmSendAttempt`,
--                      `markPreClickNoSend`, `markSendUncertain`, `applyReconcileResult`
--     Delivery/Machine the abstract machine of a request's attempts, and AtMostOnce its invariant
--     Delivery/Settlement
--                      the transactions of `updateConversationPointer`, `finalizeComplete` and
--                      `finishGeneratingFailure`
--     Delivery/Calls   the transactions of all processes as one type, and histories of them
--     Delivery/Refinement, Delivery/Resolution, Delivery/Untouched
--                      each transaction is a step of the machine
--   Slots              supervisor/slots.ts: `weeklyUsageFor`, `selectSlot`, `claimSlotForRequest`,
--                      with Eligible for which slots may be taken
--   Envelope           cli/envelope.ts
--   Images             supervisor/image-batch.ts: `splitImageChunks`, `imageChunkPrompt`
--   Supervisor         supervisor/run.ts: `Supervisor`
--     Supervisor/World, Supervisor/Outside
--                      a process's world, and what it calls outside the model
--     Supervisor/Send, Supervisor/Failing
--                      `send`, `withProgressAnchors`
--     Supervisor/Recover
--                      `recoverSendState`, `reconcile`
--     Supervisor/Waiting
--                      a part of `continueOwned`, `status`
--     Supervisor/Settle
--                      `finishGeneratingFailure`
--     Supervisor/OwnerLock, Supervisor/Report, Supervisor/Config
--                      `waitForOwnerLock`, `envelopeFor`, `validateConfig`
--     Supervisor/RpcClient
--                      supervisor/rpc-client.ts: `RpcClient`
--     Supervisor/Docker
--                      supervisor/docker.ts: `DockerManager`, with Ownership for what an inspection
--                      tells and OwnedOnly for what is touched
--   Daemon             daemon/: the process with the browser
--     Daemon/Act, Daemon/Stays, Daemon/Returns
--                      its actions, what they ensure, what they keep, and what one that returned
--                      did before
--     Daemon/SendCache daemon/main.ts: `SendResultCache`
--     Daemon/Dispatch  daemon/main.ts: `dispatch`, with Answers for what the cache answers
--     Daemon/Wire      an error from `handleMessage` in daemon/main.ts to `RpcClient.onMessage`
--     Daemon/Session   daemon/browser.ts: `BrowserSession`
--     Daemon/Chips, Daemon/Composer, Daemon/Sending
--                      daemon/actions/send.ts: `sendMessage` and the functions that it calls
--     Daemon/Reconcile daemon/actions/reconcile.ts: `reconcileSend`, with Verdict for what a scan
--                      makes of the pages
--     Daemon/Poll      daemon/actions/poll.ts: `pollConversation`, with Stability for what counts
--                      as a complete answer
--   Tests              concrete inputs and runs
--
-- The correspondence. A table is the list of its rows, oldest first. A method of the database is a
-- `Tx`: from a database to a result, or what was thrown, and the database after it. `immediate` puts
-- back the database when its body throws, as SQLite's ROLLBACK does. INSERT checks the primary key,
-- the UNIQUE, CHECK and foreign key constraints that the schema in supervisor/db.ts declares, UPDATE
-- gives the number of rows that fit. `Date.now()` is an argument, twice where the source reads the
-- clock twice. What `localeCompare`, `JSON.stringify` and the WHATWG `URL` do is an argument. SQLite
-- serialises transactions, so a history of transactions stands for any interleaving of processes;
-- where a method reads before its transaction, the read value is an argument of the call, which
-- covers a stale one.
--
-- An asynchronous method of `Supervisor` is an action on a world: the database, and a state of all
-- that is outside. What it calls outside, the daemon, files, locks, the clock, containers, is an
-- argument, and so is what other processes commit before each of its own database methods. Where
-- such a method returns a promise that it does not wait for in a `try` with a `finally`, what comes
-- before the promise's first wait is done before the `finally`, and the rest after it.
--
-- An action of the daemon works on a state of all that is outside it: the browser, the clock, the
-- socket. Playwright, the scripts that run in a page and the patterns that compare texts are fields
-- of records (`Browser`, `Composer`, `PageTools`, `Matching`). A send keeps the variables of
-- `sendMessage` beside that state. A scan of pages is split in two: what is read of each page, and a
-- function of what was read. The daemon's requests are a list, in the order in which the queue of
-- mutations runs them. The client of the daemon is a function of events, since the runtime decides
-- when a timer or the socket calls it. The docker manager is an action on the host in the same way.
--
-- Fuel. The loops of the daemon that wait for the page (`waitForTurnRender`, `waitForSendButton`,
-- `waitForExpectedChips`, the window of confirmation, the polls) and `waitForDaemon` have a number
-- of rounds as an argument, and with none left they end as at their deadline; the theorems hold for
-- every number. The loops of `SendResultCache` have as many rounds as entries. The loop of
-- `splitImageChunks` has as many rounds as there are images, and each takes one or more. The loop of
-- `waitForOwnerLock` has as many rounds as milliseconds until its deadline, and each sleeps for one
-- or more. The last two are proved to be enough.
--
-- Not modelled: the opening and migration of the database file, polling and completion and the
-- remaining methods of `Supervisor`, the texts of its log, the regular expression of
-- `isDirectNetworkFailure` (an argument), the opening and closing of the client's socket, the run
-- of the docker command and the path of an artifact in the outbox, files and locks, the command
-- line, and of the daemon its server, the promises of its queue of mutations, the heartbeat of a
-- send, and the actions that download, inspect and choose a model.
pub mod Prelude
pub mod Shared
pub mod Database
pub mod Delivery
pub mod Slots
pub mod Envelope
pub mod Images
pub mod Supervisor
pub mod Daemon
pub mod Tests
