-- ===== src/Lib.antt =====
-- Verification of the MCP server and client library: the dispatcher, the registries that carry its
-- state, and the conversions between its types and those of the wire.
--
-- The crates build an MCP server and client. A transport reads JSON-RPC messages, strips from their
-- `_meta` what only the transport may assert, and injects the connection and the session. The
-- server's dispatcher routes each request to a handler, widens the handler's result to the types of
-- the request's protocol version, and keeps its state in registries: the sessions of protocol
-- version 2025-11-25, the requests in flight, the tasks of both protocol versions, and the
-- subscriptions, whose notifications it sends through the table of the connections' writers. A
-- request that needs input of the client carries signed state. The client keeps a cache of
-- responses that the server's notifications invalidate.
--
-- Files and code, with paths from the repository's root:
--   Prelude        shared types, keys, hash maps (association lists), decimal text
--   Core           crates/turbomcp-core/src: protocol_version.rs, error.rs, jsonrpc.rs, meta.rs,
--                  identity.rs and context.rs; crates/turbomcp-protocol/src/methods.rs;
--                  crates/turbomcp-service/src/error.rs (`ProtocolError`);
--                  crates/turbomcp-server/src/dispatcher/mod.rs (`classify_version`)
--   DraftTasks     crates/turbomcp-ext-tasks/src: wire.rs, store.rs (`DraftTaskStore`) and
--                  subs.rs (`TaskSubscriptions`)
--   LegacyTasks    crates/turbomcp-server/src/tasks.rs (`TaskStore`)
--   Sessions       crates/turbomcp-server/src: session.rs (`SessionStore`) and inflight.rs
--   Client         crates/turbomcp-client/src/cache.rs (`ResponseCache`)
--   RequestState   crates/turbomcp-server/src/mrtr.rs (`StateSigner`, `PendingRequests`)
--   Subscriptions  crates/turbomcp-server/src: subscriptions.rs and logging.rs;
--                  crates/turbomcp-service/src/outbound.rs
--   Headers        crates/turbomcp-service/src/mcp_headers.rs
--   Neutral        crates/turbomcp-protocol/src/neutral.rs, with the records of draft/types.rs and
--                  v2025_11_25/types.rs that its conversions use
--   Dispatcher     crates/turbomcp-server/src: the files of dispatcher/, router.rs, extension.rs
--                  and context.rs, with the constructors of `ClientHandle` (mrtr.rs) and of
--                  `ProgressReporter` (progress.rs)
--   Tests          concrete JSON values, clocks and cryptography, and the theorems applied to them
--
-- A component's state is a record with the source's fields, and each operation is a function of the
-- same name from a state to a state, its result and its effects on shared objects (cancellation
-- tokens, channels, writers), which are numbers. An operation of a registry runs under one lock in
-- the source, so that an interleaving of clients is a sequence of operations; `publish`,
-- `push_status` and `close_all`, which send after they release the lock, are modelled for runs that
-- no other operation enters. Clock readings, identifiers that other crates mint, and whether a
-- channel is open are arguments. JSON values, the wall clock, base64 and HMAC belong to crates
-- outside the repository: they are the interfaces Core/Json, Core/Host, Headers,
-- RequestState/Signer, Neutral/Serde and Dispatcher/Platform, with the laws that the code relies
-- on. A hash map is an association list whose order stands for the unspecified iteration order.
--
-- The dispatcher is `handle` of Dispatcher/Handle: a function of the shared state, of the readings
-- of one message (clocks, minted identifiers, the table of the writers) and of the message.
-- Handlers and extensions are functions whose runs leave the shared state alone. A message is
-- handled without others in between; whether its token is fired before its dispatch or during it is
-- a reading. A `tasks/result` that must wait gives the channel that it waits on, so that its wait
-- is a sequence of handlings. What a spawned call does later is its outcome in the state's effects
-- and `finish_task`.
--
-- The loop of `publish_input` that makes a key unique runs on fuel, one round more than there are
-- used keys, which is enough. Its counter is 32 bits wide, and cursors are 64-bit numbers: the
-- theorems that need them in range say so. `wait_result` is a function of the rounds that it gets.
--
-- Not modelled: async drivers and transports, the derives of serde (but for the choice of the
-- variant of a content block and for an optional value that is null, Neutral/*/Received), the
-- generated protocol types that no modelled code uses, macros, telemetry, the client's connection,
-- what a handler does with its `ClientHandle`, and the builders that assemble a server.
pub mod Prelude
pub mod Core
pub mod DraftTasks
pub mod LegacyTasks
pub mod Sessions
pub mod Client
pub mod RequestState
pub mod Subscriptions
pub mod Headers
pub mod Neutral
pub mod Dispatcher
pub mod Tests
