-- ===== src/Lib.antt =====
-- Inter-Claude Connector: sessions of Claude Code on several hosts send each other messages. Each
-- host runs an HTTP server (src/server.ts) with an inbox (src/inbox.ts on src/inbox-db.ts) and a
-- registry of its sessions (src/registry.ts). A message is posted to the server of the host that its
-- address names; the server checks who posts, stores the message, rewrites the signal files that
-- hooks read, and answers the long polls of the sessions that wait. Another server
-- (src/enroll.ts) gives certificates to new hosts.
--
-- The files:
--   Base      the names that the modules share, and JavaScript's conditional, truthiness and arrays
--   Dict      JavaScript's Map and plain objects: entries in the order of insertion
--   Address   src/address.ts: parseAddress, buildAddress, addressMatches
--   Registry  src/registry.ts. The registration objects are on a heap, since the map and the timers
--             share them; pending timers are in the state and `fire` runs one. Registry/Sessions has
--             the operations on session tokens, Registry/Legacy those on process numbers,
--             Registry/Events the runs of any operations, and the others the invariant.
--   Messages  InboxMessage of src/types.ts
--   InboxDb   src/inbox-db.ts: the table is the list of its rows in the order of insertion, and each
--             query a function of it; an insert that violates the primary key gives none
--   Inbox     src/inbox.ts: Inbox/Signals has the signal files, Inbox/Operations the operations on
--             messages, Inbox/Lifecycle init, reset and the subscriptions
--   Server    src/server.ts: Server/Auth says who makes a request, Server/Messages has the
--             endpoints of the inbox, Server/Watch the long polls and the session hooks,
--             Server/Routes and Server/Handler the dispatch, the setup, /mcp and the challenge,
--             Server/Administration the registry's endpoints and the changes of the configuration
--   Enroll    src/enroll.ts: a request that verifies a challenge is two steps, up to its await and
--             behind it; Enroll/Joining has the invitations
--   Exec      src/util/exec.ts: the gates in front of reading files and running commands;
--             Exec/Endpoints has the two endpoints of src/server.ts behind which they stand
--   Instances src/instances.ts: resolve, and sanitize in Instances/Sanitize
--   Mesh      src/enroll.ts and bin/icc.ts: the tokens and addresses that a completed join gives to
--             the authority, the new host and the others
--   Mcp       src/mcp.ts: sendMessage and respondToMessage over an interface of API functions, which
--             Mcp/Network implements by peerAPI in front of the handler of Server, and checkMessages and
--             deleteMessages over the inbox endpoints
--   Peers     src/peers.ts and src/client.ts: the transports to the peers and their refresh
--   Web       src/web.ts: login sessions, the targets of requests, and the request handler
--   Json      JSON values, with deepMerge of src/config.ts, getSubtree of src/manifest.ts, setSubtree of
--             bin/icc.ts and canonicalJson of src/setup-config.ts
--   Protocol  src/protocol.ts, with POST /api/message, the transport's `send` and the client's `ping`
--   Tls       src/tls.ts: the directory of keys and certificates. Tls/Renewing has renewIfNeeded and
--             buildCaEnrollUrl of src/server.ts, Tls/Challenge the challenge that src/server.ts serves and
--             src/enroll.ts compares, over the state of Enroll, and httpJSON of src/util/http.ts, which
--             reaches an authority at an http URL only
--   Manifest  src/manifest.ts: Manifest/Migration has migrateClaudeMd; a regular expression is a
--             function by recursion on the text
--   Cli       bin/icc.ts: the flags and the files of ~/.icc; Cli/Watching has the watcher, Cli/Hooks
--             the other hooks
--   Strings   trim, split and the like of JavaScript's strings
--   Configuration  src/config.ts: the overrides by the environment, the cache, writing and loading
--   InboxDb/Store has the statements as they act on a map of messages; TextOrder is about the order
--   of texts, and Samples has data for the tests.
-- The other modules under these have the proofs, and modules named Tests the laws at concrete values.
--
-- A state is a record and an operation takes it and gives it back; what the code sends out is
-- appended to lists of the state in the order of the calls. An operation that throws gives none, or
-- the reply of the handler's catch. Times are numbers in milliseconds, and the clock, random tokens
-- and identifiers are given by the caller. The one loop that is on fuel is the search of a free name
-- in Instances; none says that it has not ended, and the theorems about its result ask for a result.
--
-- Parameters stand for what the repository does not have: the processes of the host, the answer of
-- the file system to a write, `toISOString`, `Buffer.from` (different texts have different buffers),
-- `resolve` of node:path, `toLowerCase`, SHA-256, the transport of the MCP library, and openssl, whose
-- runs say what they write to which file. What `JSON.parse`, `new URL` and the zod schemas make of a
-- request is part of the request.
--
-- Not modelled: SQLite itself; the pages of src/web.ts; the other tools of src/mcp.ts and the wording of
-- all results; in bin the sync hook, the advice of two hooks, the commands that print answers of the
-- API and the dialogues; Docker; notifications and logs; the checks of the configuration file's mode and
-- its TLS options; timeouts and errors of connections. In src/server.ts the endpoints for help and health
-- and the two hooks that answer with advice have a reply without content in the model of the handler,
-- since they change nothing of its state, and so have those that are modelled apart: files and commands in
-- Exec/Endpoints, and POST /api/message in Protocol. Of /mcp the token and the sessions are modelled;
-- the transport that answers is a parameter. Writing the configuration, the TLS files and the files
-- of ~/.icc is taken to succeed. Texts are sequences of code points where JavaScript has UTF-16 units, so
-- lengths, cuts and orders of texts are those of the source for characters of the basic plane. In Enroll
-- `signCSR` is a function given by the caller. Requests that one tool makes at once take effect in the
-- order in which they are made.
pub mod Base
pub mod Dict
pub mod Address
pub mod Registry
pub mod Messages
pub mod InboxDb
pub mod TextOrder
pub mod Inbox
pub mod Server
pub mod Enroll
pub mod Exec
pub mod Instances
pub mod Samples
pub mod Mesh
pub mod Mcp
pub mod Peers
pub mod Web
pub mod Json
pub mod Protocol
pub mod Configuration
pub mod Strings
pub mod Tls
pub mod Manifest
pub mod Cli
