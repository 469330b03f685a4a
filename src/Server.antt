-- ===== src/Server.antt =====
-- src/server.ts: the HTTP server of one host. This module has what a request and a reply are, and
-- the state: the configuration, the inbox, the registry and the long polls. A response object is a
-- number. What `new URL` and `JSON.parse` make of a request is part of the request.
pub mod Auth
pub mod Messages
pub mod Posting
pub mod Watch
pub mod Waking
pub mod Routes
pub mod Administration
pub mod Handler
pub mod Open
pub mod Access
mod Tests
use inter_claude_connector.Base.{ℕ, String, Bool, Option, List}
use inter_claude_connector.Dict.{Dict}
use inter_claude_connector.Messages.{InboxMessageStatus, InboxMessage}
use inter_claude_connector.Inbox.{Host, Inbox}
use inter_claude_connector.Inbox.Operations.{InboxPushInput}
use inter_claude_connector.Registry.{RegistryEntry, Registry}
use inter_claude_connector.Registry.Legacy.{Processes}
use inter_claude_connector.Registry.Sessions.{SessionRegisterResult}

-- The parts of the configuration that the handlers read. `ca` is `tls.ca`; a remote is its URL and
-- its token.
pub record Config : Type 0 where
  pub identity : String
  pub local_token : Option String
  pub peer_tokens : Dict String
  pub ca : Option String
  pub remotes : Dict (String × String)

-- `AuthResult` of src/types.ts.
pub record AuthResult : Type 0 where
  pub authenticated : Bool
  pub identity : Option String

-- The body of POST /api/mesh-update.
pub record MeshUpdate : Type 0 where
  pub action : String
  pub peer_identity : Option String
  pub https_url : Option String
  pub peer_token : Option String
  pub outbound_token : Option String

-- What the handlers read of `JSON.parse(body)`: a field is none where it is absent. `inbox_post` and
-- `registry_post` are what the two schemas make of the body.
pub record Body : Type 0 where
  pub inbox_post : Option InboxPushInput
  pub registry_post : Option (String × ℕ)
  pub ids : Option (List String)
  pub all : Bool
  pub instance_name : Option String
  pub reader : Option String
  pub session_token : Option String
  pub pid : ℕ
  pub force : Bool
  pub name : Option String
  pub peer_update : MeshUpdate

-- `mcp_session_id` is the header. `query` has the search parameters of the URL, `url` is what is before them. A body that cannot be
-- read or parsed is none.
pub record Request : Type 0 where
  pub method : String
  pub url : String
  pub authorization : Option String
  pub mcp_session_id : Option String
  pub query : Dict String
  pub body : Option Body

-- A reply with its status. `refused` has an error text besides. `elsewhere` is the reply of an
-- endpoint that the model has no more of.
pub data Reply : Type 0 where
  refused : (status : ℕ) → Reply
  preflight setup_payload done elsewhere pending : Reply
  posted : (id : String) (thread_id : Option String) (status : Option InboxMessageStatus) → Reply
  listing : (messages : List InboxMessage) (unread_count : ℕ) → Reply
  one_message : InboxMessage → Reply
  marked deleted : ℕ → Reply
  peer_added : String → Reply
  registry_entries : List RegistryEntry → Reply
  entry : RegistryEntry → Reply
  flag : Bool → Reply
  session : SessionRegisterResult → Reply
  startup_status : (unread_count : ℕ) → Reply
  mail : (unread_count : ℕ) → Reply
  duplicate snoozed stale_token : Reply
  challenge_token : String → Reply
  mcp_served : (session : String) → Reply

-- `watchers` is `activeWatchers`: the response that waits for a session token. `waits` has the
-- session token that the handlers of a long poll's response have captured. `sent` has the replies
-- to responses other than the one of the request at hand. `mcp_enabled` says that `createMcpSession`
-- is there, `mcp_sessions` has the identifiers of the MCP sessions, and `tls_dir` the TLS files.
pub record Server : Type 0 where
  pub config : Config
  pub inbox : Inbox
  pub registry : Registry
  pub setup_token : Option String
  pub watchers : Dict ℕ
  pub waits : ℕ → Option (Option String)
  pub sent : List (ℕ × Reply)
  pub mcp_enabled : Bool
  pub mcp_sessions : List String
  pub tls_dir : Dict String

-- What `handleRequest` of a session's transport does with a request: it answers it, it answers it and
-- closes the session, or it throws before an answer is begun.
pub data McpOutcome : Type 0 where
  mcp_handled mcp_closed mcp_thrown : McpOutcome

-- What the handlers ask of their surroundings: the clock, the identifier that the next message
-- gets, the token that a new session gets, the number of the response at hand, the processes, the
-- configuration that `loadConfig` reads from disk, after `writeConfig` of the given one if there is
-- one, `parseInt` with 0 for NaN, which is no process's number, and the surroundings of the inbox.
-- `new_mcp_session` is the identifier that `createMcpSession` gives, with none where it throws,
-- `mcp_transport` is the transport of a session, and `challenge_written` the time when the file
-- of the challenge was written, with none where that cannot be read.
pub record Surroundings : Type 0 where
  pub now : ℕ
  pub message_id : String
  pub fresh_token : String
  pub response : ℕ
  pub processes : Processes
  pub reload : Option Config → Config
  pub parse_int : String → ℕ
  pub new_mcp_session : Option String
  pub mcp_transport : (session : String) → Request → McpOutcome
  pub challenge_written : Option ℕ
  pub host : Host
