-- ===== src/Mcp.antt =====
-- The message tools of src/mcp.ts: `resolvePeer` and `sendMessage`; the modules below have the others.
-- The two API functions that the tools are given are a record of operations on a state `W`, which
-- stands for whatever the requests change; requests of one `Promise.allSettled` take effect in the
-- order in which they are made. A result of a tool is what its text says.
pub mod Replying
pub mod Network
pub mod Sending
pub mod Multicast
pub mod Unread
pub mod Checking
pub mod Deleting
pub mod Arrival
pub mod Delivery
mod Tests
use Prim.Native.String
use inter_claude_connector.Base.{
  ℕ, String, Bool, true, false, not, ◌&&◌, Option, none, some, List, [], ◌∷◌, ◌==◌, nat_eq,
  if◌then◌else◌, truthy, or_else, is_text, length, filter,
}
use inter_claude_connector.Dict.{keys}
use inter_claude_connector.Messages.{InboxMessageStatus, MessageMeta, InboxMessage}
use inter_claude_connector.Address.{parse_address}
use inter_claude_connector.Exec.{starts_with}
use inter_claude_connector.Inbox.Operations.{InboxPushInput}
use inter_claude_connector.Server.{Config}

-- What is thrown: by `resolvePeer`, by a request that gets no answer, or for an answer with a status
-- of 400 or more.
pub data Failure : Type 0 where
  multiple_peers : List String → Failure
  rejected : String → Failure
  http_error : ℕ → Failure

pub data Outcome (A : Type 0) : Type 0 where
  failed : Failure → Outcome A
  fulfilled : A → Outcome A

-- `localAPIFn` and `peerAPIFn` at the requests that the tools make: GET /api/inbox/:id and
-- GET /api/inbox?all=true on the local server, POST /api/inbox there or on a peer, which gives the
-- identifier of the message.
pub record Api (W : Type 0) : Type 0 where
  pub lookup : String → W → Outcome (Option InboxMessage) × W
  pub all_messages : W → Outcome (List InboxMessage) × W
  pub post : Option String → InboxPushInput → W → Outcome String × W

-- Where the argument `to` is a text or a list of texts, or absent.
pub data Recipients : Type 0 where
  nobody : Recipients
  one : String → Recipients
  many : List String → Recipients

pub data ToolResult : Type 0 where
  sent : (target id thread_id : String) → ToolResult
  multicast :
      (total : ℕ) (delivered : List (String × String)) (not_delivered : List (String × Failure))
      (thread_id : String)
      → ToolResult
  no_recipients : ToolResult
  tool_error : Failure → ToolResult

abbrev pub is_error : ToolResult → Bool
is_error (sent _ _ _) = false
is_error (multicast total delivered not_delivered _) = nat_eq (length not_delivered) total
is_error no_recipients = false
is_error (tool_error _) = true

abbrev pub recipients_of : Recipients → List String
recipients_of nobody = []
recipients_of (one to) = if to == "" then [] else to ∷ []
recipients_of (many to) = to

unfoldable pub sole_peer : List String → Outcome (Option String)
sole_peer [] = fulfilled none
sole_peer (peer ∷ []) = fulfilled (some peer)
sole_peer (p ∷ q ∷ peers) = failed (multiple_peers (p ∷ q ∷ peers))

-- The host of an address, or none where it is the local one.
abbrev pub other_host : (identity address : String) → Option String
other_host identity address =
    if is_text (parse_address address).host identity then none else (parse_address address).host

unfoldable pub resolve_peer : Config → (peer to : Option String) → Outcome (Option String)
unfolding sole_peer
resolve_peer config peer to = elim (truthy peer) [
  | some peer ↦ fulfilled (some peer)
  | none ↦ elim (truthy to) [
    | some address ↦ fulfilled (other_host config.identity address)
    | none ↦ sole_peer (keys config.remotes)
  ]
]

-- The first message whose identifier starts with the text.
unfoldable pub find_prefix : String → List InboxMessage → Option InboxMessage
find_prefix prefix [] = none
find_prefix prefix (m ∷ ms) =
    let rest = find_prefix prefix ms in if starts_with prefix m.id then some m else rest

-- `message?.threadId || randomUUID()`
abbrev pub thread_or : String → Option InboxMessage → String
thread_or uuid none = uuid
thread_or uuid (some m) = or_else (truthy m.thread_id) uuid

-- The results of `Promise.allSettled` that are fulfilled, and those that are not.
unfoldable pub succeeded : List (String × Outcome String) → List (String × String)
succeeded [] = []
succeeded ((recipient, fulfilled id) ∷ results) = (recipient, id) ∷ succeeded results
succeeded ((recipient, failed _) ∷ results) = succeeded results

unfoldable pub failed_entries : List (String × Outcome String) → List (String × Failure)
failed_entries [] = []
failed_entries ((recipient, fulfilled _) ∷ results) = failed_entries results
failed_entries ((recipient, failed e) ∷ results) = (recipient, e) ∷ failed_entries results

abbrev pub recipients_meta : List String → MessageMeta
recipients_meta recipients = record {
  type = none;
  original_id = none;
  read_at = none;
  recipients = recipients;
}

-- `[...new Set(texts)]`
unfoldable pub distinct : List String → List String
distinct [] = []
distinct (s ∷ ss) = s ∷ filter (λ t. not (t == s)) (distinct ss)

-- The targets of a reply to all: the sender and the other recipients, without this address.
unfoldable pub reply_targets : (full_address to : String) (recipients : List String) → List String
unfolding distinct
reply_targets full_address to recipients =
    distinct (filter (λ a. not (a == "") && not (a == full_address)) (to ∷ recipients))

abbrev pub payload_for :
    (full_address body : String) (reply_to : Option String) (status : Option InboxMessageStatus)
    (thread_id : String) (meta : Option MessageMeta) (to : Option String)
    → InboxPushInput
payload_for full_address body reply_to status thread_id meta to = record {
  from = full_address;
  to = truthy to;
  body = body;
  reply_to = truthy reply_to;
  thread_id = some thread_id;
  status = status;
  meta = meta;
}

module _ {W : Type 0} (api : Api W) (config : Config) (full_address : String) where
  -- The request for one recipient.
  unfoldable pub post_to : InboxPushInput → (to : Option String) → W → Outcome String × W
  unfolding resolve_peer
  post_to payload to w = elim (resolve_peer config none to) [
    | failed e ↦ (failed e, w)
    | fulfilled peer ↦ api.post (truthy peer) payload w
  ]

  unfoldable pub post_each :
      (String → InboxPushInput) → List String → W → List (String × Outcome String) × W
  unfolding post_to
  post_each payload [] w = ([], w)
  post_each payload (recipient ∷ recipients) w =
      let (result, w') = post_to (payload recipient) (some recipient) w in
      let (results, w'') = post_each payload recipients w' in ((recipient, result) ∷ results, w'')

  unfoldable pub send_multicast :
      (String → InboxPushInput)
      → (thread_id : String) (recipients : List String) → W
      → ToolResult × W
  unfolding post_each succeeded failed_entries
  send_multicast payload thread_id recipients w =
      let (results, w') = post_each payload recipients w in
      (multicast (length recipients) (succeeded results) (failed_entries results) thread_id, w')

  unfoldable pub send_single :
      InboxPushInput → (thread_id : String) (to : Option String) → W → ToolResult × W
  send_single payload thread_id to w = elim (resolve_peer config none to) [
    | failed e ↦ (tool_error e, w)
    | fulfilled peer ↦
        let (result, w') = api.post (truthy peer) payload w in
        elim result [
          | failed e ↦ (tool_error e, w')
          | fulfilled id ↦ (
            sent (or_else (truthy to) (String.◌++◌ (or_else (truthy peer) "local") " host")) id
                thread_id,
            w',
          )
        ]
  ]

  -- The thread of a new message: its parent's, where that is found and has one.
  unfoldable pub thread_for : (uuid : String) (reply_to : Option String) → W → String × W
  unfolding find_prefix
  thread_for uuid reply_to w = elim (truthy reply_to) [
    | none ↦ (uuid, w)
    | some parent ↦
        let (found, w') = api.lookup parent w in
        elim found [
          | fulfilled m ↦ (thread_or uuid m, w')
          | failed _ ↦
              let (listed, w'') = api.all_messages w' in
              elim listed [
                | failed _ ↦ (uuid, w'')
                | fulfilled ms ↦ (thread_or uuid (find_prefix parent ms), w'')
              ]
        ]
  ]

  unfoldable pub send_by_number :
      (body : String) (reply_to : Option String) (status : Option InboxMessageStatus)
      (thread_id : String) (recipients : List String)
      → W
      → ToolResult × W
  unfolding send_multicast send_single
  send_by_number body reply_to status thread_id [] w =
      send_single (payload_for full_address body reply_to status thread_id none none) thread_id none
        w
  send_by_number body reply_to status thread_id (to ∷ []) w =
      send_single (payload_for full_address body reply_to status thread_id none (some to)) thread_id
        (some to) w
  send_by_number body reply_to status thread_id (a ∷ b ∷ recipients) w =
      send_multicast
        (λ to.
          record (payload_for full_address body reply_to status thread_id
            (some (recipients_meta (a ∷ b ∷ recipients))) none) { to = some to })
        thread_id (a ∷ b ∷ recipients) w

  unfoldable pub send_message :
      (uuid body : String) (reply_to : Option String) (to : Recipients)
      (status : Option InboxMessageStatus)
      → W
      → ToolResult × W
  unfolding thread_for send_by_number
  send_message uuid body reply_to to status w =
      let (thread_id, w') = thread_for uuid reply_to w in
      send_by_number body reply_to status thread_id (recipients_of to) w'
