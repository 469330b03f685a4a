-- ===== src/Mcp/Replying.antt =====
-- `respondToMessage` of src/mcp.ts.
use inter_claude_connector.Base.{
  String, Bool, true, false, ◌&&◌, Option, none, some, List, [], ◌∷◌, if◌then◌else◌, truthy,
  or_else,
}
use inter_claude_connector.Dict.{keys}
use inter_claude_connector.Messages.{InboxMessageStatus, MessageMeta, InboxMessage}
use inter_claude_connector.Inbox.Operations.{InboxPushInput}
use inter_claude_connector.Server.{Config}
use inter_claude_connector.Mcp.{
  failed, fulfilled, Api, ToolResult, sent, no_recipients, tool_error, resolve_peer, find_prefix,
  thread_or, recipients_meta, reply_targets, send_multicast,
}

-- The recipients that the original message's metadata names; an empty list counts as none.
abbrev pub original_recipients : Option InboxMessage → List String
original_recipients none = []
original_recipients (some m) = elim (m.meta) [ none ↦ [] | some meta ↦ meta.recipients ]

abbrev pub sender : Option InboxMessage → Option String
sender none = none
sender (some m) = some m.from

-- The recipients that a reply carries on. `MessageMeta` does not tell an empty list from none; the
-- source carries an empty one on, which only a client other than src/mcp.ts can have sent.
abbrev pub carried : List String → Option MessageMeta
carried [] = none
carried (r ∷ rs) = some (recipients_meta (r ∷ rs))

abbrev pub matched : (message_id : String) → Option InboxMessage → Option InboxMessage × String
matched message_id none = (none, message_id)
matched message_id (some m) = (some m, m.id)

module _ {W : Type 0} (api : Api W) (config : Config) (full_address : String) where
  -- The original message and the identifier that the reply names.
  unfoldable pub find_original : (message_id : String) → W → (Option InboxMessage × String) × W
  unfolding find_prefix
  find_original message_id w =
      let (found, w') = api.lookup message_id w in
      elim found [
        | fulfilled m ↦ ((m, message_id), w')
        | failed _ ↦
            let (listed, w'') = api.all_messages w' in
            elim listed [
              | failed _ ↦ ((none, message_id), w'')
              | fulfilled ms ↦ (matched message_id (find_prefix message_id ms), w'')
            ]
      ]

  unfoldable pub reply_to_all :
      (String → InboxPushInput) → (thread_id : String) (targets : List String) → W → ToolResult × W
  reply_to_all payload thread_id [] w = (no_recipients, w)
  reply_to_all payload thread_id (a ∷ targets) w =
      send_multicast api config full_address payload thread_id (a ∷ targets) w

  -- The API that a single reply goes to: none is the local one.
  abbrev pub route : (peer to : Option String) → Option String
  route peer to = elim (truthy peer) [
    | some p ↦ some p
    | none ↦ elim (truthy to) [
      | some _ ↦ none
      | none ↦ elim (keys config.remotes) [ p ∷ [] ↦ some p | _ ↦ none ]
    ]
  ]

  unfoldable pub reply_to_one :
      InboxPushInput → (thread_id : String) (to : Option String) → W → ToolResult × W
  reply_to_one payload thread_id to w = elim (resolve_peer config none to) [
    | failed e ↦ (tool_error e, w)
    | fulfilled peer ↦
        let (result, w') = api.post (route peer to) payload w in
        elim result [
          | failed e ↦ (tool_error e, w')
          | fulfilled id ↦ (sent (or_else (truthy to) "remote (sender unknown)") id thread_id, w')
        ]
  ]

  abbrev pub is_cons {ℓ} : {A : Type ℓ} → List A → Bool
  is_cons [] = false
  is_cons (_ ∷ _) = true

  unfoldable pub respond_to_message :
      (uuid message_id body : String) (reply_all : Bool) (status : Option InboxMessageStatus)
      → W
      → ToolResult × W
  unfolding find_original reply_to_all reply_to_one
  respond_to_message uuid message_id body reply_all status w =
      let ((original, resolved_id), w') = find_original message_id w in
      let thread_id = thread_or uuid original in
      let recipients = original_recipients original in
      let to = sender original in
      let targets = reply_targets full_address (or_else to "") recipients in
      let payload : Option MessageMeta → Option String → InboxPushInput = λ meta to. record {
        from = full_address;
        to = to;
        body = body;
        reply_to = some resolved_id;
        thread_id = some thread_id;
        status = status;
        meta = meta;
      } in
      if reply_all && is_cons recipients
      then reply_to_all (λ a. payload (some (recipients_meta targets)) (some a)) thread_id targets
          w'
      else reply_to_one (payload (carried recipients) (truthy to)) thread_id to w'
