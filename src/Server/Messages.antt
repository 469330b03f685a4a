-- ===== src/Server/Messages.antt =====
-- The handlers of src/server.ts for the inbox: POST and GET /api/inbox, GET /api/inbox/:id,
-- POST /api/inbox/mark-read and POST /api/inbox/delete, and the count of /api/hook/startup.
use inter_claude_connector.Base.{
  ℕ, String, Bool, not, Option, none, some, List, [], ◌==◌, if◌then◌else◌, truthy, or_else, is_text,
  length, filter,
}
use inter_claude_connector.Dict.{Dict, get}
use inter_claude_connector.Messages.{InboxMessage, has_receipt_type, is_receipt}
use inter_claude_connector.Address.{parse_address, build_address}
use inter_claude_connector.InboxDb.{text_lt}
use inter_claude_connector.Inbox.{Host, Inbox}
use inter_claude_connector.Inbox.Operations.{
  InboxPushInput, AddressFilter, no_filter, push, get_unread, get_all, get_by_id, mark_read,
  mark_all_read, remove,
}
use inter_claude_connector.Server.{
  Config, AuthResult, Body, Reply, refused, posted, listing, one_message, marked, deleted,
}
use inter_claude_connector.Server.Auth.{validate_from}

-- Where a posted message goes: to this server if it does not say, and to no other host.
unfoldable pub destination : (identity : String) (to : Option String) → Option String
destination identity to = elim (truthy to) [
  | none ↦ some identity
  | some address ↦ elim (truthy (parse_address address).host) [
    | none ↦ some address
    | some host ↦ if host == identity then some address else none
  ]
]

-- The reply of an operation that gives a number, where none is an exception.
abbrev pub reply_count : (ℕ → Reply) → Option (ℕ × Inbox) → Inbox → Reply × Inbox
reply_count reply none s = (refused 400, s)
reply_count reply (some (n, s')) s = (reply n, s')

module _ (host : Host) (config : Config) where
  unfoldable pub post_inbox :
      (now : ℕ) (id : String) (auth : AuthResult) (body : Option InboxPushInput)
      → Inbox
      → Reply × Inbox
  unfolding destination
  post_inbox now id auth none s = (refused 400, s)
  post_inbox now id auth (some input) s =
      if not (validate_from auth.identity input.from)
      then (refused 403, s)
      else elim (destination config.identity input.to) [
        | none ↦ (refused 400, s)
        | some to ↦
            elim (push host now id (has_receipt_type input.meta) (record input { to = some to })
              s) [ none ↦ (refused 400, s) | some (m, s') ↦ (posted m.id m.thread_id m.status, s') ]
      ]

  -- `filterOpts`
  abbrev pub filter_opts : Option String → AddressFilter
  filter_opts instance_name = elim (truthy instance_name) [
    | none ↦ no_filter
    | some name ↦ record {
      for_address = some (build_address config.identity (some name));
      server_identity = some config.identity;
    }
  ]

  abbrev pub newer_than : Option String → List InboxMessage → List InboxMessage
  newer_than none ms = ms
  newer_than (some since) ms = filter (λ m. text_lt since m.timestamp) ms

  abbrev pub in_thread : Option String → List InboxMessage → List InboxMessage
  in_thread none ms = ms
  in_thread (some id) ms = filter (λ m. is_text m.thread_id id) ms

  abbrev pub hide_receipts : Bool → List InboxMessage → List InboxMessage
  hide_receipts hidden ms = if hidden then filter (λ m. not (is_receipt m)) ms else ms

  unfoldable pub list_inbox : (query : Dict String) → Inbox → Reply
  list_inbox query s =
      let f = filter_opts (get "instance" query) in
      let hidden = is_text (get "receipts" query) "false" in
      let msgs =
        if is_text (get "all" query) "true" then get_all host f s else get_unread host none f s in
      listing
        (in_thread (truthy (get "threadId" query))
          (newer_than (truthy (get "since" query)) (hide_receipts hidden msgs)))
        (length (hide_receipts hidden (get_unread host none f s)))

  unfoldable pub show_message : (id : String) → Inbox → Reply
  show_message id s =
      if id == ""
      then refused 400
      else elim (get_by_id host id s) [ none ↦ refused 404 | some m ↦ one_message m ]

  unfoldable pub mark_inbox : Option Body → Inbox → Reply × Inbox
  mark_inbox none s = (refused 400, s)
  mark_inbox (some body) s =
      if body.all
      then reply_count marked (mark_all_read host (filter_opts body.instance_name) body.reader s) s
      else reply_count marked (mark_read host (or_else body.ids []) body.reader s) s

  unfoldable pub delete_inbox : Option Body → Inbox → Reply × Inbox
  delete_inbox none s = (refused 400, s)
  delete_inbox (some body) s = elim body.ids [
    | none ↦ (refused 400, s)
    | some ids ↦ reply_count deleted (remove host ids s) s
  ]

-- The unread messages that are no receipts.
unfoldable pub real_unread : Host → Inbox → List InboxMessage
real_unread host s = filter (λ m. not (is_receipt m)) (get_unread host none no_filter s)
