-- ===== src/Mcp/Checking.antt =====
-- `checkMessages` of src/mcp.ts against the inbox endpoints of the local server: GET /api/inbox and
-- POST /api/inbox/mark-read. Its two requests follow one another.
use inter_claude_connector.Base.{
  String, ◌≡◌, refl, sym, ap, ◌∙◌, Bool, false, not, Option, none, some, List, [], ◌∷◌, ◌++◌, arith,
  if◌then◌else◌, truthy, length, filter,
}
use inter_claude_connector.Dict.{Dict, get}
use inter_claude_connector.Messages.{InboxMessage, has_receipt_type}
use inter_claude_connector.InboxDb.{
  order_by_timestamp, db_get_unread, update_read, unread_in, db_mark_read,
}
use inter_claude_connector.Inbox.{Host, Inbox}
use inter_claude_connector.Inbox.Reading.{db-after_marking}
use inter_claude_connector.Server.{Config, Body, listing}
use inter_claude_connector.Server.Messages.{filter_opts, list_inbox, mark_inbox}
use inter_claude_connector.Mcp.Network.{no_update}
use inter_claude_connector.Inbox.Operations.{AddressFilter, apply_filter, get_unread, mark_read}
use inter_claude_connector.Mcp.Unread.{unread_ids, apply_filter_lem, listed_unread, none_listed}

abbrev optional : (key : String) → Option String → Dict String
optional key none = []
optional key (some v) = (key, v) ∷ []

-- `params`
abbrev pub query_of : (all : Bool) (instance_name thread_id : Option String) → Dict String
query_of all instance_name thread_id =
    (if all then ("all", "true") ∷ [] else [])
    ++ optional "instance" (truthy instance_name)
    ++ optional "threadId" (truthy thread_id)

abbrev pub mark_body : (ids : List String) (reader : String) → Body
mark_body ids reader = record {
  inbox_post = none;
  registry_post = none;
  ids = some ids;
  all = false;
  instance_name = none;
  reader = some reader;
  session_token = none;
  pid = 0;
  force = false;
  name = none;
  peer_update = no_update;
}

module _ (host : Host) (config : Config) (full_address : String) where
  -- The unread messages that were listed are marked, if there are any.
  unfoldable pub mark_listed : List InboxMessage → Inbox → Inbox
  mark_listed ms s = elim (unread_ids ms) [
    | [] ↦ s
    | id ∷ ids ↦ (mark_inbox host config (some (mark_body (id ∷ ids) full_address)) s).1
  ]

  -- The messages listed, those that are no receipts before the receipts; none is an error.
  unfoldable pub check_messages :
      (all : Bool) (instance_name thread_id : Option String)
      → Inbox
      → Option (List InboxMessage × List InboxMessage) × Inbox
  unfolding mark_listed
  check_messages all instance_name thread_id s =
      elim (list_inbox host config (query_of all instance_name thread_id) s) [
        | listing ms _ ↦ (
          some (
            filter (λ m. not (has_receipt_type m.meta)) ms,
            filter (λ m. has_receipt_type m.meta) ms,
          ),
          mark_listed ms s,
        )
        | _ ↦ (none, s)
      ]

module _ (host : Host) (config : Config) (full_address : String) where
  listed_lem :
      (o : Option String) (s : Inbox)
      → list_inbox host config (optional "instance" o ++ []) s
        ≡ listing
            (get_unread host none (filter_opts host config o) s)
            (length (get_unread host none (filter_opts host config o) s))
  unfolding list_inbox get
  listed_lem none s = refl
  listed_lem (some i) s = refl

  update_nothing : (rows : List InboxMessage) → update_read (unread_in []) rows ≡ rows
  unfolding update_read
  update_nothing [] = refl
  update_nothing (m ∷ rows) = ap (λ l. m ∷ l) (update_nothing rows)

  db-mark_listed :
      (ms : List InboxMessage) (s : Inbox) (rows : List InboxMessage)
      → s.db ≡ some rows
      → (mark_listed host config full_address ms s).db
        ≡ some (update_read (unread_in (unread_ids ms)) rows)
  unfolding mark_listed mark_inbox mark_read db_mark_read
  db-mark_listed ms s rows is_open = go (unread_ids ms)
    where
      go :
          (ids : List String)
          → (elim ids as (λ _. Inbox) [
            | [] ↦ s
            | id ∷ ids ↦ (mark_inbox host config (some (mark_body (id ∷ ids) full_address)) s).1
          ]).db
            ≡ some (update_read (unread_in ids) rows)
      go [] = is_open ∙ ap some (sym (update_nothing rows))
      go (id ∷ ids) = rw (is_open, mark_inbox) (db-after_marking host _ _ _ _)

  get_unread_lem :
      (f : AddressFilter) (s : Inbox) (rows : List InboxMessage)
      → s.db ≡ some rows
      → get_unread host none f s
        ≡ apply_filter f (order_by_timestamp (filter (λ m. not m.read) rows))
  unfolding get_unread db_get_unread
  get_unread_lem f s rows is_open = ground (arith, is_open)

  abbrev told_of : List InboxMessage → Option (List InboxMessage × List InboxMessage)
  told_of ms =
      some
        (filter (λ m. not (has_receipt_type m.meta)) ms, filter (λ m. has_receipt_type m.meta) ms)

  checked :
      (instance_name : Option String) (s : Inbox)
      → let unread = get_unread host none (filter_opts host config (truthy instance_name)) s in
        check_messages host config full_address false instance_name none s
        ≡ (told_of unread, mark_listed host config full_address unread s)
  unfolding check_messages
  checked instance_name s = rw (listed_lem (truthy instance_name) s, check_messages) refl

  -- Where the inbox is open, checking the messages of an instance, or of all, tells the unread
  -- ones that are addressed to it, marks the unread rows of their identifiers as read and no
  -- others, and at the next time there are none.
  pub check_messages_again :
      (instance_name : Option String) (s : Inbox) (rows : List InboxMessage)
      → s.db ≡ some rows
      → let (told, s') = check_messages host config full_address false instance_name none s in
        let unread = get_unread host none (filter_opts host config (truthy instance_name)) s in
        (told
          ≡ some (
            filter (λ m. not (has_receipt_type m.meta)) unread,
            filter (λ m. has_receipt_type m.meta) unread,
          ))
        × (s'.db ≡ some (update_read (unread_in (unread_ids unread)) rows))
        × ((check_messages host config full_address false instance_name none s').0 ≡ some ([], []))
  check_messages_again instance_name s rows is_open =
      let f = filter_opts host config (truthy instance_name) in
      let unread = get_unread host none f s in
      let s' = mark_listed host config full_address unread s in
      let stored = db-mark_listed unread s rows is_open in
      let (match, filtered) = apply_filter_lem f in
      let first : unread ≡ listed_unread match rows =
        get_unread_lem f s rows is_open ∙ filtered _ in
      let empty : get_unread host none f s' ≡ [] =
        get_unread_lem f s' _ stored
        ∙ filtered _
        ∙ ap
            (λ ms.
              filter (λ m. match m.to)
                (order_by_timestamp
                  (filter (λ m. not m.read) (update_read (unread_in (unread_ids ms)) rows))))
            first
        ∙ none_listed match rows in
      let e = checked instance_name s in
      (
        ap (λ p. p.0) e,
        ap (λ p. p.1.db) e ∙ stored,
        ap (λ p. (check_messages host config full_address false instance_name none p.1).0) e
            ∙ ap (λ p. p.0) (checked instance_name s')
            ∙ ap told_of empty,
      )
