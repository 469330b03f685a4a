-- ===== src/Mcp/Deleting.antt =====
-- `deleteMessages` of src/mcp.ts against the inbox endpoints of the local server: GET /api/inbox, where
-- it is to find the messages that are read, and POST /api/inbox/delete.
use inter_claude_connector.Base.{
  ℕ, String, ◌≡◌, refl, ap, ◌∙◌, inl, inr, Bool, true, not, Option, none, some, List, [], ◌∷◌, ◌++◌,
  map, ltb, if◌then◌else◌, Bool-cases, or_else, length, filter, includes,
}
use inter_claude_connector.Messages.{InboxMessage}
use inter_claude_connector.InboxDb.{has_id_in, db_remove}
use inter_claude_connector.Inbox.{Host, Inbox}
use inter_claude_connector.Inbox.Operations.{remove}
use inter_claude_connector.Inbox.Reading.{db-update_signal_file}
use inter_claude_connector.Server.{Config, Body, Reply, listing, deleted}
use inter_claude_connector.Server.Messages.{list_inbox, delete_inbox}
use inter_claude_connector.Mcp.Checking.{query_of, mark_body}

-- The identifiers that are not there yet, put behind those that are.
unfoldable pub add_ids : (to_delete ids : List String) → List String
add_ids to_delete [] = to_delete
add_ids to_delete (id ∷ ids) =
    add_ids (if includes to_delete id then to_delete else to_delete ++ id ∷ []) ids

abbrev pub read_ids : List InboxMessage → List String
read_ids ms = map (λ m. m.id) (filter (λ m. m.read) ms)

abbrev pub delete_body : (ids : List String) → Body
delete_body ids = record (mark_body ids "") { reader = none }

abbrev pub deleted_count : Reply → Option ℕ
deleted_count (deleted n) = some n
deleted_count _ = none

module _ (host : Host) (config : Config) where
  -- The identifiers to delete; none is an error of the listing.
  unfoldable pub collect :
      (ids : Option (List String)) (purge_read : Bool) (instance_name : Option String)
      → Inbox
      → Option (List String)
  unfolding add_ids
  collect ids purge_read instance_name s =
      if not purge_read
      then some (or_else ids [])
      else elim (list_inbox host config (query_of true instance_name none) s) [
        | listing ms _ ↦ some (add_ids (or_else ids []) (read_ids ms))
        | _ ↦ none
      ]

  unfoldable pub delete_all : List String → Inbox → Option ℕ × Inbox
  delete_all [] s = (some 0, s)
  delete_all (id ∷ ids) s =
      let (reply, s') = delete_inbox host config (some (delete_body (id ∷ ids))) s in
      (deleted_count reply, s')

  -- How many messages are deleted; none is an error.
  unfoldable pub delete_messages :
      (ids : Option (List String)) (purge_read : Bool) (instance_name : Option String)
      → Inbox
      → Option ℕ × Inbox
  unfolding collect delete_all
  delete_messages ids purge_read instance_name s = elim (collect ids purge_read instance_name s) [
    | none ↦ (none, s)
    | some to_delete ↦ delete_all to_delete s
  ]

  keep_all : (rows : List InboxMessage) → rows ≡ filter (λ m. not (has_id_in [] m)) rows
  keep_all [] = refl
  keep_all (m ∷ rows) = ap (λ l. m ∷ l) (keep_all rows)

  -- Deleting leaves the messages of the table whose identifier is not among the ones to delete.
  pub db-delete_all :
      (ids : List String) (s : Inbox) (rows : List InboxMessage)
      → s.db ≡ some rows
      → (delete_all ids s).1.db ≡ some (filter (λ m. not (has_id_in ids m)) rows)
  unfolding delete_all delete_inbox remove db_remove
  db-delete_all [] s rows h = h ∙ ap some (keep_all rows)
  db-delete_all (id ∷ ids) s rows h =
      let left = filter (λ m. not (has_id_in (id ∷ ids) m)) rows in
      let s' : Inbox = record s { db = some left } in
      elim (Bool-cases (ltb 0 (length (filter (has_id_in (id ∷ ids)) rows)))) [
        | inl some_deleted ↦ rw (remove, h, some_deleted) (db-update_signal_file host s')
        | inr none_deleted ↦ rw (remove, h, none_deleted) refl
      ]
