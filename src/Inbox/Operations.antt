-- ===== src/Inbox/Operations.antt =====
-- The operations of src/inbox.ts on messages. An operation that throws returns none; what it
-- changed before is then lost in the model, which matters nowhere: the first call that can throw
-- is the first that reads or writes the database.
use inter_claude_connector.Base.{
  ℕ, ◌-◌, ◌*◌, String, Bool, true, false, not, ◌&&◌, Option, none, some, List, [], ◌∷◌, ◌++◌, map,
  ltb, if◌then◌else◌, truthy, or_else, is_some, filter,
}
use inter_claude_connector.Messages.{InboxMessageStatus, MessageMeta, InboxMessage, is_receipt}
use inter_claude_connector.Address.{address_matches}
use inter_claude_connector.InboxDb.{
  db_insert, db_get_all, db_get_unread, db_get_by_id, db_get_by_ids, db_mark_read, db_mark_all_read,
  db_remove, db_get_read_older_than, db_get_unread_older_than, db_get_receipts_older_than,
}
use inter_claude_connector.Inbox.{Host, Inbox}
use inter_claude_connector.Inbox.Signals.{unique_from, update_signal_file}

-- `InboxPushInput`
pub record InboxPushInput : Type 0 where
  pub from : String
  pub to : Option String
  pub body : String
  pub reply_to : Option String
  pub thread_id : Option String
  pub status : Option InboxMessageStatus
  pub meta : Option MessageMeta

-- The two fields of `GetOptions` that filter by address; both have to be given and not be empty.
pub record AddressFilter : Type 0 where
  pub for_address : Option String
  pub server_identity : Option String

abbrev pub no_filter : AddressFilter
no_filter = record { for_address = none; server_identity = none }

unfoldable pub apply_filter : AddressFilter → List InboxMessage → List InboxMessage
apply_filter f msgs = elim (truthy f.for_address) [
  | none ↦ msgs
  | some address ↦ elim (truthy f.server_identity) [
    | none ↦ msgs
    | some identity ↦ filter (λ m. address_matches m.to address identity) msgs
  ]
]

-- Both fields are given: the test of `markAllRead`.
abbrev pub is_filter : AddressFilter → Bool
is_filter f = is_some (truthy f.for_address) && is_some (truthy f.server_identity)

abbrev pub is_empty : List String → Bool
is_empty [] = true
is_empty (_ ∷ _) = false

abbrev pub day_ms : ℕ
day_ms = 24 * 60 * 60 * 1000

-- The message that `push` makes, with `id` from `randomUUID` and the time as a text.
abbrev pub full_message : (id timestamp : String) → InboxPushInput → InboxMessage
full_message id timestamp message = record {
  id = id;
  from = message.from;
  to = or_else message.to "";
  timestamp = timestamp;
  body = message.body;
  reply_to = truthy message.reply_to;
  thread_id = message.thread_id;
  status = message.status;
  meta = message.meta;
  read = false;
}

module _ (host : Host) where
  -- The loop over the subscribers: each callback is called, and one that throws is dropped.
  unfoldable pub notify_subscribers : InboxMessage → Inbox → Inbox
  notify_subscribers m s = record s {
    delivered = s.delivered ++ map (λ c. (c, m)) s.subscribers;
    subscribers = filter (λ c. not (host.throws c)) s.subscribers;
  }

  -- The part of `push` that is left out for a silent message.
  unfoldable pub announce : InboxMessage → Inbox → Inbox
  unfolding update_signal_file
  announce m s =
      let s' = update_signal_file host.can_write s in
      if s'.has_notifier then record s' { notified = s'.notified ++ m ∷ [] } else s'

  unfoldable pub push :
      (now : ℕ) (id : String) (silent : Bool)
      → InboxPushInput
      → Inbox
      → Option (InboxMessage × Inbox)
  push now id silent message s = elim s.db [
    | none ↦ none
    | some rows ↦
        let full = full_message id (host.to_iso now) message in
        elim (db_insert full rows) [
          | none ↦ none
          | some rows' ↦
              let s' = record s { db = some rows' } in
              some (full, notify_subscribers full (if silent then s' else announce full s'))
        ]
  ]

  unfoldable pub get_unread : (from : Option String) → AddressFilter → Inbox → List InboxMessage
  get_unread from f s = elim s.db [
    | none ↦ []
    | some rows ↦ apply_filter f (db_get_unread (truthy from) rows)
  ]

  unfoldable pub get_all : AddressFilter → Inbox → List InboxMessage
  get_all f s = elim s.db [ none ↦ [] | some rows ↦ apply_filter f (db_get_all rows) ]

  unfoldable pub get_by_id : String → Inbox → Option InboxMessage
  get_by_id id s = elim s.db [ none ↦ none | some rows ↦ db_get_by_id id rows ]

  -- `sendReceipts`; what the sender throws is caught.
  unfoldable pub receipts_for : List InboxMessage → Option String → List (InboxMessage × String)
  receipts_for [] reader = []
  receipts_for (m ∷ ms) reader =
      let rest = receipts_for ms reader in
      if is_receipt m then rest else (m, or_else reader "") ∷ rest

  unfoldable pub send_receipts : List InboxMessage → Option String → Inbox → Inbox
  unfolding receipts_for
  send_receipts msgs reader s =
      if not s.has_receipt_sender
      then s
      else record s { receipts = s.receipts ++ receipts_for msgs reader }

  -- What `markRead` and `markAllRead` do once the rows are updated.
  unfoldable pub after_marking : ℕ → List InboxMessage → Option String → Inbox → Inbox
  after_marking count newly_read reader s =
      if ltb 0 count
      then send_receipts newly_read reader (update_signal_file host.can_write s)
      else s

  unfoldable pub mark_read : List String → Option String → Inbox → Option (ℕ × Inbox)
  unfolding db_mark_read
  mark_read ids reader s = elim s.db [
    | none ↦ if is_empty ids then some (0, s) else none
    | some rows ↦
        let before = filter (λ m. not m.read) (db_get_by_ids ids rows) in
        let (count, rows') = db_mark_read ids rows in
        some (count, after_marking count before reader (record s { db = some rows' }))
  ]

  unfoldable pub mark_all_read : AddressFilter → Option String → Inbox → Option (ℕ × Inbox)
  mark_all_read f reader s = elim s.db [
    | none ↦ if is_filter f then some (0, s) else none
    | some rows ↦
        let newly_read = if is_filter f then get_unread none f s else db_get_unread none rows in
        let (count, rows') =
          if is_filter f
          then db_mark_read (map (λ m. m.id) newly_read) rows
          else db_mark_all_read rows in
        some (count, after_marking count newly_read reader (record s { db = some rows' }))
  ]

  unfoldable pub remove : List String → Inbox → Option (ℕ × Inbox)
  remove ids s = elim s.db [
    | none ↦ if is_empty ids then some (0, s) else none
    | some rows ↦
        let (count, rows') = db_remove ids rows in
        let s' = record s { db = some rows' } in
        some (count, if ltb 0 count then update_signal_file host.can_write s' else s')
  ]

  -- `purgeStale` for `maxAgeDays`.
  unfoldable pub purge_stale : (now max_age_days : ℕ) → Inbox → Option (ℕ × Inbox)
  purge_stale now max_age_days s = elim s.db [
    | none ↦ none
    | some rows ↦
        let stale_cutoff = host.to_iso (now - max_age_days * day_ms) in
        let archive_cutoff = host.to_iso (now - 1 * day_ms) in
        let to_archive =
          filter (λ m. not (is_receipt m)) (db_get_read_older_than archive_cutoff rows) in
        let remove_ids = unique_from [] (
          map (λ m. m.id)
            (to_archive
              ++ (db_get_unread_older_than stale_cutoff rows
                  ++ db_get_receipts_older_than archive_cutoff rows))) in
        let s' = record s { archive = s.archive ++ to_archive } in
        let (count, rows') = db_remove remove_ids rows in
        let s'' = record s' { db = some rows' } in
        if is_empty remove_ids
        then some (0, s')
        else some (count, if ltb 0 count then update_signal_file host.can_write s'' else s'')
  ]
