-- ===== src/InboxDb.antt =====
-- src/inbox-db.ts: the table `messages` as the list of its rows in the order of insertion, and each
-- SQL statement as a function of it. A row keeps the meta value itself, in place of its JSON text,
-- and `read` as a truth value. ORDER BY timestamp compares texts; rows of one timestamp keep the
-- order of insertion, which SQL leaves open.
pub mod Laws
pub mod Unique
pub mod Store
pub mod Refine
use Prim.Native.String
use Prim.Native.Nat.{Ordering}
use inter_claude_connector.Base.{
  ℕ, String, Bool, true, false, not, ◌&&◌, ◌||◌, Option, none, some, List, [], ◌∷◌, ◌++◌, ◌==◌,
  if◌then◌else◌, length, filter, any, includes,
}
use inter_claude_connector.Messages.{InboxMessage, has_receipt_type}

-- `a < b` between two texts, by code points; SQLite compares bytes of UTF-8, which is the same order.
abbrev pub text_lt : String → String → Bool
text_lt a b = elim (String.compare a b) [ Ordering.lt ↦ true | _ ↦ false ]

unfoldable pub insert_sorted : InboxMessage → List InboxMessage → List InboxMessage
insert_sorted m [] = m ∷ []
insert_sorted m (x ∷ xs) =
    let later = insert_sorted m xs in
    if text_lt x.timestamp m.timestamp then x ∷ later else m ∷ x ∷ xs

unfoldable pub order_by_timestamp : List InboxMessage → List InboxMessage
unfolding insert_sorted
order_by_timestamp [] = []
order_by_timestamp (m ∷ rows) = insert_sorted m (order_by_timestamp rows)

abbrev pub has_id : String → InboxMessage → Bool
has_id id m = m.id == id

abbrev pub has_id_in : List String → InboxMessage → Bool
has_id_in ids m = includes ids m.id

-- INSERT; none is the violation of the primary key.
unfoldable pub db_insert : InboxMessage → List InboxMessage → Option (List InboxMessage)
db_insert m rows = if any (has_id m.id) rows then none else some (rows ++ m ∷ [])

unfoldable pub db_get_all : List InboxMessage → List InboxMessage
db_get_all rows = order_by_timestamp rows

-- An empty `from` is no filter, as none.
unfoldable pub db_get_unread : Option String → List InboxMessage → List InboxMessage
db_get_unread none rows = order_by_timestamp (filter (λ m. not m.read) rows)
db_get_unread (some from) rows =
    order_by_timestamp (filter (λ m. not m.read && (from == "" || m.from == from)) rows)

unfoldable pub db_get_by_id : String → List InboxMessage → Option InboxMessage
db_get_by_id id [] = none
db_get_by_id id (m ∷ rows) = let rest = db_get_by_id id rows in if m.id == id then some m else rest

unfoldable pub db_get_by_ids : List String → List InboxMessage → List InboxMessage
db_get_by_ids ids rows = order_by_timestamp (filter (has_id_in ids) rows)

abbrev pub set_read : InboxMessage → InboxMessage
set_read m = record m { read = true }

-- UPDATE … SET read = 1 WHERE …: the number of rows changed, and the new rows.
unfoldable pub update_read : (InboxMessage → Bool) → List InboxMessage → List InboxMessage
update_read p [] = []
update_read p (m ∷ rows) = (if p m then set_read m else m) ∷ update_read p rows

abbrev pub unread_in : List String → InboxMessage → Bool
unread_in ids m = has_id_in ids m && not m.read

unfoldable pub db_mark_read : List String → List InboxMessage → ℕ × List InboxMessage
unfolding update_read
db_mark_read ids rows = (length (filter (unread_in ids) rows), update_read (unread_in ids) rows)

unfoldable pub db_mark_all_read : List InboxMessage → ℕ × List InboxMessage
unfolding update_read
db_mark_all_read rows = (length (filter (λ m. not m.read) rows), update_read (λ m. not m.read) rows)

unfoldable pub db_update_timestamp : String → String → List InboxMessage → List InboxMessage
db_update_timestamp id timestamp [] = []
db_update_timestamp id timestamp (m ∷ rows) =
    (if m.id == id then record m { timestamp = timestamp } else m)
    ∷ db_update_timestamp id timestamp rows

unfoldable pub db_remove : List String → List InboxMessage → ℕ × List InboxMessage
db_remove ids rows =
    (length (filter (has_id_in ids) rows), filter (λ m. not (has_id_in ids m)) rows)

unfoldable pub db_get_read_older_than :
    (cutoff_iso : String) → List InboxMessage → List InboxMessage
db_get_read_older_than cutoff_iso rows =
    order_by_timestamp (filter (λ m. m.read && text_lt m.timestamp cutoff_iso) rows)

unfoldable pub db_get_unread_older_than :
    (cutoff_iso : String) → List InboxMessage → List InboxMessage
db_get_unread_older_than cutoff_iso rows =
    order_by_timestamp (filter (λ m. not m.read && text_lt m.timestamp cutoff_iso) rows)

-- `json_extract(meta_json, '$.type') = 'read-receipt'`
unfoldable pub db_get_receipts_older_than :
    (cutoff_iso : String) → List InboxMessage → List InboxMessage
db_get_receipts_older_than cutoff_iso rows =
    order_by_timestamp
      (filter (λ m. has_receipt_type m.meta && text_lt m.timestamp cutoff_iso) rows)

-- The transaction of `migrateFromJsonl`: INSERT OR IGNORE of each message in turn.
unfoldable pub insert_or_ignore : List InboxMessage → List InboxMessage → List InboxMessage
insert_or_ignore [] rows = rows
insert_or_ignore (m ∷ ms) rows =
    insert_or_ignore ms (if any (has_id m.id) rows then rows else rows ++ m ∷ [])

abbrev pub parsed_lines : List (Option InboxMessage) → List InboxMessage
parsed_lines [] = []
parsed_lines (none ∷ lines) = parsed_lines lines
parsed_lines (some m ∷ lines) = m ∷ parsed_lines lines

-- `migrateFromJsonl` for a file whose lines that are not blank parse to messages, or to none where
-- a line is malformed: the messages counted, and the new rows.
unfoldable pub migrate_from_jsonl :
    List (Option InboxMessage) → List InboxMessage → ℕ × List InboxMessage
unfolding insert_or_ignore
migrate_from_jsonl lines rows =
    let messages = parsed_lines lines in (length messages, insert_or_ignore messages rows)
