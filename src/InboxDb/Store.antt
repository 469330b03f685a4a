-- ===== src/InboxDb/Store.antt =====
-- Statements on the table of src/inbox-db.ts, and what they mean on a map from identifiers to
-- messages.
use inter_claude_connector.Base.{
  String, Bool, true, false, not, ◌&&◌, ◌||◌, Option, none, some, List, [], ◌∷◌, ◌==◌,
  if◌then◌else◌, is_some, any, includes,
}
use inter_claude_connector.Messages.{InboxMessage}
use inter_claude_connector.InboxDb.{
  has_id, db_insert, db_get_unread, db_get_by_id, set_read, db_mark_read, db_mark_all_read,
  db_update_timestamp, db_remove, insert_or_ignore,
}

pub data Statement : Type 0 where
  inserted : InboxMessage → Statement
  ignored : List InboxMessage → Statement
  marked : List String → Statement
  all_marked : Statement
  retimed : (id timestamp : String) → Statement
  removed : List String → Statement
  looked_up : String → Statement
  -- Whether a message is among the unread ones, of all or of one sender.
  asked : Option String → String → Statement

pub data Answer : Type 0 where
  nothing : Answer
  flag : Bool → Answer
  row : Option InboxMessage → Answer

abbrev pub insert_answer :
    Option (List InboxMessage) → List InboxMessage → Answer × List InboxMessage
insert_answer none rows = (flag false, rows)
insert_answer (some rows') rows = (flag true, rows')

-- The statement on the table.
unfoldable pub execute : Statement → List InboxMessage → Answer × List InboxMessage
execute (inserted m) rows = insert_answer (db_insert m rows) rows
execute (ignored ms) rows = (nothing, insert_or_ignore ms rows)
execute (marked ids) rows = (nothing, (db_mark_read ids rows).1)
execute all_marked rows = (nothing, (db_mark_all_read rows).1)
execute (retimed id timestamp) rows = (nothing, db_update_timestamp id timestamp rows)
execute (removed ids) rows = (nothing, (db_remove ids rows).1)
execute (looked_up id) rows = (row (db_get_by_id id rows), rows)
execute (asked from id) rows = (flag (any (has_id id) (db_get_unread from rows)), rows)

abbrev pub Store : Type 0
Store = String → Option InboxMessage

abbrev pub added : InboxMessage → Store → Store
added m σ k = elim (σ k) [ none ↦ if m.id == k then some m else none | some x ↦ some x ]

abbrev pub on_row : (InboxMessage → InboxMessage) → Option InboxMessage → Option InboxMessage
on_row f none = none
on_row f (some m) = some (f m)

abbrev pub changed : (InboxMessage → InboxMessage) → Store → Store
changed f σ k = on_row f (σ k)

abbrev pub added_all : List InboxMessage → Store → Store
added_all [] σ = σ
added_all (m ∷ ms) σ = added_all ms (added m σ)

abbrev pub is_unread : Option String → InboxMessage → Bool
is_unread none m = not m.read
is_unread (some from) m = not m.read && (from == "" || m.from == from)

-- The statement on the map.
unfoldable pub specify : Statement → Store → Answer × Store
specify (inserted m) σ = (flag (not (is_some (σ m.id))), added m σ)
specify (ignored ms) σ = (nothing, added_all ms σ)
specify (marked ids) σ = (nothing, changed (λ m. if includes ids m.id then set_read m else m) σ)
specify all_marked σ = (nothing, changed set_read σ)
specify (retimed id timestamp) σ =
    (nothing, λ k. if id == k then changed (λ m. record m { timestamp = timestamp }) σ k else σ k)
specify (removed ids) σ = (nothing, λ k. if includes ids k then none else σ k)
specify (looked_up id) σ = (row (σ id), σ)
specify (asked from id) σ = (flag (elim (σ id) [ none ↦ false | some m ↦ is_unread from m ]), σ)

unfoldable pub answers : List Statement → List InboxMessage → List Answer
unfolding execute
answers [] rows = []
answers (q ∷ qs) rows = let (a, rows') = execute q rows in a ∷ answers qs rows'

unfoldable pub specified : List Statement → Store → List Answer
unfolding specify
specified [] σ = []
specified (q ∷ qs) σ = let (a, σ') = specify q σ in a ∷ specified qs σ'
