-- ===== src/Inbox/Lifecycle.antt =====
-- Opening and resetting the inbox of src/inbox.ts, and its subscriptions.
use inter_claude_connector.Base.{
  ℕ, Bool, false, not, Option, none, some, List, [], ◌∷◌, ◌++◌, nat_eq, if◌then◌else◌, or_else,
  filter, any,
}
use inter_claude_connector.Messages.{InboxMessage}
use inter_claude_connector.InboxDb.{migrate_from_jsonl}
use inter_claude_connector.Inbox.{SignalFiles, Host, Inbox}
use inter_claude_connector.Inbox.Signals.{update_signal_file}

-- `init`: `stored` is the table that the database file has, and `lines` what `inbox.jsonl` has if it
-- is there.
unfoldable pub init :
    Host
    → (stored : List InboxMessage) (lines : Option (List (Option InboxMessage))) → Inbox
    → Inbox
unfolding update_signal_file
init host stored lines s =
    let rows : List InboxMessage = elim lines [
      | none ↦ stored
      | some ls ↦ (migrate_from_jsonl ls stored).1
    ] in
    update_signal_file host.can_write (record s { db = some rows })

-- `subscribe`, and what the function that it returns does. A callback is in the set once.
unfoldable pub subscribe : ℕ → Inbox → Inbox
subscribe callback s =
    if any (nat_eq callback) s.subscribers
    then s
    else record s { subscribers = s.subscribers ++ callback ∷ [] }

unfoldable pub unsubscribe : ℕ → Inbox → Inbox
unsubscribe callback s = record s {
  subscribers = filter (λ c. not (nat_eq callback c)) s.subscribers;
}

-- `reset`: with a new directory the old one's signal files are removed, and `there` are those of
-- the new one.
unfoldable pub reset : (there : Option SignalFiles) → Inbox → Inbox
reset there s = record s {
  db = none;
  subscribers = [];
  has_notifier = false;
  has_receipt_sender = false;
  signals = or_else there s.signals;
}

abbrev set_notifier : Bool → Inbox → Inbox
set_notifier given s = record s { has_notifier = given }

abbrev set_receipt_sender : Bool → Inbox → Inbox
set_receipt_sender given s = record s { has_receipt_sender = given }
