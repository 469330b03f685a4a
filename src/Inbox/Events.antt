-- ===== src/Inbox/Events.antt =====
-- Runs of the operations of src/inbox.ts, and what holds after them.
use mathlib.Core.Path.{subst}
use inter_claude_connector.Base.{
  ℕ, String, ◌≡◌, sym, Bool, true, false, not, ◌&&◌, Option, none, some, List, [], ◌∷◌, nat_eq, any,
  All,
}
use inter_claude_connector.Messages.{InboxMessage, is_receipt}
use inter_claude_connector.InboxDb.{insert_or_ignore, parsed_lines, migrate_from_jsonl}
use inter_claude_connector.InboxDb.Laws.{UniqueIds}
use inter_claude_connector.InboxDb.Unique.{UniqueIds-insert_or_ignore}
use inter_claude_connector.Inbox.{Host, Inbox}
use inter_claude_connector.Inbox.Invariant.{
  IsKeyed, IsSound, kept, IsSound-if, update-IsSound, mark_read-IsSound, remove-IsSound,
  mark_all_read-IsSound, push-IsSound, purge_stale-IsSound,
}
use inter_claude_connector.Inbox.Operations.{
  InboxPushInput, AddressFilter, push, mark_read, mark_all_read, remove, purge_stale,
}
use inter_claude_connector.Inbox.Lifecycle.{init, subscribe, unsubscribe}

pub data Event : Type 0 where
  pushed : (now : ℕ) (id : String) (silent : Bool) (input : InboxPushInput) → Event
  read_some : (ids : List String) (reader : Option String) → Event
  read_all : (f : AddressFilter) (reader : Option String) → Event
  removed : (ids : List String) → Event
  purged : (now days : ℕ) → Event
  subscribed unsubscribed : (callback : ℕ) → Event

module _ (host : Host) where
  -- An operation that throws changes nothing.
  unfoldable pub step : Event → Inbox → Inbox
  step (pushed now id silent input) s = kept s (push host now id silent input s)
  step (read_some ids reader) s = kept s (mark_read host ids reader s)
  step (read_all f reader) s = kept s (mark_all_read host f reader s)
  step (removed ids) s = kept s (remove host ids s)
  step (purged now days) s = kept s (purge_stale host now days s)
  step (subscribed callback) s = subscribe callback s
  step (unsubscribed callback) s = unsubscribe callback s

  unfoldable pub run : List Event → Inbox → Inbox
  run [] s = s
  run (e ∷ es) s = run es (step e s)

  step-IsSound : (e : Event) (s : Inbox) → IsSound s → IsSound (step e s)
  unfolding step subscribe unsubscribe
  step-IsSound (pushed now id silent input) s h = push-IsSound host now id silent input s h
  step-IsSound (read_some ids reader) s h = mark_read-IsSound host ids reader s h
  step-IsSound (read_all f reader) s h = mark_all_read-IsSound host f reader s h
  step-IsSound (removed ids) s h = remove-IsSound host ids s h
  step-IsSound (purged now days) s h = purge_stale-IsSound host now days s h
  step-IsSound (subscribed callback) s h = IsSound-if (any (nat_eq callback) s.subscribers) s _ h h
  step-IsSound (unsubscribed callback) s h = h

  run-kept : (es : List Event) (s : Inbox) → IsSound s → IsSound (run es s)
  unfolding run
  run-kept [] s h = h
  run-kept (e ∷ es) s h = run-kept es (step e s) (step-IsSound e s h)

  init-IsSound :
      (stored : List InboxMessage) (lines : Option (List (Option InboxMessage))) (s : Inbox)
      → UniqueIds stored
      → IsSound s
      → IsSound (init host stored lines s)
  unfolding init migrate_from_jsonl
  init-IsSound stored none s u (d, r, a) =
      update-IsSound host (record s { db = some stored }) (u, r, a)
  init-IsSound stored (some ls) s u (d, r, a) =
      update-IsSound host (record s { db = some (insert_or_ignore (parsed_lines ls) stored) })
        (UniqueIds-insert_or_ignore (parsed_lines ls) stored u, r, a)

  -- After opening a table whose rows have different identifiers, from a state without receipts
  -- and archive, and any operations on messages and subscriptions: the rows still have different
  -- identifiers, no receipt was sent for a receipt, and whatever is archived was read and is no
  -- receipt.
  pub run-IsSound :
      (es : List Event) (stored : List InboxMessage) (lines : Option (List (Option InboxMessage)))
      (s : Inbox)
      → UniqueIds stored
      → s.receipts ≡ []
      → s.archive ≡ []
      → s.db ≡ none
      → IsSound (run es (init host stored lines s))
  run-IsSound es stored lines s u r a d = run-kept es (init host stored lines s) (
      init-IsSound stored lines s u (
        subst (λ o. IsKeyed o) (sym d) tt,
        subst (λ x. All (λ (q : InboxMessage × String). is_receipt q.0 ≡ false) x) (sym r) tt,
        subst (λ x. All (λ (m : InboxMessage). (m.read && not (is_receipt m)) ≡ true) x) (sym a) tt,
      ))
