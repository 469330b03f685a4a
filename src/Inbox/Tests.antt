-- ===== src/Inbox/Tests.antt =====
-- The laws of the inbox at a small one: `a` is unread and for the instance `app`, `b` is an unread
-- broadcast, `c` is read and old, `d` is an unread receipt.
use inter_claude_connector.Base.{
  ℕ, ◌+◌, String, ◌≡◌, refl, Bool, true, false, not, ◌&&◌, Option, none, some, List, [], ◌∷◌,
  or_else, is_some, length, filter,
}
use inter_claude_connector.Dict.{get}
use inter_claude_connector.Messages.{MessageMeta, InboxMessage}
use inter_claude_connector.InboxDb.{
  insert_sorted, order_by_timestamp, has_id_in, db_insert, db_get_unread, db_get_by_id,
  db_get_by_ids, update_read, db_mark_read,
}
use inter_claude_connector.InboxDb.Laws.{UniqueIds}
use inter_claude_connector.InboxDb.Store.{
  Statement, inserted, marked, asked, nothing, flag, execute, answers, specified,
}
use inter_claude_connector.InboxDb.Refine.{answers-specified}
use inter_claude_connector.Inbox.{SignalFiles, Host, Inbox}
use inter_claude_connector.Inbox.Signals.{content_of, instance_of, broadcasts, refresh}
use inter_claude_connector.Address.{parse_address}
use inter_claude_connector.Inbox.Groups.{addressed, is_cons}
use inter_claude_connector.Inbox.Operations.{
  no_filter, get_unread, after_marking, mark_read, purge_stale,
}
use inter_claude_connector.Inbox.Refresh.{expected, refresh_lem, refresh_failed}
use inter_claude_connector.Inbox.Reading.{get_unread-mark_read}
use inter_claude_connector.Inbox.Lifecycle.{init}
use inter_claude_connector.Inbox.Invariant.{IsSound}
use inter_claude_connector.Inbox.Events.{read_some, purged, run, run-IsSound}
use inter_claude_connector.Inbox.Purging.{is_purged, is_archived, purge_stale_lem}

abbrev message : (id to timestamp : String) (meta : Option MessageMeta) (read : Bool) → InboxMessage
message id to timestamp meta read = record {
  id = id;
  from = "venus/web";
  to = to;
  timestamp = timestamp;
  body = "hello";
  reply_to = none;
  thread_id = none;
  status = none;
  meta = meta;
  read = read;
}

abbrev receipt_meta : MessageMeta
receipt_meta = record {
  type = some "read-receipt";
  original_id = some "a";
  read_at = none;
  recipients = [];
}

abbrev sample_rows : List InboxMessage
sample_rows =
    message "a" "mars/app" "2" none false
    ∷ message "b" "mars" "3" none false
    ∷ message "c" "mars/app" "1" none true
    ∷ message "d" "mars/app" "4" (some receipt_meta) false
    ∷ []

abbrev sample_files : SignalFiles
sample_files = record { broadcast = none; instances = [] }

abbrev sample : Inbox
sample = record {
  db = some sample_rows;
  signals = sample_files;
  archive = [];
  subscribers = [];
  has_notifier = true;
  has_receipt_sender = true;
  notified = [];
  delivered = [];
  receipts = [];
}

abbrev sample_host : Host
sample_host = record { can_write = λ _. true; throws = λ _. false; to_iso = λ _. "2" }

-- The state after `a` is marked as read.
abbrev sample_marked : Inbox
sample_marked =
    after_marking sample_host 1 (message "a" "mars/app" "2" none false ∷ []) (some "mars/app")
      (record sample {
        db = some (
            message "a" "mars/app" "2" none true
            ∷ message "b" "mars" "3" none false
            ∷ message "c" "mars/app" "1" none true
            ∷ message "d" "mars/app" "4" (some receipt_meta) false
            ∷ []);
      })

sample_marks : mark_read sample_host ("a" ∷ []) (some "mars/app") sample ≡ some (1, sample_marked)
unfolding mark_read db_mark_read db_get_by_ids after_marking order_by_timestamp
sample_marks = refl

refresh_lem_example :
    ((refresh (λ _. true) sample_rows sample_files).broadcast ≡ content_of (broadcasts sample_rows))
    × ((name : String)
        → get name (refresh (λ _. true) sample_rows sample_files).instances
          ≡ expected sample_rows [] name)
refresh_lem_example = refresh_lem (λ _. true) (λ _. refl) sample_rows sample_files

app_addressed : is_cons (addressed "app" sample_rows) ≡ true
unfolding instance_of parse_address
app_addressed = refl

refresh_failed_example : (refresh (λ o. not (is_some o)) sample_rows sample_files).broadcast ≡ none
refresh_failed_example =
    refresh_failed (λ o. not (is_some o)) "app" refl sample_rows sample_files app_addressed

get_unread-mark_read_example :
    (get_unread sample_host none no_filter sample_marked
      ≡ order_by_timestamp (filter (λ m. not m.read && not (has_id_in ("a" ∷ []) m)) sample_rows))
    × (length (get_unread sample_host none no_filter sample)
        ≡ 1 + length (get_unread sample_host none no_filter sample_marked))
get_unread-mark_read_example =
    get_unread-mark_read sample_host ("a" ∷ []) (some "mars/app") sample sample_rows refl
      sample_marks

sample-UniqueIds : UniqueIds sample_rows
sample-UniqueIds = (refl, (refl, (refl, (refl, tt))))

purge_stale_example :
    (n : ℕ) × (s' : Inbox) × (purge_stale sample_host 0 7 sample ≡ some (n, s'))
    × (s'.db ≡ some (filter (λ m. not (is_purged "2" "2" m)) sample_rows))
    × (n + length (or_else s'.db []) ≡ 4)
    × ((p : InboxMessage → Bool)
        → length (filter p s'.archive)
          ≡ 0 + length (filter (λ m. is_archived "2" m && p m) sample_rows))
purge_stale_example = purge_stale_lem sample_host 0 7 sample sample_rows refl sample-UniqueIds

run-IsSound_example : IsSound (
    run sample_host
      (read_some ("a" ∷ []) none ∷ purged 0 7 ∷ [])
      (init sample_host sample_rows none (record sample { db = none })))
run-IsSound_example =
    run-IsSound sample_host (read_some ("a" ∷ []) none ∷ purged 0 7 ∷ []) sample_rows none
      (record sample { db = none }) sample-UniqueIds refl refl refl

abbrev statements : List Statement
statements =
    inserted (message "e" "mars" "5" none false)
    ∷ inserted (message "a" "mars" "6" none false)
    ∷ marked ("e" ∷ [])
    ∷ asked none "e"
    ∷ asked (some "venus/web") "a"
    ∷ []

answers-specified_example :
    answers statements sample_rows ≡ specified statements (λ k. db_get_by_id k sample_rows)
answers-specified_example =
    answers-specified statements sample_rows (refl, (refl, (refl, (refl, tt))))

answers_check :
    answers statements sample_rows ≡ flag true ∷ flag false ∷ nothing ∷ flag false ∷ flag true ∷ []
unfolding answers execute db_insert db_mark_read update_read db_get_unread order_by_timestamp
    insert_sorted
answers_check = refl
