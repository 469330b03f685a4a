-- ===== src/Inbox/Reading.antt =====
-- Marking messages as read: what is unread afterwards, and which receipts go out.
use inter_claude_connector.Base.{
  ℕ, ◌+◌, ◌≤◌, String, ◌≡◌, refl, ap, ◌∙◌, true, not, ◌&&◌, Option, none, some, List, [], ◌∷◌,
  arith, length, filter, filter-filter, length-append,
}
use inter_claude_connector.Messages.{InboxMessage, is_receipt}
use inter_claude_connector.InboxDb.{
  order_by_timestamp, has_id_in, db_get_unread, db_get_by_ids, update_read, unread_in, db_mark_read,
}
use inter_claude_connector.Inbox.{Host, Inbox}
use inter_claude_connector.Inbox.Signals.{update_signal_file}
use inter_claude_connector.Inbox.Operations.{
  no_filter, apply_filter, get_unread, receipts_for, send_receipts, after_marking, mark_read,
}
use inter_claude_connector.InboxDb.Laws.{count-order_by_timestamp, length-order_by_timestamp}

-- Updating the rows that pass leaves no row that passes, and the unread rows that do not pass.
module _ (ids : List String) where
  none_left :
      (rows : List InboxMessage) → filter (unread_in ids) (update_read (unread_in ids) rows) ≡ []
  unfolding update_read
  none_left [] = refl
  none_left (m ∷ rows) = ground (arith, none_left rows)

  update_again :
      (rows : List InboxMessage)
      → update_read (unread_in ids) (update_read (unread_in ids) rows)
        ≡ update_read (unread_in ids) rows
  unfolding update_read
  update_again [] = refl
  update_again (m ∷ rows) = ground (arith, update_again rows)

  unread_left :
      (rows : List InboxMessage)
      → filter (λ m. not m.read) (update_read (unread_in ids) rows)
        ≡ filter (λ m. not m.read && not (has_id_in ids m)) rows
  unfolding update_read
  unread_left [] = refl
  unread_left (m ∷ rows) = ground (arith, unread_left rows)

  split_unread :
      (rows : List InboxMessage)
      → length (filter (λ m. not m.read) rows)
        ≡ length (filter (unread_in ids) rows)
          + length (filter (λ m. not m.read && not (has_id_in ids m)) rows)
  split_unread [] = omega arith
  split_unread (m ∷ rows) = ground (arith, split_unread rows)

length-receipts_for :
    (host : Host) (ms : List InboxMessage) (reader : Option String)
    → length (receipts_for host ms reader) ≡ length (filter (λ m. not (is_receipt m)) ms)
unfolding receipts_for
length-receipts_for host [] reader = refl
length-receipts_for host (m ∷ ms) reader = ground (arith, length-receipts_for host ms reader)

module _ (host : Host) where
  pub db-update_signal_file : (s : Inbox) → (update_signal_file host.can_write s).db ≡ s.db
  unfolding update_signal_file
  db-update_signal_file s = ground arith

  pub archive-update_signal_file :
      (s : Inbox) → (update_signal_file host.can_write s).archive ≡ s.archive
  unfolding update_signal_file
  archive-update_signal_file s = ground arith

  pub db-after_marking :
      (count : ℕ) (ms : List InboxMessage) (reader : Option String) (s : Inbox)
      → (after_marking host count ms reader s).db ≡ s.db
  unfolding after_marking send_receipts
  db-after_marking count ms reader s = ground (arith, db-update_signal_file s)

  get_unread_of_open :
      (s : Inbox) (rows : List InboxMessage)
      → s.db ≡ some rows
      → get_unread host none no_filter s ≡ order_by_timestamp (filter (λ m. not m.read) rows)
  unfolding get_unread db_get_unread apply_filter
  get_unread_of_open s rows e = ground (arith, e)

  module _ (ids : List String) (reader : Option String) (s : Inbox) (rows : List InboxMessage)
      (is_open : s.db ≡ some rows) {n : ℕ} {s' : Inbox}
      (marked : mark_read host ids reader s ≡ some (n, s')) where
    -- The newly read messages, in the order of their times, and the state before the receipts.
    abbrev newly_read : List InboxMessage
    newly_read = filter (λ m. not m.read) (db_get_by_ids ids rows)

    abbrev updated : Inbox
    updated = record s { db = some (update_read (unread_in ids) rows) }

    abbrev count : ℕ
    count = length (filter (unread_in ids) rows)

    marked_lem : (n ≡ count) × (s' ≡ after_marking host count newly_read reader updated)
    unfolding mark_read db_mark_read
    marked_lem = ground (arith, is_open)

    db-mark_read : s'.db ≡ some (update_read (unread_in ids) rows)
    db-mark_read =
        ap (λ (t : Inbox). t.db) marked_lem.1 ∙ db-after_marking count newly_read reader updated

    -- What is unread after `markRead` is what was unread before and was not named, in the order of
    -- its times, and the number returned is by how much the unread messages are fewer.
    pub get_unread-mark_read :
        (get_unread host none no_filter s'
          ≡ order_by_timestamp (filter (λ m. not m.read && not (has_id_in ids m)) rows))
        × (length (get_unread host none no_filter s)
            ≡ n + length (get_unread host none no_filter s'))
    get_unread-mark_read =
        let now_unread =
          (get_unread_of_open s' _ db-mark_read ∙ ap order_by_timestamp (unread_left ids rows)) in
        (
          now_unread,
          omega (
            arith,
            ap (length {A = InboxMessage}) (get_unread_of_open s rows is_open),
            ap (length {A = InboxMessage}) now_unread,
            length-order_by_timestamp (filter (λ m. not m.read) rows),
            length-order_by_timestamp (filter (λ m. not m.read && not (has_id_in ids m)) rows),
            split_unread ids rows,
            marked_lem.0,
          ),
        )

    -- Marking the same messages again marks none, changes nothing and sends no receipt.
    pub mark_read_again : (reader' : Option String) → mark_read host ids reader' s' ≡ some (0, s')
    unfolding mark_read db_mark_read after_marking
    mark_read_again reader' =
        ground (arith, db-mark_read, none_left ids rows, update_again ids rows)

    receipts_count :
        length (receipts_for host newly_read reader)
        ≡ length (filter (λ m. has_id_in ids m && (not m.read && not (is_receipt m))) rows)
    unfolding db_get_by_ids
    receipts_count =
        length-receipts_for host newly_read reader
        ∙ ap (length {A = InboxMessage})
            (filter-filter (λ m. not (is_receipt m)) (λ m. not m.read) (db_get_by_ids ids rows))
        ∙ count-order_by_timestamp (λ m. not m.read && not (is_receipt m))
            (filter (has_id_in ids) rows)
        ∙ ap (length {A = InboxMessage})
            (filter-filter (λ m. not m.read && not (is_receipt m)) (has_id_in ids) rows)

    fewer :
        (rows : List InboxMessage)
        → length (filter (λ m. has_id_in ids m && (not m.read && not (is_receipt m))) rows)
          ≤ length (filter (unread_in ids) rows)
    fewer [] = omega arith
    fewer (m ∷ ms) = ground (arith, fewer ms)

    -- With a receipt sender, `markRead` hands it one receipt for each message that was unread, is
    -- named and is no receipt itself.
    pub receipts-mark_read :
        s.has_receipt_sender ≡ true
        → length s'.receipts
          ≡ length s.receipts
            + length (filter (λ m. has_id_in ids m && (not m.read && not (is_receipt m))) rows)
    unfolding after_marking send_receipts update_signal_file
    receipts-mark_read sends = ground (
      arith,
      marked_lem,
      fewer rows,
      receipts_count,
      length-append s.receipts (receipts_for host newly_read reader),
    )
