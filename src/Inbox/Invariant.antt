-- ===== src/Inbox/Invariant.antt =====
-- What holds of the inbox of src/inbox.ts after any operations.
use mathlib.Core.Path.{subst}
use inter_claude_connector.Base.{
  ℕ, ◌-◌, ◌*◌, String, ◌≡◌, inl, inr, Bool, true, false, not, ◌&&◌, Option, none, some, List, [],
  ◌∷◌, ◌++◌, map, arith, ltb, if◌then◌else◌, Bool-cases, Option-cases, length, filter, All,
}
use inter_claude_connector.Messages.{InboxMessage, is_receipt}
use inter_claude_connector.InboxDb.Laws.{UniqueIds, All-order_by_timestamp}
use inter_claude_connector.Inbox.{Host, Inbox}
use inter_claude_connector.Inbox.Signals.{unique_from, update_signal_file}
use inter_claude_connector.Inbox.Operations.{
  InboxPushInput, AddressFilter, is_filter, is_empty, day_ms, full_message, notify_subscribers,
  announce, push, get_unread, receipts_for, send_receipts, after_marking, mark_read, mark_all_read,
  remove, purge_stale,
}
use inter_claude_connector.InboxDb.{
  text_lt, has_id_in, db_insert, db_get_unread, db_get_by_ids, update_read, unread_in, db_mark_read,
  db_mark_all_read, db_remove, db_get_read_older_than, db_get_unread_older_than,
  db_get_receipts_older_than,
}
use inter_claude_connector.Inbox.Reading.{db-update_signal_file, archive-update_signal_file}
use inter_claude_connector.InboxDb.Unique.{
  UniqueIds-update_read, UniqueIds-filter, UniqueIds-db_insert,
}

-- The rows of an open database have different identifiers.
abbrev pub IsKeyed : Option (List InboxMessage) → Type 0
IsKeyed none = Unit
IsKeyed (some rows) = UniqueIds rows

-- Besides, every receipt that was sent is for a message that is no receipt, and every archived
-- message was read and is no receipt.
abbrev pub IsSound : Inbox → Type 0
IsSound s =
    IsKeyed s.db
    × All (λ r. is_receipt r.0 ≡ false) s.receipts
    × All (λ m. (m.read && not (is_receipt m)) ≡ true) s.archive

abbrev pub kept {ℓ} : {A : Type ℓ} → Inbox → Option (A × Inbox) → Inbox
kept s none = s
kept s (some (_, s')) = s'

All-append {ℓ κ} :
    {A : Type ℓ} (P : A → Type κ) (xs ys : List A) → All P xs → All P ys → All P (xs ++ ys)
All-append P [] ys h k = k
All-append P (x ∷ xs) ys (h, hs) k = (h, All-append P xs ys hs k)

All-receipts_for :
    (host : Host) (ms : List InboxMessage) (reader : Option String)
    → All (λ r. is_receipt r.0 ≡ false) (receipts_for host ms reader)
unfolding receipts_for
All-receipts_for host [] reader = tt
All-receipts_for host (m ∷ ms) reader = elim (Bool-cases (is_receipt m)) [
  | inl receipt ↦ rw receipt (All-receipts_for host ms reader)
  | inr other ↦ rw other (other, All-receipts_for host ms reader)
]

-- The invariant is about these three parts alone.
IsSound-same :
    (s s' : Inbox)
    → s'.db ≡ s.db
    → s'.receipts ≡ s.receipts
    → s'.archive ≡ s.archive
    → IsSound s
    → IsSound s'
IsSound-same s s' p q r h = rw (p, q, r) h

pub IsSound-if : (b : Bool) (s s' : Inbox) → IsSound s → IsSound s' → IsSound (if b then s else s')
IsSound-if true s s' h k = h
IsSound-if false s s' h k = k

All-unreceipted :
    (ms : List InboxMessage)
    → All (λ m. m.read ≡ true) ms
    → All (λ m. (m.read && not (is_receipt m)) ≡ true) (filter (λ m. not (is_receipt m)) ms)
All-unreceipted [] h = tt
All-unreceipted (m ∷ ms) (h, hs) = elim (Bool-cases (is_receipt m)) [
  | inl receipt ↦ rw receipt (All-unreceipted ms hs)
  | inr other ↦ rw other (ground (arith, other), All-unreceipted ms hs)
]

All-read :
    (p : InboxMessage → Bool) (ms : List InboxMessage)
    → All (λ m. m.read ≡ true) (filter (λ m. m.read && p m) ms)
All-read p [] = tt
All-read p (m ∷ ms) = elim (Bool-cases (m.read && p m)) [
  | inl passes ↦ rw passes (ground arith, All-read p ms)
  | inr fails ↦ rw fails (All-read p ms)
]

archived :
    (cutoff : String) (rows : List InboxMessage)
    → All
        (λ m. (m.read && not (is_receipt m)) ≡ true)
        (filter (λ m. not (is_receipt m)) (db_get_read_older_than cutoff rows))
unfolding db_get_read_older_than
archived cutoff rows = All-unreceipted _ (
    All-order_by_timestamp (λ m. m.read ≡ true)
      (filter (λ m. m.read && text_lt m.timestamp cutoff) rows)
      (All-read (λ m. text_lt m.timestamp cutoff) rows))

module _ (host : Host) where
  receipts-update : (s : Inbox) → (update_signal_file host.can_write s).receipts ≡ s.receipts
  unfolding update_signal_file
  receipts-update s = ground arith

  -- The signal files are no part of the invariant.
  pub update-IsSound : (s : Inbox) → IsSound s → IsSound (update_signal_file host.can_write s)
  update-IsSound s h =
      IsSound-same s (update_signal_file host.can_write s) (db-update_signal_file host s)
        (receipts-update s) (archive-update_signal_file host s) h

  send_receipts-IsSound :
      (ms : List InboxMessage) (reader : Option String) (s : Inbox)
      → IsSound s
      → IsSound (send_receipts host ms reader s)
  unfolding send_receipts
  send_receipts-IsSound ms reader s (u, r, a) =
      IsSound-if (not s.has_receipt_sender) s _ (u, r, a)
        (
          u,
          All-append _ s.receipts (receipts_for host ms reader) r (All-receipts_for host ms reader),
          a,
        )

  after_marking-IsSound :
      (count : ℕ) (ms : List InboxMessage) (reader : Option String) (s : Inbox)
      → IsSound s
      → IsSound (after_marking host count ms reader s)
  unfolding after_marking
  after_marking-IsSound count ms reader s h =
      IsSound-if (ltb 0 count) _ s (send_receipts-IsSound ms reader _ (update-IsSound s h)) h

  keyed : (s : Inbox) (rows : List InboxMessage) → s.db ≡ some rows → IsSound s → UniqueIds rows
  keyed s rows e (u, r, a) = subst (λ o. IsKeyed o) e u

  pub mark_read-IsSound :
      (ids : List String) (reader : Option String) (s : Inbox)
      → IsSound s
      → IsSound (kept s (mark_read host ids reader s))
  unfolding mark_read db_mark_read
  mark_read-IsSound ids reader s h = elim (Option-cases s.db) [
    | inl closed ↦
        let e : kept s (mark_read host ids reader s) ≡ s = ground (arith, closed) in rw e h
    | inr (rows, opened) ↦
        let s' : Inbox = record s { db = some (update_read (unread_in ids) rows) } in
        let done : Inbox =
          after_marking host (length (filter (unread_in ids) rows))
            (filter (λ m. not m.read) (db_get_by_ids ids rows)) reader s' in
        let e : kept s (mark_read host ids reader s) ≡ done = ground (arith, opened) in
        rw e (
          after_marking-IsSound _ _ reader s'
            (UniqueIds-update_read (unread_in ids) rows (keyed s rows opened h), h.1, h.2))
  ]

  pub remove-IsSound :
      (ids : List String) (s : Inbox) → IsSound s → IsSound (kept s (remove host ids s))
  unfolding remove db_remove
  remove-IsSound ids s h = elim (Option-cases s.db) [
    | inl closed ↦ let e : kept s (remove host ids s) ≡ s = ground (arith, closed) in rw e h
    | inr (rows, opened) ↦
        let s' : Inbox = record s { db = some (filter (λ m. not (has_id_in ids m)) rows) } in
        let b : Bool = ltb 0 (length (filter (has_id_in ids) rows)) in
        let e : kept s (remove host ids s)
            ≡ (if b then update_signal_file host.can_write s' else s') =
          ground (arith, opened) in
        let sound : IsSound s' = (UniqueIds-filter _ rows (keyed s rows opened h), h.1, h.2) in
        rw e (IsSound-if b _ s' (update-IsSound s' sound) sound)
  ]

  pub mark_all_read-IsSound :
      (f : AddressFilter) (reader : Option String) (s : Inbox)
      → IsSound s
      → IsSound (kept s (mark_all_read host f reader s))
  unfolding mark_all_read db_mark_read db_mark_all_read
  mark_all_read-IsSound f reader s h = elim (Option-cases s.db) [
    | inl closed ↦
        let e : kept s (mark_all_read host f reader s) ≡ s = ground (arith, closed) in rw e h
    | inr (rows, opened) ↦
        let ms : List InboxMessage =
          if is_filter f then get_unread host none f s else db_get_unread none rows in
        let ids : List String = map (λ m. m.id) ms in
        let p : Bool = is_filter f in
        let count : ℕ =
          if p
          then length (filter (unread_in ids) rows)
          else length (filter (λ m. not m.read) rows) in
        let rows' : List InboxMessage =
          if p then update_read (unread_in ids) rows else update_read (λ m. not m.read) rows in
        let s' : Inbox = record s { db = some rows' } in
        let e : kept s (mark_all_read host f reader s) ≡ after_marking host count ms reader s' =
          ground (arith, opened) in
        let u = keyed s rows opened h in
        rw e (
          after_marking-IsSound count ms reader s' (
            either p _ _ (UniqueIds-update_read (unread_in ids) rows u)
                (UniqueIds-update_read (λ m. not m.read) rows u),
            h.1,
            h.2,
          ))
  ]
    where
      either :
          (b : Bool) (xs ys : List InboxMessage)
          → UniqueIds xs
          → UniqueIds ys
          → UniqueIds (if b then xs else ys)
      either true xs ys u v = u
      either false xs ys u v = v

  pub push-IsSound :
      (now : ℕ) (id : String) (silent : Bool) (input : InboxPushInput) (s : Inbox)
      → IsSound s
      → IsSound (kept s (push host now id silent input s))
  unfolding push announce notify_subscribers
  push-IsSound now id silent input s h = elim (Option-cases s.db) [
    | inl closed ↦
        let e : kept s (push host now id silent input s) ≡ s = ground (arith, closed) in rw e h
    | inr (rows, opened) ↦
        let full : InboxMessage = full_message id (host.to_iso now) input in
        elim (Option-cases (db_insert full rows)) [
          | inl old ↦
              let e : kept s (push host now id silent input s) ≡ s = ground (arith, opened, old) in
              rw e h
          | inr (rows', new) ↦
              let s' : Inbox = record s { db = some rows' } in
              let e : kept s (push host now id silent input s)
                  ≡ notify_subscribers host full (if silent then s' else announce host full s') =
                ground (arith, opened, new) in
              let sound : IsSound s' =
                (UniqueIds-db_insert full rows rows' (keyed s rows opened h) new, h.1, h.2) in
              rw e (IsSound-if silent s' (announce host full s') sound (announced full s' sound))
        ]
  ]
    where
      announced : (m : InboxMessage) (t : Inbox) → IsSound t → IsSound (announce host m t)
      announced m t k =
          IsSound-if (update_signal_file host.can_write t).has_notifier _ _ (update-IsSound t k)
            (update-IsSound t k)

  pub purge_stale-IsSound :
      (now days : ℕ) (s : Inbox) → IsSound s → IsSound (kept s (purge_stale host now days s))
  unfolding purge_stale db_remove
  purge_stale-IsSound now days s h = elim (Option-cases s.db) [
    | inl closed ↦
        let e : kept s (purge_stale host now days s) ≡ s = ground (arith, closed) in rw e h
    | inr (rows, opened) ↦
        let z : String = host.to_iso (now - days * day_ms) in
        let a : String = host.to_iso (now - 1 * day_ms) in
        let gone : List InboxMessage =
          filter (λ m. not (is_receipt m)) (db_get_read_older_than a rows) in
        let ids : List String = unique_from [] (
          map (λ m. m.id)
            (gone ++ (db_get_unread_older_than z rows ++ db_get_receipts_older_than a rows))) in
        let s' : Inbox = record s { archive = s.archive ++ gone } in
        let t : Inbox = record s' { db = some (filter (λ m. not (has_id_in ids m)) rows) } in
        let b : Bool = ltb 0 (length (filter (has_id_in ids) rows)) in
        let t' : Inbox = if b then update_signal_file host.can_write t else t in
        let e : kept s (purge_stale host now days s) ≡ (if is_empty ids then s' else t') =
          ground (arith, opened) in
        let more = All-append _ s.archive gone h.2 (archived a rows) in
        let sound : IsSound t =
          (UniqueIds-filter (λ m. not (has_id_in ids m)) rows (keyed s rows opened h), h.1, more) in
        rw e (
          IsSound-if (is_empty ids) s' t' (h.0, h.1, more)
            (IsSound-if b _ t (update-IsSound t sound) sound))
  ]
