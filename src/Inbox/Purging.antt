-- ===== src/Inbox/Purging.antt =====
-- `purgeStale`: which messages go, and which of them are archived.
use inter_claude_connector.Base.{
  ℕ, ◌+◌, ◌-◌, ◌*◌, String, ◌≡◌, refl, sym, ap, ◌∙◌, inl, inr, Bool, true, false, not, ◌&&◌, ◌||◌,
  some, List, [], ◌∷◌, ◌++◌, map, arith, eq_iff, ltb, if◌then◌else◌, Bool-cases, or_else, length,
  filter, any, filter-filter, length-append, includes, All,
}
use inter_claude_connector.Inbox.Signals.{unique_from, update_signal_file}
use inter_claude_connector.Messages.{InboxMessage, has_receipt_type, is_receipt}
use inter_claude_connector.InboxDb.Laws.{
  filter-cong, UniqueIds, count-order_by_timestamp, any-append, includes-map_id, any-selected,
}
use inter_claude_connector.InboxDb.{
  text_lt, order_by_timestamp, has_id, has_id_in, db_remove, db_get_read_older_than,
  db_get_unread_older_than, db_get_receipts_older_than,
}
use inter_claude_connector.Inbox.{Host, Inbox}
use inter_claude_connector.Inbox.Operations.{is_empty, day_ms, purge_stale}
use inter_claude_connector.Inbox.Reading.{db-update_signal_file, archive-update_signal_file}

includes-unique_from :
    (seen xs : List String) (k : String)
    → includes (unique_from seen xs) k ≡ (includes xs k && not (includes seen k))
unfolding unique_from
includes-unique_from seen [] k = refl
includes-unique_from seen (x ∷ xs) k =
    ground (arith, includes-unique_from seen xs k, includes-unique_from (x ∷ seen) xs k, eq_iff x k)

filter-all_pass {ℓ} : {A : Type ℓ} (xs : List A) → filter (λ _. true) xs ≡ xs
filter-all_pass [] = refl
filter-all_pass (x ∷ xs) = ap (λ l. x ∷ l) (filter-all_pass xs)

-- What `purgeStale` removes, for the texts of its two cutoffs: what is read or a receipt once it
-- is older than a day, and what is unread once it is older than the maximal age.
abbrev pub is_purged : (archive_cutoff stale_cutoff : String) → InboxMessage → Bool
is_purged archive_cutoff stale_cutoff m =
    ((m.read || is_receipt m) && text_lt m.timestamp archive_cutoff)
    || (not m.read && text_lt m.timestamp stale_cutoff)

abbrev pub is_archived : (archive_cutoff : String) → InboxMessage → Bool
is_archived archive_cutoff m = m.read && text_lt m.timestamp archive_cutoff && not (is_receipt m)

by_kind :
    (a z : String) {x y w : Bool} (m : InboxMessage)
    → x ≡ ((m.read && text_lt m.timestamp a) && not (is_receipt m))
    → y ≡ ((not m.read && text_lt m.timestamp z) && true)
    → w ≡ ((has_receipt_type m.meta && text_lt m.timestamp a) && true)
    → ((x || (y || w)) && true) ≡ is_purged a z m
unfolding is_receipt
by_kind a z m h j k = ground arith

module _ (a z : String) (rows : List InboxMessage) (unique : UniqueIds rows) where
  abbrev to_archive : List InboxMessage
  to_archive = filter (λ m. not (is_receipt m)) (db_get_read_older_than a rows)

  abbrev selected : List InboxMessage
  selected = to_archive ++ (db_get_unread_older_than z rows ++ db_get_receipts_older_than a rows)

  abbrev remove_ids : List String
  remove_ids = unique_from [] (map (λ m. m.id) selected)

  selected_lem : All (λ m. has_id_in remove_ids m ≡ is_purged a z m) rows
  unfolding db_get_read_older_than db_get_unread_older_than db_get_receipts_older_than
  selected_lem =
      go rows
        (any-selected (λ m. m.read && text_lt m.timestamp a) (λ m. not (is_receipt m)) rows unique)
        (any-selected (λ m. not m.read && text_lt m.timestamp z) (λ _. true) rows unique)
        (any-selected (λ m. has_receipt_type m.meta && text_lt m.timestamp a) (λ _. true) rows
          unique)
    where
      reads : List InboxMessage
      reads = to_archive

      unreads : List InboxMessage
      unreads = db_get_unread_older_than z rows

      receipts : List InboxMessage
      receipts = db_get_receipts_older_than a rows

      go :
          (ms : List InboxMessage)
          → All
              (λ m.
                any (has_id m.id) reads ≡ ((m.read && text_lt m.timestamp a) && not (is_receipt m)))
              ms
          → All
              (λ m.
                any (has_id m.id) (filter (λ _. true) unreads)
                ≡ ((not m.read && text_lt m.timestamp z) && true))
              ms
          → All
              (λ m.
                any (has_id m.id) (filter (λ _. true) receipts)
                ≡ ((has_receipt_type m.meta && text_lt m.timestamp a) && true))
              ms
          → All (λ m. has_id_in remove_ids m ≡ is_purged a z m) ms
      go [] h j k = tt
      go (m ∷ ms) (h, hs) (j, js) (k, ks) = (
        includes-unique_from [] (map (λ m. m.id) selected) m.id
            ∙ ap (λ b. b && true) (includes-map_id selected m.id)
            ∙ ap (λ b. b && true) (any-append (has_id m.id) reads (unreads ++ receipts))
            ∙ ap (λ b. (any (has_id m.id) reads || b) && true)
                (any-append (has_id m.id) unreads receipts)
            ∙ by_kind a z m h (sym (ap (any (has_id m.id)) (filter-all_pass unreads)) ∙ j)
                (sym (ap (any (has_id m.id)) (filter-all_pass receipts)) ∙ k),
        go ms hs js ks,
      )

  kept_lem :
      filter (λ m. not (has_id_in remove_ids m)) rows ≡ filter (λ m. not (is_purged a z m)) rows
  kept_lem = filter-cong _ _ rows (negated rows selected_lem)
    where
      negated :
          (ms : List InboxMessage)
          → All (λ m. has_id_in remove_ids m ≡ is_purged a z m) ms
          → All (λ m. not (has_id_in remove_ids m) ≡ not (is_purged a z m)) ms
      negated [] h = tt
      negated (m ∷ ms) (h, hs) = (ap not h, negated ms hs)

  nothing_purged : is_empty remove_ids ≡ true → rows ≡ filter (λ m. not (is_purged a z m)) rows
  nothing_purged h = sym (no_ids remove_ids h) ∙ kept_lem
    where
      no_ids :
          (ids : List String)
          → is_empty ids ≡ true
          → filter (λ m. not (has_id_in ids m)) rows ≡ rows
      no_ids [] h = filter-all_pass rows
      no_ids (_ ∷ _) h = cc

  -- The archive gains, counted under any test, the rows that are to be archived.
  count-to_archive :
      (p : InboxMessage → Bool)
      → length (filter p to_archive) ≡ length (filter (λ m. is_archived a m && p m) rows)
  unfolding db_get_read_older_than
  count-to_archive p =
      ap (length {A = InboxMessage}) (
        filter-filter p (λ m. not (is_receipt m))
          (order_by_timestamp (filter (λ m. m.read && text_lt m.timestamp a) rows)))
      ∙ count-order_by_timestamp (λ m. not (is_receipt m) && p m)
          (filter (λ m. m.read && text_lt m.timestamp a) rows)
      ∙ ap (length {A = InboxMessage}) (
          filter-filter (λ m. not (is_receipt m) && p m) (λ m. m.read && text_lt m.timestamp a)
            rows)
      ∙ regroup rows
    where
      regroup :
          (ms : List InboxMessage)
          → length
              (filter (λ m. (m.read && text_lt m.timestamp a) && (not (is_receipt m) && p m)) ms)
            ≡ length (filter (λ m. is_archived a m && p m) ms)
      regroup [] = refl
      regroup (m ∷ ms) = ground (arith, regroup ms)

filter-append {ℓ} :
    {A : Type ℓ} (p : A → Bool) (xs ys : List A) → filter p (xs ++ ys) ≡ filter p xs ++ filter p ys
filter-append p [] ys = refl
filter-append p (x ∷ xs) ys = ground (arith, filter-append p xs ys)

length-filter_complement {ℓ} :
    {A : Type ℓ} (p : A → Bool) (xs : List A)
    → length (filter p xs) + length (filter (λ x. not (p x)) xs) ≡ length xs
length-filter_complement p [] = omega arith
length-filter_complement p (x ∷ xs) = ground (arith, length-filter_complement p xs)

-- Where no two rows have one id, `purgeStale` removes exactly the messages that are read or
-- receipts and older than a day, and the unread ones older than the maximal age; it returns how
-- many they are; and counted under any test the archive gains those of them that were read and
-- are no receipts.
pub purge_stale_lem :
    (host : Host) (now days : ℕ) (s : Inbox) (rows : List InboxMessage)
    → s.db ≡ some rows
    → UniqueIds rows
    → (n : ℕ) × (s' : Inbox) × (purge_stale host now days s ≡ some (n, s'))
      × (s'.db
          ≡ some (
              filter
                (λ m. not (
                  is_purged (host.to_iso (now - 1 * day_ms)) (host.to_iso (now - days * day_ms)) m))
                rows))
      × (n + length (or_else s'.db []) ≡ length rows)
      × ((p : InboxMessage → Bool)
          → length (filter p s'.archive)
            ≡ length (filter p s.archive)
              + length (filter (λ m. is_archived (host.to_iso (now - 1 * day_ms)) m && p m) rows))
unfolding purge_stale db_remove
purge_stale_lem host now days s rows e u = elim (Bool-cases (is_empty ids)) [
  | inl nothing ↦
      let same = nothing_purged a z rows u nothing in
      (0, archived, ground (arith, e, nothing), e ∙ ap some same, ground (arith, e), gained)
  | inr something ↦ (
    length (filter (has_id_in ids) rows),
    finished (ltb 0 (length (filter (has_id_in ids) rows))),
    ground (arith, e, something),
    finished_db (ltb 0 (length (filter (has_id_in ids) rows))),
    ground (
      arith,
      finished_db (ltb 0 (length (filter (has_id_in ids) rows))),
      kept_lem a z rows u,
      length-filter_complement (has_id_in ids) rows,
    ),
    λ p. finished_archive (ltb 0 (length (filter (has_id_in ids) rows))) p ∙ gained p,
  )
]
  where
    a : String
    a = host.to_iso (now - 1 * day_ms)

    z : String
    z = host.to_iso (now - days * day_ms)

    ids : List String
    ids = remove_ids a z rows u

    archived : Inbox
    archived = record s { archive = s.archive ++ to_archive a z rows u }

    removed : Inbox
    removed = record archived { db = some (filter (λ m. not (has_id_in ids m)) rows) }

    finished : Bool → Inbox
    finished b = if b then update_signal_file host.can_write removed else removed

    gained :
        (p : InboxMessage → Bool)
        → length (filter p archived.archive)
          ≡ length (filter p s.archive) + length (filter (λ m. is_archived a m && p m) rows)
    gained p =
        ap (length {A = InboxMessage}) (filter-append p s.archive (to_archive a z rows u))
        ∙ length-append (filter p s.archive) (filter p (to_archive a z rows u))
        ∙ ap (λ k. length (filter p s.archive) + k) (count-to_archive a z rows u p)

    finished_db : (b : Bool) → (finished b).db ≡ some (filter (λ m. not (is_purged a z m)) rows)
    finished_db true = db-update_signal_file host removed ∙ ap some (kept_lem a z rows u)
    finished_db false = ap some (kept_lem a z rows u)

    finished_archive :
        (b : Bool) (p : InboxMessage → Bool)
        → length (filter p (finished b).archive) ≡ length (filter p archived.archive)
    finished_archive true p =
        ap (λ l. length (filter p l)) (archive-update_signal_file host removed)
    finished_archive false p = refl
