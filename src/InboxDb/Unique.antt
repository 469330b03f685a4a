-- ===== src/InboxDb/Unique.antt =====
-- The identifiers of the rows stay different under the queries of src/inbox-db.ts that write.
use inter_claude_connector.Base.{
  String, ◌≡◌, refl, ◌∙◌, inl, inr, Bool, true, false, some, List, [], ◌∷◌, ◌++◌, arith, eq_iff,
  if◌then◌else◌, Bool-cases, filter, any,
}
use inter_claude_connector.Messages.{InboxMessage}
use inter_claude_connector.InboxDb.{has_id, db_insert, set_read, update_read, insert_or_ignore}
use inter_claude_connector.InboxDb.Laws.{UniqueIds, any-append, any-filter_none}

UniqueIds-append :
    (m : InboxMessage) (rows : List InboxMessage)
    → UniqueIds rows
    → any (has_id m.id) rows ≡ false
    → UniqueIds (rows ++ m ∷ [])
UniqueIds-append m [] u h = (refl, tt)
UniqueIds-append m (x ∷ rows) (new, u) h = (
  any-append (has_id x.id) rows (m ∷ []) ∙ ground (arith, new, eq_iff m.id x.id, eq_iff x.id m.id),
  UniqueIds-append m rows u (ground arith),
)

any-update_read :
    (p : InboxMessage → Bool) (k : String) (rows : List InboxMessage)
    → any (has_id k) (update_read p rows) ≡ any (has_id k) rows
unfolding update_read
any-update_read p k [] = refl
any-update_read p k (m ∷ rows) = ground (arith, any-update_read p k rows)

id-set_read : (b : Bool) (m : InboxMessage) → (if b then set_read m else m).id ≡ m.id
id-set_read true m = refl
id-set_read false m = refl

pub UniqueIds-update_read :
    (p : InboxMessage → Bool) (rows : List InboxMessage)
    → UniqueIds rows
    → UniqueIds (update_read p rows)
unfolding update_read
UniqueIds-update_read p [] u = tt
UniqueIds-update_read p (m ∷ rows) (new, u) =
    (rw (id-set_read (p m) m) (any-update_read p m.id rows ∙ new), UniqueIds-update_read p rows u)

kept-UniqueIds :
    (b : Bool) (m : InboxMessage) (rows : List InboxMessage)
    → any (has_id m.id) rows ≡ false
    → UniqueIds rows
    → UniqueIds (if b then m ∷ rows else rows)
kept-UniqueIds true m rows new u = (new, u)
kept-UniqueIds false m rows new u = u

pub UniqueIds-filter :
    (p : InboxMessage → Bool) (rows : List InboxMessage)
    → UniqueIds rows
    → UniqueIds (filter p rows)
UniqueIds-filter p [] u = tt
UniqueIds-filter p (m ∷ rows) (new, u) =
    kept-UniqueIds (p m) m (filter p rows) (any-filter_none m.id p rows new)
      (UniqueIds-filter p rows u)

pub UniqueIds-insert_or_ignore :
    (ms rows : List InboxMessage) → UniqueIds rows → UniqueIds (insert_or_ignore ms rows)
unfolding insert_or_ignore
UniqueIds-insert_or_ignore [] rows u = u
UniqueIds-insert_or_ignore (m ∷ ms) rows u = elim (Bool-cases (any (has_id m.id) rows)) [
  | inl there ↦ rw there (UniqueIds-insert_or_ignore ms rows u)
  | inr new ↦
      rw new (UniqueIds-insert_or_ignore ms (rows ++ m ∷ []) (UniqueIds-append m rows u new))
]

pub UniqueIds-db_insert :
    (m : InboxMessage) (rows rows' : List InboxMessage)
    → UniqueIds rows
    → db_insert m rows ≡ some rows'
    → UniqueIds rows'
unfolding db_insert
UniqueIds-db_insert m rows rows' u h = elim (Bool-cases (any (has_id m.id) rows)) [
  | inl there ↦ absurd (ground arith)
  | inr new ↦ let e : rows' ≡ rows ++ m ∷ [] = ground arith in rw e (UniqueIds-append m rows u new)
]
