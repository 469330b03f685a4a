-- ===== src/InboxDb/Refine.antt =====
-- The table of src/inbox-db.ts behaves as a map from identifiers to messages.
use mathlib.Core.Path.{ap₂}
use inter_claude_connector.Base.{
  String, ◌≡◌, refl, ap, ◌∙◌, inl, inr, Bool, true, false, not, ◌&&◌, Option, none, some, List, [],
  ◌∷◌, ◌++◌, arith, ◌==◌, eq_iff, if◌then◌else◌, Bool-cases, is_some, filter, any, includes,
}
use inter_claude_connector.Messages.{InboxMessage}
use inter_claude_connector.InboxDb.{
  has_id, has_id_in, db_insert, db_get_unread, db_get_by_id, set_read, update_read, unread_in,
  db_mark_read, db_mark_all_read, db_update_timestamp, db_remove, insert_or_ignore,
}
use inter_claude_connector.InboxDb.Laws.{UniqueIds, any-order_by_timestamp, any-filter}
use inter_claude_connector.InboxDb.Unique.{
  UniqueIds-update_read, UniqueIds-filter, UniqueIds-insert_or_ignore, UniqueIds-db_insert,
}
use inter_claude_connector.InboxDb.Store.{
  Statement, inserted, ignored, marked, all_marked, retimed, removed, looked_up, asked, flag, row,
  insert_answer, execute, Store, added, on_row, added_all, is_unread, specify, answers, specified,
}

abbrev Agrees : List InboxMessage → Store → Type 0
Agrees rows σ = (k : String) → db_get_by_id k rows ≡ σ k

any-db_get_by_id :
    (k : String) (rows : List InboxMessage) → any (has_id k) rows ≡ is_some (db_get_by_id k rows)
unfolding db_get_by_id
any-db_get_by_id k [] = refl
any-db_get_by_id k (m ∷ rows) = ground (arith, any-db_get_by_id k rows)

get-append :
    (m : InboxMessage) (rows : List InboxMessage)
    → Agrees (rows ++ m ∷ []) (added m (λ k. db_get_by_id k rows))
unfolding db_get_by_id
get-append m [] k = refl
get-append m (x ∷ rows) k = ground (arith, get-append m rows k)

id-set_read : (b : Bool) (m : InboxMessage) → (if b then set_read m else m).id ≡ m.id
id-set_read true m = refl
id-set_read false m = refl

get-update_read :
    (p : InboxMessage → Bool) (rows : List InboxMessage) (k : String)
    → db_get_by_id k (update_read p rows)
      ≡ on_row (λ m. if p m then set_read m else m) (db_get_by_id k rows)
unfolding db_get_by_id update_read
get-update_read p [] k = refl
get-update_read p (m ∷ rows) k = ground (arith, get-update_read p rows k, id-set_read (p m) m)

on_row-cong :
    (f g : InboxMessage → InboxMessage) (o : Option InboxMessage)
    → ((m : InboxMessage) → f m ≡ g m)
    → on_row f o ≡ on_row g o
on_row-cong f g none e = refl
on_row-cong f g (some m) e = ap some (e m)

marked_once :
    (b : Bool) (m : InboxMessage)
    → (if b && not m.read then set_read m else m) ≡ (if b then set_read m else m)
marked_once false m = refl
marked_once true m = unread_or_not m.read refl
  where
    unread_or_not : (b : Bool) → m.read ≡ b → (if not b then set_read m else m) ≡ set_read m
    unread_or_not false e = refl
    unread_or_not true e = ap (λ b. record m { read = b }) e

retimed_or_not :
    (id timestamp k : String) (rows : List InboxMessage)
    → db_get_by_id k (db_update_timestamp id timestamp rows) ≡ elim (db_get_by_id k rows) [
      | none ↦ none
      | some m ↦ if id == k then some (record m { timestamp = timestamp }) else some m
    ]
unfolding db_get_by_id db_update_timestamp
retimed_or_not id timestamp k [] = refl
retimed_or_not id timestamp k (m ∷ rows) = elim (Bool-cases (m.id == id)) [
  | inl same ↦ ground (arith, same, eq_iff m.id id, retimed_or_not id timestamp k rows)
  | inr other ↦
      ground (
        arith,
        other,
        eq_iff m.id k,
        eq_iff id k,
        eq_iff m.id id,
        retimed_or_not id timestamp k rows,
      )
]

get-remove :
    (ids : List String) (rows : List InboxMessage) (k : String)
    → db_get_by_id k (filter (λ m. not (has_id_in ids m)) rows)
      ≡ (if includes ids k then none else db_get_by_id k rows)
unfolding db_get_by_id
get-remove ids [] k = ground arith
get-remove ids (m ∷ rows) k = elim (Bool-cases (m.id == k)) [
  | inl same ↦
      let e : m.id ≡ k = (eq_iff m.id k).0 same in
      ground (arith, same, ap (includes ids) e, get-remove ids rows k)
  | inr other ↦ ground (arith, other, get-remove ids rows k)
]

any-update_timestamp :
    (id timestamp k : String) (rows : List InboxMessage)
    → any (has_id k) (db_update_timestamp id timestamp rows) ≡ any (has_id k) rows
unfolding db_update_timestamp
any-update_timestamp id timestamp k [] = refl
any-update_timestamp id timestamp k (m ∷ rows) =
    ground (arith, any-update_timestamp id timestamp k rows)

id-retimed :
    (b : Bool) (timestamp : String) (m : InboxMessage)
    → (if b then record m { timestamp = timestamp } else m).id ≡ m.id
id-retimed true timestamp m = refl
id-retimed false timestamp m = refl

UniqueIds-update_timestamp :
    (id timestamp : String) (rows : List InboxMessage)
    → UniqueIds rows
    → UniqueIds (db_update_timestamp id timestamp rows)
unfolding db_update_timestamp
UniqueIds-update_timestamp id timestamp [] u = tt
UniqueIds-update_timestamp id timestamp (m ∷ rows) (new, u) = (
  rw (id-retimed (m.id == id) timestamp m) (any-update_timestamp id timestamp m.id rows ∙ new),
  UniqueIds-update_timestamp id timestamp rows u,
)

added-Agrees :
    (m : InboxMessage) (rows : List InboxMessage) (σ : Store)
    → Agrees rows σ
    → Agrees (if any (has_id m.id) rows then rows else rows ++ m ∷ []) (added m σ)
added-Agrees m rows σ h k =
    ground (arith, h k, h m.id, any-db_get_by_id m.id rows, get-append m rows k, eq_iff m.id k)

ignored-Agrees :
    (ms rows : List InboxMessage) (σ : Store)
    → Agrees rows σ
    → Agrees (insert_or_ignore ms rows) (added_all ms σ)
unfolding insert_or_ignore
ignored-Agrees [] rows σ h = h
ignored-Agrees (m ∷ ms) rows σ h = ignored-Agrees ms _ (added m σ) (added-Agrees m rows σ h)

Simulates : Statement → List InboxMessage → Store → Type 0
Simulates q rows σ =
    ((execute q rows).0 ≡ (specify q σ).0)
    × Agrees (execute q rows).1 (specify q σ).1
    × UniqueIds (execute q rows).1

inserted-Simulates :
    (m : InboxMessage) (rows : List InboxMessage) (σ : Store)
    → Agrees rows σ
    → UniqueIds rows
    → Simulates (inserted m) rows σ
unfolding Simulates execute specify db_insert
inserted-Simulates m rows σ h u = (
  ground (arith, h m.id, any-db_get_by_id m.id rows),
  λ k. table (any (has_id m.id) rows) k ∙ added-Agrees m rows σ h k,
  unique (any (has_id m.id) rows) refl,
)
  where
    table :
        (b : Bool) (k : String)
        → db_get_by_id k (insert_answer (if b then none else some (rows ++ m ∷ [])) rows).1
          ≡ db_get_by_id k (if b then rows else rows ++ m ∷ [])
    table true k = refl
    table false k = refl

    unique :
        (b : Bool)
        → any (has_id m.id) rows ≡ b
        → UniqueIds (insert_answer (if b then none else some (rows ++ m ∷ [])) rows).1
    unique true e = u
    unique false e = UniqueIds-db_insert m rows (rows ++ m ∷ []) u (rw e refl)

execute-specify :
    (q : Statement) (rows : List InboxMessage) (σ : Store)
    → Agrees rows σ
    → UniqueIds rows
    → Simulates q rows σ
unfolding Simulates execute specify db_mark_read db_mark_all_read db_remove db_get_unread
execute-specify (inserted m) rows σ h u = inserted-Simulates m rows σ h u
execute-specify (ignored ms) rows σ h u =
    (refl, ignored-Agrees ms rows σ h, UniqueIds-insert_or_ignore ms rows u)
execute-specify (marked ids) rows σ h u = (
  refl,
  λ k.
      get-update_read (unread_in ids) rows k
      ∙ ap (on_row (λ m. if unread_in ids m then set_read m else m)) (h k)
      ∙ on_row-cong _ _ (σ k) (λ m. marked_once (includes ids m.id) m),
  UniqueIds-update_read (unread_in ids) rows u,
)
execute-specify all_marked rows σ h u = (
  refl,
  λ k.
      get-update_read (λ m. not m.read) rows k
      ∙ ap (on_row (λ m. if not m.read then set_read m else m)) (h k)
      ∙ on_row-cong _ _ (σ k) (λ m. marked_once true m),
  UniqueIds-update_read (λ m. not m.read) rows u,
)
execute-specify (retimed id timestamp) rows σ h u = (
  refl,
  λ k. retimed_or_not id timestamp k rows ∙ ground (arith, h k),
  UniqueIds-update_timestamp id timestamp rows u,
)
execute-specify (removed ids) rows σ h u = (
  refl,
  λ k. get-remove ids rows k ∙ ground (arith, h k),
  UniqueIds-filter (λ m. not (has_id_in ids m)) rows u,
)
execute-specify (looked_up id) rows σ h u = (ap row (h id), h, u)
execute-specify (asked none id) rows σ h u = (
  ap flag (
      any-order_by_timestamp (has_id id) (filter (λ m. not m.read) rows)
      ∙ any-filter id (λ m. not m.read) rows u
      ∙ ground (arith, h id)),
  h,
  u,
)
execute-specify (asked (some from) id) rows σ h u = (
  ap flag (
      any-order_by_timestamp (has_id id) (filter (is_unread (some from)) rows)
      ∙ any-filter id (is_unread (some from)) rows u
      ∙ ground (arith, h id)),
  h,
  u,
)

run-Agrees :
    (qs : List Statement) (rows : List InboxMessage) (σ : Store)
    → Agrees rows σ
    → UniqueIds rows
    → answers qs rows ≡ specified qs σ
unfolding answers specified Simulates
run-Agrees [] rows σ h u = refl
run-Agrees (q ∷ qs) rows σ h u =
    let (same, agrees, unique) = execute-specify q rows σ h u in
    ap₂ ◌∷◌ same (run-Agrees qs (execute q rows).1 (specify q σ).1 agrees unique)

-- A table whose rows have different identifiers answers every sequence of statements as the map from
-- identifiers to its messages does: insertions succeed exactly where the map has no such message,
-- look-ups give its message, and a message is listed as unread, among all or those of a sender, exactly
-- where the map's message is.
pub answers-specified :
    (qs : List Statement) (rows : List InboxMessage)
    → UniqueIds rows
    → answers qs rows ≡ specified qs (λ k. db_get_by_id k rows)
answers-specified qs rows u = run-Agrees qs rows (λ k. db_get_by_id k rows) (λ k. refl) u
