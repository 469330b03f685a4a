-- ===== src/InboxDb/Laws.antt =====
-- What the statements select, whatever the order of their results.
use inter_claude_connector.Base.{
  suc, String, ◌≡◌, refl, sym, ap, ◌∙◌, inl, inr, Bool, false, ◌&&◌, ◌||◌, none, some, List, [],
  ◌∷◌, ◌++◌, map, arith, ◌==◌, eq_iff, eq_refl, Bool-cases, length, filter, any, filter-filter,
  includes, All,
}
use inter_claude_connector.Messages.{InboxMessage}
use inter_claude_connector.InboxDb.{
  text_lt, insert_sorted, order_by_timestamp, has_id, db_get_by_id,
}

module _ {ℓ} {A : Type ℓ} where
  pub filter-cong :
      (p q : A → Bool) (xs : List A) → All (λ x. p x ≡ q x) xs → filter p xs ≡ filter q xs
  filter-cong p q [] h = refl
  filter-cong p q (x ∷ xs) (e, h) = rw (e, filter-cong p q xs h)

-- No id occurs twice: the primary key.
abbrev pub UniqueIds : List InboxMessage → Type 0
UniqueIds [] = Unit
UniqueIds (m ∷ rows) = (any (has_id m.id) rows ≡ false) × UniqueIds rows

-- Sorting loses nothing, adds nothing and repeats nothing.
count-insert_sorted :
    (p : InboxMessage → Bool) (m : InboxMessage) (rows : List InboxMessage)
    → length (filter p (insert_sorted m rows)) ≡ length (filter p (m ∷ rows))
unfolding insert_sorted
count-insert_sorted p m [] = refl
count-insert_sorted p m (x ∷ rows) = ground (arith, count-insert_sorted p m rows)

pub count-order_by_timestamp :
    (p : InboxMessage → Bool) (rows : List InboxMessage)
    → length (filter p (order_by_timestamp rows)) ≡ length (filter p rows)
unfolding order_by_timestamp
count-order_by_timestamp p [] = refl
count-order_by_timestamp p (m ∷ rows) =
    count-insert_sorted p m (order_by_timestamp rows)
    ∙ ground (arith, count-order_by_timestamp p rows)

length-insert_sorted :
    (m : InboxMessage) (rows : List InboxMessage)
    → length (insert_sorted m rows) ≡ suc (length rows)
unfolding insert_sorted
length-insert_sorted m [] = refl
length-insert_sorted m (x ∷ rows) = ground (arith, length-insert_sorted m rows)

pub length-order_by_timestamp :
    (rows : List InboxMessage) → length (order_by_timestamp rows) ≡ length rows
unfolding order_by_timestamp
length-order_by_timestamp [] = refl
length-order_by_timestamp (m ∷ rows) =
    length-insert_sorted m (order_by_timestamp rows) ∙ ap suc (length-order_by_timestamp rows)

any-insert_sorted :
    (p : InboxMessage → Bool) (m : InboxMessage) (rows : List InboxMessage)
    → any p (insert_sorted m rows) ≡ (p m || any p rows)
unfolding insert_sorted
any-insert_sorted p m [] = refl
any-insert_sorted p m (x ∷ rows) = ground (arith, any-insert_sorted p m rows)

pub any-order_by_timestamp :
    (p : InboxMessage → Bool) (rows : List InboxMessage)
    → any p (order_by_timestamp rows) ≡ any p rows
unfolding order_by_timestamp
any-order_by_timestamp p [] = refl
any-order_by_timestamp p (m ∷ rows) =
    any-insert_sorted p m (order_by_timestamp rows) ∙ ground (arith, any-order_by_timestamp p rows)

All-insert_sorted {κ} :
    (P : InboxMessage → Type κ) (m : InboxMessage) (rows : List InboxMessage)
    → P m
    → All P rows
    → All P (insert_sorted m rows)
unfolding insert_sorted
All-insert_sorted P m [] h k = (h, tt)
All-insert_sorted P m (x ∷ rows) h (kx, k) = elim (Bool-cases (text_lt x.timestamp m.timestamp)) [
  | inl before ↦ rw before (kx, All-insert_sorted P m rows h k)
  | inr after ↦ rw after (h, (kx, k))
]

pub All-order_by_timestamp {κ} :
    (P : InboxMessage → Type κ) (rows : List InboxMessage)
    → All P rows
    → All P (order_by_timestamp rows)
unfolding order_by_timestamp
All-order_by_timestamp P [] h = tt
All-order_by_timestamp P (m ∷ rows) (h, k) =
    All-insert_sorted P m (order_by_timestamp rows) h (All-order_by_timestamp P rows k)

pub any-append {ℓ} :
    {A : Type ℓ} (p : A → Bool) (xs ys : List A) → any p (xs ++ ys) ≡ (any p xs || any p ys)
any-append p [] ys = refl
any-append p (x ∷ xs) ys = ground (arith, any-append p xs ys)

pub any-filter_none :
    (k : String) (p : InboxMessage → Bool) (rows : List InboxMessage)
    → any (has_id k) rows ≡ false
    → any (has_id k) (filter p rows) ≡ false
any-filter_none k p [] h = refl
any-filter_none k p (m ∷ rows) h = ground (arith, any-filter_none k p rows)

-- The row of an id, where ids are unique, passes a test exactly if it is among the rows that do.
pub any-filter :
    (k : String) (p : InboxMessage → Bool) (rows : List InboxMessage)
    → UniqueIds rows
    → any (has_id k) (filter p rows) ≡ elim (db_get_by_id k rows) [ none ↦ false | some m ↦ p m ]
unfolding db_get_by_id
any-filter k p [] u = refl
any-filter k p (m ∷ rows) (new, u) = elim (Bool-cases (m.id == k)) [
  | inl same ↦
      let e : m.id ≡ k = (eq_iff m.id k).0 same in
      let absent = any-filter_none k p rows (rw e at new) in ground (arith, absent)
  | inr other ↦ ground (arith, any-filter k p rows u)
]

get_each_under :
    (m : InboxMessage) (rows ms : List InboxMessage)
    → any (has_id m.id) ms ≡ false
    → All (λ x. db_get_by_id x.id rows ≡ some x) ms
    → All (λ x. db_get_by_id x.id (m ∷ rows) ≡ some x) ms
unfolding db_get_by_id
get_each_under m rows [] h k = tt
get_each_under m rows (x ∷ ms) h (e, k) =
    (ground (arith, eq_iff m.id x.id, eq_iff x.id m.id), get_each_under m rows ms (ground arith) k)

pub get_each :
    (rows : List InboxMessage) → UniqueIds rows → All (λ m. db_get_by_id m.id rows ≡ some m) rows
unfolding db_get_by_id
get_each [] u = tt
get_each (m ∷ rows) (new, u) =
    (ground (arith, eq_refl m.id), get_each_under m rows rows new (get_each rows u))

pub any-filter_and {ℓ} :
    {A : Type ℓ} (p q : A → Bool) (xs : List A) → any p (filter q xs) ≡ any (λ x. q x && p x) xs
any-filter_and p q [] = refl
any-filter_and p q (x ∷ xs) = ground (arith, any-filter_and p q xs)

pub includes-map_id :
    (ms : List InboxMessage) (k : String) → includes (map (λ m. m.id) ms) k ≡ any (has_id k) ms
includes-map_id [] k = refl
includes-map_id (m ∷ ms) k = ground (arith, includes-map_id ms k)

-- The messages that a statement selects, and a test then keeps, hold the id of a row exactly if the
-- row passes both tests.
pub any-selected :
    (p q : InboxMessage → Bool) (rows : List InboxMessage)
    → UniqueIds rows
    → All
        (λ m. any (has_id m.id) (filter q (order_by_timestamp (filter p rows))) ≡ (p m && q m))
        rows
any-selected p q rows u = go rows (get_each rows u)
  where
    go :
        (ms : List InboxMessage)
        → All (λ m. db_get_by_id m.id rows ≡ some m) ms
        → All
            (λ m. any (has_id m.id) (filter q (order_by_timestamp (filter p rows))) ≡ (p m && q m))
            ms
    go [] h = tt
    go (m ∷ ms) (e, h) = (
      any-filter_and (has_id m.id) q (order_by_timestamp (filter p rows))
          ∙ any-order_by_timestamp (λ x. q x && has_id m.id x) (filter p rows)
          ∙ sym (any-filter_and (has_id m.id) q (filter p rows))
          ∙ ap (any (has_id m.id)) (filter-filter q p rows)
          ∙ any-filter m.id (λ x. p x && q x) rows u
          ∙ ground (arith, e),
      go ms h,
    )
