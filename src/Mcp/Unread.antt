-- ===== src/Mcp/Unread.antt =====
-- Which rows are unread after those are marked that were listed as unread.
use inter_claude_connector.Base.{
  String, ◌≡◌, refl, ap, ◌∙◌, inl, inr, Bool, true, false, not, ◌&&◌, List, [], ◌∷◌, map, arith,
  eq_refl, if◌then◌else◌, Option-cases, truthy, length, filter, any, filter-filter, includes, All,
}
use inter_claude_connector.Messages.{InboxMessage}
use inter_claude_connector.InboxDb.{order_by_timestamp, has_id, set_read, update_read, unread_in}
use inter_claude_connector.Address.{address_matches}
use inter_claude_connector.InboxDb.Laws.{
  count-order_by_timestamp, any-order_by_timestamp, any-filter_and, includes-map_id,
}
use inter_claude_connector.Inbox.Operations.{AddressFilter, apply_filter}

abbrev pub unread_ids : List InboxMessage → List String
unread_ids ms = map (λ m. m.id) (filter (λ m. not m.read) ms)

self_weaker :
    (q : InboxMessage → Bool) (m : InboxMessage) (rows ms : List InboxMessage)
    → All (λ x. q x ≡ true → any (λ y. q y && has_id x.id y) rows ≡ true) ms
    → All (λ x. q x ≡ true → any (λ y. q y && has_id x.id y) (m ∷ rows) ≡ true) ms
self_weaker q m rows [] h = tt
self_weaker q m rows (x ∷ ms) (hx, h) = (λ e. ground (arith, hx e), self_weaker q m rows ms h)

-- A row that passes a test is found by its identifier among those that pass it.
self :
    (q : InboxMessage → Bool) (rows : List InboxMessage)
    → All (λ x. q x ≡ true → any (λ y. q y && has_id x.id y) rows ≡ true) rows
self q [] = tt
self q (m ∷ rows) = (λ e. ground (arith, e, eq_refl m.id), self_weaker q m rows rows (self q rows))

id-marked : (b : Bool) (m : InboxMessage) → (if b then set_read m else m).to ≡ m.to
id-marked true m = refl
id-marked false m = refl

-- After the unread rows of some identifiers are marked, no row that passes a test on its address is
-- unread, if the identifiers are those of all such rows.
none_unread :
    (match : String → Bool) (ids : List String) (rows : List InboxMessage)
    → All (λ m. (not m.read && match m.to) ≡ true → includes ids m.id ≡ true) rows
    → length (filter (λ m. not m.read && match m.to) (update_read (unread_in ids) rows)) ≡ 0
unfolding update_read
none_unread match ids [] h = refl
none_unread match ids (m ∷ rows) (hm, h) =
    ground (arith, hm, none_unread match ids rows h, id-marked (unread_in ids m) m)

empty_of_length : (ms : List InboxMessage) → length ms ≡ 0 → ms ≡ []
empty_of_length [] h = refl
empty_of_length (m ∷ ms) h = absurd (omega (arith, h))

filter_always : (ms : List InboxMessage) → ms ≡ filter (λ m. true) ms
filter_always [] = refl
filter_always (m ∷ ms) = ap (λ l. m ∷ l) (filter_always ms)

-- A filter by address is a test on the address of each message.
pub apply_filter_lem :
    (f : AddressFilter)
    → (match : String → Bool) × ((ms : List InboxMessage)
        → apply_filter f ms ≡ filter (λ m. match m.to) ms)
unfolding apply_filter
apply_filter_lem f = elim (Option-cases (truthy f.for_address)) [
  | inl missing ↦ (λ to. true, λ ms. ground (arith, missing) ∙ filter_always ms)
  | inr (address, given) ↦ elim (Option-cases (truthy f.server_identity)) [
    | inl missing ↦ (λ to. true, λ ms. ground (arith, given, missing) ∙ filter_always ms)
    | inr (identity, also) ↦
        (λ to. address_matches to address identity, λ ms. ground (arith, given, also))
  ]
]

any-cong :
    (p q : InboxMessage → Bool) (ms : List InboxMessage)
    → ((m : InboxMessage) → p m ≡ q m)
    → any p ms ≡ any q ms
any-cong p q [] e = refl
any-cong p q (m ∷ ms) e = ground (arith, e m, any-cong p q ms e)

same_test : (a b c : Bool) → (a && (b && (a && c))) ≡ ((a && b) && c)
same_test true b c = ground arith
same_test false b c = refl

module _ (match : String → Bool) (rows : List InboxMessage) where
  abbrev pub listed_unread : List InboxMessage
  listed_unread = filter (λ m. match m.to) (order_by_timestamp (filter (λ m. not m.read) rows))

  weaker :
      (ms : List InboxMessage)
      → All
          (λ x.
            (not x.read && match x.to) ≡ true
            → any (λ y. (not y.read && match y.to) && has_id x.id y) rows ≡ true)
          ms
      → All
          (λ m. (not m.read && match m.to) ≡ true → includes (unread_ids listed_unread) m.id ≡ true)
          ms
  weaker [] h = tt
  weaker (x ∷ ms) (hx, h) = (
    λ e.
        includes-map_id (filter (λ m. not m.read) listed_unread) x.id
        ∙ any-filter_and (has_id x.id) (λ m. not m.read) listed_unread
        ∙ any-filter_and (λ y. not y.read && has_id x.id y) (λ m. match m.to)
            (order_by_timestamp (filter (λ m. not m.read) rows))
        ∙ any-order_by_timestamp (λ y. match y.to && (not y.read && has_id x.id y))
            (filter (λ m. not m.read) rows)
        ∙ any-filter_and (λ y. match y.to && (not y.read && has_id x.id y)) (λ m. not m.read) rows
        ∙ any-cong _ (λ y. (not y.read && match y.to) && has_id x.id y) rows
            (λ y. same_test (not y.read) (match y.to) (has_id x.id y))
        ∙ hx e,
    weaker ms h,
  )

  pub none_listed :
      filter
        (λ m. match m.to)
        (order_by_timestamp
          (filter (λ m. not m.read) (update_read (unread_in (unread_ids listed_unread)) rows)))
      ≡ []
  none_listed =
      let ids = unread_ids listed_unread in
      let rows' = update_read (unread_in ids) rows in
      empty_of_length _ (
        count-order_by_timestamp (λ m. match m.to) (filter (λ m. not m.read) rows')
        ∙ ap length (filter-filter (λ m. match m.to) (λ m. not m.read) rows')
        ∙ none_unread match ids rows (weaker rows (self (λ m. not m.read && match m.to) rows)))
