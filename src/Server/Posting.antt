-- ===== src/Server/Posting.antt =====
-- What a post to the inbox of src/server.ts leaves in it.
use inter_claude_connector.Base.{
  ℕ, String, ◌≡◌, refl, ◌∙◌, ◌≢◌, ◌⊎◌, inl, inr, Bool, true, false, Option, none, some, List, [],
  ◌∷◌, ◌++◌, arith, eq_iff, if◌then◌else◌, Bool-cases, Option-cases, truthy, any,
}
use inter_claude_connector.Messages.{InboxMessageStatus, InboxMessage, has_receipt_type}
use inter_claude_connector.InboxDb.{has_id, db_insert}
use inter_claude_connector.Inbox.{Host, Inbox}
use inter_claude_connector.Inbox.Operations.{
  InboxPushInput, full_message, notify_subscribers, announce, push,
}
use inter_claude_connector.Inbox.Reading.{db-update_signal_file}
use inter_claude_connector.Address.{parse_address}
use inter_claude_connector.Server.Auth.Laws.{validate_from-peer}
use inter_claude_connector.Server.{Config, AuthResult, refused, posted}
use inter_claude_connector.Server.Auth.{authenticated_as, validate_from}
use inter_claude_connector.Server.Messages.{destination, post_inbox}

db-announce : (host : Host) (m : InboxMessage) (s : Inbox) → (announce host m s).db ≡ s.db
unfolding announce
db-announce host m s = ground (arith, db-update_signal_file host s)

db-notify_subscribers :
    (host : Host) (m : InboxMessage) (s : Inbox) → (notify_subscribers host m s).db ≡ s.db
unfolding notify_subscribers
db-notify_subscribers host m s = refl

module _ (host : Host) (now : ℕ) (id : String) (silent : Bool) (input : InboxPushInput) (s : Inbox)
    (rows : List InboxMessage) where
  abbrev pub made : InboxMessage
  made = full_message id (host.to_iso now) input

  abbrev pub pushed : Inbox
  pushed = notify_subscribers host made (
      if silent
      then record s { db = some (rows ++ made ∷ []) }
      else announce host made (record s { db = some (rows ++ made ∷ []) }))

  pub db-pushed : pushed.db ≡ some (rows ++ made ∷ [])
  db-pushed = db-notify_subscribers host made _ ∙ go silent
    where
      go :
          (b : Bool)
          → (if b
              then record s { db = some (rows ++ made ∷ []) }
              else announce host made (record s { db = some (rows ++ made ∷ []) })).db
            ≡ some (rows ++ made ∷ [])
      go true = refl
      go false = db-announce host made _

  pub push_lem :
      s.db ≡ some rows
      → push host now id silent input s
        ≡ (if any (has_id id) rows then none else some (made, pushed))
  unfolding push db_insert
  push_lem e = ground (arith, e)

destination_lem :
    (identity : String) (to : Option String) (address : String)
    → destination identity to ≡ some address
    → (address ≡ identity)
      ⊎ ((to ≡ some address)
          × (((parse_address address).host ≡ some identity)
              ⊎ (truthy (parse_address address).host ≡ none)))
unfolding destination
destination_lem identity to address h = elim (Option-cases (truthy to)) [
  | inl missing ↦ inl (ground arith)
  | inr (a, given) ↦ elim (Option-cases (parse_address a).host) [
    | inl bare ↦ inr (ground (arith, bare))
    | inr (k, there) ↦ ground (arith, there, eq_iff k identity, eq_iff k "")
  ]
]

module _ (host : Host) (config : Config) (now : ℕ) (id : String) (body : Option InboxPushInput)
    (s : Inbox) where
  -- A post that is refused leaves the inbox as it was.
  pub post_inbox-refused :
      (auth : AuthResult) {status : ℕ}
      → (post_inbox host config now id auth body s).0 ≡ refused status
      → (post_inbox host config now id auth body s).1 ≡ s
  unfolding post_inbox
  post_inbox-refused auth h = go body h
    where
      go :
          (b : Option InboxPushInput) {status : ℕ}
          → (post_inbox host config now id auth b s).0 ≡ refused status
          → (post_inbox host config now id auth b s).1 ≡ s
      go none h = refl
      go (some input) h = ground arith

  -- What a peer, which is not named "_local", has posted is put behind the messages of the inbox:
  -- it comes from an address of that peer, its identifier is new, and it is addressed to this
  -- server, to one of this server's instances or to an address without a host.
  pub post_inbox-posted :
      (peer : String) (rows : List InboxMessage) {i : String} {thread_id : Option String}
      {status : Option InboxMessageStatus}
      → peer ≢ "_local"
      → s.db ≡ some rows
      → (post_inbox host config now id (authenticated_as peer) body s).0 ≡ posted i thread_id status
      → (m : InboxMessage) × ((post_inbox host config now id (authenticated_as peer) body s).1.db
          ≡ some (rows ++ m ∷ []))
        × ((m.id ≡ i) × (any (has_id i) rows ≡ false))
        × ((parse_address m.from).host ≡ some peer)
        × ((m.to ≡ config.identity)
            ⊎ ((parse_address m.to).host ≡ some config.identity)
            ⊎ (truthy (parse_address m.to).host ≡ none))
  unfolding post_inbox
  post_inbox-posted peer rows n e h = go body h
    where
      at : InboxPushInput → String → InboxPushInput
      at input to = record input { to = some to }

      made_at : InboxPushInput → String → InboxMessage
      made_at input to = made host now id (has_receipt_type input.meta) (at input to) s rows

      pushed_at : InboxPushInput → String → Inbox
      pushed_at input to = pushed host now id (has_receipt_type input.meta) (at input to) s rows

      push_lem_at :
          (input : InboxPushInput) (to : String)
          → push host now id (has_receipt_type input.meta) (at input to) s
            ≡ (if any (has_id id) rows then none else some (made_at input to, pushed_at input to))
      push_lem_at input to =
          push_lem host now id (has_receipt_type input.meta) (at input to) s rows e

      db-pushed_at :
          (input : InboxPushInput) (to : String)
          → (pushed_at input to).db ≡ some (rows ++ made_at input to ∷ [])
      db-pushed_at input to =
          db-pushed host now id (has_receipt_type input.meta) (at input to) s rows

      go :
          (b : Option InboxPushInput) {i : String} {thread_id : Option String}
          {status : Option InboxMessageStatus}
          → (post_inbox host config now id (authenticated_as peer) b s).0
            ≡ posted i thread_id status
          → (m : InboxMessage) × ((post_inbox host config now id (authenticated_as peer) b s).1.db
              ≡ some (rows ++ m ∷ []))
            × ((m.id ≡ i) × (any (has_id i) rows ≡ false))
            × ((parse_address m.from).host ≡ some peer)
            × ((m.to ≡ config.identity)
                ⊎ ((parse_address m.to).host ≡ some config.identity)
                ⊎ (truthy (parse_address m.to).host ≡ none))
      go none h = cc
      go (some input) h = elim (Bool-cases (validate_from (some peer) input.from)) [
        | inr spoofed ↦ absurd (ground arith)
        | inl valid ↦ elim (Option-cases (destination config.identity input.to)) [
          | inl missing ↦ absurd (ground arith)
          | inr (to, there) ↦ elim (Bool-cases (any (has_id id) rows)) [
            | inl old ↦ absurd (ground (arith, push_lem_at input to))
            | inr new ↦ (
              made_at input to,
              ground (arith, push_lem_at input to, db-pushed_at input to),
              (ground (arith, push_lem_at input to), ground (arith, push_lem_at input to)),
              validate_from-peer peer input.from n valid,
              ground (arith, destination_lem config.identity input.to to there),
            )
          ]
        ]
      ]
