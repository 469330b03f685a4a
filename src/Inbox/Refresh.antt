-- ===== src/Inbox/Refresh.antt =====
-- What the signal files hold after `updateSignalFile`.
use inter_claude_connector.Base.{
  String, ◌≡◌, refl, ◌∙◌, inl, inr, Bool, true, false, not, ◌&&◌, Option, none, some, List, [], ◌∷◌,
  ◌++◌, arith, ◌==◌, eq_iff, eq_refl, if◌then◌else◌, Bool-cases, includes,
}
use inter_claude_connector.Dict.{Dict, get, set, delete, has, keys}
use inter_claude_connector.Messages.{InboxMessage}
use inter_claude_connector.Inbox.{SignalContent, SignalFiles}
use inter_claude_connector.Inbox.Groups.{
  addressed, is_cons, IsGrouping, by_instance-IsGrouping, group-by_instance, has-by_instance,
}
use inter_claude_connector.Inbox.Signals.{
  content_of, group, by_instance, broadcasts, write_instance, write_active, write_inactive,
  unlink_inactive, write_broadcast, clean, spread, refresh,
}
use inter_claude_connector.Dict.Laws.{get-set, get-delete}

content_of-append :
    (xs ms : List InboxMessage)
    → is_cons ms ≡ true
    → (c : SignalContent) × (content_of (xs ++ ms) ≡ some c)
unfolding content_of
content_of-append [] [] h = cc
content_of-append [] (m ∷ ms) h = (_, refl)
content_of-append (x ∷ xs) ms h = (_, refl)

-- Which content the files of an instance should have: its own messages behind the broadcasts, or,
-- if it has a file already, the broadcasts alone.
abbrev pub expected : List InboxMessage → Dict SignalContent → String → Option SignalContent
expected unread files name =
    if is_cons (addressed name unread)
    then content_of (broadcasts unread ++ addressed name unread)
    else if has name files
    then content_of (broadcasts unread)
    else none

module _ (can_write : Option String → Bool)
    (all_ok : (o : Option String) → can_write o ≡ true) where
  write_instance_lem :
      (name : String) (ms : List InboxMessage) (files : Dict SignalContent) (c : SignalContent)
      → content_of ms ≡ some c
      → write_instance can_write name ms files ≡ some (set name c files)
  unfolding write_instance
  write_instance_lem name ms files c e = ground (arith, all_ok (some name))

  write_active_lem :
      (broadcast : List InboxMessage) (groups : Dict (List InboxMessage))
      (files : Dict SignalContent)
      → IsGrouping groups
      → ((write_active can_write broadcast groups files).0 ≡ true)
        × ((name : String)
            → get name (write_active can_write broadcast groups files).1 ≡ (
                if has name groups
                then content_of (broadcast ++ group name groups)
                else get name files))
  unfolding write_active get
  write_active_lem broadcast [] files h = (refl, λ name. refl)
  write_active_lem broadcast ((k, ms) ∷ groups) files ((new, d), h) =
      let (c, full) = content_of-append broadcast ms (h k ms (ground (arith, eq_refl k))) in
      let (done, reads) =
        write_active_lem broadcast groups (set k c files)
          (d, λ n l e. h n l (ground (arith, eq_iff k n))) in
      rw (write_instance_lem k (broadcast ++ ms) files c full, write_active)
        (done, λ name. reads name ∙ ground (arith, get-set k name c files, eq_iff k name))

  unlink_inactive_lem :
      (groups : Dict (List InboxMessage)) (names : List String) (files : Dict SignalContent)
      (name : String)
      → get name (unlink_inactive can_write groups names files)
        ≡ (if includes names name && not (has name groups) then none else get name files)
  unfolding unlink_inactive
  unlink_inactive_lem groups [] files name = ground arith
  unlink_inactive_lem groups (k ∷ names) files name =
      unlink_inactive_lem groups names (if has k groups then files else delete k files) name
      ∙ ground (arith, get-delete k name files, eq_iff k name)

  write_inactive_lem :
      (groups : Dict (List InboxMessage)) (broadcast : List InboxMessage) (names : List String)
      (files : Dict SignalContent)
      → is_cons broadcast ≡ true
      → ((write_inactive can_write groups broadcast names files).0 ≡ true)
        × ((name : String)
            → get name (write_inactive can_write groups broadcast names files).1 ≡ (
                if includes names name && not (has name groups)
                then content_of broadcast
                else get name files))
  unfolding write_inactive
  write_inactive_lem groups broadcast [] files h = (refl, λ name. ground arith)
  write_inactive_lem groups broadcast (k ∷ names) files h = elim (Bool-cases (has k groups)) [
    | inl active ↦
        let (done, reads) = write_inactive_lem groups broadcast names files h in
        rw (active, write_inactive) (done, λ name. reads name ∙ ground (arith, eq_iff k name))
    | inr inactive ↦
        let (c, full) = content_of-append [] broadcast h in
        let (done, reads) = write_inactive_lem groups broadcast names (set k c files) h in
        rw (inactive, write_inactive)
          (rw (write_instance_lem k broadcast files c full, write_inactive)
            (done, λ name. reads name ∙ ground (arith, get-set k name c files, eq_iff k name)))
  ]

  includes-keys :
      (files : Dict SignalContent) (name : String) → includes (keys files) name ≡ has name files
  unfolding get
  includes-keys [] name = refl
  includes-keys ((k, c) ∷ files) name = ground (arith, includes-keys files name)

  module _ (groups : Dict (List InboxMessage)) (grouped : IsGrouping groups)
      (files : Dict SignalContent) where
    abbrev written : List InboxMessage → Bool × Dict SignalContent
    written b = write_active can_write b groups (clean can_write groups b (keys files) files)

    abbrev spread_out : List InboxMessage → Bool × Dict SignalContent
    spread_out b = spread can_write groups b (keys files) (written b).1

    stages_lem :
        (b : List InboxMessage)
        → ((written b).0 ≡ true)
          × ((spread_out b).0 ≡ true)
          × ((name : String)
              → get name (spread_out b).1 ≡ (
                  if has name groups
                  then content_of (b ++ group name groups)
                  else if has name files
                  then content_of b
                  else none))
    unfolding clean spread content_of
    stages_lem [] =
        let (done, reads) =
          write_active_lem [] groups (clean can_write groups [] (keys files) files) grouped in
        (
          done,
          refl,
          λ name.
              unlink_inactive_lem groups (keys files) (written []).1 name
              ∙ ground (
                arith,
                reads name,
                unlink_inactive_lem groups (keys files) files name,
                includes-keys files name,
              ),
        )
    stages_lem (m ∷ ms) =
        let (done, reads) = write_active_lem (m ∷ ms) groups files grouped in
        let (done', reads') =
          write_inactive_lem groups (m ∷ ms) (keys files) (written (m ∷ ms)).1 refl in
        (done, done', λ name. reads' name ∙ ground (arith, reads name, includes-keys files name))

  write_broadcast_lem :
      (b : List InboxMessage) (old : Option SignalContent)
      → write_broadcast can_write b old ≡ content_of b
  unfolding write_broadcast content_of
  write_broadcast_lem [] old = refl
  write_broadcast_lem (m ∷ ms) old = ground (arith, all_ok none)

  get_group :
      (unread : List InboxMessage) (name : String)
      → (group name (by_instance unread []) ≡ addressed name unread)
        × (has name (by_instance unread []) ≡ is_cons (addressed name unread))
  unfolding get
  get_group unread name = (group-by_instance name unread [], has-by_instance name unread [])

  -- If every write succeeds, then after `updateSignalFile` the file `unread` describes the unread
  -- broadcasts, and is gone if there are none; and the file of each instance describes the
  -- broadcasts and then the messages to that instance if it has any, is left describing the
  -- broadcasts alone if it was there before and the instance has none, and is gone or never
  -- made otherwise.
  pub refresh_lem :
      (unread : List InboxMessage) (files : SignalFiles)
      → ((refresh can_write unread files).broadcast ≡ content_of (broadcasts unread))
        × ((name : String)
            → get name (refresh can_write unread files).instances
              ≡ expected unread files.instances name)
  unfolding refresh
  refresh_lem unread files =
      let (done, done', reads) = stages_lem groups grouped files.instances (broadcasts unread) in
      (
        ground (arith, done, done', write_broadcast_lem (broadcasts unread) files.broadcast),
        λ name. ground (arith, done, done', reads name, get_group unread name),
      )
    where
      groups : Dict (List InboxMessage)
      groups = by_instance unread []

      grouped : IsGrouping groups
      grouped = by_instance-IsGrouping unread [] (tt, unfold get in λ name ms e. cc)

module _ (can_write : Option String → Bool) (name : String)
    (fails : can_write (some name) ≡ false) where
  write_instance_failed :
      (ms : List InboxMessage) (files : Dict SignalContent)
      → write_instance can_write name ms files ≡ none
  unfolding write_instance
  write_instance_failed ms files = ground arith

  write_active_failed :
      (broadcast : List InboxMessage) (groups : Dict (List InboxMessage))
      (files : Dict SignalContent)
      → has name groups ≡ true
      → (write_active can_write broadcast groups files).0 ≡ false
  unfolding write_active get
  write_active_failed broadcast [] files h = cc
  write_active_failed broadcast ((k, ms) ∷ groups) files h = elim (Bool-cases (k == name)) [
    | inl same ↦
        let e : k ≡ name = (eq_iff k name).0 same in
        rw e (rw (write_instance_failed (broadcast ++ ms) files, write_active))
    | inr other ↦
        go (write_instance can_write k (broadcast ++ ms) files)
          (λ f. write_active_failed broadcast groups f (ground arith))
  ]
    where
      go :
          (o : Option (Dict SignalContent))
          → ((f : Dict SignalContent) → (write_active can_write broadcast groups f).0 ≡ false)
          → (let r : Bool × Dict SignalContent = elim o [
            | none ↦ (false, files)
            | some files' ↦ write_active can_write broadcast groups files'
          ] in
              r.0)
            ≡ false
      go none ih = refl
      go (some files') ih = ih files'

  -- An unread message to an instance whose signal file cannot be written keeps the file `unread`
  -- as it was, whatever broadcasts there are: the exception ends the whole update.
  pub refresh_failed :
      (unread : List InboxMessage) (files : SignalFiles)
      → is_cons (addressed name unread) ≡ true
      → (refresh can_write unread files).broadcast ≡ files.broadcast
  unfolding refresh
  refresh_failed unread files h =
      let failed =
        write_active_failed (broadcasts unread) (by_instance unread [])
          (clean can_write (by_instance unread []) (broadcasts unread) (keys files.instances)
            files.instances)
          ((get_group (λ _. true) (λ _. refl) unread name).1 ∙ h) in
      ground (arith, failed)
