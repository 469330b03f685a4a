-- ===== src/Inbox/Signals.antt =====
-- The signal files of src/inbox.ts.
use Prim.Native.String
use inter_claude_connector.Base.{
  ℕ, zero, suc, String, Bool, true, false, not, Option, none, some, List, [], ◌∷◌, ◌++◌, map, ltb,
  if◌then◌else◌, truthy, or_else, is_some, length, filter, includes,
}
use inter_claude_connector.Dict.{Dict, get, set, delete, has, keys}
use inter_claude_connector.Messages.{InboxMessage, is_receipt}
use inter_claude_connector.Address.{parse_address}
use inter_claude_connector.InboxDb.{db_get_unread}
use inter_claude_connector.Inbox.{SignalContent, SignalFiles, Inbox}

-- The values of an array in order, each at its first place: `[...new Set(xs)]`.
unfoldable pub unique_from : List String → List String → List String
unique_from seen [] = []
unique_from seen (x ∷ xs) =
    let rest = unique_from seen xs in
    let longer = unique_from (x ∷ seen) xs in if includes seen x then rest else x ∷ longer

-- The first `n` characters of a text, which is shorter than `n + 1`.
unfoldable pub take_chars : ℕ → String → String
take_chars zero s = String.[]
take_chars (suc n) String.[] = String.[]
take_chars (suc n) (String.◌∷◌ c s) = String.◌∷◌ c (take_chars n s)

-- The lengths are those of JavaScript for texts without characters outside the basic plane, which
-- count as two there.
unfoldable pub preview_of : String → String
unfolding take_chars
preview_of body =
    if ltb 80 (String.count body) then String.◌++◌ (take_chars 77 body) "..." else body

-- `writeSignalContent` for the unread messages `m ∷ ms`; the last of them is the latest.
abbrev pub last_of : InboxMessage → List InboxMessage → InboxMessage
last_of m [] = m
last_of m (x ∷ ms) = last_of x ms

unfoldable pub signal_content : InboxMessage → List InboxMessage → SignalContent
unfolding unique_from preview_of
signal_content m ms =
    let latest = last_of m ms in
    record {
      unread = length (m ∷ ms);
      senders = unique_from [] (map (λ x. x.from) (m ∷ ms));
      latest = latest.timestamp;
      preview = preview_of latest.body;
      status = latest.status;
    }

-- The content for a list that is not empty.
unfoldable pub content_of : List InboxMessage → Option SignalContent
content_of [] = none
content_of (m ∷ ms) = some (signal_content m ms)

-- `parseAddress(m.to).instance`, none where it is falsy.
unfoldable pub instance_of : InboxMessage → Option String
instance_of m = truthy (parse_address m.to).instance_name

abbrev pub group : String → Dict (List InboxMessage) → List InboxMessage
group name groups = or_else (get name groups) []

abbrev pub add_to_group :
    InboxMessage → Option String → Dict (List InboxMessage) → Dict (List InboxMessage)
add_to_group m none groups = groups
add_to_group m (some name) groups = set name (group name groups ++ m ∷ []) groups

-- The loop that sorts unread messages by instance.
unfoldable pub by_instance : List InboxMessage → Dict (List InboxMessage) → Dict (List InboxMessage)
by_instance [] groups = groups
by_instance (m ∷ ms) groups = by_instance ms (add_to_group m (instance_of m) groups)

unfoldable pub broadcasts : List InboxMessage → List InboxMessage
broadcasts ms = filter (λ m. not (is_some (instance_of m))) ms

module _ (can_write : Option String → Bool) where
  -- `writeFileSync` of an instance's file; none is the exception.
  unfoldable pub write_instance :
      String → List InboxMessage → Dict SignalContent → Option (Dict SignalContent)
  write_instance name ms files = elim (content_of ms) [
    | none ↦ none
    | some content ↦ if can_write (some name) then some (set name content files) else none
  ]

  -- The loop over the instances with unread messages of their own. The Boolean says whether it ran
  -- to its end: a write that fails throws, and what was written before stays.
  unfoldable pub write_active :
      List InboxMessage → Dict (List InboxMessage) → Dict SignalContent → Bool × Dict SignalContent
  write_active broadcast [] files = (true, files)
  write_active broadcast ((name, ms) ∷ groups) files =
      elim (write_instance name (broadcast ++ ms) files) [
        | none ↦ (false, files)
        | some files' ↦ write_active broadcast groups files'
      ]

  -- The loop that writes the broadcasts to the files of the other instances, in the order of
  -- `existingFiles`.
  unfoldable pub write_inactive :
      Dict (List InboxMessage)
      → List InboxMessage
      → List String
      → Dict SignalContent
      → Bool × Dict SignalContent
  write_inactive groups broadcast [] files = (true, files)
  write_inactive groups broadcast (name ∷ names) files = elim (has name groups) [
    | true ↦ write_inactive groups broadcast names files
    | false ↦ elim (write_instance name broadcast files) [
      | none ↦ (false, files)
      | some files' ↦ write_inactive groups broadcast names files'
    ]
  ]

  -- The loop that removes the files of the other instances.
  unfoldable pub unlink_inactive :
      Dict (List InboxMessage) → List String → Dict SignalContent → Dict SignalContent
  unlink_inactive groups [] files = files
  unlink_inactive groups (name ∷ names) files =
      unlink_inactive groups names (if has name groups then files else delete name files)

  -- The file `unread`, at the end of the `try` block.
  unfoldable pub write_broadcast : List InboxMessage → Option SignalContent → Option SignalContent
  write_broadcast [] old = none
  write_broadcast (m ∷ ms) old = if can_write none then some (signal_content m ms) else old

  -- The first loop over `existingFiles`, which is guarded by there being no broadcast.
  unfoldable pub clean :
      Dict (List InboxMessage)
      → List InboxMessage
      → List String
      → Dict SignalContent
      → Dict SignalContent
  unfolding unlink_inactive
  clean groups [] existing files = unlink_inactive groups existing files
  clean groups (_ ∷ _) existing files = files

  -- The two loops over `existingFiles` behind the one over the active instances: the first is
  -- guarded by there being broadcasts, the second by there being none.
  unfoldable pub spread :
      Dict (List InboxMessage)
      → List InboxMessage
      → List String
      → Dict SignalContent
      → Bool × Dict SignalContent
  unfolding unlink_inactive write_inactive
  spread groups [] existing files = (true, unlink_inactive groups existing files)
  spread groups (m ∷ ms) existing files = write_inactive groups (m ∷ ms) existing files

  -- The `try` block of `updateSignalFile` over the unread messages that are no receipts.
  unfoldable pub refresh : List InboxMessage → SignalFiles → SignalFiles
  refresh unread files =
      let groups = by_instance unread [] in
      let broadcast = broadcasts unread in
      let existing = keys files.instances in
      let (done, written) =
        write_active broadcast groups (clean groups broadcast existing files.instances) in
      let (done', spread_out) = spread groups broadcast existing written in
      if not done
      then record { broadcast = files.broadcast; instances = written }
      else if not done'
      then record { broadcast = files.broadcast; instances = spread_out }
      else record { broadcast = write_broadcast broadcast files.broadcast; instances = spread_out }

-- `updateSignalFile`
unfoldable pub update_signal_file : (Option String → Bool) → Inbox → Inbox
update_signal_file can_write s = elim s.db [
  | none ↦ s
  | some rows ↦
      let unread = filter (λ m. not (is_receipt m)) (db_get_unread none rows) in
      record s { signals = refresh can_write unread s.signals }
]
