-- ===== src/Cli/Mail.antt =====
-- From the inbox of src/inbox.ts to the watcher of bin/icc.ts: the signal files that the one writes
-- are what ends the other.
use inter_claude_connector.Base.{
  ℕ, String, ◌≡◌, refl, sym, ap, ◌∙◌, ◌≢◌, Bool, true, false, Option, none, some, List, [], ◌∷◌,
  ◌++◌, arith, ◌==◌, eq_iff, if◌then◌else◌, append_nil,
}
use inter_claude_connector.Dict.{get, has}
use inter_claude_connector.Messages.{InboxMessage}
use inter_claude_connector.Inbox.{SignalContent, SignalFiles}
use inter_claude_connector.Inbox.Signals.{content_of, broadcasts, refresh}
use inter_claude_connector.Inbox.Groups.{addressed, is_cons}
use inter_claude_connector.Inbox.Refresh.{expected, refresh_lem}
use inter_claude_connector.Strings.{trim}
use inter_claude_connector.Cli.{
  IccDir, Process, read_signal_file, check_signal_files, write_heartbeat,
}
use inter_claude_connector.Cli.Watching.{
  Watcher, waiting, mail, cleanup_watcher, look, is_gone, poll,
}

-- What a hook reads of a file with some content.
abbrev pub shown : (print : SignalContent → String) → Option SignalContent → Option String
shown print none = none
shown print (some c) = some (trim (print c))

abbrev pub written : (print : SignalContent → String) → Option SignalContent → Option String
written print none = none
written print (some c) = some (print c)

module _ (print : SignalContent → String) (prints : (c : SignalContent) → trim (print c) ≢ "") where
  -- The instance's file comes first.
  abbrev first_of : (own broadcast : Option SignalContent) → Option String
  first_of none broadcast = shown print broadcast
  first_of (some c) broadcast = some (trim (print c))

  check_signal_files_lem :
      (name : String) (d : IccDir) (own broadcast : Option SignalContent)
      → get name d.unread_of ≡ written print own
      → d.unread ≡ written print broadcast
      → check_signal_files name d ≡ first_of own broadcast
  unfolding check_signal_files read_signal_file
  check_signal_files_lem name d none none o b = rw (check_signal_files, o, b) refl
  check_signal_files_lem name d none (some c) o b = rw (check_signal_files, o, b) refl
  check_signal_files_lem name d (some c) broadcast o b =
      let text : (trim (print c) == "") ≡ false =
        ground (arith, prints c, eq_iff (trim (print c)) "") in
      rw (check_signal_files, o) (rw text refl)

  -- The instance's file, made as the inbox means it, behind which the broadcast file stands.
  first_of-contents :
      (bs own : List InboxMessage) (has_file : Bool)
      → first_of
          (if is_cons own then content_of (bs ++ own) else if has_file then content_of bs else none)
          (content_of bs)
        ≡ shown print (content_of (bs ++ own))
  unfolding content_of
  first_of-contents [] [] true = refl
  first_of-contents [] [] false = refl
  first_of-contents (b ∷ bs) [] true = rw (sym (append_nil bs)) refl
  first_of-contents (b ∷ bs) [] false = rw (sym (append_nil bs)) refl
  first_of-contents [] (m ∷ ms) has_file = refl
  first_of-contents (b ∷ bs) (m ∷ ms) has_file = refl

  -- After the inbox has written its signal files for its unread messages, where every write succeeds, a
  -- hook of an instance reads the content for the broadcasts and the messages to that instance, in
  -- this order, and nothing where there are none. The texts of contents are not blank.
  pub check_signal_files-refresh :
      (can_write : Option String → Bool) (unread : List InboxMessage) (files : SignalFiles)
      (name : String) (d : IccDir)
      → ((o : Option String) → can_write o ≡ true)
      → get name d.unread_of ≡ written print (get name (refresh can_write unread files).instances)
      → d.unread ≡ written print (refresh can_write unread files).broadcast
      → check_signal_files name d
        ≡ shown print (content_of (broadcasts unread ++ addressed name unread))
  check_signal_files-refresh can_write unread files name d ok own all =
      let (broadcast, instances) = refresh_lem can_write ok unread files in
      check_signal_files_lem name d (expected unread files.instances name)
        (content_of (broadcasts unread)) (own ∙ ap (written print) (instances name))
        (all ∙ ap (written print) broadcast)
      ∙ first_of-contents (broadcasts unread) (addressed name unread) (has name files.instances)

  -- A watcher ends where there is some content and waits where there is none.
  abbrev pub turn : (name : String) → IccDir → Option SignalContent → Watcher × IccDir
  turn name d none = (waiting, d)
  turn name d (some c) = (mail (trim (print c)), cleanup_watcher name d)

  look_lem :
      (name : String) (d : IccDir) (content : Option SignalContent)
      → check_signal_files name d ≡ shown print content
      → look name d ≡ turn name d content
  unfolding look
  look_lem name d none h = rw (look, h) refl
  look_lem name d (some c) h =
      let text : (trim (print c) == "") ≡ false =
        ground (arith, prints c, eq_iff (trim (print c)) "") in
      rw (look, h) (rw text refl)

  -- After the inbox has written its signal files for its unread messages, where every write succeeds
  -- and the texts of contents are not blank, a watcher whose session is not gone ends at its next turn
  -- if there are broadcasts or messages to its instance, with the content for them and without its
  -- own files, and otherwise waits on.
  pub poll-refresh :
      (can_write : Option String → Bool) (unread : List InboxMessage) (files : SignalFiles)
      (os : Process) (monitor_pid : Option ℕ) (name : String) (d : IccDir)
      → ((o : Option String) → can_write o ≡ true)
      → get name d.unread_of ≡ written print (get name (refresh can_write unread files).instances)
      → d.unread ≡ written print (refresh can_write unread files).broadcast
      → is_gone os monitor_pid ≡ false
      → poll os monitor_pid name d
        ≡ turn name
            (write_heartbeat os name d)
            (content_of (broadcasts unread ++ addressed name unread))
  unfolding poll write_heartbeat
  poll-refresh can_write unread files os monitor_pid name d ok own all alive =
      let d1 = write_heartbeat os name d in
      let read = check_signal_files-refresh can_write unread files name d1 ok own all in
      rw (poll, alive)
        (look_lem name d1 (content_of (broadcasts unread ++ addressed name unread)) read)
