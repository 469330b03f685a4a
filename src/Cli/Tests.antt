-- ===== src/Cli/Tests.antt =====
-- The hooks of the command at a small directory: the instance `icc`, the process 7 and its watcher 8.
use inter_claude_connector.Base.{
  ℕ, suc, String, ◌≡◌, refl, ◌≢◌, true, false, none, some, List, [], ◌∷◌, ◌++◌, ◌==◌, if◌then◌else◌,
  different,
}
use inter_claude_connector.Dict.{get, set, has}
use inter_claude_connector.Cli.{
  given, value, parse_from, parse_flags, IccDir, Process, read_signal_file, check_signal_files,
  write_heartbeat, write_watcher_pid, is_watcher_alive, write_session_token, get_session_token,
}
use inter_claude_connector.Cli.Watching.{
  LocalServer, already_active, waiting, look, poll, start_polling, validate_token,
  take_registration, register_watcher, watch_registered, watch_unless, run_watch,
}
use inter_claude_connector.Cli.Hooks.{is_stale, start_session, run_session_end}
use inter_claude_connector.Cli.Ending.{SameInstance, run_session_end_lem, start_session_lem}
use inter_claude_connector.Cli.Single.{run_watch-run_watch}
use inter_claude_connector.Address.{parse_address}
use inter_claude_connector.Inbox.Signals.{
  content_of, instance_of, by_instance, broadcasts, write_active, write_broadcast, clean, spread,
  refresh,
}
use inter_claude_connector.Inbox.Groups.{addressed}
use inter_claude_connector.Cli.Mail.{written, turn, poll-refresh}
use inter_claude_connector.Strings.{trim_start, trim_end, trim}
use inter_claude_connector.Exec.{starts_with}
use inter_claude_connector.Server.Routes.{strip_prefix}
use inter_claude_connector.Inbox.{SignalContent, SignalFiles}
use inter_claude_connector.Messages.{InboxMessage}

abbrev sample_process : Process
sample_process = record {
  now = "noon";
  own_pid = "8";
  claude_code_pid = "7";
  parse_int = λ s. if s == "8" then some 8 else some 7;
  is_alive = λ n. true;
}

abbrev answer : LocalServer ℕ
answer request n = (
  some (record {
    ok = true;
    reason = none;
    status = some "active";
    session_token = some "t";
    connected = true;
    drifted = false;
  }),
  suc n,
)

abbrev empty : IccDir
empty = record {
  unread = none;
  unread_of = [];
  heartbeats = [];
  watcher_pids = [];
  snoozed = ("icc", "noon") ∷ [];
  session_instances = [];
  session_tokens = [];
}

abbrev watched : IccDir
watched = record empty {
  heartbeats = ("icc", "noon") ∷ [];
  watcher_pids = ("icc", "8") ∷ [];
  session_tokens = ("7", "t") ∷ [];
}

watch_starts : run_watch answer sample_process false none "icc" empty 0 ≡ (waiting, (watched, 1))
unfolding run_watch is_watcher_alive get set watch_unless validate_token register_watcher
    take_registration watch_registered start_polling look check_signal_files read_signal_file
    write_heartbeat write_watcher_pid get_session_token write_session_token
watch_starts = refl

own_number : trim "8" ≡ "8"
unfolding trim_start trim_end
own_number = refl

run_watch-run_watch_example :
    run_watch answer sample_process true none "icc" watched 1 ≡ (already_active, (watched, 1))
run_watch-run_watch_example =
    run_watch-run_watch answer sample_process sample_process false true none none "icc" 8 empty
      watched 0 1 watch_starts (rw own_number refl) refl

run_session_end_example :
    let (killed, (d', w')) = run_session_end answer sample_process "icc" watched 1 in
    (get "icc" d'.watcher_pids ≡ none)
    × (get "icc" d'.heartbeats ≡ none)
    × (get "icc" d'.snoozed ≡ none)
    × (get "7" d'.session_instances ≡ none)
    × (get "7" d'.session_tokens ≡ none)
    × SameInstance "web" watched d'
run_session_end_example =
    run_session_end_lem answer sample_process "icc" "web" watched 1 (different "icc" "web" refl)

start_session_example :
    let d' = start_session sample_process "icc" watched in
    (get "7" d'.session_instances ≡ some "icc")
    × (get "icc" d'.snoozed
        ≡ (if has "7" watched.session_instances then get "icc" watched.snoozed else none))
    × (get "9" d'.session_instances
        ≡ (if is_stale sample_process "9" then none else get "9" watched.session_instances))
    × (get "9" d'.session_tokens
        ≡ (if is_stale sample_process "9" then none else get "9" watched.session_tokens))
start_session_example =
    start_session_lem sample_process "icc" "9" watched refl (different "7" "9" refl)

two_flags :
    parse_flags ("send" ∷ "--to" ∷ "mars" ∷ "--force" ∷ [])
    ≡ (("to", value "mars") ∷ ("force", given) ∷ [], "send" ∷ [])
unfolding parse_flags parse_from strip_prefix starts_with set
two_flags = refl

abbrev printed : SignalContent → String
printed c = "1 unread"

printed_lem : (c : SignalContent) → trim (printed c) ≢ ""
unfolding trim_start trim_end
printed_lem c = different "1 unread" "" refl

abbrev sample_mail : List InboxMessage
sample_mail =
    record {
      id = "m";
      from = "mars";
      to = "venus";
      body = "hello";
      timestamp = "t";
      reply_to = none;
      thread_id = none;
      status = none;
      meta = none;
      read = false;
    }
    ∷ []

abbrev no_files : SignalFiles
no_files = record { broadcast = none; instances = [] }

abbrev with_mail : IccDir
with_mail = record watched { unread = some "1 unread" }

refreshed :
    refresh (λ o. true) sample_mail no_files
    ≡ record { broadcast = content_of sample_mail; instances = [] }
unfolding refresh write_active by_instance instance_of parse_address spread broadcasts content_of
    write_broadcast clean
refreshed = refl

own_file :
    get "icc" with_mail.unread_of
    ≡ written printed (get "icc" (refresh (λ o. true) sample_mail no_files).instances)
unfolding get
own_file = rw refreshed refl

all_file : with_mail.unread ≡ written printed (refresh (λ o. true) sample_mail no_files).broadcast
unfolding content_of
all_file = rw refreshed refl

poll-refresh_example :
    poll sample_process (some 7) "icc" with_mail
    ≡ turn printed printed_lem "icc"
        (write_heartbeat sample_process "icc" with_mail)
        (content_of (broadcasts sample_mail ++ addressed "icc" sample_mail))
poll-refresh_example =
    poll-refresh printed printed_lem (λ o. true) sample_mail no_files sample_process (some 7) "icc"
      with_mail (λ o. refl) own_file all_file refl
