-- ===== src/Cli.antt =====
-- bin/icc.ts: the arguments of the command, and the files of ~/.icc that its hooks keep. The files of
-- one kind, such as watcher.<instance>.pid, are a dictionary by what stands at the place of the name.
pub mod Hooks
pub mod Watching
pub mod Mail
pub mod Ending
pub mod Single
mod Tests
use Prim.Native.String
use inter_claude_connector.Base.{
  ℕ, String, Bool, true, false, not, ◌&&◌, Option, none, some, List, [], ◌∷◌, ◌++◌, ◌==◌,
  if◌then◌else◌, truthy,
}
use inter_claude_connector.Dict.{Dict, get, set, delete}
use inter_claude_connector.Strings.{trim}
use inter_claude_connector.Exec.{starts_with}
use inter_claude_connector.Server.Routes.{strip_prefix}

pub data Flag : Type 0 where
  given : Flag
  value : String → Flag

-- One turn of the loop of `parseFlags` at a time; an argument that is a value is skipped.
unfoldable pub parse_from :
    Dict Flag → (positional : List String) → List String → Dict Flag × List String
parse_from flags positional [] = (flags, positional)
parse_from flags positional (a ∷ []) = elim (strip_prefix "--" a) [
  | some key ↦ (set key given flags, positional)
  | none ↦ (flags, positional ++ a ∷ [])
]
parse_from flags positional (a ∷ next ∷ rest) = elim (strip_prefix "--" a) [
  | some key ↦
      let with_value = parse_from (set key (value next) flags) positional rest in
      let without = parse_from (set key given flags) positional (next ∷ rest) in
      if not (next == "") && not (starts_with "--" next) then with_value else without
  | none ↦ parse_from flags (positional ++ a ∷ []) (next ∷ rest)
]

unfoldable pub parse_flags : List String → Dict Flag × List String
unfolding parse_from
parse_flags args = parse_from [] [] args

-- unread, unread.<instance>, watcher.<instance>.heartbeat, watcher.<instance>.pid,
-- watcher.<instance>.snoozed, session.<pid>.instance and session.<pid>.token
pub record IccDir : Type 0 where
  pub unread : Option String
  pub unread_of : Dict String
  pub heartbeats : Dict String
  pub watcher_pids : Dict String
  pub snoozed : Dict String
  pub session_instances : Dict String
  pub session_tokens : Dict String

-- The process: the time, its own number and that of Claude Code, as texts, `parseInt` with none for
-- NaN, and whether `process.kill(pid, 0)` returns.
pub record Process : Type 0 where
  pub now : String
  pub own_pid : String
  pub claude_code_pid : String
  pub parse_int : String → Option ℕ
  pub is_alive : ℕ → Bool

unfoldable pub read_signal_file : Option String → Option String
read_signal_file none = none
read_signal_file (some content) = some (trim content)

unfoldable pub check_signal_files : (name : String) → IccDir → Option String
unfolding read_signal_file
check_signal_files name d = elim (truthy (read_signal_file (get name d.unread_of))) [
  | some signal ↦ some signal
  | none ↦ read_signal_file d.unread
]

unfoldable pub write_heartbeat : Process → (name : String) → IccDir → IccDir
write_heartbeat os name d = record d { heartbeats = set name os.now d.heartbeats }

unfoldable pub delete_heartbeat : (name : String) → IccDir → IccDir
delete_heartbeat name d = record d { heartbeats = delete name d.heartbeats }

unfoldable pub write_watcher_pid : Process → (name : String) → IccDir → IccDir
write_watcher_pid os name d = record d { watcher_pids = set name os.own_pid d.watcher_pids }

unfoldable pub delete_watcher_pid : (name : String) → IccDir → IccDir
delete_watcher_pid name d = record d { watcher_pids = delete name d.watcher_pids }

-- The process that a file with a number is about.
abbrev pub pid_in : Process → Option String → Option ℕ
pid_in os none = none
pid_in os (some content) = os.parse_int (trim content)

unfoldable pub is_watcher_alive : Process → (name : String) → IccDir → Bool × IccDir
unfolding delete_watcher_pid
is_watcher_alive os name d = elim (pid_in os (get name d.watcher_pids)) [
  | none ↦ (false, d)
  | some pid ↦ if os.is_alive pid then (true, d) else (false, delete_watcher_pid name d)
]

unfoldable pub snooze_watcher : Process → (name : String) → IccDir → IccDir
snooze_watcher os name d = record d { snoozed = set name os.now d.snoozed }

unfoldable pub wake_watcher : (name : String) → IccDir → IccDir
wake_watcher name d = record d { snoozed = delete name d.snoozed }

unfoldable pub write_session_instance : Process → (name : String) → IccDir → IccDir
write_session_instance os name d = record d {
  session_instances = set os.claude_code_pid name d.session_instances;
}

unfoldable pub get_session_instance_name : Process → (fallback : String) → IccDir → String
get_session_instance_name os fallback d = elim (get os.claude_code_pid d.session_instances) [
  | none ↦ fallback
  | some content ↦ trim content
]

unfoldable pub delete_session_instance : Process → IccDir → IccDir
delete_session_instance os d = record d {
  session_instances = delete os.claude_code_pid d.session_instances;
}

unfoldable pub write_session_token : Process → (token : String) → IccDir → IccDir
write_session_token os token d = record d {
  session_tokens = set os.claude_code_pid token d.session_tokens;
}

unfoldable pub get_session_token : Process → IccDir → Option String
get_session_token os d = elim (get os.claude_code_pid d.session_tokens) [
  | none ↦ none
  | some content ↦ some (trim content)
]

unfoldable pub delete_session_token : Process → IccDir → IccDir
delete_session_token os d = record d { session_tokens = delete os.claude_code_pid d.session_tokens }
