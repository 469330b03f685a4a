-- ===== src/Cli/Hooks.antt =====
-- The other hooks of bin/icc.ts on the files of ~/.icc and the local server: startup, check, shutdown,
-- session-end, snooze-watcher and wake-watcher. What they print is the lines of the answer.
use inter_claude_connector.Base.{
  ℕ, String, Bool, false, not, Option, none, some, List, [], ◌∷◌, ◌++◌, if◌then◌else◌, truthy,
  is_text, is_some,
}
use inter_claude_connector.Dict.{Dict, get, has}
use inter_claude_connector.Cli.{
  IccDir, Process, check_signal_files, pid_in, snooze_watcher, wake_watcher, write_session_instance,
  delete_session_instance, write_session_token, get_session_token, delete_session_token,
}
use inter_claude_connector.Cli.Watching.{
  beat_request, end_request, snooze_request, wake_request, startup_request, HookReply, LocalServer,
  cleanup_watcher,
}

pub data Line : Type 0 where
  signal : String → Line
  unreachable server_connected config_drifted not_synced : Line

abbrev pub signal_line : Option String → List Line
signal_line none = []
signal_line (some text) = signal text ∷ []

-- A file of a session stays if its name has no number, or that of a live process.
abbrev pub is_stale : Process → (pid : String) → Bool
is_stale os pid = elim (os.parse_int pid) [ none ↦ false | some n ↦ not (os.is_alive n) ]

unfoldable pub drop_stale : Process → Dict String → Dict String
drop_stale os [] = []
drop_stale os ((pid, content) ∷ files) =
    let rest = drop_stale os files in if is_stale os pid then rest else (pid, content) ∷ rest

unfoldable pub clean_stale : Process → IccDir → IccDir
unfolding drop_stale
clean_stale os d = record d {
  session_instances = drop_stale os d.session_instances;
  session_tokens = drop_stale os d.session_tokens;
}

-- The files at the start of a session: a snooze is cleared unless this process has a session already.
unfoldable pub start_session : Process → (name : String) → IccDir → IccDir
unfolding clean_stale
start_session os name d =
    let d1 = clean_stale os d in
    let d2 = if has os.claude_code_pid d1.session_instances then d1 else wake_watcher name d1 in
    write_session_instance os name d2

abbrev pub connection_line : Option HookReply → Line
connection_line none = unreachable
connection_line (some r) = if r.connected then server_connected else unreachable

abbrev pub sync_line : (applied_version : Option String) → Option HookReply → List Line
sync_line version reply =
    let drifted = elim reply as (λ x. Bool) [ none ↦ false | some r ↦ r.drifted ] in
    if drifted then config_drifted ∷ [] else if is_some version then [] else not_synced ∷ []

-- The hooks that stop a watcher: the process that is sent SIGTERM, and the files without the watcher.
unfoldable pub kill_watcher : Process → (name : String) → IccDir → Option ℕ × IccDir
unfolding cleanup_watcher
kill_watcher os name d = (pid_in os (get name d.watcher_pids), cleanup_watcher name d)

module _ {W : Type 0} (server : LocalServer W) (os : Process) where
  -- `is_healthy` says that GET /api/health is answered.
  unfoldable pub run_startup :
      (is_healthy : Bool) (applied_version : Option String) (name : String)
      → IccDir
      → W
      → List Line × (IccDir × W)
  unfolding start_session
  run_startup is_healthy applied_version name d w =
      let d1 = start_session os name d in
      let mail_line = signal_line (truthy (check_signal_files name d1)) in
      if not is_healthy
      then (mail_line ++ unreachable ∷ [], (d1, w))
      else let (reply, w1) = server (startup_request name applied_version) w in
        (mail_line ++ connection_line reply ∷ sync_line applied_version reply, (d1, w1))

  -- The signal, and a heartbeat where there is a token.
  unfoldable pub run_check : (name : String) → IccDir → W → List Line × (IccDir × W)
  run_check name d w = (
    signal_line (truthy (check_signal_files name d)),
    (
      d,
      elim (truthy (get_session_token os d)) [
        | none ↦ w
        | some token ↦ (server (beat_request token) w).1
      ],
    ),
  )

  -- The exit status is 2 where there is a signal.
  unfoldable pub run_shutdown : (name : String) → IccDir → ℕ × List Line
  run_shutdown name d = elim (truthy (check_signal_files name d)) [
    | none ↦ (0, [])
    | some text ↦ (2, signal text ∷ [])
  ]

  unfoldable pub run_session_end : (name : String) → IccDir → W → Option ℕ × (IccDir × W)
  unfolding kill_watcher
  run_session_end name d w =
      let (killed, d1) = kill_watcher os name d in
      let w1 = elim (truthy (get_session_token os d1)) as (λ x. W) [
        | none ↦ w
        | some token ↦ (server (end_request token) w).1
      ] in
      (killed, (wake_watcher name (delete_session_instance os (delete_session_token os d1)), w1))

  unfoldable pub run_snooze : (name : String) → IccDir → W → Option ℕ × (IccDir × W)
  unfolding kill_watcher
  run_snooze name d w =
      let (killed, d1) = kill_watcher os name d in
      elim (truthy (get_session_token os d1)) [
        | none ↦ (killed, (snooze_watcher os name d1, w))
        | some token ↦ (
          killed,
          (
            snooze_watcher os name (delete_session_token os d1),
            (server (snooze_request token) w).1,
          ),
        )
      ]

  unfoldable pub run_wake : (name : String) → IccDir → W → IccDir × W
  run_wake name d w =
      let d1 = wake_watcher name d in
      let (reply, w1) = server (wake_request name) w in
      elim reply [
        | none ↦ (d1, w1)
        | some r ↦ elim (truthy r.session_token) [
          | none ↦ (d1, w1)
          | some token ↦
              if is_text r.status "active" then (write_session_token os token d1, w1) else (d1, w1)
        ]
      ]
