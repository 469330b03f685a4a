-- ===== src/Cli/Watching.antt =====
-- `icc hook watch` of bin/icc.ts: a watcher starts, registers with the server, and polls until there is
-- mail, its session is gone or it is told to end.
use inter_claude_connector.Base.{
  ℕ, String, Bool, true, false, not, ◌&&◌, Option, none, some, nat_eq, if◌then◌else◌, truthy,
  is_text, is_some,
}
use inter_claude_connector.Cli.{
  IccDir, Process, check_signal_files, write_heartbeat, delete_heartbeat, write_watcher_pid,
  delete_watcher_pid, is_watcher_alive, write_session_token, get_session_token,
  delete_session_token,
}
use inter_claude_connector.Registry.Sessions.{is_active}

-- The requests of the hooks to the local server.
pub data HookRequest : Type 0 where
  beat_request end_request snooze_request : (token : String) → HookRequest
  watch_request : (instance_name : String) (force : Bool) (name : Option String) → HookRequest
  wake_request : (instance_name : String) → HookRequest
  startup_request : (instance_name : String) (applied_version : Option String) → HookRequest

-- What the hooks read of an answer. A request without an answer in JSON gives none.
pub record HookReply : Type 0 where
  pub ok : Bool
  pub reason : Option String
  pub status : Option String
  pub session_token : Option String
  pub connected : Bool
  pub drifted : Bool

abbrev pub LocalServer : Type 0 → Type 0
LocalServer W = HookRequest → W → Option HookReply × W

pub data Watcher : Type 0 where
  already_active deferred gone waiting : Watcher
  mail : (signal : String) → Watcher

unfoldable pub cleanup_watcher : (name : String) → IccDir → IccDir
cleanup_watcher name d = delete_heartbeat name (delete_watcher_pid name d)

-- The check of the signal files, with what a signal ends.
unfoldable pub look : (name : String) → IccDir → Watcher × IccDir
unfolding cleanup_watcher
look name d = elim (truthy (check_signal_files name d)) [
  | none ↦ (waiting, d)
  | some signal ↦ (mail signal, cleanup_watcher name d)
]

-- The number is `monitorPid`, which is not watched where it is 0 or NaN.
abbrev pub is_gone : Process → Option ℕ → Bool
is_gone os none = false
is_gone os (some pid) = not (nat_eq pid 0) && not (os.is_alive pid)

-- One turn of the interval.
unfoldable pub poll : Process → (monitor_pid : Option ℕ) (name : String) → IccDir → Watcher × IccDir
unfolding look
poll os monitor_pid name d =
    let d1 = write_heartbeat os name d in
    if is_gone os monitor_pid then (gone, cleanup_watcher name d1) else look name d1

-- The handler of SIGTERM and SIGINT.
unfoldable pub on_signal : (name : String) → IccDir → Watcher × IccDir
on_signal name d = (gone, cleanup_watcher name d)

unfoldable pub start_polling : Process → (name : String) → IccDir → Watcher × IccDir
unfolding look
start_polling os name d = look name (write_heartbeat os name (write_watcher_pid os name d))

module _ {W : Type 0} (server : LocalServer W) (os : Process) where
  -- A token that the server does not know is removed.
  unfoldable pub validate_token : IccDir → W → IccDir × W
  validate_token d w = elim (truthy (get_session_token os d)) [
    | none ↦ (d, w)
    | some token ↦
        let (reply, w1) = server (beat_request token) w in
        elim reply [
          | none ↦ (d, w1)
          | some r ↦
              if not r.ok && is_text r.reason "unknown_token"
              then (delete_session_token os d, w1)
              else (d, w1)
        ]
  ]

  -- What the answer to a registration does; the Boolean says that it is deferred.
  unfoldable pub take_registration : Option HookReply → IccDir → Bool × IccDir
  take_registration none d = (false, d)
  take_registration (some r) d = elim (truthy r.session_token) [
    | none ↦ (is_text r.status "deferred", d)
    | some token ↦
        if is_text r.status "active"
        then (false, write_session_token os token d)
        else (is_text r.status "deferred", d)
  ]

  unfoldable pub register_watcher :
      (force : Bool) (given_name : Option String) (name : String) → IccDir → W → Bool × (IccDir × W)
  unfolding take_registration
  register_watcher force given_name name d w =
      if is_some (truthy (get_session_token os d))
      then (false, (d, w))
      else let (reply, w1) = server (watch_request name force given_name) w in
        let (is_deferred, d1) = take_registration reply d in (is_deferred, (d1, w1))

  -- The rest of the hook, unless the registration is deferred.
  unfoldable pub watch_registered : (name : String) (is_deferred : Bool) → IccDir → Watcher × IccDir
  unfolding start_polling
  watch_registered name true d = (deferred, d)
  watch_registered name false d = start_polling os name d

  unfoldable pub watch_unless :
      (is_active : Bool) (force : Bool) (given_name : Option String) (name : String)
      → IccDir
      → W
      → Watcher × (IccDir × W)
  unfolding validate_token register_watcher watch_registered
  watch_unless true force given_name name d w = (already_active, (d, w))
  watch_unless false force given_name name d w =
      let (d1, w1) = validate_token d w in
      let (is_deferred, (d2, w2)) = register_watcher force given_name name d1 w1 in
      let (watcher, d3) = watch_registered name is_deferred d2 in (watcher, (d3, w2))

  unfoldable pub run_watch :
      (force : Bool) (given_name : Option String) (name : String)
      → IccDir
      → W
      → Watcher × (IccDir × W)
  unfolding watch_unless
  run_watch force given_name name d w =
      let (is_active, d1) = is_watcher_alive os name d in
      watch_unless is_active force given_name name d1 w
