-- ===== src/Cli/Ending.antt =====
-- What the hooks of bin/icc.ts leave behind when a session starts and ends.
use inter_claude_connector.Base.{
  String, ◌≡◌, refl, ◌≢◌, inl, inr, false, none, some, [], ◌∷◌, arith, eq_iff, eq_refl,
  if◌then◌else◌, Option-cases,
}
use inter_claude_connector.Dict.{Dict, get, delete, has}
use inter_claude_connector.Dict.Laws.{get-set, get-delete}
use inter_claude_connector.Cli.{
  IccDir, Process, delete_heartbeat, delete_watcher_pid, wake_watcher, write_session_instance,
  delete_session_instance, delete_session_token,
}
use inter_claude_connector.Cli.Watching.{LocalServer, cleanup_watcher}
use inter_claude_connector.Cli.Hooks.{
  is_stale, drop_stale, clean_stale, start_session, kill_watcher, run_session_end,
}

get-delete_same : (k : String) (m : Dict String) → get k (delete k m) ≡ none
get-delete_same k m = rw (get-delete, eq_refl k) refl

get-delete_other : (k j : String) (m : Dict String) → k ≢ j → get j (delete k m) ≡ get j m
get-delete_other k j m n = ground (arith, get-delete k j m, eq_iff k j)

-- The watcher's files and the snooze of an instance in two states of the directory.
abbrev pub SameInstance : (name : String) → IccDir → IccDir → Type 0
SameInstance name d d' =
    (get name d'.watcher_pids ≡ get name d.watcher_pids)
    × (get name d'.heartbeats ≡ get name d.heartbeats)
    × (get name d'.snoozed ≡ get name d.snoozed)

-- When a session ends, no process number, no heartbeat and no snooze of its instance are left, nor the
-- instance and the token of its process, whatever the server answers; and the files of the other
-- instances stay.
pub run_session_end_lem :
    {W : Type 0} (server : LocalServer W) (os : Process) (name other : String) (d : IccDir) (w : W)
    → name ≢ other
    → let (killed, (d', w')) = run_session_end server os name d w in
      (get name d'.watcher_pids ≡ none)
      × (get name d'.heartbeats ≡ none)
      × (get name d'.snoozed ≡ none)
      × (get os.claude_code_pid d'.session_instances ≡ none)
      × (get os.claude_code_pid d'.session_tokens ≡ none)
      × SameInstance other d d'
unfolding run_session_end kill_watcher cleanup_watcher delete_heartbeat delete_watcher_pid
    delete_session_instance delete_session_token wake_watcher
run_session_end_lem server os name other d w n = (
  get-delete_same name d.watcher_pids,
  get-delete_same name d.heartbeats,
  get-delete_same name d.snoozed,
  get-delete_same os.claude_code_pid d.session_instances,
  get-delete_same os.claude_code_pid d.session_tokens,
  (
    get-delete_other name other d.watcher_pids n,
    get-delete_other name other d.heartbeats n,
    get-delete_other name other d.snoozed n,
  ),
)

get-drop_stale :
    (os : Process) (k : String) (files : Dict String)
    → get k (drop_stale os files) ≡ (if is_stale os k then none else get k files)
unfolding get drop_stale
get-drop_stale os k [] = ground arith
get-drop_stale os k ((j, v) ∷ files) = ground (arith, eq_iff j k, get-drop_stale os k files)

-- Where the files of the process of a session are not stale, its start records its instance; a snooze
-- of the instance stays where the process had a session already and is cleared otherwise; and the
-- instances and tokens recorded for other processes are kept, but not for those that are not alive.
pub start_session_lem :
    (os : Process) (name other : String) (d : IccDir)
    → is_stale os os.claude_code_pid ≡ false
    → os.claude_code_pid ≢ other
    → let d' = start_session os name d in
      (get os.claude_code_pid d'.session_instances ≡ some name)
      × (get name d'.snoozed
          ≡ (if has os.claude_code_pid d.session_instances then get name d.snoozed else none))
      × (get other d'.session_instances
          ≡ (if is_stale os other then none else get other d.session_instances))
      × (get other d'.session_tokens
          ≡ (if is_stale os other then none else get other d.session_tokens))
unfolding start_session clean_stale wake_watcher write_session_instance
start_session_lem os name other d a n =
    let own = os.claude_code_pid in
    let kept : get own (drop_stale os d.session_instances) ≡ get own d.session_instances =
      ground (arith, get-drop_stale os own d.session_instances) in
    let recorded = get-set own own name (drop_stale os d.session_instances) in
    let others = get-set own other name (drop_stale os d.session_instances) in
    elim (Option-cases (get own d.session_instances)) [
      | inr (old, h) ↦
          rw (start_session, kept, h)
            (
              ground (arith, recorded, eq_refl own),
              refl,
              ground (arith, others, eq_iff own other, get-drop_stale os other d.session_instances),
              get-drop_stale os other d.session_tokens,
            )
      | inl h ↦
          rw (start_session, kept, h)
            (
              ground (arith, recorded, eq_refl own),
              get-delete_same name d.snoozed,
              ground (arith, others, eq_iff own other, get-drop_stale os other d.session_instances),
              get-drop_stale os other d.session_tokens,
            )
    ]
