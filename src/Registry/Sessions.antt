-- ===== src/Registry/Sessions.antt =====
-- The registrations by session token of src/registry.ts: ACTIVE, GRACE for 30 seconds, PURGATORY
-- for ten minutes, gone.
use inter_claude_connector.Base.{
  ℕ, suc, ◌+◌, String, Bool, true, false, not, ◌&&◌, Option, none, some, List, [], ◌∷◌, map, ◌==◌,
  ltb, if◌then◌else◌,
}
use inter_claude_connector.Dict.{get, set, delete, find}
use inter_claude_connector.Registry.{
  RegistrationState, active, grace, purgatory, unregistered, SessionRegistration, Callback,
  grace_over, purgatory_over, Timer, Registry, update, modify, grace_timeout_ms,
  purgatory_timeout_ms,
}

-- The loop of `findByToken` goes through the map in order.
unfoldable pub find_by_token : String → Registry → Option (String × ℕ)
find_by_token token s = find (λ ref. (s.heap ref).session_token == token) s.sessions

abbrev pub clear_timeout : Option ℕ → (ℕ → Option Timer) → ℕ → Option Timer
clear_timeout none timers = timers
clear_timeout (some i) timers = update timers i none

unfoldable pub clear_timers : ℕ → Registry → Registry
clear_timers ref s =
    let reg = s.heap ref in
    record s {
      timers = clear_timeout reg.purgatory_timer (clear_timeout reg.grace_timer s.timers);
      heap = modify s.heap ref (λ g. record g { grace_timer = none; purgatory_timer = none });
    }

-- The result of `sessionRegister`. The message of `deferred` is its state in words.
pub data SessionRegisterResult : Type 0 where
  registered : (session_token : String) → SessionRegisterResult
  deferred : (current_state : RegistrationState) → SessionRegisterResult

abbrev pub is_occupied : RegistrationState → Bool
is_occupied active = true
is_occupied grace = true
is_occupied _ = false

-- Eviction of what has the name, then the new registration: the rest of `sessionRegister` once
-- the name may be taken. `token` is what `generateToken` draws.
unfoldable pub take_name :
    (now : ℕ) (token name : String) (pid : ℕ) (existing : Option ℕ)
    → Registry
    → SessionRegisterResult × Registry
take_name now token name pid existing s =
    let s' : Registry = elim existing [ none ↦ s | some ref ↦ clear_timers ref s ] in
    (
      registered token,
      record s' {
        sessions = set name s'.next s'.sessions;
        heap = update s'.heap s'.next (record {
          session_token = token;
          pid = pid;
          state = active;
          last_seen = now;
          snoozed = false;
          grace_timer = none;
          purgatory_timer = none;
        });
        next = suc s'.next;
      },
    )

-- `sessionRegister` for `instanceName`; `pid` is 0 where the caller gives none.
unfoldable pub session_register :
    (now : ℕ) (token name : String) (pid : ℕ) (force : Bool)
    → Registry
    → SessionRegisterResult × Registry
session_register now token name pid force s = elim (get name s.sessions) [
  | none ↦ take_name now token name pid none s
  | some ref ↦
      if not force && is_occupied (s.heap ref).state
      then (deferred (s.heap ref).state, s)
      else take_name now token name pid (some ref) s
]

note_timer : Callback → ℕ → SessionRegistration → SessionRegistration
note_timer grace_over i reg = record reg { grace_timer = some i }
note_timer purgatory_over i reg = record reg { purgatory_timer = some i }

-- `reg.xTimer = setTimeout(callback, delay)`: the number of the timer is new.
unfoldable pub set_timeout :
    (callback : Callback) (due : ℕ) (name : String) (ref : ℕ) → Registry → Registry
unfolding note_timer
set_timeout callback due name ref s =
    let timer : Timer = record { callback = callback; name = name; reg = ref; due = due } in
    record s {
      timers = update s.timers s.next (some timer);
      heap = modify s.heap ref (note_timer callback s.next);
      next = suc s.next;
    }

abbrev pub set_state : RegistrationState → ℕ → Registry → Registry
set_state state ref s = record s { heap = modify s.heap ref (λ g. record g { state = state }) }

unfoldable pub transition_to_purgatory : (now : ℕ) → String → ℕ → Registry → Registry
unfolding clear_timers set_timeout
transition_to_purgatory now name ref s =
    set_timeout purgatory_over (now + purgatory_timeout_ms) name ref
      (set_state purgatory ref (clear_timers ref s))

abbrev pub is_active : RegistrationState → Bool
is_active active = true
is_active _ = false

-- What `onWatcherDisconnect` does to an active registration. A process number of 0 is none.
unfoldable pub enter_grace : (is_alive : ℕ → Bool) (now : ℕ) → String → ℕ → Registry → Registry
unfolding transition_to_purgatory
enter_grace is_alive now name ref s =
    let s' = set_state grace ref s in
    let pid = (s.heap ref).pid in
    if ltb 0 pid && not (is_alive pid)
    then transition_to_purgatory now name ref s'
    else set_timeout grace_over (now + grace_timeout_ms) name ref s'

unfoldable pub on_watcher_disconnect :
    (is_alive : ℕ → Bool) (now : ℕ) → String → Registry → Registry
on_watcher_disconnect is_alive now token s = elim (find_by_token token s) [
  | none ↦ s
  | some (name, ref) ↦
      if name == ""
      then s
      else if is_active (s.heap ref).state
      then enter_grace is_alive now name ref s
      else s
]

unfoldable pub session_heartbeat : (now : ℕ) → String → Registry → Bool × Registry
session_heartbeat now token s = elim (find_by_token token s) [
  | none ↦ (false, s)
  | some (_, ref) ↦
      (true, record s { heap = modify s.heap ref (λ g. record g { last_seen = now }) })
]

unfoldable pub session_deregister : String → Registry → Bool × Registry
session_deregister token s = elim (find_by_token token s) [
  | none ↦ (false, s)
  | some (name, ref) ↦
      let s' = clear_timers ref s in
      if name == "" then (false, s) else (true, record s' { sessions = delete name s'.sessions })
]

unfoldable pub session_snooze : String → Registry → Bool × Registry
session_snooze token s = elim (find_by_token token s) [
  | none ↦ (false, s)
  | some (name, ref) ↦
      let s' = clear_timers ref s in
      if name == "" then (false, s) else (
        true,
        record s' {
          heap = modify s'.heap ref (λ g. record g { state = unregistered; snoozed = true });
          sessions = delete name s'.sessions;
          instances = delete name s'.instances;
        },
      )
]

unfoldable pub get_session_state : String → Registry → Option SessionRegistration
get_session_state name s = elim (get name s.sessions) [ none ↦ none | some ref ↦ some (s.heap ref) ]

unfoldable pub session_reconnect : (now : ℕ) → String → Registry → Bool × Registry
session_reconnect now token s = elim (find_by_token token s) [
  | none ↦ (false, s)
  | some (name, ref) ↦
      let s' = clear_timers ref s in
      if name == "" then (false, s) else (
        true,
        record s' { heap = modify s'.heap ref (λ g. record g { state = active; last_seen = now }) },
      )
]

-- The two functions handed to `setTimeout`.
unfoldable pub run_callback : (now : ℕ) → Callback → (name : String) (ref : ℕ) → Registry → Registry
run_callback now grace_over name ref s = transition_to_purgatory now name ref s
run_callback now purgatory_over name ref s = record (set_state unregistered ref s) {
  sessions = delete name s.sessions;
}

-- The event loop runs the callback of timer `i`, which is then pending no more.
unfoldable pub fire : (now i : ℕ) → Registry → Registry
fire now i s = elim (s.timers i) [
  | none ↦ s
  | some t ↦ run_callback now t.callback t.name t.reg (record s { timers = update s.timers i none })
]

clear_all : List ℕ → Registry → Registry
unfolding clear_timers
clear_all [] s = s
clear_all (ref ∷ refs) s = clear_all refs (clear_timers ref s)

-- The timers of every session are cleared, then both maps.
unfoldable pub reset : Registry → Registry
unfolding clear_all
reset s =
    let s' = clear_all (map (λ e. e.1) s.sessions) s in record s' { sessions = []; instances = [] }
