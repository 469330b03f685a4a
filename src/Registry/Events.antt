-- ===== src/Registry/Events.antt =====
-- What the watchers and the clock do to the registry, and all that can happen to it.
use mathlib.Core.Path.{subst}
use inter_claude_connector.Base.{
  ℕ, String, ◌≡◌, refl, ◌≢◌, inl, inr, Bool, none, some, List, [], ◌∷◌, arith, ◌==◌, if◌then◌else◌,
  Bool-cases, Option-cases,
}
use inter_claude_connector.Dict.{get}
use inter_claude_connector.Registry.{
  RegistrationState, active, grace, purgatory, unregistered, SessionRegistration, Callback,
  grace_over, purgatory_over, Timer, Registry, empty, update, modify,
}
use inter_claude_connector.Registry.Invariant.{IsNamed, IsWellFormed}
use inter_claude_connector.Registry.Sessions.{
  find_by_token, session_register, is_active, enter_grace, on_watcher_disconnect, session_heartbeat,
  session_deregister, session_snooze, session_reconnect, run_callback, fire,
}
use inter_claude_connector.Registry.Operations.{
  to_purgatory, find_by_token_lem, session_deregister-IsWellFormed, session_snooze-IsWellFormed,
  session_reconnect-IsWellFormed, session_register-IsWellFormed, enter_grace-IsWellFormed,
}
use inter_claude_connector.Registry.Idle.{IsIdle, IsIdle-cleared, delete-IsWellFormed}
use inter_claude_connector.Registry.Clear.{clear_fired-IsIdle}

module _ (s : Registry) (wf : IsWellFormed s) where
  pub on_watcher_disconnect-IsWellFormed :
      (is_alive : ℕ → Bool) (now : ℕ) (token : String)
      → IsWellFormed (on_watcher_disconnect is_alive now token s)
  unfolding on_watcher_disconnect
  on_watcher_disconnect-IsWellFormed is_alive now token =
      elim (Option-cases (find_by_token token s)) [
        | inl missing ↦ rw (missing, on_watcher_disconnect) wf
        | inr ((n, r), found) ↦ elim (Bool-cases (n == "")) [
          | inl nameless ↦ rw (found, on_watcher_disconnect, nameless) wf
          | inr named ↦
              rw (found, on_watcher_disconnect, named)
                (by_state n r (s.heap r).state refl (find_by_token_lem s wf token n r found).0)
        ]
      ]
    where
      by_state :
          (n : String) (r : ℕ) (st : RegistrationState)
          → (s.heap r).state ≡ st
          → get n s.sessions ≡ some r
          → IsWellFormed (if is_active (s.heap r).state then enter_grace is_alive now n r s else s)
      by_state n r active e here = rw e (enter_grace-IsWellFormed s wf is_alive now n r here e)
      by_state n r grace e here = rw e wf
      by_state n r purgatory e here = rw e wf
      by_state n r unregistered e here = rw e wf

  -- Writing a clock value to a registration leaves what the invariant reads.
  beat : ℕ → ℕ → ℕ → SessionRegistration
  beat now r = modify s.heap r (λ g. record g { last_seen = now })

  beat_lem :
      (now r q : ℕ)
      → ((beat now r q).state ≡ (s.heap q).state)
        × ((beat now r q).grace_timer ≡ (s.heap q).grace_timer)
        × ((beat now r q).purgatory_timer ≡ (s.heap q).purgatory_timer)
  unfolding beat
  beat_lem now r q = ground arith

  beat-IsWellFormed : (now r : ℕ) → IsWellFormed (record s { heap = beat now r })
  beat-IsWellFormed now r = record {
    distinct = wf.distinct;
    fresh = wf.fresh;
    unshared = wf.unshared;
    pending = wf.pending;
    owned = λ i t e. ((wf.owned i t e).0, named i t.callback t.reg (wf.owned i t e).1);
    timed = λ m q e.
        rw (beat_lem now r q).0
          (rw (beat_lem now r q).1 (rw (beat_lem now r q).2 (wf.timed m q e)));
  }
    where
      named : (i : ℕ) (c : Callback) (q : ℕ) → IsNamed i c (s.heap q) → IsNamed i c (beat now r q)
      named i grace_over q h = ground (arith, beat_lem now r q)
      named i purgatory_over q h = ground (arith, beat_lem now r q)

  pub session_heartbeat-IsWellFormed :
      (now : ℕ) (token : String) → IsWellFormed (session_heartbeat now token s).1
  unfolding session_heartbeat
  session_heartbeat-IsWellFormed now token = elim (Option-cases (find_by_token token s)) [
    | inl missing ↦ rw (missing, session_heartbeat) wf
    | inr ((n, r), found) ↦ rw (found, session_heartbeat) (unfold beat in beat-IsWellFormed now r)
  ]

  abbrev fired : ℕ → Registry
  fired i = record s { timers = update s.timers i none }

  run_callback-IsWellFormed :
      (now i : ℕ) (t : Timer) (c : Callback)
      → s.timers i ≡ some t
      → t.callback ≡ c
      → IsWellFormed (run_callback now c t.name t.reg (fired i))
  unfolding run_callback
  run_callback-IsWellFormed now i t grace_over e k =
      to_purgatory now t.name t.reg (fired i)
        (clear_fired-IsIdle t.name t.reg s wf (wf.owned i t e).0 i t e refl)
  run_callback-IsWellFormed now i t purgatory_over e k =
      delete-IsWellFormed t.name t.reg (fired i) idle _ (λ q d. ground arith) s.instances
    where
      named : IsNamed i purgatory_over (s.heap t.reg)
      named = subst (λ c. IsNamed i c (s.heap t.reg)) k (wf.owned i t e).1

      sole :
          (j : ℕ) (u : Timer)
          → u.reg ≡ t.reg
          → (c : Callback) → j ≢ i
          → IsNamed j c (s.heap u.reg)
          → ⊥
      sole j u same grace_over d h = ground (arith, named)
      sole j u same purgatory_over d h = ground (arith, named)

      idle : IsIdle t.name t.reg (fired i)
      idle =
          IsIdle-cleared s t.name t.reg wf (wf.owned i t e).0 _ s.heap (λ j u f d. ground arith)
            (λ j u f. (
              ground arith,
              λ same.
                  absurd (sole j u same u.callback (ground arith) (wf.owned j u (ground arith)).1),
            ))
            (λ q d. refl)

  pub fire-IsWellFormed : (now i : ℕ) → IsWellFormed (fire now i s)
  unfolding fire
  fire-IsWellFormed now i = elim (Option-cases (s.timers i)) [
    | inl nothing ↦ rw (nothing, fire) wf
    | inr (t, e) ↦ rw (e, fire) (run_callback-IsWellFormed now i t t.callback e refl)
  ]

-- All that happens to the sessions of the registry: the calls of the server and the timers.
pub data Event : Type 0 where
  session_registers : (now : ℕ) (token name : String) (pid : ℕ) (force : Bool) → Event
  watcher_disconnects : (is_alive : ℕ → Bool) (now : ℕ) (token : String) → Event
  session_beats : (now : ℕ) (token : String) → Event
  session_deregisters : (token : String) → Event
  session_snoozes : (token : String) → Event
  session_reconnects : (now : ℕ) (token : String) → Event
  timer_fires : (now i : ℕ) → Event

pub step : Event → Registry → Registry
step (session_registers now token name pid force) s =
    (session_register now token name pid force s).1
step (watcher_disconnects is_alive now token) s = on_watcher_disconnect is_alive now token s
step (session_beats now token) s = (session_heartbeat now token s).1
step (session_deregisters token) s = (session_deregister token s).1
step (session_snoozes token) s = (session_snooze token s).1
step (session_reconnects now token) s = (session_reconnect now token s).1
step (timer_fires now i) s = fire now i s

unfoldable pub run : List Event → Registry → Registry
unfolding step
run [] s = s
run (e ∷ es) s = run es (step e s)

step-IsWellFormed : (e : Event) (s : Registry) → IsWellFormed s → IsWellFormed (step e s)
unfolding step
step-IsWellFormed (session_registers now token name pid force) s wf =
    session_register-IsWellFormed s wf now token name pid force
step-IsWellFormed (watcher_disconnects is_alive now token) s wf =
    on_watcher_disconnect-IsWellFormed s wf is_alive now token
step-IsWellFormed (session_beats now token) s wf = session_heartbeat-IsWellFormed s wf now token
step-IsWellFormed (session_deregisters token) s wf = session_deregister-IsWellFormed s wf token
step-IsWellFormed (session_snoozes token) s wf = session_snooze-IsWellFormed s wf token
step-IsWellFormed (session_reconnects now token) s wf =
    session_reconnect-IsWellFormed s wf now token
step-IsWellFormed (timer_fires now i) s wf = fire-IsWellFormed s wf now i

run_from-IsWellFormed : (es : List Event) (s : Registry) → IsWellFormed s → IsWellFormed (run es s)
unfolding run
run_from-IsWellFormed [] s wf = wf
run_from-IsWellFormed (e ∷ es) s wf = run_from-IsWellFormed es (step e s) (step-IsWellFormed e s wf)

-- Whatever the events, from the empty registry: no name is listed twice and no object has two
-- names; every pending timer is named by the one session it was set for, which is in the state
-- that the timer ends; and a session has no timer when ACTIVE, its grace timer when in GRACE and
-- its purgatory timer when in PURGATORY, and is never UNREGISTERED.
pub run-IsWellFormed : (es : List Event) → IsWellFormed (run es empty)
run-IsWellFormed es = run_from-IsWellFormed es empty (
    unfold get in
    record {
      distinct = tt;
      fresh = λ n r e. cc;
      unshared = λ n m r e e'. cc;
      pending = λ i t e. cc;
      owned = λ i t e. absurd (cc);
      timed = λ n r e. absurd (cc);
    })
