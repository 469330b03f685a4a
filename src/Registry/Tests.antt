-- ===== src/Registry/Tests.antt =====
-- Runs of the registry, and its laws at them.
use inter_claude_connector.Base.{◌≡◌, refl, true, false, none, some, List, [], ◌∷◌}
use inter_claude_connector.Dict.{get, set, delete, find}
use inter_claude_connector.Registry.{grace, purgatory, empty}
use inter_claude_connector.Registry.Sessions.{
  find_by_token, clear_timers, registered, take_name, session_register, set_timeout,
  transition_to_purgatory, enter_grace, on_watcher_disconnect, session_heartbeat,
  session_deregister, session_snooze, get_session_state, session_reconnect, run_callback, fire,
}
use inter_claude_connector.Registry.Events.{
  Event, session_registers, watcher_disconnects, timer_fires, run, run-IsWellFormed,
}
use inter_claude_connector.Registry.Invariant.{IsWellFormed}

-- Opens what a run computes with.
registry : Unit {0}
unfolding run session_register take_name on_watcher_disconnect enter_grace transition_to_purgatory
    set_timeout clear_timers fire run_callback session_reconnect session_deregister session_snooze
    session_heartbeat find_by_token get_session_state get set delete find
registry = tt

abbrev opened : List Event
opened = session_registers 0 "t1" "app" 0 false ∷ []

abbrev left_alone : List Event
left_alone = session_registers 0 "t1" "app" 0 false ∷ watcher_disconnects (λ _. true) 5 "t1" ∷ []

abbrev forgotten : List Event
forgotten =
    session_registers 0 "t1" "app" 0 false
    ∷ watcher_disconnects (λ _. true) 5 "t1"
    ∷ timer_fires 30_005 1
    ∷ []

lifecycle :
    (get_session_state "app" (run (timer_fires 630_005 2 ∷ []) (run forgotten empty)) ≡ none)
    × (get "app" (run forgotten empty).sessions ≡ some 0)
    × (((run forgotten empty).heap 0).state ≡ purgatory)
    × (((run left_alone empty).heap 0).state ≡ grace)
unfolding registry
lifecycle = (refl, refl, refl, refl)

run-IsWellFormed_example : IsWellFormed (run forgotten empty)
run-IsWellFormed_example = run-IsWellFormed forgotten

taken_over : (session_register 1 "t2" "app" 0 true (run opened empty)).0 ≡ registered "t2"
unfolding registry
taken_over = refl
