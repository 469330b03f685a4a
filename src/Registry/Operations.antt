-- ===== src/Registry/Operations.antt =====
-- Every operation on sessions, and every callback of a timer, keeps the registry well-formed.
use mathlib.Core.Path.{subst}
use inter_claude_connector.Base.{
  ℕ, ◌+◌, String, ◌≡◌, refl, ◌≢◌, inl, inr, Bool, true, not, ◌&&◌, none, some, arith, ◌==◌, ltb,
  Bool-cases, Option-cases,
}
use inter_claude_connector.Dict.{get, delete}
use inter_claude_connector.Dict.Laws.{get-find}
use inter_claude_connector.Registry.{
  active, grace, Callback, grace_over, purgatory_over, Timer, Registry, grace_timeout_ms,
  purgatory_timeout_ms,
}
use inter_claude_connector.Registry.Invariant.{
  HasTimer, IsTimed-grace, IsTimed-purgatory, IsNamed, IsWellFormed,
}
use inter_claude_connector.Registry.Idle.{
  IsIdle, delete-IsWellFormed, IsIdle-write, activate-IsWellFormed, arm-IsWellFormed,
  enter-IsWellFormed, replace-IsWellFormed,
}
use inter_claude_connector.Registry.Clear.{clear_timers-IsIdle}
use inter_claude_connector.Registry.Sessions.{
  find_by_token, clear_timers, is_occupied, take_name, session_register, set_timeout, set_state,
  transition_to_purgatory, enter_grace, session_deregister, session_snooze, session_reconnect,
}

-- A registration whose timers have been cleared goes to PURGATORY with a timer of its own.
pub to_purgatory :
    (now : ℕ) (n : String) (r : ℕ) (s' : Registry)
    → IsIdle n r (clear_timers r s')
    → IsWellFormed (transition_to_purgatory now n r s')
unfolding transition_to_purgatory clear_timers
to_purgatory now n r s' idle =
    arm-IsWellFormed n r (clear_timers r s') idle _ (λ q d. ground arith) purgatory_over
      (now + purgatory_timeout_ms) (ground arith)
      (IsTimed-purgatory _ n r ((transition_to_purgatory now n r s').heap r) s'.next
        (now + purgatory_timeout_ms) (ground arith) (ground arith) (ground arith) (ground arith))

module _ (s : Registry) (wf : IsWellFormed s) where
  pub find_by_token_lem :
      (token n : String) (r : ℕ)
      → find_by_token token s ≡ some (n, r)
      → (get n s.sessions ≡ some r) × (((s.heap r).session_token == token) ≡ true)
  unfolding find_by_token
  find_by_token_lem token n r e = get-find _ s.sessions n r wf.distinct e

  deregister_found :
      (n : String) (r : ℕ)
      → get n s.sessions ≡ some r
      → IsWellFormed (record (clear_timers r s) { sessions = delete n (clear_timers r s).sessions })
  deregister_found n r here =
      delete-IsWellFormed n r (clear_timers r s) (clear_timers-IsIdle n r s wf here) _ (λ q d. refl)
        _

  -- Cancelling a session by its token keeps the registry well-formed.
  pub session_deregister-IsWellFormed :
      (token : String) → IsWellFormed (session_deregister token s).1
  unfolding session_deregister
  session_deregister-IsWellFormed token = elim (Option-cases (find_by_token token s)) [
    | inl missing ↦ rw (missing, session_deregister) wf
    | inr ((n, r), found) ↦ elim (Bool-cases (n == "")) [
      | inl nameless ↦ rw (found, session_deregister, nameless) wf
      | inr named ↦
          rw (found, session_deregister, named)
            (deregister_found n r (find_by_token_lem token n r found).0)
    ]
  ]

  pub session_snooze-IsWellFormed : (token : String) → IsWellFormed (session_snooze token s).1
  unfolding session_snooze
  session_snooze-IsWellFormed token = elim (Option-cases (find_by_token token s)) [
    | inl missing ↦ rw (missing, session_snooze) wf
    | inr ((n, r), found) ↦ elim (Bool-cases (n == "")) [
      | inl nameless ↦ rw (found, session_snooze, nameless) wf
      | inr named ↦
          rw (found, session_snooze, named)
            (delete-IsWellFormed n r (clear_timers r s)
              (clear_timers-IsIdle n r s wf (find_by_token_lem token n r found).0) _
              (λ q d. ground arith) _)
    ]
  ]

  pub session_reconnect-IsWellFormed :
      (now : ℕ) (token : String) → IsWellFormed (session_reconnect now token s).1
  unfolding session_reconnect clear_timers
  session_reconnect-IsWellFormed now token = elim (Option-cases (find_by_token token s)) [
    | inl missing ↦ rw (missing, session_reconnect) wf
    | inr ((n, r), found) ↦ elim (Bool-cases (n == "")) [
      | inl nameless ↦ rw (found, session_reconnect, nameless) wf
      | inr named ↦
          rw (found, session_reconnect, named)
            (activate-IsWellFormed n r (clear_timers r s)
              (clear_timers-IsIdle n r s wf (find_by_token_lem token n r found).0) _
              (λ q d. ground arith) (ground arith) (ground arith))
    ]
  ]

  pub session_register-IsWellFormed :
      (now : ℕ) (token name : String) (pid : ℕ) (force : Bool)
      → IsWellFormed (session_register now token name pid force s).1
  unfolding session_register
  session_register-IsWellFormed now token name pid force =
      elim (Option-cases (get name s.sessions)) [
        | inl missing ↦ rw (missing, session_register) (taken_fresh missing)
        | inr (r, here) ↦ elim (Bool-cases (not force && is_occupied (s.heap r).state)) [
          | inl occupied ↦ rw (here, session_register, occupied) wf
          | inr free ↦ rw (here, session_register, free) (taken_over r here)
        ]
      ]
    where
      taken_fresh :
          get name s.sessions ≡ none → IsWellFormed (take_name now token name pid none s).1
      taken_fresh missing =
          unfold take_name in
          enter-IsWellFormed name s _ (λ q d. ground arith) (ground arith) (ground arith) wf missing

      taken_over :
          (r : ℕ)
          → get name s.sessions ≡ some r
          → IsWellFormed (take_name now token name pid (some r) s).1
      taken_over r here =
          unfold take_name in
          replace-IsWellFormed name (clear_timers r s) _ (λ q d. ground arith) (ground arith)
            (ground arith) r (clear_timers-IsIdle name r s wf here)

  -- An active registration has no timer, so clearing its timers is not needed.
  pub active-IsIdle :
      (n : String) (r : ℕ) → get n s.sessions ≡ some r → (s.heap r).state ≡ active → IsIdle n r s
  active-IsIdle n r here is_on = record {
    distinct = wf.distinct;
    entered = here;
    fresh = wf.fresh;
    unshared = wf.unshared;
    pending = wf.pending;
    owned =
        λ i t e. (λ same. not_owned i t e (rw same is_on), (wf.owned i t e).0, (wf.owned i t e).1);
    timed = λ m q e d. wf.timed m q e;
  }
    where
      not_owned : (i : ℕ) (t : Timer) → s.timers i ≡ some t → (s.heap t.reg).state ≢ active
      not_owned i t e = other t.callback (wf.owned i t e).1
        where
          other : (c : Callback) → IsNamed i c (s.heap t.reg) → (s.heap t.reg).state ≢ active
          other grace_over (a, b) = ground arith
          other purgatory_over (a, b) = ground arith

  pub enter_grace-IsWellFormed :
      (is_alive : ℕ → Bool) (now : ℕ) (n : String) (r : ℕ)
      → get n s.sessions ≡ some r
      → (s.heap r).state ≡ active
      → IsWellFormed (enter_grace is_alive now n r s)
  unfolding enter_grace
  enter_grace-IsWellFormed is_alive now n r here is_on =
      elim (Bool-cases (ltb 0 (s.heap r).pid && not (is_alive (s.heap r).pid))) [
        | inl dead ↦ rw (dead, enter_grace) (to_purgatory now n r _ dead_idle)
        | inr alive ↦
            rw (alive, enter_grace)
              (unfold set_timeout in
                arm-IsWellFormed n r s (active-IsIdle n r here is_on) _ (λ q d. ground arith)
                  grace_over (now + grace_timeout_ms) (ground arith)
                  (IsTimed-grace _ n r
                    ((set_timeout grace_over (now + grace_timeout_ms) n r
                        (set_state grace r s)).heap
                      r)
                    s.next (now + grace_timeout_ms) (ground arith) (ground arith) (ground arith)
                    (ground (arith, no_timers))))
      ]
    where
      no_timers : ((s.heap r).grace_timer ≡ none) × ((s.heap r).purgatory_timer ≡ none)
      no_timers =
          subst (λ st. HasTimer st s.timers n r (s.heap r).grace_timer (s.heap r).purgatory_timer)
            is_on (wf.timed n r here)

      dead_idle : IsIdle n r (clear_timers r (set_state grace r s))
      dead_idle =
          unfold clear_timers in
          IsIdle-write n r s (active-IsIdle n r here is_on) _ (λ q d. ground arith) _
            (λ j. ground (arith, no_timers))
