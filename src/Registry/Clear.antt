-- ===== src/Registry/Clear.antt =====
-- Clearing the timers of a registration makes it idle and touches no other timer.
use inter_claude_connector.Base.{
  ℕ, String, ◌≡◌, refl, ◌≢◌, ◌⊎◌, inl, inr, Option, none, some, arith,
}
use inter_claude_connector.Dict.{get}
use inter_claude_connector.Registry.{
  RegistrationState, active, grace, purgatory, unregistered, SessionRegistration, Callback,
  grace_over, purgatory_over, Timer, Registry, update,
}
use inter_claude_connector.Registry.Invariant.{HasTimer, IsTimed, IsNamed, IsWellFormed}
use inter_claude_connector.Registry.Idle.{IsIdle, IsIdle-cleared}
use inter_claude_connector.Registry.Sessions.{clear_timeout, clear_timers}

-- A timer of registration `r` is one of the two that its fields name.
cleared_of_owned :
    (i : ℕ) (t : Timer) (reg : SessionRegistration) (timers : ℕ → Option Timer)
    → IsNamed i t.callback reg
    → clear_timeout reg.purgatory_timer (clear_timeout reg.grace_timer timers) i ≡ none
cleared_of_owned i t reg timers h = named t.callback h
  where
    named :
        (c : Callback)
        → IsNamed i c reg
        → clear_timeout reg.purgatory_timer (clear_timeout reg.grace_timer timers) i ≡ none
    named grace_over (a, e) = ground arith
    named purgatory_over (a, e) = ground arith

named_of_timer :
    (timers : ℕ → Option Timer) (n : String) (r : ℕ) (reg : SessionRegistration) (i : ℕ)
    → IsTimed timers n r reg
    → (reg.grace_timer ≡ some i) ⊎ (reg.purgatory_timer ≡ some i)
    → (t : Timer) × (timers i ≡ some t) × (t.reg ≡ r)
named_of_timer timers n r reg i h e = named reg.state h
  where
    named :
        (st : RegistrationState)
        → HasTimer st timers n r reg.grace_timer reg.purgatory_timer
        → (t : Timer) × (timers i ≡ some t) × (t.reg ≡ r)
    named active (a, b) = absurd (ground arith)
    named grace (j, due, f, a, b) =
        (record { callback = grace_over; name = n; reg = r; due = due }, ground arith, refl)
    named purgatory (j, due, f, a, b) =
        (record { callback = purgatory_over; name = n; reg = r; due = due }, ground arith, refl)
    named unregistered h = absurd h

-- The timers of others stay.
keeps_others :
    (timers : ℕ → Option Timer) (n : String) (r : ℕ) (reg : SessionRegistration) (j : ℕ) (t : Timer)
    → IsTimed timers n r reg
    → timers j ≡ some t
    → t.reg ≢ r
    → clear_timeout reg.purgatory_timer (clear_timeout reg.grace_timer timers) j ≡ some t
keeps_others timers n r reg j t h e d =
    kept reg.grace_timer reg.purgatory_timer (λ c. other (inl c)) (λ c. other (inr c))
  where
    other : (reg.grace_timer ≡ some j) ⊎ (reg.purgatory_timer ≡ some j) → ⊥
    other c = ground (arith, named_of_timer timers n r reg j h c)

    kept :
        (g p : Option ℕ)
        → g ≢ some j
        → p ≢ some j
        → clear_timeout p (clear_timeout g timers) j ≡ some t
    kept none none a b = e
    kept none (some y) a b = ground arith
    kept (some x) none a b = ground arith
    kept (some x) (some y) a b = ground arith

module _ (n : String) (r : ℕ) (s : Registry) (wf : IsWellFormed s)
    (here : get n s.sessions ≡ some r) where
  pub clear_timers-IsIdle : IsIdle n r (clear_timers r s)
  unfolding clear_timers
  clear_timers-IsIdle =
      IsIdle-cleared s n r wf here _ _
        (λ j t e d. keeps_others s.timers n r (s.heap r) j t (wf.timed n r here) e d)
        (λ j t e. ground (arith, cleared_of_owned j t (s.heap r) s.timers, wf.owned j t))
        (λ q d. ground arith)

  -- The same where a timer of the registration has just fired.
  pub clear_fired-IsIdle :
      (i : ℕ) (t : Timer)
      → s.timers i ≡ some t
      → t.reg ≡ r
      → IsIdle n r (clear_timers r (record s { timers = update s.timers i none }))
  unfolding clear_timers
  clear_fired-IsIdle i t f same =
      IsIdle-cleared s n r wf here _ _
        (λ j u e d.
          keeps_fired (s.heap r).grace_timer (s.heap r).purgatory_timer j u (λ k. ground arith)
            (keeps_others s.timers n r (s.heap r) j u (wf.timed n r here) e d))
        (λ j u e. ground (
          arith,
          unfired (s.heap r).grace_timer (s.heap r).purgatory_timer j u e,
          cleared_of_owned j u (s.heap r) s.timers,
          wf.owned j u,
        ))
        (λ q d. ground arith)
    where
      keeps_fired :
          (g p : Option ℕ) (j : ℕ) (u : Timer)
          → j ≢ i
          → clear_timeout p (clear_timeout g s.timers) j ≡ some u
          → clear_timeout p (clear_timeout g (update s.timers i none)) j ≡ some u
      keeps_fired none none j u d e = ground arith
      keeps_fired none (some y) j u d e = ground arith
      keeps_fired (some x) none j u d e = ground arith
      keeps_fired (some x) (some y) j u d e = ground arith

      unfired :
          (g p : Option ℕ) (j : ℕ) (u : Timer)
          → clear_timeout p (clear_timeout g (update s.timers i none)) j ≡ some u
          → (clear_timeout p (clear_timeout g s.timers) j ≡ some u) × (s.timers j ≡ some u)
      unfired none none j u e = ground arith
      unfired none (some y) j u e = ground arith
      unfired (some x) none j u e = ground arith
      unfired (some x) (some y) j u e = ground arith
