-- ===== src/Registry/Lifetime.antt =====
-- How long a registration lasts, and who may have its name.
use inter_claude_connector.Base.{
  ℕ, ◌+◌, String, ◌≡◌, refl, ◌≢◌, ◌↔◌, ◌⊎◌, inl, inr, Bool, false, Option, none, some, arith,
  eq_iff, eq_refl, Option-cases,
}
use inter_claude_connector.Dict.{get}
use inter_claude_connector.Registry.{
  RegistrationState, active, grace, purgatory, Callback, grace_over, purgatory_over, Timer,
  Registry, update, purgatory_timeout_ms,
}
use inter_claude_connector.Registry.Sessions.{
  clear_timers, registered, deferred, take_name, session_register, set_timeout,
  transition_to_purgatory, run_callback, fire,
}
use inter_claude_connector.Registry.Invariant.{IsNamed, IsWellFormed}
use inter_claude_connector.Dict.Laws.{get-set, get-delete}
use inter_claude_connector.Registry.Operations.{active-IsIdle}

module _ (s : Registry) (wf : IsWellFormed s) (n : String) (r : ℕ)
    (here : get n s.sessions ≡ some r) where
  -- The timers of other sessions leave alone what they do not name.
  run_callback-other :
      (now : ℕ) (c : Callback) (m : String) (q : ℕ) (timers : ℕ → Option Timer)
      → q ≢ r
      → m ≢ n
      → (get n (run_callback now c m q (record s { timers = timers })).sessions ≡ some r)
        × ((run_callback now c m q (record s { timers = timers })).heap r ≡ s.heap r)
  unfolding run_callback transition_to_purgatory set_timeout clear_timers
  run_callback-other now grace_over m q timers d e = ground arith
  run_callback-other now purgatory_over m q timers d e =
      ground (arith, get-delete m n s.sessions, eq_iff m n)

  -- No timer touches a session that is ACTIVE: whichever fires, the session keeps its name and
  -- every field of its registration.
  pub fire-active :
      (s.heap r).state ≡ active
      → (now i : ℕ) → (get n (fire now i s).sessions ≡ some r) × ((fire now i s).heap r ≡ s.heap r)
  unfolding fire
  fire-active is_on now i = elim (Option-cases (s.timers i)) [
    | inl nothing ↦ rw (nothing, fire) (here, refl)
    | inr (t, e) ↦ rw (e, fire) (fired t ((active-IsIdle s wf n r here is_on).owned i t e))
  ]
    where
      fired :
          (t : Timer)
          → (t.reg ≢ r) × (get t.name s.sessions ≡ some t.reg) × IsNamed i t.callback (s.heap t.reg)
          → (get n
                (run_callback now t.callback t.name t.reg
                  (record s { timers = update s.timers i none })).sessions
              ≡ some r)
            × ((run_callback now t.callback t.name t.reg
                    (record s { timers = update s.timers i none })).heap
                  r
                ≡ s.heap r)
      fired t (d, f, _) =
          run_callback-other now t.callback t.name t.reg _ d (λ same. ground (arith, here))

  grace_after :
      (now i due : ℕ)
      → s.timers i ≡ some (record { callback = grace_over; name = n; reg = r; due = due })
      → (get n (fire now i s).sessions ≡ some r)
        × (((fire now i s).heap r).state ≡ purgatory)
        × ((fire now i s).timers s.next
            ≡ some (record {
              callback = purgatory_over;
              name = n;
              reg = r;
              due = now + purgatory_timeout_ms;
            }))
  unfolding fire run_callback transition_to_purgatory set_timeout clear_timers
  grace_after now i due e = ground arith

  purgatory_after :
      (now i due : ℕ)
      → s.timers i ≡ some (record { callback = purgatory_over; name = n; reg = r; due = due })
      → get n (fire now i s).sessions ≡ none
  unfolding fire run_callback
  purgatory_after now i due e = ground (arith, get-delete n n s.sessions, eq_refl n)

  -- A session in GRACE has a pending timer, and when that fires the session is in PURGATORY, under
  -- its name still, with a timer that is due ten minutes later.
  pub grace_ends :
      (now : ℕ)
      → (s.heap r).state ≡ grace
      → (i : ℕ) × (due : ℕ) × (s.timers i
          ≡ some (record { callback = grace_over; name = n; reg = r; due = due }))
        × (get n (fire now i s).sessions ≡ some r)
        × (((fire now i s).heap r).state ≡ purgatory)
        × ((fire now i s).timers s.next
            ≡ some (record {
              callback = purgatory_over;
              name = n;
              reg = r;
              due = now + purgatory_timeout_ms;
            }))
  grace_ends now st =
      let (i, due, e, eg, ep) = rw st at (wf.timed n r here) in
      let (a, b, c) = grace_after now i due e in (i, due, e, a, b, c)

  -- A session in PURGATORY has a pending timer, and when that fires the name is free.
  pub purgatory_ends :
      (now : ℕ)
      → (s.heap r).state ≡ purgatory
      → (i : ℕ) × (due : ℕ) × (s.timers i
          ≡ some (record { callback = purgatory_over; name = n; reg = r; due = due }))
        × (get n (fire now i s).sessions ≡ none)
  purgatory_ends now st =
      let (i, due, e, eg, ep) = rw st at (wf.timed n r here) in
      (i, due, e, purgatory_after now i due e)

module _ (now : ℕ) (token name : String) (pid : ℕ) (force : Bool) (s : Registry) where
  -- A registration is deferred exactly when it is not forced and a session in ACTIVE or GRACE has
  -- the name; it answers that session's state and changes nothing.
  pub session_register-deferred_iff :
      (st : RegistrationState)
      → (((session_register now token name pid force s).0 ≡ deferred st) ↔ (
          (r : ℕ) × (get name s.sessions ≡ some r)
          × ((s.heap r).state ≡ st)
          × (force ≡ false)
          × ((st ≡ active) ⊎ (st ≡ grace))))
        × ((session_register now token name pid force s).0 ≡ deferred st
            → (session_register now token name pid force s).1 ≡ s)
  unfolding session_register take_name
  session_register-deferred_iff st = elim (Option-cases (get name s.sessions)) [
    | inl missing ↦
        ((λ e. absurd (ground arith), λ h. ground (arith, h.1)), λ e. absurd (ground arith))
    | inr (r, here) ↦ (
      (
        λ e. (r, here, ground arith, ground arith, ground arith),
        λ (q, there, st_of, unforced, busy). let same : r ≡ q = ground arith in ground arith,
      ),
      λ e. ground arith,
    )
  ]

  -- A registration that is not deferred gives the name to a new object that is
  -- ACTIVE, has the new token and the caller's process, and every other name keeps its own.
  pub session_register_lem :
      ((session_register now token name pid force s).0 ≡ registered token)
      → (r : ℕ) × (get name (session_register now token name pid force s).1.sessions ≡ some r)
        × (((session_register now token name pid force s).1.heap r).session_token ≡ token)
        × (((session_register now token name pid force s).1.heap r).state ≡ active)
        × ((m : String)
            → m ≢ name
            → get m (session_register now token name pid force s).1.sessions ≡ get m s.sessions)
  unfolding session_register take_name clear_timers
  session_register_lem e = elim (Option-cases (get name s.sessions)) [
    | inl missing ↦ (
      s.next,
      ground (arith, get-set name name s.next s.sessions, eq_refl name),
      ground arith,
      ground arith,
      λ m d. ground (arith, get-set name m s.next s.sessions, eq_iff name m),
    )
    | inr (r, here) ↦ (
      s.next,
      ground (arith, get-set name name s.next s.sessions, eq_refl name),
      ground arith,
      ground arith,
      λ m d. ground (arith, get-set name m s.next s.sessions, eq_iff name m),
    )
  ]
