-- ===== src/Registry/Invariant.antt =====
-- What holds of the registry between two operations: whose timer is whose.
use inter_claude_connector.Base.{ℕ, ◌<◌, String, ◌≡◌, Option, none, some}
use inter_claude_connector.Dict.{get, Distinct}
use inter_claude_connector.Registry.{
  RegistrationState, active, grace, purgatory, unregistered, SessionRegistration, Callback,
  grace_over, purgatory_over, Timer, Registry,
}

-- A registration in the given state, entered as `name`, has exactly the timer of that state, and
-- its two fields say so.
abbrev pub HasTimer :
    RegistrationState
    → (ℕ → Option Timer)
    → (name : String) (ref : ℕ) (grace_timer purgatory_timer : Option ℕ) → Type 0
HasTimer active timers name ref g p = (g ≡ none) × (p ≡ none)
HasTimer grace timers name ref g p =
    (i : ℕ) × (due : ℕ) × (timers i
      ≡ some (record { callback = grace_over; name = name; reg = ref; due = due }))
    × (g ≡ some i)
    × (p ≡ none)
HasTimer purgatory timers name ref g p =
    (i : ℕ) × (due : ℕ) × (timers i
      ≡ some (record { callback = purgatory_over; name = name; reg = ref; due = due }))
    × (g ≡ none)
    × (p ≡ some i)
HasTimer unregistered timers name ref g p = ⊥

abbrev pub IsTimed : (ℕ → Option Timer) → String → ℕ → SessionRegistration → Type 0
IsTimed timers name ref reg = HasTimer reg.state timers name ref reg.grace_timer reg.purgatory_timer

module _ (timers : ℕ → Option Timer) (n : String) (r : ℕ) (reg : SessionRegistration)
    (i due : ℕ) where
  pub IsTimed-grace :
      reg.state ≡ grace
      → timers i ≡ some (record { callback = grace_over; name = n; reg = r; due = due })
      → reg.grace_timer ≡ some i
      → reg.purgatory_timer ≡ none
      → IsTimed timers n r reg
  IsTimed-grace st e g p = rw st (i, due, e, g, p)

  pub IsTimed-purgatory :
      reg.state ≡ purgatory
      → timers i ≡ some (record { callback = purgatory_over; name = n; reg = r; due = due })
      → reg.grace_timer ≡ none
      → reg.purgatory_timer ≡ some i
      → IsTimed timers n r reg
  IsTimed-purgatory st e g p = rw st (i, due, e, g, p)

-- Timer `i` is the one that its registration names, and the registration waits for it.
abbrev pub IsNamed : ℕ → Callback → SessionRegistration → Type 0
IsNamed i grace_over reg = (reg.state ≡ grace) × (reg.grace_timer ≡ some i)
IsNamed i purgatory_over reg = (reg.state ≡ purgatory) × (reg.purgatory_timer ≡ some i)

pub record IsWellFormed (s : Registry) : Type 0 where
  pub distinct : Distinct s.sessions
  pub fresh : (n : String) (r : ℕ) → get n s.sessions ≡ some r → r < s.next
  pub unshared :
      (n m : String) (r : ℕ) → get n s.sessions ≡ some r → get m s.sessions ≡ some r → n ≡ m
  pub pending : (i : ℕ) (t : Timer) → s.timers i ≡ some t → i < s.next
  pub owned :
      (i : ℕ) (t : Timer)
      → s.timers i ≡ some t
      → (get t.name s.sessions ≡ some t.reg) × IsNamed i t.callback (s.heap t.reg)
  pub timed : (n : String) (r : ℕ) → get n s.sessions ≡ some r → IsTimed s.timers n r (s.heap r)
