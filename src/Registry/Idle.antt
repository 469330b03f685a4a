-- ===== src/Registry/Idle.antt =====
-- The registry in the middle of an operation: one registration has no timer, and all the others
-- are as the invariant says. What leads there and what leads back.
use mathlib.Core.Path.{subst, fun_ext}
use native.Mathlib.Decide.{ℕ_discrete}
use inter_claude_connector.Base.{
  ℕ, suc, ◌<◌, String, ◌≡◌, sym, ◌∙◌, ◌≢◌, Option, none, some, arith, eq_iff,
}
use inter_claude_connector.Dict.{Dict, get, set, delete, Distinct}
use inter_claude_connector.Dict.Laws.{get-set, get-delete, set-Distinct, delete-Distinct}
use inter_claude_connector.Registry.{
  RegistrationState, active, grace, purgatory, unregistered, SessionRegistration, RegistryEntry,
  Callback, Timer, Registry, update,
}
use inter_claude_connector.Registry.Invariant.{HasTimer, IsTimed, IsNamed, IsWellFormed}
use inter_claude_connector.Registry.Sessions.{is_active}

pub record IsIdle (n : String) (r : ℕ) (s : Registry) : Type 0 where
  pub distinct : Distinct s.sessions
  pub entered : get n s.sessions ≡ some r
  pub fresh : (m : String) (q : ℕ) → get m s.sessions ≡ some q → q < s.next
  pub unshared :
      (m k : String) (q : ℕ) → get m s.sessions ≡ some q → get k s.sessions ≡ some q → m ≡ k
  pub pending : (i : ℕ) (t : Timer) → s.timers i ≡ some t → i < s.next
  pub owned :
      (i : ℕ) (t : Timer)
      → s.timers i ≡ some t
      → (t.reg ≢ r) × (get t.name s.sessions ≡ some t.reg) × IsNamed i t.callback (s.heap t.reg)
  pub timed :
      (m : String) (q : ℕ) → get m s.sessions ≡ some q → q ≢ r → IsTimed s.timers m q (s.heap q)

-- A family holds at the new heap if it holds at the changed registration and, elsewhere, at the
-- old heap.
module _ {r : ℕ} {heap heap' : ℕ → SessionRegistration}
    (others : (q : ℕ) → q ≢ r → heap' q ≡ heap q) where
  heap_cases {κ} :
      (P : ℕ → SessionRegistration → Type κ) (q : ℕ)
      → (q ≡ r → P r (heap' r))
      → (q ≢ r → P q (heap q))
      → P q (heap' q)
  heap_cases P q same other = elim (ℕ_discrete q r) [
    | yes e ↦ subst (λ k. P k (heap' k)) (sym e) (same e)
    | no d ↦ rw (others q d) (other d)
  ]

module _ (s : Registry) (n : String) (r : ℕ) (wf : IsWellFormed s)
    (here : get n s.sessions ≡ some r) (timers : ℕ → Option Timer) (heap : ℕ → SessionRegistration)
    (keeps : (j : ℕ) (t : Timer) → s.timers j ≡ some t → t.reg ≢ r → timers j ≡ some t)
    (from : (j : ℕ) (t : Timer) → timers j ≡ some t → (s.timers j ≡ some t) × (t.reg ≢ r))
    (others : (q : ℕ) → q ≢ r → heap q ≡ s.heap q) where
  HasTimer-keep :
      (st : RegistrationState) (m : String) (q : ℕ) (g p : Option ℕ)
      → q ≢ r
      → HasTimer st s.timers m q g p
      → HasTimer st timers m q g p
  HasTimer-keep active m q g p h t = t
  HasTimer-keep grace m q g p h (i, due, e, eg, ep) = (i, due, keeps i _ e h, eg, ep)
  HasTimer-keep purgatory m q g p h (i, due, e, eg, ep) = (i, due, keeps i _ e h, eg, ep)
  HasTimer-keep unregistered m q g p h t = t

  pub IsIdle-cleared : IsIdle n r (record s { timers = timers; heap = heap })
  IsIdle-cleared = record {
    distinct = wf.distinct;
    entered = here;
    fresh = wf.fresh;
    unshared = wf.unshared;
    pending = λ i t e. wf.pending i t (from i t e).0;
    owned = λ i t e. ground (arith, from i t e, wf.owned i t, others t.reg);
    timed = λ m q e d. rw (others q d) (HasTimer-keep _ m q _ _ d (wf.timed m q e));
  }

module _ (n : String) (r : ℕ) (s : Registry) (idle : IsIdle n r s) (heap : ℕ → SessionRegistration)
    (others : (q : ℕ) → q ≢ r → heap q ≡ s.heap q) where
  -- The name of the idle registration is given up.
  pub delete-IsWellFormed :
      (instances : Dict RegistryEntry)
      → IsWellFormed
          (record s { sessions = delete n s.sessions; instances = instances; heap = heap })
  delete-IsWellFormed instances = record {
    distinct = delete-Distinct n s.sessions idle.distinct;
    fresh = λ m q e. ground (arith, get-delete n m s.sessions, idle.fresh m q);
    unshared = λ m k q e e'.
        ground (arith, get-delete n m s.sessions, get-delete n k s.sessions, idle.unshared m k q);
    pending = idle.pending;
    owned = λ i t e. ground (
      arith,
      idle.owned i t,
      others t.reg,
      idle.unshared n t.name r,
      get-delete n t.name s.sessions,
      eq_iff n t.name,
    );
    timed = λ m q e.
        heap_cases others (λ k g. IsTimed s.timers m k g) q
          (λ same.
            absurd (ground (arith, get-delete n m s.sessions, idle.unshared n m r, eq_iff n m)))
          (idle.timed m q (ground (arith, get-delete n m s.sessions)));
  }

  -- It stays idle whatever is written to its own fields.
  pub IsIdle-write :
      (timers : ℕ → Option Timer)
      → ((j : ℕ) → timers j ≡ s.timers j)
      → IsIdle n r (record s { timers = timers; heap = heap })
  IsIdle-write timers same = record {
    distinct = idle.distinct;
    entered = idle.entered;
    fresh = idle.fresh;
    unshared = idle.unshared;
    pending = λ i t e. idle.pending i t (sym (same i) ∙ e);
    owned = λ i t e. ground (arith, same i, idle.owned i t, others t.reg);
    timed = λ m q e d. rw (fun_ext same, others q d) (idle.timed m q e d);
  }

  -- The idle registration is made active.
  pub activate-IsWellFormed :
      (heap r).state ≡ active
      → ((heap r).grace_timer ≡ none) × ((heap r).purgatory_timer ≡ none)
      → IsWellFormed (record s { heap = heap })
  activate-IsWellFormed is_active no_timers = record {
    distinct = idle.distinct;
    fresh = idle.fresh;
    unshared = idle.unshared;
    pending = idle.pending;
    owned = λ i t e. ground (arith, idle.owned i t, others t.reg);
    timed = λ m q e.
        heap_cases others (λ k g. IsTimed s.timers m k g) q (λ same. rw is_active no_timers)
          (idle.timed m q e);
  }

  -- A timer with a new number is set for the idle registration.
  module _ (callback : Callback) (due : ℕ) where
    abbrev armed : Timer
    armed = record { callback = callback; name = n; reg = r; due = due }

    abbrev armed_timers : ℕ → Option Timer
    armed_timers = update s.timers s.next (some armed)

    HasTimer-arm :
        (st : RegistrationState) (m : String) (q : ℕ) (g p : Option ℕ)
        → HasTimer st s.timers m q g p
        → HasTimer st armed_timers m q g p
    HasTimer-arm active m q g p t = t
    HasTimer-arm grace m q g p (i, due', e, eg, ep) =
        (i, due', ground (arith, idle.pending i _ e), eg, ep)
    HasTimer-arm purgatory m q g p (i, due', e, eg, ep) =
        (i, due', ground (arith, idle.pending i _ e), eg, ep)
    HasTimer-arm unregistered m q g p t = t

    pub arm-IsWellFormed :
        IsNamed s.next callback (heap r)
        → IsTimed armed_timers n r (heap r)
        → IsWellFormed (record s { timers = armed_timers; heap = heap; next = suc s.next })
    arm-IsWellFormed is_named has_timer = record {
      distinct = idle.distinct;
      fresh = λ m q e. omega (arith, idle.fresh m q e);
      unshared = idle.unshared;
      pending = λ i t e. ground (arith, idle.pending i t);
      owned = λ i t e. elim (ℕ_discrete i s.next) [
        | yes same ↦
            let is_armed : armed ≡ t = ground arith in
            subst (λ u. (get u.name s.sessions ≡ some u.reg) × IsNamed i u.callback (heap u.reg))
              is_armed (idle.entered, subst (λ k. IsNamed k callback (heap r)) (sym same) is_named)
        | no other ↦ ground (arith, idle.owned i t, others t.reg)
      ];
      timed = λ m q e.
          heap_cases others (λ k g. IsTimed armed_timers m k g) q
            (λ same.
              subst (λ x. IsTimed armed_timers x r (heap r))
                (idle.unshared n m r idle.entered (subst (λ k. get m s.sessions ≡ some k) same e))
                has_timer)
            (λ d. HasTimer-arm _ m q _ _ (idle.timed m q e d));
    }

-- A name that nothing, or only the idle registration, has gets a new registration.
module _ (n : String) (s : Registry) (heap : ℕ → SessionRegistration)
    (others : (q : ℕ) → q ≢ s.next → heap q ≡ s.heap q) (is_active : (heap s.next).state ≡ active)
    (no_timers : ((heap s.next).grace_timer ≡ none) × ((heap s.next).purgatory_timer ≡ none)) where
  abbrev entered_new : Registry
  entered_new = record s { sessions = set n s.next s.sessions; heap = heap; next = suc s.next }

  pub enter-IsWellFormed : IsWellFormed s → get n s.sessions ≡ none → IsWellFormed entered_new
  enter-IsWellFormed wf missing = record {
    distinct = set-Distinct n s.next s.sessions wf.distinct;
    fresh = λ m q e. ground (arith, get-set n m s.next s.sessions, wf.fresh m q);
    unshared = λ m k q e e'. ground (
      arith,
      get-set n m s.next s.sessions,
      get-set n k s.next s.sessions,
      eq_iff n m,
      eq_iff n k,
      wf.fresh m q,
      wf.fresh k q,
      wf.unshared m k q,
    );
    pending = λ i t e. omega (arith, wf.pending i t e);
    owned = λ i t e. ground (
      arith,
      wf.owned i t,
      wf.fresh t.name t.reg,
      get-set n t.name s.next s.sessions,
      eq_iff n t.name,
      others t.reg,
    );
    timed = λ m q e.
        heap_cases others (λ k g. IsTimed s.timers m k g) q (λ same. rw is_active no_timers)
          (λ d. wf.timed m q (ground (arith, get-set n m s.next s.sessions)));
  }

  pub replace-IsWellFormed : (r : ℕ) → IsIdle n r s → IsWellFormed entered_new
  replace-IsWellFormed r idle = record {
    distinct = set-Distinct n s.next s.sessions idle.distinct;
    fresh = λ m q e. ground (arith, get-set n m s.next s.sessions, idle.fresh m q);
    unshared = λ m k q e e'. ground (
      arith,
      get-set n m s.next s.sessions,
      get-set n k s.next s.sessions,
      eq_iff n m,
      eq_iff n k,
      idle.fresh m q,
      idle.fresh k q,
      idle.unshared m k q,
    );
    pending = λ i t e. omega (arith, idle.pending i t e);
    owned = λ i t e. ground (
      arith,
      idle.owned i t,
      idle.fresh t.name t.reg,
      get-set n t.name s.next s.sessions,
      eq_iff n t.name,
      others t.reg,
      idle.entered,
    );
    timed = λ m q e.
        heap_cases others (λ k g. IsTimed s.timers m k g) q (λ same. rw is_active no_timers)
          (λ d.
            idle.timed m q (ground (arith, get-set n m s.next s.sessions))
              (ground (arith, get-set n m s.next s.sessions, idle.unshared n m r, eq_iff n m)));
  }
