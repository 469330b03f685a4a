-- ===== src/Enroll/Rate.antt =====
-- The rate limit of src/enroll.ts over a sequence of requests.
use inter_claude_connector.Base.{
  ℕ, suc, ◌+◌, ◌-◌, ◌≤◌, ◌<◌, min, String, ◌≡◌, ◌∙◌, ◌⊎◌, inl, inr, true, false, none, some, List,
  [], ◌∷◌, arith, eq_refl, leb, if◌then◌else◌, Bool-cases, length, All,
}
use inter_claude_connector.Dict.{Dict, get, set}
use inter_claude_connector.Enroll.{RateLimit, rate_limit, rate_window, check_rate_limit}
use inter_claude_connector.Dict.Laws.{get-set}

-- How many of the requests of one identity at the given times are let through.
unfoldable pub accepted_of : (identity : String) (times : List ℕ) → Dict RateLimit → ℕ
accepted_of identity [] limits = 0
accepted_of identity (now ∷ times) limits =
    let (ok, limits') = check_rate_limit now identity limits in
    let more = accepted_of identity times limits' in if ok then suc more else more

counted_lem :
    (now : ℕ) (identity : String) (limits : Dict RateLimit) (limit : RateLimit)
    → get identity limits ≡ some limit
    → now < limit.reset_at
    → check_rate_limit now identity limits ≡ (
        if leb rate_limit limit.count
        then (false, limits)
        else (true, set identity (record limit { count = suc limit.count }) limits))
unfolding check_rate_limit
counted_lem now identity limits limit e early = ground (arith, e)

-- The identity has no window that is open at the time.
abbrev pub IsClosed : String → ℕ → Dict RateLimit → Type 0
IsClosed identity now limits =
    (get identity limits ≡ none)
    ⊎ ((l : RateLimit) × (get identity limits ≡ some l) × (l.reset_at ≤ now))

fresh_lem :
    (now : ℕ) (identity : String) (limits : Dict RateLimit)
    → IsClosed identity now limits
    → check_rate_limit now identity limits
      ≡ (true, set identity (record { count = 1; reset_at = now + rate_window }) limits)
unfolding check_rate_limit
fresh_lem now identity limits (inl missing) = ground (arith, missing)
fresh_lem now identity limits (inr (l, e, late)) = ground (arith, e)

-- What the limits of an identity say within a window.
accepted-in_window :
    (identity : String) (times : List ℕ) (limits : Dict RateLimit) (limit : RateLimit)
    → get identity limits ≡ some limit
    → All (λ t. t < limit.reset_at) times
    → limit.count ≤ rate_limit
    → accepted_of identity times limits ≡ min (rate_limit - limit.count) (length times)
unfolding accepted_of
accepted-in_window identity [] limits limit e h n = omega (arith)
accepted-in_window identity (now ∷ times) limits limit e (early, h) n =
    elim (Bool-cases (leb rate_limit limit.count)) [
      | inl full ↦
          let same = accepted-in_window identity times limits limit e h n in
          rw (counted_lem now identity limits limit e early, full, accepted_of)
            (ground (arith, same))
      | inr free ↦
          let next : RateLimit = record limit { count = suc limit.count } in
          let found : get identity (set identity next limits) ≡ some next =
            get-set identity identity next limits ∙ ground (arith, eq_refl identity) in
          let same =
            accepted-in_window identity times (set identity next limits) next found h
              (ground arith) in
          rw (counted_lem now identity limits limit e early, free, accepted_of)
            (ground (arith, same))
    ]

-- Of the requests of an identity that has no window yet, or none that is still open, at the time
-- `start`, and at later times within 15 minutes, the first three are let through and no more.
pub accepted_of_lem :
    (identity : String) (start : ℕ) (times : List ℕ) (limits : Dict RateLimit)
    → IsClosed identity start limits
    → All (λ t. t < start + rate_window) times
    → accepted_of identity (start ∷ times) limits ≡ min rate_limit (length (start ∷ times))
unfolding accepted_of
accepted_of_lem identity start times limits closed h =
    let next : RateLimit = record { count = 1; reset_at = start + rate_window } in
    let found : get identity (set identity next limits) ≡ some next =
      get-set identity identity next limits ∙ ground (arith, eq_refl identity) in
    let same =
      accepted-in_window identity times (set identity next limits) next found h (omega arith) in
    rw (fresh_lem start identity limits closed, accepted_of) (ground (arith, same))
