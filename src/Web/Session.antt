-- ===== src/Web/Session.antt =====
-- The login of src/web.ts and what it lets through.
use inter_claude_connector.Base.{
  ℕ, ◌-◌, String, ◌≡◌, refl, ap, ◌≢◌, inl, inr, true, false, not, ◌&&◌, Option, some, [], ◌∷◌,
  arith, ◌==◌, eq_iff, eq_refl, ltb, Bool-cases, Option-cases, truthy,
}
use inter_claude_connector.Dict.{get}
use inter_claude_connector.Dict.Laws.{get-set, get-delete}
use inter_claude_connector.Server.{Config}
use inter_claude_connector.Server.Auth.{safe_token_equals}
use inter_claude_connector.Web.{
  session_ttl, match_session, WebState, WebRequest, redirect, login_page, WebHost, create_session,
  is_valid_session, login, handler,
}

-- Where there is a local token that is not empty, the session of a login with that token is
-- valid with each cookie that carries it, for a day and no longer.
pub login-is_valid_session :
    (host : WebHost) (config : Config) (form_token local cookie : String) (later : ℕ) (s : WebState)
    → config.local_token ≡ some local
    → local ≢ ""
    → safe_token_equals host.buffer_from form_token local ≡ true
    → match_session cookie ≡ some host.fresh_session
    → let (answers, s') = login host config form_token s in
      (answers ≡ redirect host.fresh_session ∷ [])
      × ((is_valid_session later (some cookie) s').0 ≡ not (ltb session_ttl (later - host.now)))
unfolding login create_session is_valid_session match_session
login-is_valid_session host config form_token local cookie later s given full same carried =
    let has_text : (cookie == "") ≡ false = elim (Bool-cases (cookie == "")) [
      | inl empty ↦ absurd (ground (arith, carried, ap match_session ((eq_iff cookie "").0 empty)))
      | inr some_text ↦ some_text
    ] in
    (
      ground (arith, given, same, eq_iff local ""),
      ground (
        arith,
        has_text,
        given,
        same,
        eq_iff local "",
        carried,
        get-set host.fresh_session host.fresh_session host.now s.sessions,
        eq_refl host.fresh_session,
      ),
    )

-- The check makes no request and no session.
is_valid_session-keeps :
    (now : ℕ) (cookie : Option String) (s : WebState)
    → let s' = (is_valid_session now cookie s).1 in
      (s'.upstream ≡ s.upstream)
      × ((id : String) (at : ℕ) → get id s'.sessions ≡ some at → get id s.sessions ≡ some at)
unfolding is_valid_session
is_valid_session-keeps now cookie s = (
  ground arith,
  λ id at h. elim (Option-cases (truthy cookie)) [
    | inl missing ↦ ground (arith, missing, h)
    | inr (header, given) ↦ elim (Option-cases (match_session header)) [
      | inl unmatched ↦ ground (arith, given, unmatched, h)
      | inr (k, matched) ↦ ground (arith, given, matched, h, get-delete k id s.sessions)
    ]
  ],
)

-- Where there is a local token that is not empty, a request other than the login whose cookie
-- carries no valid session is answered with the login page alone: no request is made to any ICC
-- server, and every session that there is was there before.
pub handler-no_session :
    (host : WebHost) (config : Config) (req : WebRequest) (s : WebState) (local : String)
    → config.local_token ≡ some local
    → local ≢ ""
    → (req.method == "POST" && req.url == "/login") ≡ false
    → (is_valid_session host.now req.cookie s).0 ≡ false
    → let (answers, s') = handler host config req s in
      (answers ≡ login_page ∷ [])
      × (s'.upstream ≡ s.upstream)
      × ((id : String) (at : ℕ) → get id s'.sessions ≡ some at → get id s.sessions ≡ some at)
unfolding handler
handler-no_session host config req s local given full elsewhere_url invalid =
    let (requests, sessions) = is_valid_session-keeps host.now req.cookie s in
    let e : handler host config req s
        ≡ (login_page ∷ [], (is_valid_session host.now req.cookie s).1) =
      ground (arith, given, eq_iff local "", elsewhere_url, invalid) in
    rw (e, handler) (refl, requests, sessions)
