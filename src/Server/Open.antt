-- ===== src/Server/Open.antt =====
-- What the parts of the request handler of src/server.ts change that need no authentication.
use inter_claude_connector.Base.{
  ℕ, ◌+◌, ◌<◌, String, ◌≡◌, ap, ◌∙◌, ◌⊎◌, inl, inr, true, false, ◌&&◌, ◌||◌, Option, none, some,
  List, arith, ◌==◌, eq_iff, Bool-cases, Option-cases, truthy,
}
use inter_claude_connector.Dict.{get, delete}
use inter_claude_connector.Server.{Config, Request, Server, Surroundings}
use inter_claude_connector.Server.Auth.{safe_token_equals, check_auth}
use inter_claude_connector.Server.Auth.Laws.{safe_token_equals_iff}
use inter_claude_connector.Server.Routes.{is_route}
use inter_claude_connector.Server.Handler.{
  is_public, mcp_allowed, serve_challenge, mcp_session, mcp_serve, setup, mcp, handler,
}
use inter_claude_connector.Tls.Challenge.{challenge_max_age, is_expired, icc_challenge}

-- The query has the token, which is not empty, under the name `token`.
abbrev pub HasToken : Request → Option String → Type 0
HasToken req expected =
    (t : String) × (truthy expected ≡ some t) × (truthy (get "token" req.query) ≡ some t)

-- The state `s'` is that of `s`, or one of four things has happened to it that the request could do
-- without being authenticated.
abbrev pub IsOpenChange : Surroundings → Request → (s s' : Server) → Type 0
IsOpenChange env req s s' =
    (s' ≡ s)
    ⊎ ((s' ≡ record s { setup_token = none }) × HasToken req s.setup_token)
    ⊎ ((sessions : List String) × (s' ≡ record s { mcp_sessions = sessions })
        × (s.mcp_enabled ≡ true)
        × (req.url ≡ "/mcp")
        × ((truthy s.config.local_token ≡ none) ⊎ HasToken req s.config.local_token))
    ⊎ ((written : ℕ) × (s' ≡ record s { tls_dir = delete ".challenge" s.tls_dir })
        × (is_route req "GET" "/.well-known/icc-challenge" ≡ true)
        × (env.challenge_written ≡ some written)
        × (written + challenge_max_age < env.now))

pub serve_challenge-IsOpenChange :
    (env : Surroundings) (req : Request) (s : Server)
    → is_route req "GET" "/.well-known/icc-challenge" ≡ true
    → IsOpenChange env req s (serve_challenge env s).1
unfolding serve_challenge icc_challenge
serve_challenge-IsOpenChange env req s route = elim (Option-cases (get ".challenge" s.tls_dir)) [
  | inl missing ↦ inl (ground (arith, missing))
  | inr (content, there) ↦ elim (Option-cases env.challenge_written) [
    | inl unknown ↦ inl (ground (arith, there, unknown))
    | inr (written, known) ↦ elim (Bool-cases (is_expired env.now (some written))) [
      | inl expired ↦ inr (
          inr (
            inr (
              written,
              ground (arith, there, known, expired),
              route,
              known,
              ground (arith, expired),
            )))
      | inr fresh ↦ inl (ground (arith, there, known, fresh))
    ]
  ]
]

module _ (buffer_from : String → List ℕ)
    (injective : (a b : String) → buffer_from a ≡ buffer_from b → a ≡ b) where
  mcp_allowed_lem :
      (req : Request) (config : Config)
      → mcp_allowed buffer_from req config ≡ true
      → (truthy config.local_token ≡ none) ⊎ HasToken req config.local_token
  unfolding mcp_allowed
  mcp_allowed_lem req config h = elim (Option-cases (truthy config.local_token)) [
    | inl open_to_all ↦ inl open_to_all
    | inr (local, held) ↦ elim (Option-cases (truthy (get "token" req.query))) [
      | inl missing ↦ absurd (ground arith)
      | inr (given, there) ↦
          let same : given ≡ local =
            (safe_token_equals_iff buffer_from injective given local).0 (ground arith) in
          inr (local, held, there ∙ ap (λ t. some t) same)
    ]
  ]

  pub mcp-IsOpenChange :
      (env : Surroundings) (req : Request) (s : Server)
      → s.mcp_enabled ≡ true
      → req.url ≡ "/mcp"
      → IsOpenChange env req s (mcp env buffer_from req s).1
  unfolding mcp
  mcp-IsOpenChange env req s on url = elim (Bool-cases (mcp_allowed buffer_from req s.config)) [
    | inl allowed ↦
        let sessions = mcp_session env req s.mcp_sessions in
        let left = (mcp_serve env sessions.0 req sessions.1).1 in
        inr
          (inr (inl (left, ground (arith, allowed), on, url, mcp_allowed_lem req s.config allowed)))
    | inr refused_there ↦ inl (ground (arith, refused_there))
  ]

  pub setup-IsOpenChange :
      (env : Surroundings) (req : Request) (s : Server)
      → (check_auth buffer_from req s.config).authenticated ≡ false
      → IsOpenChange env req s (setup env buffer_from req s).1
  unfolding setup
  setup-IsOpenChange env req s h = elim (Option-cases (truthy s.setup_token)) [
    | inl open_setup ↦ inl (ground (arith, open_setup))
    | inr (expected, held) ↦ elim (Option-cases (truthy (get "token" req.query))) [
      | inl missing ↦ inl (ground (arith, held, missing))
      | inr (given, there) ↦ elim (Bool-cases (safe_token_equals buffer_from given expected)) [
        | inl equal ↦
            let same : given ≡ expected =
              (safe_token_equals_iff buffer_from injective given expected).0 equal in
            inr (
              inl (
                ground (arith, held, there, equal),
                (expected, held, there ∙ ap (λ t. some t) same),
              ))
        | inr unlike ↦ inl (ground (arith, held, there, unlike))
      ]
    ]
  ]

  -- Which of the parts of the handler a request gets to that is not authenticated.
  pub handler-cases :
      (env : Surroundings) (req : Request) (s : Server)
      → (check_auth buffer_from req s.config).authenticated ≡ false
      → ((handler env buffer_from req s ≡ mcp env buffer_from req s)
          × (s.mcp_enabled ≡ true)
          × (req.url ≡ "/mcp"))
        ⊎ ((handler env buffer_from req s ≡ serve_challenge env s)
            × (is_route req "GET" "/.well-known/icc-challenge" ≡ true))
        ⊎ (handler env buffer_from req s ≡ setup env buffer_from req s)
        ⊎ ((handler env buffer_from req s).1 ≡ s)
  unfolding handler
  handler-cases env req s h = elim (Bool-cases (s.mcp_enabled && req.url == "/mcp")) [
    | inl is_mcp ↦ inl (
      ground (arith, is_mcp),
      ground (arith, is_mcp),
      (eq_iff req.url "/mcp").0 (ground (arith, is_mcp)),
    )
    | inr unlike ↦ elim (Bool-cases (req.method == "OPTIONS" || is_public req)) [
      | inl plain ↦ inr (inr (inr (ground (arith, unlike, plain))))
      | inr not_plain ↦ elim (Bool-cases (is_route req "GET" "/.well-known/icc-challenge")) [
        | inl asked ↦ inr (inl (ground (arith, unlike, not_plain, asked), asked))
        | inr not_asked ↦ elim (Bool-cases (is_route req "GET" "/setup/claude-code")) [
          | inl setting_up ↦
              inr (inr (inl (ground (arith, unlike, not_plain, not_asked, setting_up))))
          | inr rest ↦ inr (inr (inr (ground (arith, unlike, not_plain, not_asked, rest))))
        ]
      ]
    ]
  ]
