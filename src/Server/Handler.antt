-- ===== src/Server/Handler.antt =====
-- The request handler of src/server.ts: which endpoint a request is for, what it needs, and what
-- it does. The endpoints that change nothing of the state have no more of them here than that. What
-- the MCP transport does with a request is a parameter.
use inter_claude_connector.Base.{
  ℕ, String, Bool, true, false, not, ◌&&◌, ◌||◌, Option, none, some, List, ◌∷◌, ◌==◌, if◌then◌else◌,
  truthy, is_some, filter, includes,
}
use inter_claude_connector.Tls.Challenge.{ChallengeReply, token, not_found, icc_challenge}
use inter_claude_connector.Dict.{get}
use inter_claude_connector.Inbox.{Inbox}
use inter_claude_connector.Inbox.Lifecycle.{subscribe}
use inter_claude_connector.Server.{
  Config, AuthResult, Request, Reply, refused, preflight, setup_payload, elsewhere, pending,
  challenge_token, mcp_served, Server, mcp_handled, mcp_closed, mcp_thrown, Surroundings,
}
use inter_claude_connector.Server.Auth.{safe_token_equals, check_auth}
use inter_claude_connector.Server.Messages.{list_inbox, show_message, mark_inbox, delete_inbox}
use inter_claude_connector.Server.Watch.{
  watch, hook_snooze, hook_register, hook_heartbeat, hook_session_end,
}
use inter_claude_connector.Server.Routes.{
  Endpoint, registry_list, registry_register, events, inbox_post, inbox_list, inbox_mark,
  inbox_delete, registry_deregister, inbox_one, mesh, reload_config, hook_startup, hook_watch,
  hook_beat, hook_off, hook_wake, hook_end, poll, other, is_route, endpoint_of,
}
use inter_claude_connector.Server.Administration.{
  list_registry, post_registry, delete_registry, post_message, mesh_update, reload_from_disk,
  startup,
}

-- The endpoints for the help and the health, which need no authentication and change nothing.
abbrev pub is_public : Request → Bool
is_public req = is_route req "GET" "/api/help" || is_route req "GET" "/api/health"

abbrev pub challenge_reply : ChallengeReply → Reply
challenge_reply (token text) = challenge_token text
challenge_reply not_found = refused 404

abbrev pub with_inbox : Server → Reply × Inbox → Reply × Server
with_inbox s (reply, inbox) = (reply, record s { inbox = inbox })

-- The token of a request to /mcp is its search parameter, and any will do where there is no local
-- token.
unfoldable pub mcp_allowed : (buffer_from : String → List ℕ) → Request → Config → Bool
mcp_allowed buffer_from req config = elim (truthy config.local_token) [
  | none ↦ true
  | some local ↦ elim (truthy (get "token" req.query)) [
    | none ↦ false
    | some given ↦ safe_token_equals buffer_from given local
  ]
]

-- `mcpSessions.set` for a new session.
abbrev pub with_new : Option String → (sessions : List String) → Option String × List String
with_new none sessions = (none, sessions)
with_new (some id) sessions = (some id, id ∷ sessions)

module _ (env : Surroundings) where
  -- The endpoints behind the authentication.
  unfoldable pub authorized : AuthResult → Endpoint → Request → Server → Reply × Server
  authorized auth registry_list req s = list_registry env s
  authorized auth registry_register req s = post_registry env req.body s
  authorized auth (registry_deregister name) req s = delete_registry env name req.query s
  authorized auth events req s = (pending, record s { inbox = subscribe env.response s.inbox })
  authorized auth inbox_post req s =
      post_message env auth (elim req.body [ none ↦ none | some b ↦ b.inbox_post ]) s
  authorized auth inbox_list req s = (list_inbox env.host s.config req.query s.inbox, s)
  authorized auth (inbox_one id) req s = (show_message env.host s.config id s.inbox, s)
  authorized auth inbox_mark req s = with_inbox s (mark_inbox env.host s.config req.body s.inbox)
  authorized auth inbox_delete req s =
      with_inbox s (delete_inbox env.host s.config req.body s.inbox)
  authorized auth mesh req s = mesh_update env auth req.body s
  authorized auth reload_config req s = reload_from_disk env auth s
  authorized auth hook_startup req s = (startup env req.body s, s)
  authorized auth hook_watch req s =
      hook_register env (elim req.body [ none ↦ none | some b ↦ b.name ]) req.body s
  authorized auth hook_beat req s = hook_heartbeat env req.body s
  authorized auth hook_off req s = hook_snooze env req.body s
  authorized auth hook_wake req s = hook_register env none req.body s
  authorized auth hook_end req s = hook_session_end env req.body s
  authorized auth poll req s = watch env req.query s
  authorized auth other req s = (elsewhere, s)

  -- GET /.well-known/icc-challenge. The file of an expired challenge is removed.
  unfoldable pub serve_challenge : Server → Reply × Server
  unfolding icc_challenge
  serve_challenge s =
      let (reply, d) = icc_challenge env.now env.challenge_written s.tls_dir in
      (challenge_reply reply, record s { tls_dir = d })

  -- The session of a request to /mcp and the sessions after it: the one that the header names, if
  -- it is there, or a new one. It is none where `createMcpSession` throws.
  unfoldable pub mcp_session : Request → (sessions : List String) → Option String × List String
  mcp_session req sessions = elim (truthy req.mcp_session_id) [
    | none ↦ with_new env.new_mcp_session sessions
    | some id ↦
        if includes sessions id then (some id, sessions) else with_new env.new_mcp_session sessions
  ]

  unfoldable pub mcp_serve :
      Option String → Request → (sessions : List String) → Reply × List String
  mcp_serve none req sessions = (refused 500, sessions)
  mcp_serve (some id) req sessions = elim (env.mcp_transport id req) [
    | mcp_handled ↦ (mcp_served id, sessions)
    | mcp_closed ↦ (mcp_served id, filter (λ other. not (other == id)) sessions)
    | mcp_thrown ↦ (refused 500, sessions)
  ]

  module _ (buffer_from : String → List ℕ) where
    -- GET /setup/claude-code. With neither token it is open.
    unfoldable pub setup : Request → Server → Reply × Server
    setup req s = elim (truthy s.setup_token) [
      | some expected ↦ elim (truthy (get "token" req.query)) [
        | none ↦ (refused 403, s)
        | some given ↦
            if safe_token_equals buffer_from given expected
            then (setup_payload, record s { setup_token = none })
            else (refused 403, s)
      ]
      | none ↦
          if is_some (truthy s.config.local_token)
            && not (check_auth buffer_from req s.config).authenticated
          then (refused 401, s)
          else (setup_payload, s)
    ]

    -- /mcp
    unfoldable pub mcp : Request → Server → Reply × Server
    unfolding mcp_session mcp_serve
    mcp req s =
        let (id, sessions) = mcp_session req s.mcp_sessions in
        let (reply, left) = mcp_serve id req sessions in
        if mcp_allowed buffer_from req s.config
        then (reply, record s { mcp_sessions = left })
        else (refused 401, s)

    unfoldable pub handler : Request → Server → Reply × Server
    handler req s =
        let auth = check_auth buffer_from req s.config in
        if s.mcp_enabled && req.url == "/mcp"
        then mcp req s
        else if req.method == "OPTIONS"
        then (preflight, s)
        else if is_public req
        then (elsewhere, s)
        else if is_route req "GET" "/.well-known/icc-challenge"
        then serve_challenge s
        else if is_route req "GET" "/setup/claude-code"
        then setup req s
        else if not auth.authenticated
        then (refused 401, s)
        else authorized auth (endpoint_of req) req s
