-- ===== src/Server/Access.antt =====
-- What a request to src/server.ts may change, by who makes it.
use inter_claude_connector.Base.{
  ℕ, String, ◌≡◌, refl, ◌∙◌, inl, inr, Bool, true, false, ◌||◌, Option, none, some, List, [], ◌∷◌,
  arith, if◌then◌else◌, Bool-cases, Option-cases, truthy, is_text,
}
use inter_claude_connector.Dict.{Dict, get}
use inter_claude_connector.Messages.{InboxMessage, is_receipt}
use inter_claude_connector.Inbox.{Inbox}
use inter_claude_connector.Inbox.Operations.{InboxPushInput, full_message}
use inter_claude_connector.Server.{
  Config, AuthResult, Body, Request, Reply, refused, setup_payload, Server, Surroundings,
}
use inter_claude_connector.Server.Auth.{check_auth}
use inter_claude_connector.Server.Messages.{post_inbox}
use inter_claude_connector.Server.Watch.{
  cleanup, wake, wake_all, start_waiting, answer_or_wait, reserve, watch, hook_snooze,
  hook_register, hook_heartbeat, hook_session_end,
}
use inter_claude_connector.Server.Routes.{
  Endpoint, registry_list, registry_register, events, inbox_post, inbox_list, inbox_mark,
  inbox_delete, registry_deregister, inbox_one, mesh, reload_config, hook_startup, hook_watch,
  hook_beat, hook_off, hook_wake, hook_end, poll, other, endpoint_of,
}
use inter_claude_connector.Server.Administration.{
  is_posted, list_registry, post_registry, delete_registry, post_message, mesh_update,
  reload_from_disk,
}
use inter_claude_connector.Server.Handler.{
  mcp_allowed, authorized, serve_challenge, setup, mcp, handler,
}

module _ (env : Surroundings) where
  config-wake : (id : ℕ) (s : Server) → (wake env id s).config ≡ s.config
  unfolding wake cleanup
  config-wake id s = ground arith

  pub config-wake_all :
      (m : InboxMessage) (ids : List ℕ) (s : Server) → (wake_all env m ids s).config ≡ s.config
  unfolding wake_all
  config-wake_all m [] s = refl
  config-wake_all m (id ∷ ids) s =
      config-wake_all m ids (if is_receipt m then s else wake env id s)
      ∙ ground (arith, config-wake id s)

  config-post_message :
      (auth : AuthResult) (body : Option InboxPushInput) (s : Server)
      → (post_message env auth body s).1.config ≡ s.config
  unfolding post_message
  config-post_message auth none s = refl
  config-post_message auth (some input) s = go (is_posted reply)
    where
      inbox : Inbox
      inbox = (post_inbox env.host s.config env.now env.message_id auth (some input) s.inbox).1

      reply : Reply
      reply = (post_inbox env.host s.config env.now env.message_id auth (some input) s.inbox).0

      m : InboxMessage
      m = full_message env.message_id (env.host.to_iso env.now) input

      go :
          (b : Bool)
          → (if b
              then wake_all env m s.inbox.subscribers (record s { inbox = inbox })
              else record s { inbox = inbox }).config
            ≡ s.config
      go true = config-wake_all m s.inbox.subscribers (record s { inbox = inbox })
      go false = refl

  config-watch : (query : Dict String) (s : Server) → (watch env query s).1.config ≡ s.config
  unfolding watch reserve answer_or_wait start_waiting
  config-watch query s = ground arith

  config-hooks :
      (body : Option Body) (name : Option String) (s : Server)
      → ((hook_register env name body s).1.config ≡ s.config)
        × ((hook_heartbeat env body s).1.config ≡ s.config)
        × ((hook_snooze env body s).1.config ≡ s.config)
        × ((hook_session_end env body s).1.config ≡ s.config)
  unfolding hook_register hook_heartbeat hook_snooze hook_session_end
  config-hooks none name s = (refl, refl, refl, refl)
  config-hooks (some body) name s = (ground arith, ground arith, ground arith, ground arith)

  config-registry :
      (body : Option Body) (name : String) (query : Dict String) (s : Server)
      → ((list_registry env s).1.config ≡ s.config)
        × ((post_registry env body s).1.config ≡ s.config)
        × ((delete_registry env name query s).1.config ≡ s.config)
  unfolding list_registry post_registry delete_registry
  config-registry none name query s = (refl, refl, ground arith)
  config-registry (some body) name query s = (refl, ground arith, ground arith)

  -- The identity may change the configuration: it is this host itself, or its authority.
  abbrev pub may_configure : AuthResult → Config → Bool
  may_configure auth config =
      is_text auth.identity "_local"
      || elim (truthy config.ca) [ none ↦ false | some ca ↦ is_text auth.identity ca ]

  config-authorized :
      (auth : AuthResult) (e : Endpoint) (req : Request) (s : Server)
      → may_configure auth s.config ≡ false
      → (authorized env auth e req s).1.config ≡ s.config
  unfolding authorized mesh_update reload_from_disk
  config-authorized auth e req s h = go e
    where
      go : (e : Endpoint) → (authorized env auth e req s).1.config ≡ s.config
      go registry_list = (config-registry req.body "" req.query s).0
      go registry_register = (config-registry req.body "" req.query s).1
      go (registry_deregister name) = (config-registry req.body name req.query s).2
      go events = refl
      go inbox_post = config-post_message auth _ s
      go inbox_list = refl
      go (inbox_one id) = refl
      go inbox_mark = refl
      go inbox_delete = refl
      go mesh = ground arith
      go reload_config = ground arith
      go hook_startup = refl
      go hook_watch = (config-hooks req.body _ s).0
      go hook_beat = (config-hooks req.body none s).1
      go hook_off = (config-hooks req.body none s).2
      go hook_wake = (config-hooks req.body none s).0
      go hook_end = (config-hooks req.body none s).3
      go poll = config-watch req.query s
      go other = refl

  config-open :
      (buffer_from : String → List ℕ) (req : Request) (s : Server)
      → ((mcp env buffer_from req s).1.config ≡ s.config)
        × ((serve_challenge env s).1.config ≡ s.config)
        × ((setup env buffer_from req s).1.config ≡ s.config)
  unfolding mcp serve_challenge setup
  config-open buffer_from req s = (
    elim (Bool-cases (mcp_allowed buffer_from req s.config)) [
      | inl allowed ↦ rw (mcp, allowed) refl
      | inr denied ↦ rw (mcp, denied) refl
    ],
    refl,
    ground arith,
  )

  -- Only a request of this host itself or of its certificate authority changes the configuration.
  pub config-handler :
      (buffer_from : String → List ℕ) (req : Request) (s : Server)
      → may_configure (check_auth buffer_from req s.config) s.config ≡ false
      → (handler env buffer_from req s).1.config ≡ s.config
  unfolding handler
  config-handler buffer_from req s h =
      let (at_mcp, at_challenge, at_setup) = config-open buffer_from req s in
      ground (
        arith,
        at_mcp,
        at_challenge,
        at_setup,
        config-authorized (check_auth buffer_from req s.config) (endpoint_of req) req s h,
      )

  -- A setup token works once: when a request has used it up, a request that is not authenticated
  -- gets no setup any more, if there is a local token.
  pub setup-setup :
      (buffer_from : String → List ℕ) (req req' : Request) (s : Server) (expected local : String)
      → truthy s.setup_token ≡ some expected
      → truthy s.config.local_token ≡ some local
      → (setup env buffer_from req s).0 ≡ setup_payload
      → (check_auth buffer_from req' s.config).authenticated ≡ false
      → (setup env buffer_from req' (setup env buffer_from req s).1).0 ≡ refused 401
  unfolding setup
  setup-setup buffer_from req req' s expected local h l first n =
      elim (Option-cases (truthy (get "token" req.query))) [
        | inl missing ↦ absurd (ground arith)
        | inr (given, there) ↦ ground (arith, h, l, there, n)
      ]
