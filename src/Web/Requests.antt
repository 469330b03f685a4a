-- ===== src/Web/Requests.antt =====
-- Which requests the handler of src/web.ts makes, and with which tokens.
use Prim.Native.String
use inter_claude_connector.Base.{
  String, ◌≡◌, refl, ap, ◌∙◌, ◌⊎◌, inl, inr, ◌&&◌, ◌||◌, Option, none, some, List, [], ◌∷◌, ◌++◌,
  arith, ◌==◌, if◌then◌else◌, Bool-cases, Option-cases, truthy, or_else, is_some, append_nil,
  append_assoc, All,
}
use inter_claude_connector.Dict.{get}
use inter_claude_connector.Server.{Config}
use inter_claude_connector.Address.{build_address}
use inter_claude_connector.Web.{
  ProxyTarget, Payload, request_body, empty_body, message, Upstream, WebState, WebRequest, WebHost,
  create_session, is_valid_session, remote_target, resolve_proxy_target, proxy_match, asks,
  proxy_request, send_to_peer, send_here, send_to, post_send, login, routes, handler,
}
use inter_claude_connector.Mcp.{other_host}

All-append :
    (P : Upstream → Type 0) (xs ys : List Upstream) → All P xs → All P ys → All P (xs ++ ys)
All-append P [] ys h k = k
All-append P (x ∷ xs) ys (hx, h) k = (hx, All-append P xs ys h k)

module _ (host : WebHost) (config : Config) where
  -- The request goes to the local server with the local token, or to the URL of a peer with that
  -- peer's token.
  abbrev pub IsOwn : ProxyTarget → Type 0
  IsOwn t =
      ((t.token ≡ or_else config.local_token "")
        × (t.base_url
            ≡ String.◌++◌ (if host.tls then "https" else "http")
                (String.◌++◌ "://127.0.0.1:" host.port)))
      ⊎ ((peer : String) × (get peer config.remotes ≡ some (t.base_url, t.token)))

  abbrev pub Adds : List Upstream → List Upstream → Type 0
  Adds us us' =
      (new : List Upstream) × (us' ≡ us ++ new) × All (λ (r : Upstream). IsOwn r.target) new

  Adds-none : (us us' : List Upstream) → us' ≡ us → Adds us us'
  Adds-none us us' e = ([], e ∙ append_nil us, tt)

  Adds-both : (us us' us'' : List Upstream) → Adds us us' → Adds us' us'' → Adds us us''
  Adds-both us us' us'' (new, e, h) (new', e', h') = (
    new ++ new',
    e' ∙ ap (λ l. l ++ new') e ∙ append_assoc us new new',
    All-append (λ (r : Upstream). IsOwn r.target) new new' h h',
  )

  remote_target-own :
      (peer : String) (remote : Option (String × String)) (t : ProxyTarget)
      → get peer config.remotes ≡ remote
      → remote_target host.tls peer remote ≡ some t
      → get peer config.remotes ≡ some (t.base_url, t.token)
  unfolding remote_target
  remote_target-own peer none t given h = absurd (ground (arith, h))
  remote_target-own peer (some (url, token)) t given h = given ∙ ground (arith, h)

  target-IsOwn :
      (peer : String) (t : ProxyTarget) → resolve_proxy_target host config peer ≡ some t → IsOwn t
  unfolding resolve_proxy_target
  target-IsOwn peer t h = elim (Bool-cases (peer == config.identity)) [
    | inl here ↦ inl (ground (arith, here, h), ground (arith, here, h))
    | inr remote ↦
        inr (
          peer,
          remote_target-own peer (get peer config.remotes) t refl (ground (arith, h, remote)),
        )
  ]

  asks-Adds :
      (o : Option ProxyTarget) (path : String) (payload : Payload) (s : WebState)
      → ((t : ProxyTarget) → o ≡ some t → IsOwn t)
      → Adds s.upstream (asks o path payload s).upstream
  asks-Adds none path payload s own = Adds-none s.upstream s.upstream refl
  asks-Adds (some t) path payload s own =
      (record { target = t; path = path; payload = payload } ∷ [], refl, (own t refl, tt))

  proxy_request-Adds :
      (peer path : String) (body : Payload) (s : WebState)
      → Adds s.upstream (proxy_request host config peer path body s).1.upstream
  unfolding proxy_request
  proxy_request-Adds peer path body s =
      asks-Adds (resolve_proxy_target host config peer) path body s (target-IsOwn peer)

  send-Adds :
      (peer : Option String) (body to : String) (s : WebState)
      → Adds s.upstream (send_to host config peer body to s).1.upstream
  unfolding send_to send_here send_to_peer
  send-Adds none body to s =
      asks-Adds (resolve_proxy_target host config config.identity) "/api/inbox" _ s
        (target-IsOwn config.identity)
  send-Adds (some p) body to s =
      let target = resolve_proxy_target host config p in
      let s' = (proxy_request host config p "/api/inbox" empty_body s).1 in
      let payload = message (build_address config.identity host.instance_name) body to in
      Adds-both s.upstream s'.upstream (asks target "/api/inbox" payload s').upstream
        (proxy_request-Adds p "/api/inbox" empty_body s)
        (asks-Adds target "/api/inbox" payload s' (target-IsOwn p))

  post_send-Adds :
      (message : Option (Option String × Option String)) (s : WebState)
      → Adds s.upstream (post_send host config message s).1.upstream
  unfolding post_send
  post_send-Adds none s = Adds-none s.upstream s.upstream refl
  post_send-Adds (some (body, to)) s = elim (Option-cases (truthy body)) [
    | inl missing ↦ Adds-none s.upstream _ (ground (arith, missing))
    | inr (b, has_body) ↦ elim (Option-cases (truthy to)) [
      | inl missing ↦ Adds-none s.upstream _ (ground (arith, has_body, missing))
      | inr (a, has_to) ↦
          rw (has_body, has_to, post_send) (send-Adds (truthy (other_host config.identity a)) b a s)
    ]
  ]

  routes-Adds :
      (req : WebRequest) (s : WebState) → Adds s.upstream (routes host config req s).1.upstream
  unfolding routes
  routes-Adds req s = elim (Option-cases (proxy_match (host.url_parts req.url).0)) [
    | inr ((peer, path), matched) ↦
        rw (matched, routes)
          (proxy_request-Adds peer (String.◌++◌ path (host.url_parts req.url).1) request_body s)
    | inl unmatched ↦
        elim (Bool-cases (req.method == "GET" && (req.url == "/" || req.url == "/index.html"))) [
          | inl page ↦ Adds-none s.upstream _ (ground (arith, unmatched, page))
          | inr other_page ↦ elim (Bool-cases (req.method == "POST" && req.url == "/send")) [
            | inl sends ↦ rw (unmatched, other_page, sends, routes) (post_send-Adds req.message s)
            | inr nothing ↦ Adds-none s.upstream _ (ground (arith, unmatched, other_page, nothing))
          ]
        ]
  ]

  upstream-login :
      (form_token : String) (s : WebState)
      → (login host config form_token s).1.upstream ≡ s.upstream
  unfolding login create_session
  upstream-login form_token s = ground arith

  upstream-is_valid_session :
      (req : WebRequest) (s : WebState)
      → (is_valid_session host.now req.cookie s).1.upstream ≡ s.upstream
  unfolding is_valid_session
  upstream-is_valid_session req s = ground arith

  -- Every request that the handler makes to an ICC server goes to the local one with the local token,
  -- or to the configured URL of a peer with the token that is configured for that peer.
  pub handler-Adds :
      (req : WebRequest) (s : WebState) → Adds s.upstream (handler host config req s).1.upstream
  unfolding handler
  handler-Adds req s = elim (Bool-cases (req.method == "POST" && req.url == "/login")) [
    | inl is_login ↦
        Adds-none s.upstream _ (ground (arith, is_login, upstream-login req.form_token s))
    | inr other_url ↦ elim (Bool-cases (is_some (truthy config.local_token))) [
      | inr is_open ↦ rw (other_url, is_open, handler) (routes-Adds req s)
      | inl guarded ↦
          let s' = (is_valid_session host.now req.cookie s).1 in
          elim (Bool-cases (is_valid_session host.now req.cookie s).0) [
            | inr invalid ↦
                Adds-none s.upstream _
                  (ground (arith, other_url, guarded, invalid, upstream-is_valid_session req s))
            | inl valid ↦
                rw (other_url, guarded, valid, handler)
                  (Adds-both s.upstream s'.upstream _
                    (Adds-none s.upstream s'.upstream (upstream-is_valid_session req s))
                    (routes-Adds req s'))
          ]
    ]
  ]
