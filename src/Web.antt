-- ===== src/Web.antt =====
-- src/web.ts: the sessions of the web login, the targets of its requests to ICC servers, and its
-- request handler. The pages themselves are left out. An answer is what a call of `writeHead` starts;
-- the handler gives those that it attempts, in order, where the ICC servers answer in the order in
-- which they are asked. Only the first gets to the browser: a later call of `writeHead` throws.
pub mod Session
pub mod Requests
mod Tests
use Prim.Native.Char.{Char, code}
use Prim.Native.String
use inter_claude_connector.Base.{
  ℕ, zero, suc, ◌-◌, ◌*◌, String, Bool, true, false, not, ◌&&◌, ◌||◌, Option, none, some, List, [],
  ◌∷◌, ◌++◌, ◌==◌, ltb, leb, if◌then◌else◌, truthy, or_else, is_some,
}
use inter_claude_connector.Dict.{Dict, get, set, delete}
use inter_claude_connector.Address.{split_slash, build_address}
use inter_claude_connector.Exec.{starts_with}
use inter_claude_connector.Server.{Config}
use inter_claude_connector.Server.Auth.{safe_token_equals}
use inter_claude_connector.Server.Routes.{strip_prefix}
use inter_claude_connector.Mcp.{other_host}

abbrev pub session_ttl : ℕ
session_ttl = 24 * 60 * 60 * 1000

-- `[a-f0-9]`
abbrev pub is_hex : Char → Bool
is_hex c = (leb b'a' (code c) && leb (code c) b'f') || (leb b'0' (code c) && leb (code c) b'9')

-- The first `n` characters, if they are hexadecimal digits.
unfoldable pub take_hex : (n : ℕ) → String → Option String
take_hex zero s = some ""
take_hex (suc n) String.[] = none
take_hex (suc n) (String.◌∷◌ c s) =
    let rest = take_hex n s in
    if is_hex c then (elim rest [ none ↦ none | some t ↦ some (String.◌∷◌ c t) ]) else none

abbrev pub session_at : String → Option String
session_at s = elim (strip_prefix "icc-session=" s) [ none ↦ none | some rest ↦ take_hex 64 rest ]

-- `cookieHeader.match(/icc-session=([a-f0-9]{64})/)`
unfoldable pub match_session : String → Option String
match_session String.[] = none
match_session (String.◌∷◌ c s) =
    let later = match_session s in
    elim (session_at (String.◌∷◌ c s)) [ none ↦ later | some id ↦ some id ]

-- The base URL and the token of an ICC server, and whom its certificate has to name.
pub record ProxyTarget : Type 0 where
  pub base_url : String
  pub token : String
  pub verifies : Option String

-- What a request to an ICC server has as its body: that of the request at hand, where this is a POST or
-- a PUT, nothing, or a message with its sender and its address.
pub data Payload : Type 0 where
  request_body empty_body : Payload
  message : (from body to : String) → Payload

-- A request to an ICC server.
pub record Upstream : Type 0 where
  pub target : ProxyTarget
  pub path : String
  pub payload : Payload

pub record WebState : Type 0 where
  pub sessions : Dict ℕ
  pub upstream : List Upstream

-- What the handler reads of a request: `form_token` is the field of the login form, `message` is the
-- body and the address of POST /send, or none where that is no JSON.
pub record WebRequest : Type 0 where
  pub method : String
  pub url : String
  pub cookie : Option String
  pub form_token : String
  pub message : Option (Option String × Option String)

pub data Answer : Type 0 where
  redirect : (session_id : String) → Answer
  invalid_token login_page index piped forwarded : Answer
  failure : (status : ℕ) → Answer

-- What the handler has from its surroundings: the clock, the next random session, the bytes of a text,
-- the path and the search part of `new URL`, the instance, the port and whether TLS is configured.
pub record WebHost : Type 0 where
  pub now : ℕ
  pub fresh_session : String
  pub buffer_from : String → List ℕ
  pub url_parts : String → String × String
  pub instance_name : Option String
  pub port : String
  pub tls : Bool

unfoldable pub create_session : (now : ℕ) (id : String) → WebState → WebState
create_session now id s = record s { sessions = set id now s.sessions }

-- `isValidSession`, which drops a session that has expired.
unfoldable pub is_valid_session : (now : ℕ) (cookie : Option String) → WebState → Bool × WebState
is_valid_session now cookie s = elim (truthy cookie) [
  | none ↦ (false, s)
  | some header ↦ elim (match_session header) [
    | none ↦ (false, s)
    | some id ↦ elim (get id s.sessions) [
      | none ↦ (false, s)
      | some created_at ↦
          if ltb session_ttl (now - created_at)
          then (false, record s { sessions = delete id s.sessions })
          else (true, s)
    ]
  ]
]

abbrev pub only_if : Bool → String → Option String
only_if true s = some s
only_if false s = none

unfoldable pub remote_target :
    (tls : Bool) (peer : String) → Option (String × String) → Option ProxyTarget
remote_target tls peer none = none
remote_target tls peer (some (url, token)) =
    if url == ""
    then none
    else some (record {
      base_url = url;
      token = token;
      verifies = only_if (starts_with "https://" url && tls) peer;
    })

unfoldable pub resolve_proxy_target : WebHost → Config → (peer : String) → Option ProxyTarget
unfolding remote_target
resolve_proxy_target host config peer =
    if peer == config.identity
    then some (record {
      base_url =
          String.◌++◌ (if host.tls then "https" else "http")
            (String.◌++◌ "://127.0.0.1:" host.port);
      token = or_else config.local_token "";
      verifies = only_if host.tls config.identity;
    })
    else remote_target host.tls peer (get peer config.remotes)

-- The match of `/^\/proxy\/([^/]+)(\/api\/.*)$/`: the peer and the path behind it.
unfoldable pub proxy_match : (pathname : String) → Option (String × String)
proxy_match pathname = elim (strip_prefix "/proxy/" pathname) [
  | none ↦ none
  | some rest ↦ elim (split_slash rest) [
    | none ↦ none
    | some (peer, path) ↦
        if not (peer == "") && starts_with "api/" path
        then some (peer, String.◌++◌ "/" path)
        else none
  ]
]

abbrev pub asks : Option ProxyTarget → (path : String) → Payload → WebState → WebState
asks none path payload s = s
asks (some target) path payload s = record s {
  upstream = s.upstream ++ record { target = target; path = path; payload = payload } ∷ [];
}

abbrev pub answered : Option ProxyTarget → (status : ℕ) → Answer → Answer
answered none status a = failure status
answered (some target) status a = a

module _ (host : WebHost) (config : Config) where
  unfoldable pub proxy_request : (peer path : String) → Payload → WebState → List Answer × WebState
  unfolding resolve_proxy_target
  proxy_request peer path body s =
      let target = resolve_proxy_target host config peer in
      (answered target 404 piped ∷ [], asks target path body s)

  -- POST /send, to a peer. The request at hand is passed on, whose body has been read already, and then
  -- a request is made from this body. Its answer is the second one, so `writeHead` throws, and
  -- the catch attempts a third.
  unfoldable pub send_to_peer : (peer body to : String) → WebState → List Answer × WebState
  unfolding proxy_request
  send_to_peer peer body to s =
      let (answers, s') = proxy_request peer "/api/inbox" empty_body s in
      let target = resolve_proxy_target host config peer in
      let from = build_address config.identity host.instance_name in
      (
        answers ++ answered target 404 forwarded ∷ failure 500 ∷ [],
        asks target "/api/inbox" (message from body to) s',
      )

  unfoldable pub send_here : (body to : String) → WebState → List Answer × WebState
  unfolding resolve_proxy_target
  send_here body to s =
      let target = resolve_proxy_target host config config.identity in
      let from = build_address config.identity host.instance_name in
      (answered target 500 forwarded ∷ [], asks target "/api/inbox" (message from body to) s)

  unfoldable pub send_to :
      (peer : Option String) (body to : String) → WebState → List Answer × WebState
  unfolding send_to_peer send_here
  send_to none body to s = send_here body to s
  send_to (some peer) body to s = send_to_peer peer body to s

  unfoldable pub post_send :
      Option (Option String × Option String) → WebState → List Answer × WebState
  unfolding send_to
  post_send none s = (failure 500 ∷ [], s)
  post_send (some (body, to)) s = elim (truthy body) [
    | none ↦ (failure 400 ∷ [], s)
    | some b ↦ elim (truthy to) [
      | none ↦ (failure 400 ∷ [], s)
      | some address ↦ send_to (truthy (other_host config.identity address)) b address s
    ]
  ]

  unfoldable pub login : (form_token : String) → WebState → List Answer × WebState
  unfolding create_session
  login form_token s = elim (truthy config.local_token) [
    | none ↦ (invalid_token ∷ [], s)
    | some local ↦
        if not (safe_token_equals host.buffer_from form_token local)
        then (invalid_token ∷ [], s)
        else (redirect host.fresh_session ∷ [], create_session host.now host.fresh_session s)
  ]

  -- What is behind the session check.
  unfoldable pub routes : WebRequest → WebState → List Answer × WebState
  unfolding proxy_match proxy_request post_send
  routes req s = elim (proxy_match (host.url_parts req.url).0) [
    | some (peer, path) ↦
        proxy_request peer (String.◌++◌ path (host.url_parts req.url).1) request_body s
    | none ↦
        if req.method == "GET" && (req.url == "/" || req.url == "/index.html")
        then (index ∷ [], s)
        else if req.method == "POST" && req.url == "/send"
        then post_send req.message s
        else (failure 404 ∷ [], s)
  ]

  unfoldable pub handler : WebRequest → WebState → List Answer × WebState
  unfolding is_valid_session login routes
  handler req s =
      if req.method == "POST" && req.url == "/login"
      then login req.form_token s
      else if is_some (truthy config.local_token)
      then (let (valid, s') = is_valid_session host.now req.cookie s in
          if valid then routes req s' else (login_page ∷ [], s'))
      else routes req s
