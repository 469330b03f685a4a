-- ===== src/Server/Tests.antt =====
-- The laws of the server at a small one: the host is `mars`, its peer `venus` has the token "v", and
-- the session with the token "t" is active.
use Prim.Native.Char.{code}
use text.Mathlib.TextEquality.{codes_equal}
use inter_claude_connector.Base.{
  ℕ, String, ◌≡◌, refl, ◌≢◌, ◌⊎◌, true, false, Option, none, some, List, [], ◌∷◌, arith, ◌==◌,
  eq_iff, truthy,
}
use inter_claude_connector.Dict.{Dict, get, find}
use inter_claude_connector.Address.{parse_address}
use inter_claude_connector.Messages.{InboxMessage}
use inter_claude_connector.InboxDb.{order_by_timestamp, db_insert, db_get_unread}
use inter_claude_connector.Inbox.{Host, Inbox}
use inter_claude_connector.Inbox.Operations.{InboxPushInput, apply_filter, push, get_unread}
use inter_claude_connector.Registry.{active, Registry, blank, empty}
use inter_claude_connector.Registry.Sessions.{find_by_token, session_reconnect}
use inter_claude_connector.Server.{
  Config, Request, refused, setup_payload, pending, posted, mcp_served, Server, mcp_handled,
  Surroundings,
}
use inter_claude_connector.Server.Auth.{
  split_space, extract_token, authenticated_as, validate_from, safe_token_equals, is_local_token,
  peer_of_token, check_auth,
}
use inter_claude_connector.Server.Auth.Laws.{is_known_token, check_auth_lem}
use inter_claude_connector.Server.Messages.{post_inbox, real_unread}
use inter_claude_connector.Server.Posting.{post_inbox-posted}
use inter_claude_connector.Server.Watch.{start_waiting, answer_or_wait, reserve, watch}
use inter_claude_connector.Server.Handler.{mcp_allowed, mcp_session, mcp_serve, setup, mcp, handler}
use inter_claude_connector.Server.Access.{may_configure, config-handler}

unfoldable codes : String → List ℕ
codes String.[] = []
codes (String.◌∷◌ c s) = code c ∷ codes s

codes_injective : (a b : String) → codes a ≡ codes b → a ≡ b
unfolding codes
codes_injective String.[] String.[] h = refl
codes_injective String.[] (String.◌∷◌ d b) h = cc
codes_injective (String.◌∷◌ c a) String.[] h = cc
codes_injective (String.◌∷◌ c a) (String.◌∷◌ d b) h =
    let e : c ≡ d = codes_equal c d (ground arith) in
    let r : a ≡ b = codes_injective a b (ground arith) in rw (e, r)

abbrev sample_config : Config
sample_config = record {
  identity = "mars";
  local_token = some "m";
  peer_tokens = ("venus", "v") ∷ [];
  ca = some "earth";
  remotes = [];
}

abbrev request :
    (method url : String) (authorization : Option String) (query : Dict String) → Request
request method url authorization query = record {
  method = method;
  url = url;
  authorization = authorization;
  mcp_session_id = none;
  query = query;
  body = none;
}

abbrev sample_host : Host
sample_host = record { can_write = λ _. true; throws = λ _. false; to_iso = λ _. "2" }

abbrev sample_env : Surroundings
sample_env = record {
  now = 1;
  message_id = "i";
  fresh_token = "u";
  response = 7;
  processes = record { is_alive = λ _. true; comm = λ _. none; cmdline_has_icc_mcp = λ _. none };
  reload = λ _. sample_config;
  parse_int = λ _. 0;
  new_mcp_session = some "n";
  mcp_transport = λ _ _. mcp_handled;
  challenge_written = none;
  host = sample_host;
}

abbrev sample_inbox : Inbox
sample_inbox = record {
  db = some [];
  signals = record { broadcast = none; instances = [] };
  archive = [];
  subscribers = [];
  has_notifier = false;
  has_receipt_sender = false;
  notified = [];
  delivered = [];
  receipts = [];
}

abbrev sample_registry : Registry
sample_registry = record empty {
  sessions = ("app", 0) ∷ [];
  heap = λ _. record blank { session_token = "t"; state = active };
  next = 1;
}

abbrev sample_server : Server
sample_server = record {
  config = sample_config;
  inbox = sample_inbox;
  registry = sample_registry;
  setup_token = some "s";
  watchers = [];
  waits = λ _. none;
  sent = [];
  mcp_enabled = true;
  mcp_sessions = [];
  tls_dir = [];
}

abbrev venus_request : Request
venus_request = request "POST" "/api/inbox" (some "Bearer v") []

venus_auth : check_auth codes venus_request sample_config ≡ authenticated_as "venus"
unfolding check_auth extract_token is_local_token safe_token_equals codes peer_of_token split_space
venus_auth = refl

ne : (s t : String) → (s == t) ≡ false → s ≢ t
ne s t h = ground (arith, eq_iff s t)

check_auth_lem_example :
    (check_auth codes venus_request sample_config).authenticated
    ≡ (elim (extract_token venus_request) [
      | none ↦ false
      | some token ↦ is_known_token codes codes_injective token sample_config
    ])
check_auth_lem_example = check_auth_lem codes codes_injective venus_request sample_config

abbrev sample_post : InboxPushInput
sample_post = record {
  from = "venus/web";
  to = some "mars/app";
  body = "hello";
  reply_to = none;
  thread_id = none;
  status = none;
  meta = none;
}

accepted :
    (post_inbox sample_host sample_config 1 "i"
      (authenticated_as "venus")
      (some sample_post)
      sample_inbox).0
    ≡ posted "i" none none
unfolding post_inbox validate_from parse_address push db_insert
accepted = refl

post_inbox-posted_example :
    (m : InboxMessage) × ((post_inbox sample_host sample_config 1 "i"
        (authenticated_as "venus")
        (some sample_post)
        sample_inbox).1.db
      ≡ some (m ∷ []))
    × ((m.id ≡ "i") × (false ≡ false))
    × ((parse_address m.from).host ≡ some "venus")
    × ((m.to ≡ "mars")
        ⊎ ((parse_address m.to).host ≡ some "mars")
        ⊎ (truthy (parse_address m.to).host ≡ none))
post_inbox-posted_example =
    post_inbox-posted sample_host sample_config 1 "i" (some sample_post) sample_inbox "venus" []
      (ne "venus" "_local" refl) refl accepted

spoofed :
    (post_inbox sample_host sample_config 1 "i"
      (authenticated_as "pluto")
      (some sample_post)
      sample_inbox).0
    ≡ refused 403
unfolding post_inbox validate_from parse_address
spoofed = refl

abbrev watch_query : Dict String
watch_query = ("instance", "app") ∷ ("sessionToken", "t") ∷ []

-- The state in which the response 7 waits for the session "t".
unfoldable waiting : Server
unfolding watch
waiting = (watch sample_env watch_query sample_server).1

waits_lem : watch sample_env watch_query sample_server ≡ (pending, waiting)
unfolding watch waiting get reserve session_reconnect find_by_token find answer_or_wait
    start_waiting real_unread get_unread db_get_unread order_by_timestamp apply_filter
waits_lem = refl

abbrev setup_request : Request
setup_request = request "GET" "/setup/claude-code" none (("token", "s") ∷ [])

-- Without a local token, a request to /mcp without any token is served.
mcp_open :
    let s = record sample_server { config = record sample_config { local_token = none } } in
    let req = request "GET" "/mcp" none [] in
    ((check_auth codes req s.config).authenticated ≡ false)
    × (handler sample_env codes req s ≡ (mcp_served "n", record s { mcp_sessions = "n" ∷ [] }))
unfolding handler mcp mcp_allowed mcp_session mcp_serve check_auth extract_token get
mcp_open = (refl, refl)

venus_may_not :
    may_configure sample_env (check_auth codes venus_request sample_config) sample_config ≡ false
venus_may_not = rw venus_auth refl

config-handler_example :
    (handler sample_env codes venus_request sample_server).1.config ≡ sample_config
config-handler_example = config-handler sample_env codes venus_request sample_server venus_may_not

setup_given : (setup sample_env codes setup_request sample_server).0 ≡ setup_payload
unfolding setup safe_token_equals codes get
setup_given = refl
