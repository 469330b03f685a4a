-- ===== src/Web/Tests.antt =====
-- The web server of the host `mars`, with the local token "m" and the peer `venus`.
use Prim.Native.String
use inter_claude_connector.Base.{
  ℕ, ◌-◌, String, ◌≡◌, refl, false, not, none, some, [], ◌∷◌, ltb, different,
}
use inter_claude_connector.Dict.{get}
use inter_claude_connector.Address.{split_slash, parse_address, build_address}
use inter_claude_connector.Exec.{starts_with}
use inter_claude_connector.Server.{Config}
use inter_claude_connector.Server.Auth.{safe_token_equals}
use inter_claude_connector.Server.Routes.{strip_prefix}
use inter_claude_connector.Samples.{new_config}
use inter_claude_connector.Web.{
  session_ttl, take_hex, match_session, ProxyTarget, empty_body, message, WebState, WebRequest,
  redirect, login_page, piped, forwarded, failure, WebHost, is_valid_session, remote_target,
  resolve_proxy_target, proxy_request, send_to_peer, send_to, post_send, login, handler,
}
use inter_claude_connector.Web.Session.{login-is_valid_session, handler-no_session}
use inter_claude_connector.Web.Requests.{Adds, handler-Adds}

abbrev session : String
session = "0123456789abcdef0123456789abcdef0123456789abcdef0123456789abcdef"

abbrev host : WebHost
host = record {
  now = 5;
  fresh_session = session;
  buffer_from = λ s. String.count s ∷ [];
  url_parts = λ url. (url, "");
  instance_name = some "app";
  port = "3179";
  tls = false;
}

abbrev config : Config
config = record (new_config "mars" none) {
  local_token = some "m";
  remotes = ("venus", ("http://10.0.0.2", "v")) ∷ [];
}

abbrev start : WebState
start = record { sessions = []; upstream = [] }

abbrev request : (method url : String) → WebRequest
request method url = record {
  method = method;
  url = url;
  cookie = none;
  form_token = "";
  message = none;
}

login-is_valid_session_example :
    let (answers, s') = login host config "m" start in
    (answers ≡ redirect session ∷ [])
    × ((is_valid_session 86400005
          (some "a=b; icc-session=0123456789abcdef0123456789abcdef0123456789abcdef0123456789abcdef")
          s').0
        ≡ not (ltb session_ttl (86400005 - 5)))
unfolding match_session take_hex strip_prefix safe_token_equals
login-is_valid_session_example =
    login-is_valid_session host config "m" "m"
      "a=b; icc-session=0123456789abcdef0123456789abcdef0123456789abcdef0123456789abcdef" 86400005
      start refl (different "m" "" refl) refl refl

handler-no_session_example :
    let (answers, s') = handler host config (request "GET" "/proxy/venus/api/inbox") start in
    (answers ≡ login_page ∷ [])
    × (s'.upstream ≡ [])
    × ((id : String) (at : ℕ) → get id s'.sessions ≡ some at → get id start.sessions ≡ some at)
unfolding is_valid_session
handler-no_session_example =
    handler-no_session host config (request "GET" "/proxy/venus/api/inbox") start "m" refl
      (different "m" "" refl) refl refl

handler-Adds_example :
    Adds host config []
      (handler host config (request "GET" "/proxy/venus/api/inbox") start).1.upstream
handler-Adds_example = handler-Adds host config (request "GET" "/proxy/venus/api/inbox") start

abbrev venus_target : ProxyTarget
venus_target = record { base_url = "http://10.0.0.2"; token = "v"; verifies = none }

-- A message to a peer is posted after an empty request.
sends_twice : post_send host config (some (some "hello", some "venus/web")) start ≡ (
  piped ∷ forwarded ∷ failure 500 ∷ [],
  record start {
    upstream =
        record { target = venus_target; path = "/api/inbox"; payload = empty_body }
        ∷ record {
          target = venus_target;
          path = "/api/inbox";
          payload = message "mars/app" "hello" "venus/web";
        }
        ∷ [];
  },
)
unfolding post_send send_to send_to_peer proxy_request get split_slash parse_address
    resolve_proxy_target remote_target starts_with build_address
sends_twice = refl
