-- ===== src/Server/Routes.antt =====
-- Which endpoint a request to src/server.ts is for, by its method and its URL.
use Prim.Native.Char.{code}
use inter_claude_connector.Base.{
  String, Bool, not, ◌&&◌, ◌||◌, Option, none, some, ◌==◌, nat_eq, if◌then◌else◌, or_else, is_some,
}
use inter_claude_connector.Server.{Request}

-- `s.slice(prefix.length)` for an `s` that starts with `prefix`, and none otherwise.
unfoldable pub strip_prefix : String → String → Option String
strip_prefix String.[] s = some s
strip_prefix (String.◌∷◌ c p) String.[] = none
strip_prefix (String.◌∷◌ c p) (String.◌∷◌ d s) =
    let rest = strip_prefix p s in if nat_eq (code c) (code d) then rest else none

-- `s.includes(part)`
unfoldable pub contains : String → String → Bool
contains part String.[] = is_some (strip_prefix part String.[])
contains part (String.◌∷◌ c s) = is_some (strip_prefix part (String.◌∷◌ c s)) || contains part s

pub data Endpoint : Type 0 where
  registry_list registry_register events inbox_post inbox_list inbox_mark inbox_delete : Endpoint
  registry_deregister inbox_one : String → Endpoint
  mesh reload_config hook_startup hook_watch hook_beat hook_off hook_wake hook_end poll other :
      Endpoint

abbrev pub is_route : Request → (method url : String) → Bool
is_route req method url = req.method == method && req.url == url

-- The tests of the handler behind the authentication, in their order.
unfoldable pub endpoint_of : Request → Endpoint
endpoint_of req =
    if is_route req "GET" "/api/registry"
    then registry_list
    else if is_route req "POST" "/api/registry"
    then registry_register
    else if req.method == "DELETE" && is_some (strip_prefix "/api/registry/" req.url)
    then registry_deregister (or_else (strip_prefix "/api/registry/" req.url) "")
    else if is_route req "GET" "/api/events"
    then events
    else if is_route req "POST" "/api/inbox"
    then inbox_post
    else if is_route req "GET" "/api/inbox"
    then inbox_list
    else if req.method == "GET"
        && is_some (strip_prefix "/api/inbox/" req.url)
        && not (contains "mark-read" req.url)
        && not (contains "delete" req.url)
    then inbox_one (or_else (strip_prefix "/api/inbox/" req.url) "")
    else if is_route req "POST" "/api/inbox/mark-read"
    then inbox_mark
    else if is_route req "POST" "/api/inbox/delete"
    then inbox_delete
    else if is_route req "POST" "/api/mesh-update"
    then mesh
    else if is_route req "POST" "/api/reload-config"
    then reload_config
    else if is_route req "POST" "/api/hook/startup"
    then hook_startup
    else if is_route req "POST" "/api/hook/watch"
    then hook_watch
    else if is_route req "POST" "/api/hook/heartbeat"
    then hook_beat
    else if is_route req "POST" "/api/hook/snooze"
    then hook_off
    else if is_route req "POST" "/api/hook/wake"
    then hook_wake
    else if is_route req "POST" "/api/hook/session-end"
    then hook_end
    else if is_route req "GET" "/api/watch"
    then poll
    else other
