-- ===== src/Mcp/Network.antt =====
-- `peerAPI` of src/mcp.ts, for POST /api/inbox, in front of the server of a peer. The URL of a peer
-- leads to the server that has the peer's name: for https `checkServerIdentity` sees to that.
use Prim.Native.String
use inter_claude_connector.Base.{
  ℕ, String, false, Option, none, some, List, [], ◌==◌, if◌then◌else◌, or_null,
}
use inter_claude_connector.Dict.{get}
use inter_claude_connector.Inbox.Operations.{InboxPushInput}
use inter_claude_connector.Server.{
  Config, MeshUpdate, Body, Request, Reply, refused, posted, Server, Surroundings,
}
use inter_claude_connector.Server.Handler.{handler}
use inter_claude_connector.Mcp.{rejected, http_error, Outcome, failed, fulfilled, Api}

-- What `inboxSchema` of src/api-schemas.ts makes of the body of a post: the sender is not empty.
abbrev pub inbox_schema : InboxPushInput → Option InboxPushInput
inbox_schema payload = if payload.from == "" then none else some payload

abbrev pub no_update : MeshUpdate
no_update = record {
  action = "";
  peer_identity = none;
  https_url = none;
  peer_token = none;
  outbound_token = none;
}

abbrev pub inbox_body : InboxPushInput → Body
inbox_body payload = record {
  inbox_post = inbox_schema payload;
  registry_post = none;
  ids = none;
  all = false;
  instance_name = none;
  reader = none;
  session_token = none;
  pid = 0;
  force = false;
  name = none;
  peer_update = no_update;
}

abbrev pub bearer : Option String → Option String
bearer none = none
bearer (some token) = some (String.◌++◌ "Bearer " token)

abbrev pub inbox_request : (token : Option String) → InboxPushInput → Request
inbox_request token payload = record {
  method = "POST";
  url = "/api/inbox";
  authorization = bearer token;
  mcp_session_id = none;
  query = [];
  body = some (inbox_body payload);
}

abbrev pub answer_of : Reply → Outcome String
answer_of (posted id _ _) = fulfilled id
answer_of (refused status) = failed (http_error status)
answer_of _ = failed (rejected "Invalid response")

module _ (env : Surroundings) (buffer_from : String → List ℕ) (config : Config) where
  unfoldable pub peer_api : (peer : String) → InboxPushInput → Server → Outcome String × Server
  peer_api peer payload s = elim (get peer config.remotes) [
    | none ↦ (failed (rejected "No HTTP URL configured"), s)
    | some (url, token) ↦
        if url == ""
        then (failed (rejected "No HTTP URL configured"), s)
        else if peer == s.config.identity
        then (let (reply, s') = handler env buffer_from (inbox_request (or_null token) payload) s in
            (answer_of reply, s'))
        else (failed (rejected "HTTP error"), s)
  ]

  -- The API functions of a host whose own server is not running: the state is the peer's server.
  unfoldable pub network : Api Server
  unfolding peer_api
  network = record {
    lookup = λ id s. (failed (rejected "HTTP error"), s);
    all_messages = λ s. (failed (rejected "HTTP error"), s);
    post = λ peer payload s. elim peer [
      | none ↦ (failed (rejected "HTTP error"), s)
      | some p ↦ peer_api p payload s
    ];
  }
