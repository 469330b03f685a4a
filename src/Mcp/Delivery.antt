-- ===== src/Mcp/Delivery.antt =====
-- A message that `sendMessage` of src/mcp.ts sends to another host arrives in that host's inbox.
use Prim.Native.String
use mathlib.Core.Path.{subst}
use inter_claude_connector.Base.{
  ℕ, String, ◌≡◌, refl, sym, ap, ◌∙◌, ◌≢◌, true, false, Option, none, some, List, [], ◌∷◌, ◌++◌,
  arith, ◌==◌, eq_iff, or_null, or_else, any,
}
use inter_claude_connector.Messages.{InboxMessageStatus, InboxMessage}
use inter_claude_connector.Server.{Config, Server, Surroundings}
use inter_claude_connector.Server.Auth.{
  split_space, authenticated_as, is_local_token, peer_of_token,
}
use inter_claude_connector.InboxDb.{has_id}
use inter_claude_connector.Address.{parse_address}
use inter_claude_connector.Dict.{get}
use inter_claude_connector.Mcp.{
  fulfilled, one, sent, resolve_peer, payload_for, send_single, send_message,
}
use inter_claude_connector.Mcp.Network.{peer_api, network}
use inter_claude_connector.Inbox.Operations.{InboxPushInput}
use inter_claude_connector.Mcp.Arrival.{
  check_auth-bearer, handler-inbox_request, arrived, post_message-arrived,
}

resolve_peer-other :
    (config : Config) (host to : String)
    → to ≢ ""
    → (parse_address to).host ≡ some host
    → host ≢ config.identity
    → resolve_peer config none (some to) ≡ fulfilled (some host)
unfolding resolve_peer
resolve_peer-other config host to full at others =
    ground (arith, at, eq_iff to "", eq_iff host config.identity)

module _ (env : Surroundings) (buffer_from : String → List ℕ) where
  -- The peer's answer to the request of `peerAPI`.
  peer_api-arrived :
      (config : Config) (peer url t to : String) (input : InboxPushInput) (s : Server)
      (rows : List InboxMessage)
      → get peer config.remotes ≡ some (url, t)
      → url ≢ ""
      → peer ≡ s.config.identity
      → t ≢ ""
      → split_space t ≡ (t, none)
      → is_local_token buffer_from t s.config.local_token ≡ false
      → peer_of_token buffer_from t s.config.peer_tokens ≡ authenticated_as config.identity
      → input.from ≢ ""
      → (parse_address input.from).host ≡ some config.identity
      → to ≢ ""
      → (parse_address to).host ≡ some s.config.identity
      → s.inbox.db ≡ some rows
      → any (has_id env.message_id) rows ≡ false
      → let (answer, s') = peer_api env buffer_from config peer (record input { to = some to }) s in
        (answer ≡ fulfilled env.message_id)
        × (s'.inbox.db ≡ some (rows ++ arrived env to input ∷ []))
  unfolding peer_api
  peer_api-arrived config peer url t to input s rows known_peer has_url same tn whole not_local
        known full from_peer to_full to_here opened new =
      let who =
        check_auth-bearer env buffer_from t config.identity (record input { to = some to }) s.config
          tn whole not_local known in
      let handled =
        handler-inbox_request env buffer_from t config.identity (record input { to = some to }) s
          who full in
      let (replied, stored) =
        post_message-arrived env config.identity to input s rows full from_peer to_full to_here
          opened new in
      let has_text : (url == "") ≡ false = ground (arith, eq_iff url "") in
      let reached : (peer == s.config.identity) ≡ true =
        ground (arith, eq_iff peer s.config.identity) in
      let token : or_null t ≡ some t = ground (arith, eq_iff t "") in
      rw (known_peer, has_text, reached, token, handled, replied, peer_api) (refl, stored)

  -- A message that is no reply, from a host to an address of another host, arrives, if the
  -- sender's configuration has a URL for that host and a token without a space that the
  -- receiving server takes for the sender's and not for its local one, the receiver's inbox is
  -- open and the identifier that the message gets is new, and neither address is empty: the tool
  -- tells that identifier, and the receiver's rows are those before and, behind them, one unread
  -- message with the sender's full address, the address and the body.
  pub send_message-arrived :
      (config : Config) (full_address uuid body url t to : String)
      (status : Option InboxMessageStatus) (s : Server) (rows : List InboxMessage)
      → get s.config.identity config.remotes ≡ some (url, t)
      → url ≢ ""
      → s.config.identity ≢ ""
      → s.config.identity ≢ config.identity
      → t ≢ ""
      → split_space t ≡ (t, none)
      → is_local_token buffer_from t s.config.local_token ≡ false
      → peer_of_token buffer_from t s.config.peer_tokens ≡ authenticated_as config.identity
      → full_address ≢ ""
      → (parse_address full_address).host ≡ some config.identity
      → to ≢ ""
      → (parse_address to).host ≡ some s.config.identity
      → s.inbox.db ≡ some rows
      → any (has_id env.message_id) rows ≡ false
      → let (result, s') =
          send_message
            (network env buffer_from config)
            config
            full_address
            uuid
            body
            none
            (one to)
            status
            s in
        (result ≡ sent to env.message_id uuid)
        × (s'.inbox.db
            ≡ some (
                rows
                ++ record {
                  id = env.message_id;
                  from = full_address;
                  to = to;
                  timestamp = env.host.to_iso env.now;
                  body = body;
                  reply_to = none;
                  thread_id = some uuid;
                  status = status;
                  meta = none;
                  read = false;
                }
                  ∷ []))
  unfolding send_message send_single network
  send_message-arrived config full_address uuid body url t to status s rows known_peer has_url named
        others tn whole not_local known full from_peer to_full to_here opened new =
      let given : or_null to ≡ some to = ground (arith, eq_iff to "") in
      let listed : (to == "") ≡ false = ground (arith, eq_iff to "") in
      let peer_found : resolve_peer config none (some to) ≡ fulfilled (some s.config.identity) =
        resolve_peer-other config s.config.identity to to_full to_here others in
      let called : or_null s.config.identity ≡ some s.config.identity =
        ground (arith, eq_iff s.config.identity "") in
      let base = payload_for full_address body none status uuid none none in
      let (answered, stored) =
        subst
          (λ o.
            ((peer_api env buffer_from config s.config.identity (record base { to = o }) s).0
              ≡ fulfilled env.message_id)
            × ((peer_api env buffer_from config s.config.identity (record base { to = o })
                  s).1.inbox.db
                ≡ some (rows ++ arrived env to base ∷ [])))
          (sym given)
          (peer_api-arrived config s.config.identity url t to base s rows known_peer has_url refl tn
            whole not_local known full from_peer to_full to_here opened new) in
      rw (listed, peer_found, called, answered, send_single)
        (
          ap
              (λ o.
                sent (or_else o (String.◌++◌ (or_else (or_null s.config.identity) "local") " host"))
                  env.message_id uuid)
              given,
          ap
                (λ o.
                  ((network env buffer_from config).post o
                    (payload_for full_address body none status uuid none (some to)) s).1.inbox.db)
                called
              ∙ stored,
        )
