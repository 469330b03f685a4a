-- ===== src/Mcp/Arrival.antt =====
-- What the server does with the request of `peerAPI` of src/mcp.ts.
use Prim.Native.String
use text.Mathlib.TextLemmas.{nil-append, cons-append}
use inter_claude_connector.Base.{
  ℕ, String, ◌≡◌, refl, ap, ◌∙◌, ◌≢◌, Bool, true, false, ◌&&◌, Option, none, some, List, [], ◌∷◌,
  ◌++◌, arith, ◌==◌, eq_iff, eq_refl, if◌then◌else◌, or_null, any,
}
use inter_claude_connector.Messages.{InboxMessage, has_receipt_type, is_receipt}
use inter_claude_connector.Inbox.Lifecycle.{unsubscribe}
use inter_claude_connector.Server.{Config, AuthResult, posted, Server, Surroundings}
use inter_claude_connector.Server.Auth.{
  split_space, bearer_token, extract_token, is_cons, authenticated_as, validate_from,
  is_local_token, peer_of_token, check_auth,
}
use inter_claude_connector.Server.Handler.{authorized, handler}
use inter_claude_connector.Server.Routes.{endpoint_of}
use inter_claude_connector.Server.Administration.{post_message}
use inter_claude_connector.Server.Posting.{pushed, db-pushed, push_lem}
use inter_claude_connector.Server.Messages.{destination, post_inbox}
use inter_claude_connector.InboxDb.{has_id}
use inter_claude_connector.Address.{parse_address}
use inter_claude_connector.Dict.{Dict}
use inter_claude_connector.Mcp.Network.{inbox_request}
use inter_claude_connector.Server.Watch.{cleanup, wake, wake_all}
use inter_claude_connector.Inbox.Operations.{InboxPushInput, full_message}

split_space-bearer : (t : String) → split_space (String.◌++◌ "Bearer " t) ≡ ("Bearer", some t)
unfolding split_space
split_space-bearer t =
    rw
      (
        cons-append, cons-append, cons-append, cons-append, cons-append, cons-append, cons-append,
        nil-append,
      )
      refl

bearer_token-bearer :
    (t : String)
    → t ≢ ""
    → split_space t ≡ (t, none)
    → bearer_token (String.◌++◌ "Bearer " t) ≡ some t
unfolding bearer_token
bearer_token-bearer t n whole =
    ap
      (λ (p : String × Option String). elim (p.1) [
        | none ↦ none
        | some behind ↦ if p.0 == "Bearer" then or_null (split_space behind).0 else none
      ])
      (split_space-bearer t)
    ∙ ap (λ (p : String × Option String). or_null p.0) whole
    ∙ ground (arith, eq_iff t "")

bearer_ne_nil : (t : String) → String.◌++◌ "Bearer " t ≢ ""
bearer_ne_nil t = rw cons-append cc

extract_token-bearer :
    (t : String) (payload : InboxPushInput)
    → t ≢ ""
    → split_space t ≡ (t, none)
    → extract_token (inbox_request (some t) payload) ≡ some t
unfolding extract_token
extract_token-bearer t payload n whole =
    ground
      (arith, bearer_token-bearer t n whole, bearer_ne_nil t, eq_iff (String.◌++◌ "Bearer " t) "")

module _ (env : Surroundings) where
  db-wake : (id : ℕ) (s : Server) → (wake env id s).inbox.db ≡ s.inbox.db
  unfolding wake cleanup unsubscribe
  db-wake id s = ground arith

  db-wake_all :
      (m : InboxMessage) (ids : List ℕ) (s : Server) → (wake_all env m ids s).inbox.db ≡ s.inbox.db
  unfolding wake_all
  db-wake_all m [] s = refl
  db-wake_all m (id ∷ ids) s =
      db-wake_all m ids (if is_receipt m then s else wake env id s) ∙ ground (arith, db-wake id s)

module _ (env : Surroundings) (buffer_from : String → List ℕ) where
  -- Who a request with a peer's token is from.
  pub check_auth-bearer :
      (t peer : String) (payload : InboxPushInput) (config : Config)
      → t ≢ ""
      → split_space t ≡ (t, none)
      → is_local_token buffer_from t config.local_token ≡ false
      → peer_of_token buffer_from t config.peer_tokens ≡ authenticated_as peer
      → check_auth buffer_from (inbox_request (some t) payload) config ≡ authenticated_as peer
  unfolding check_auth peer_of_token
  check_auth-bearer t peer payload config n whole not_local known =
      ground
        (arith, extract_token-bearer t payload n whole, eq_iff t "", keyed config.peer_tokens known)
    where
      keyed :
          (peers : Dict String)
          → peer_of_token buffer_from t peers ≡ authenticated_as peer
          → is_cons peers ≡ true
      keyed [] h = absurd (ground (arith, ap (λ (a : AuthResult). a.authenticated) h))
      keyed (p ∷ peers) h = refl

  not_mcp : (b : Bool) → (b && false) ≡ false
  not_mcp b = ground arith

  pub handler-inbox_request :
      (t peer : String) (payload : InboxPushInput) (s : Server)
      → check_auth buffer_from (inbox_request (some t) payload) s.config ≡ authenticated_as peer
      → payload.from ≢ ""
      → handler env buffer_from (inbox_request (some t) payload) s
        ≡ post_message env (authenticated_as peer) (some payload) s
  unfolding handler authorized endpoint_of
  handler-inbox_request t peer payload s who full =
      rw (who, handler, not_mcp s.mcp_enabled)
        (ap (λ b. post_message env (authenticated_as peer) b s)
          (ground (arith, eq_iff payload.from "")))

-- The message that a post to `to` becomes.
abbrev pub arrived : Surroundings → (to : String) → InboxPushInput → InboxMessage
arrived env to input =
    full_message env.message_id (env.host.to_iso env.now) (record input { to = some to })

module _ (env : Surroundings) (peer to : String) (input : InboxPushInput) (s : Server)
    (rows : List InboxMessage) where
  post_inbox-arrived :
      input.from ≢ ""
      → (parse_address input.from).host ≡ some peer
      → to ≢ ""
      → (parse_address to).host ≡ some s.config.identity
      → s.inbox.db ≡ some rows
      → any (has_id env.message_id) rows ≡ false
      → post_inbox env.host s.config env.now env.message_id
          (authenticated_as peer)
          (some (record input { to = some to }))
          s.inbox
        ≡ (
          posted env.message_id input.thread_id input.status,
          pushed env.host env.now env.message_id
              (has_receipt_type input.meta)
              (record input { to = some to })
              s.inbox
              rows,
        )
  unfolding post_inbox destination validate_from
  post_inbox-arrived full from_peer to_full to_here opened new = ground (
    arith,
    from_peer,
    to_here,
    eq_iff input.from "",
    eq_iff to "",
    eq_refl peer,
    eq_refl s.config.identity,
    push_lem env.host env.now env.message_id (has_receipt_type input.meta)
        (record input { to = some to }) s.inbox rows opened,
    new,
  )

  pub post_message-arrived :
      input.from ≢ ""
      → (parse_address input.from).host ≡ some peer
      → to ≢ ""
      → (parse_address to).host ≡ some s.config.identity
      → s.inbox.db ≡ some rows
      → any (has_id env.message_id) rows ≡ false
      → let (reply, s') =
          post_message env (authenticated_as peer) (some (record input { to = some to })) s in
        (reply ≡ posted env.message_id input.thread_id input.status)
        × (s'.inbox.db ≡ some (rows ++ arrived env to input ∷ []))
  unfolding post_message
  post_message-arrived full from_peer to_full to_here opened new =
      rw (post_inbox-arrived full from_peer to_full to_here opened new) (
        refl,
        db-wake_all env _ s.inbox.subscribers _
            ∙ db-pushed env.host env.now env.message_id (has_receipt_type input.meta)
                (record input { to = some to }) s.inbox rows,
      )
