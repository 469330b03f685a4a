-- ===== src/Server/Administration.antt =====
-- The endpoints of src/server.ts that write the registry, post a message or change the
-- configuration.
use Prim.Native.String
use inter_claude_connector.Base.{
  ℕ, String, Bool, true, false, not, Option, none, some, map, ◌==◌, if◌then◌else◌, truthy, is_text,
  length,
}
use inter_claude_connector.Dict.{Dict, get, set}
use inter_claude_connector.Messages.{fyi_only}
use inter_claude_connector.Address.{build_address}
use inter_claude_connector.Inbox.Operations.{InboxPushInput, full_message, push}
use inter_claude_connector.Registry.{RegistryEntry}
use inter_claude_connector.Registry.Legacy.{register, list, deregister}
use inter_claude_connector.Server.{
  AuthResult, MeshUpdate, Body, Reply, refused, done, posted, peer_added, registry_entries, entry,
  flag, startup_status, Server, Surroundings,
}
use inter_claude_connector.Server.Messages.{post_inbox, real_unread}
use inter_claude_connector.Server.Watch.{wake_all}

abbrev pub is_posted : Reply → Bool
is_posted (posted _ _ _) = true
is_posted _ = false

module _ (env : Surroundings) where
  -- GET /api/registry
  unfoldable pub list_registry : Server → Reply × Server
  list_registry s =
      let (found, registry) = list env.processes s.registry in
      (
        registry_entries (
            map
              (λ (e : RegistryEntry).
                if e.address == ""
                then record e { address = build_address s.config.identity (some e.instance_name) }
                else e)
              found),
        record s { registry = registry },
      )

  -- POST /api/registry
  unfoldable pub post_registry : Option Body → Server → Reply × Server
  post_registry none s = (refused 400, s)
  post_registry (some body) s = elim body.registry_post [
    | none ↦ (refused 400, s)
    | some (name, pid) ↦
        elim (register env.now name pid (build_address s.config.identity (some name)) s.registry) [
          | none ↦ (refused 400, s)
          | some (e, registry) ↦ (entry e, record s { registry = registry })
        ]
  ]

  -- DELETE /api/registry/:instance
  unfoldable pub delete_registry : (name : String) (query : Dict String) → Server → Reply × Server
  delete_registry name query s =
      let pid : Option ℕ = elim (truthy (get "pid" query)) [
        | none ↦ none
        | some p ↦ some (env.parse_int p)
      ] in
      let (removed, registry) = deregister env.processes name pid s.registry in
      if name == "" then (refused 400, s) else (flag removed, record s { registry = registry })

  -- POST /api/inbox, with the calls of the subscribers of `push`, which look at the message's
  -- kind alone.
  unfoldable pub post_message : AuthResult → Option InboxPushInput → Server → Reply × Server
  post_message auth none s = (refused 400, s)
  post_message auth (some input) s =
      let (reply, inbox) =
        post_inbox env.host s.config env.now env.message_id auth (some input) s.inbox in
      let s' = record s { inbox = inbox } in
      let m = full_message env.message_id (env.host.to_iso env.now) input in
      (reply, if is_posted reply then wake_all env m s.inbox.subscribers s' else s')

  -- The notice that `add-peer` pushes.
  abbrev pub peer_notice : (ca peer https_url identity : String) → InboxPushInput
  peer_notice ca peer https_url identity = record {
    from = String.◌++◌ ca "/ca";
    to = some identity;
    body =
        String.◌++◌ "[TOPIC: mesh] New peer \""
          (String.◌++◌ peer (String.◌++◌ "\" added by CA at " https_url));
    reply_to = none;
    thread_id = none;
    status = some fyi_only;
    meta = none;
  }

  -- The action `add-peer`: the configuration is changed before the notice is pushed.
  unfoldable pub add_peer :
      (ca peer https_url peer_token outbound_token : String) → Server → Reply × Server
  add_peer ca peer https_url peer_token outbound_token s =
      let config = s.config in
      let changed = record config {
        remotes = set peer (https_url, outbound_token) config.remotes;
        peer_tokens = set peer peer_token config.peer_tokens;
      } in
      let s' = record s { config = env.reload (some changed) } in
      let notice = peer_notice ca peer https_url s'.config.identity in
      elim (push env.host env.now env.message_id false notice s.inbox) [
        | none ↦ (refused 400, s')
        | some (m, inbox) ↦
            (peer_added peer, wake_all env m s.inbox.subscribers (record s' { inbox = inbox }))
      ]

  unfoldable pub apply_mesh_update : (ca : String) → MeshUpdate → Server → Reply × Server
  apply_mesh_update ca u s =
      if not (u.action == "add-peer") then (refused 400, s) else elim (truthy u.peer_identity) [
        | none ↦ (refused 400, s)
        | some peer ↦ elim (truthy u.https_url) [
          | none ↦ (refused 400, s)
          | some url ↦ elim (truthy u.peer_token) [
            | none ↦ (refused 400, s)
            | some token ↦ elim (truthy u.outbound_token) [
              | none ↦ (refused 400, s)
              | some outbound ↦ add_peer ca peer url token outbound s
            ]
          ]
        ]
      ]

  -- POST /api/mesh-update
  unfoldable pub mesh_update : AuthResult → Option Body → Server → Reply × Server
  mesh_update auth body s = elim (truthy s.config.ca) [
    | none ↦ (refused 403, s)
    | some ca ↦
        if not (is_text auth.identity ca)
        then (refused 403, s)
        else elim body [ none ↦ (refused 400, s) | some b ↦ apply_mesh_update ca b.peer_update s ]
  ]

  -- POST /api/reload-config
  unfoldable pub reload_from_disk : AuthResult → Server → Reply × Server
  reload_from_disk auth s =
      if is_text auth.identity "_local"
      then (done, record s { config = env.reload none })
      else (refused 403, s)

  -- POST /api/hook/startup
  unfoldable pub startup : Option Body → Server → Reply
  startup none s = refused 400
  startup (some body) s = elim (truthy body.instance_name) [
    | none ↦ refused 400
    | some _ ↦ startup_status (length (real_unread env.host s.inbox))
  ]
