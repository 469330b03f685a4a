-- ===== src/Server/Watch.antt =====
-- The long polls of src/server.ts: GET /api/watch, what a message, a closed connection and
-- POST /api/hook/snooze do to the responses that wait, and the other session hooks.
use inter_claude_connector.Base.{
  ℕ, String, Option, none, some, List, [], ◌∷◌, ◌++◌, ltb, if◌then◌else◌, truthy, or_else, length,
}
use inter_claude_connector.Dict.{Dict, get, set, delete, has}
use inter_claude_connector.Messages.{InboxMessage, is_receipt}
use inter_claude_connector.Inbox.Lifecycle.{subscribe, unsubscribe}
use inter_claude_connector.Registry.{update}
use inter_claude_connector.Registry.Sessions.{
  session_register, on_watcher_disconnect, session_heartbeat, session_deregister, session_snooze,
  session_reconnect,
}
use inter_claude_connector.Server.{
  Body, Reply, refused, pending, flag, session, mail, duplicate, snoozed, stale_token, Server,
  Surroundings,
}
use inter_claude_connector.Server.Messages.{real_unread}

module _ (env : Surroundings) where
  -- `cleanup` of the response `id`, which has captured `token`.
  unfoldable pub cleanup : (id : ℕ) (token : Option String) → Server → Server
  cleanup id token s = elim (truthy token) [
    | none ↦ record s { inbox = unsubscribe id s.inbox }
    | some t ↦ record s {
      watchers = delete t s.watchers;
      registry = on_watcher_disconnect env.processes.is_alive env.now t s.registry;
      inbox = unsubscribe id s.inbox;
    }
  ]

  -- What the subscriber of the response `id` does with a message that is no receipt. A subscriber
  -- that is no long poll is a stream of events, which stays.
  unfoldable pub wake : (id : ℕ) → Server → Server
  wake id s = elim (s.waits id) [
    | none ↦ s
    | some token ↦ let s' = cleanup id token s in record s' { sent = s'.sent ++ (id, mail 1) ∷ [] }
  ]

  -- The calls of the subscribers `ids` for a message.
  unfoldable pub wake_all : InboxMessage → List ℕ → Server → Server
  wake_all m [] s = s
  wake_all m (id ∷ ids) s = wake_all m ids (if is_receipt m then s else wake id s)

  -- The end of GET /api/watch: the response `env.response` waits.
  unfoldable pub start_waiting : (token : Option String) → Server → Reply × Server
  start_waiting token s = (
    pending,
    record s {
      inbox = subscribe env.response s.inbox;
      waits = update s.waits env.response (some token);
    },
  )

  -- GET /api/watch behind the reservation of the slot.
  unfoldable pub answer_or_wait : (token : Option String) → Server → Reply × Server
  answer_or_wait token s =
      let unread = length (real_unread env.host s.inbox) in
      if ltb 0 unread
      then (
        mail unread,
        elim (truthy token) [ none ↦ s | some t ↦ record s { watchers = delete t s.watchers } ],
      )
      else start_waiting token s

  unfoldable pub reserve : (token : String) → Server → Option Server
  reserve token s =
      let (known, registry) = session_reconnect env.now token s.registry in
      if known
      then some (record s { registry = registry; watchers = set token env.response s.watchers })
      else none

  unfoldable pub watch : (query : Dict String) → Server → Reply × Server
  watch query s = elim (truthy (get "instance" query)) [
    | none ↦ (refused 400, s)
    | some _ ↦ elim (truthy (get "sessionToken" query)) [
      | none ↦ answer_or_wait (get "sessionToken" query) s
      | some token ↦ if has token s.watchers then (duplicate, s) else elim (reserve token s) [
        | none ↦ (stale_token, s)
        | some s' ↦ answer_or_wait (some token) s'
      ]
    ]
  ]

  -- The `close` event of the request of a response: the handler stays when the reply is sent.
  unfoldable pub close : (id : ℕ) → Server → Server
  close id s = elim (s.waits id) [ none ↦ s | some token ↦ cleanup id token s ]

  -- POST /api/hook/snooze. What `sendJSON` writes to the watcher goes out after the session is
  -- gone.
  unfoldable pub hook_snooze : Option Body → Server → Reply × Server
  hook_snooze none s = (refused 400, s)
  hook_snooze (some body) s = elim (truthy body.session_token) [
    | none ↦ (refused 400, s)
    | some token ↦
        let (ok, registry) = session_snooze token s.registry in
        let s' = record s { registry = registry } in
        elim (get token s.watchers) [
          | none ↦ (flag ok, s')
          | some id ↦ (
            flag ok,
            record s' { watchers = delete token s.watchers; sent = s.sent ++ (id, snoozed) ∷ [] },
          )
        ]
  ]

  -- POST /api/hook/watch, and POST /api/hook/wake, which has no alternate name.
  unfoldable pub hook_register : (name : Option String) → Option Body → Server → Reply × Server
  hook_register name none s = (refused 400, s)
  hook_register name (some body) s = elim (truthy body.instance_name) [
    | none ↦ (refused 400, s)
    | some instance_name ↦
        let (result, registry) =
          session_register env.now env.fresh_token (or_else (truthy name) instance_name) body.pid
            body.force s.registry in
        (session result, record s { registry = registry })
  ]

  -- POST /api/hook/heartbeat
  unfoldable pub hook_heartbeat : Option Body → Server → Reply × Server
  hook_heartbeat none s = (refused 400, s)
  hook_heartbeat (some body) s = elim (truthy body.session_token) [
    | none ↦ (refused 400, s)
    | some token ↦
        let (ok, registry) = session_heartbeat env.now token s.registry in
        (flag ok, record s { registry = registry })
  ]

  -- POST /api/hook/session-end
  unfoldable pub hook_session_end : Option Body → Server → Reply × Server
  hook_session_end none s = (refused 400, s)
  hook_session_end (some body) s = elim (truthy body.session_token) [
    | none ↦ (refused 400, s)
    | some token ↦
        let (ok, registry) = session_deregister token s.registry in
        (flag ok, record s { registry = registry })
  ]
