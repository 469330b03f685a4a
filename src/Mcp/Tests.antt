-- ===== src/Mcp/Tests.antt =====
-- The message tools of the host `mars`, which has the peers `venus` and `earth`.
use Prim.Native.String
use inter_claude_connector.Base.{
  ℕ, ◌+◌, String, ◌≡◌, refl, ◌↔◌, true, false, not, ◌&&◌, Option, none, some, List, [], ◌∷◌, ◌++◌,
  map, ◌==◌, if◌then◌else◌, truthy, length, filter, different, includes,
}
use inter_claude_connector.Dict.{get}
use inter_claude_connector.Messages.{InboxMessage, has_receipt_type}
use inter_claude_connector.Address.{split_slash, parse_address}
use inter_claude_connector.Inbox.{Inbox}
use inter_claude_connector.Inbox.Operations.{InboxPushInput, get_unread}
use inter_claude_connector.Server.{Config, Server}
use inter_claude_connector.Server.Auth.{
  split_space, safe_token_equals, is_local_token, peer_of_token,
}
use inter_claude_connector.Samples.{new_config, venus, venus_env}
use inter_claude_connector.Mcp.{
  Failure, http_error, Outcome, failed, fulfilled, one, many, sent, multicast, is_error, other_host,
  thread_or, recipients_meta, distinct, reply_targets, send_message,
}
use inter_claude_connector.Mcp.Replying.{respond_to_message}
use inter_claude_connector.Mcp.Network.{network}
use inter_claude_connector.Mcp.Sending.{recorder, IsTold, NoRepeats}
use inter_claude_connector.InboxDb.{update_read, unread_in}
use inter_claude_connector.Server.Messages.{filter_opts}
use inter_claude_connector.Mcp.Unread.{unread_ids}
use inter_claude_connector.Mcp.Checking.{check_messages, check_messages_again}
use inter_claude_connector.Mcp.Delivery.{send_message-arrived}
use inter_claude_connector.Mcp.Multicast.{send_message-many, respond_to_message-all}

abbrev mars_config : Config
mars_config = record (new_config "mars" none) {
  remotes = ("venus", ("http://10.0.0.2", "v")) ∷ ("earth", ("http://10.0.0.1", "e")) ∷ [];
}

abbrev receiver : Server
receiver = record venus {
  config = record (new_config "venus" none) { peer_tokens = ("mars", "v") ∷ [] };
}

abbrev lengths : String → List ℕ
lengths s = String.count s ∷ []

send_message-arrived_example :
    let (result, s') =
      send_message
        (network venus_env lengths mars_config)
        mars_config
        "mars/app"
        "u"
        "hello"
        none
        (one "venus/web")
        none
        receiver in
    (result ≡ sent "venus/web" "i" "u")
    × (s'.inbox.db
        ≡ some (
            []
            ++ record {
              id = "i";
              from = "mars/app";
              to = "venus/web";
              timestamp = "2";
              body = "hello";
              reply_to = none;
              thread_id = some "u";
              status = none;
              meta = none;
              read = false;
            }
              ∷ []))
unfolding get split_space is_local_token peer_of_token safe_token_equals split_slash parse_address
send_message-arrived_example =
    send_message-arrived venus_env lengths mars_config "mars/app" "u" "hello" "http://10.0.0.2" "v"
      "venus/web" none receiver [] refl (different _ _ refl) (different _ _ refl)
      (different _ _ refl) (different _ _ refl) refl refl refl (different _ _ refl) refl
      (different _ _ refl) refl refl refl

abbrev answer : Option String → InboxPushInput → Outcome String
answer none payload = fulfilled "1"
answer (some peer) payload = if peer == "earth" then failed (http_error 403) else fulfilled "2"

abbrev original : InboxMessage
original = record {
  id = "o";
  from = "venus/web";
  to = "mars/app";
  timestamp = "1";
  body = "hello";
  reply_to = none;
  thread_id = some "t";
  status = none;
  meta = some (recipients_meta ("mars/app" ∷ "earth" ∷ "venus/web" ∷ []));
  read = true;
}

targets_check :
    reply_targets "mars/app" "venus/web" ("mars/app" ∷ "earth" ∷ "venus/web" ∷ [])
    ≡ "venus/web" ∷ "earth" ∷ []
unfolding reply_targets distinct
targets_check = refl

respond_to_message-all_example :
    let (result, w') =
      respond_to_message
        (recorder (λ _. fulfilled (some original)) (fulfilled []) answer)
        mars_config
        "mars/app"
        "u"
        "o"
        "yes"
        true
        none
        [] in
    (targets : List String) × (w'
      ≡ []
        ++ map
            (λ to. (
              truthy (other_host "mars" to),
              record {
                from = "mars/app";
                to = some to;
                body = "yes";
                reply_to = some "o";
                thread_id = some (thread_or "u" (some original));
                status = none;
                meta = some (recipients_meta targets);
              },
            ))
            targets)
    × NoRepeats targets
    × ((a : String)
        → includes targets a ≡ (
            not (a == "")
            && not (a == "mars/app")
            && includes ("venus/web" ∷ "mars/app" ∷ "earth" ∷ "venus/web" ∷ []) a))
respond_to_message-all_example =
    respond_to_message-all (λ _. fulfilled (some original)) (fulfilled []) answer mars_config
      "mars/app" "u" "o" "yes" none [] original
      (recipients_meta ("mars/app" ∷ "earth" ∷ "venus/web" ∷ [])) "mars/app"
      ("earth" ∷ "venus/web" ∷ []) refl refl refl

send_message-many_example :
    let (result, w') =
      send_message
        (recorder (λ _. fulfilled none) (fulfilled []) answer)
        mars_config
        "mars/app"
        "u"
        "hello"
        none
        (many ("venus/web" ∷ "earth" ∷ []))
        none
        [] in
    (thread_id : String) × let request : String → Option String × InboxPushInput = λ to. (
      truthy (other_host "mars" to),
      record {
        from = "mars/app";
        to = some to;
        body = "hello";
        reply_to = none;
        thread_id = some thread_id;
        status = none;
        meta = some (recipients_meta ("venus/web" ∷ "earth" ∷ []));
      },
    ) in
      (w' ≡ [] ++ map request ("venus/web" ∷ "earth" ∷ []))
      × (delivered : List (String × String)) × (not_delivered : List (String × Failure)) × (result
          ≡ multicast 2 delivered not_delivered thread_id)
      × IsTold
          (λ to. answer (request to).0 (request to).1)
          ("venus/web" ∷ "earth" ∷ [])
          delivered
          not_delivered
      × (length delivered + length not_delivered ≡ 2)
      × ((is_error result ≡ true) ↔ (length delivered ≡ 0))
send_message-many_example =
    send_message-many (λ _. fulfilled none) (fulfilled []) answer mars_config "mars/app" "u" "hello"
      none "venus/web" "earth" [] none [] (different _ _ refl, (different _ _ refl, tt))

abbrev filled : Inbox
filled = record (venus.inbox) { db = some (record original { read = false } ∷ []) }

check_messages_again_example :
    let (told, s') =
      check_messages venus_env.host mars_config "mars/app" false (some "app") none filled in
    let unread =
      get_unread venus_env.host none
        (filter_opts venus_env.host mars_config (truthy (some "app")))
        filled in
    (told
      ≡ some (
        filter (λ m. not (has_receipt_type m.meta)) unread,
        filter (λ m. has_receipt_type m.meta) unread,
      ))
    × (s'.db
        ≡ some
            (update_read (unread_in (unread_ids unread)) (record original { read = false } ∷ [])))
    × ((check_messages venus_env.host mars_config "mars/app" false (some "app") none s').0
        ≡ some ([], []))
check_messages_again_example =
    check_messages_again venus_env.host mars_config "mars/app" (some "app") filled
      (record original { read = false } ∷ []) refl
