-- ===== src/Mcp/Multicast.antt =====
-- Messages to several recipients and replies to all: the requests that they make.
use inter_claude_connector.Base.{
  ◌+◌, String, ◌≡◌, ◌≢◌, ◌↔◌, true, not, ◌&&◌, Option, some, List, [], ◌∷◌, ◌++◌, map, arith, ◌==◌,
  eq_iff, eq_refl, truthy, length, append_nil, includes, All,
}
use inter_claude_connector.Messages.{InboxMessageStatus, MessageMeta, InboxMessage}
use inter_claude_connector.Inbox.Operations.{InboxPushInput}
use inter_claude_connector.Server.{Config}
use inter_claude_connector.Mcp.{
  Failure, Outcome, fulfilled, many, multicast, is_error, other_host, thread_or, recipients_meta,
  reply_targets, thread_for, send_message,
}
use inter_claude_connector.Mcp.Sending.{
  Requests, recorder, IsTold, request_for, send_multicast_lem, NoRepeats, reply_targets_lem,
}
use inter_claude_connector.Mcp.Replying.{reply_to_all, respond_to_message}

All-includes :
    (P : String → Type 0) (ss : List String)
    → ((a : String) → includes ss a ≡ true → P a)
    → All P ss
All-includes P [] h = tt
All-includes P (s ∷ ss) h =
    (h s (ground (arith, eq_refl s)), All-includes P ss (λ a k. h a (ground (arith, k))))

module _ (found : String → Outcome (Option InboxMessage)) (listed : Outcome (List InboxMessage))
    (answer : Option String → InboxPushInput → Outcome String) (config : Config)
    (full_address : String) where
  thread_for-recorder :
      (uuid : String) (reply_to : Option String) (w : Requests)
      → (thread_for (recorder found listed answer) config full_address uuid reply_to w).1 ≡ w
  unfolding thread_for
  thread_for-recorder uuid reply_to w = ground arith

  -- A message to two recipients or more, none of them empty, makes one request for each recipient,
  -- in their order, to the server of its host or to the local one, all with one thread and with
  -- the list of all recipients. The result lists, in the same order, each recipient whose request was
  -- answered, with the identifier that the server gave the message, as delivered, and each whose request
  -- failed, with the failure, as not delivered. It is an error exactly when nothing was delivered.
  pub send_message-many :
      (uuid body : String) (reply_to : Option String) (a b : String) (rs : List String)
      (status : Option InboxMessageStatus) (w : Requests)
      → All (λ a. a ≢ "") (a ∷ b ∷ rs)
      → let (result, w') =
          send_message
            (recorder found listed answer)
            config
            full_address
            uuid
            body
            reply_to
            (many (a ∷ b ∷ rs))
            status
            w in
        (thread_id : String) × let request : String → Option String × InboxPushInput = λ to. (
          truthy (other_host config.identity to),
          record {
            from = full_address;
            to = some to;
            body = body;
            reply_to = truthy reply_to;
            thread_id = some thread_id;
            status = status;
            meta = some (recipients_meta (a ∷ b ∷ rs));
          },
        ) in
          (w' ≡ w ++ map request (a ∷ b ∷ rs))
          × (delivered : List (String × String)) × (not_delivered : List (String × Failure))
          × (result ≡ multicast (length (a ∷ b ∷ rs)) delivered not_delivered thread_id)
          × IsTold (λ to. answer (request to).0 (request to).1) (a ∷ b ∷ rs) delivered not_delivered
          × (length delivered + length not_delivered ≡ length (a ∷ b ∷ rs))
          × ((is_error result ≡ true) ↔ (length delivered ≡ 0))
  unfolding send_message
  send_message-many uuid body reply_to a b rs status w h =
      let thread_id =
        (thread_for (recorder found listed answer) config full_address uuid reply_to w).0 in
      let (made, delivered, not_delivered, told, each, counted, none_delivered) =
        send_multicast_lem found listed answer config full_address _ thread_id (a ∷ b ∷ rs) w h in
      rw (thread_for-recorder uuid reply_to w)
        (thread_id, (made, delivered, not_delivered, told, each, counted, none_delivered))

  made-reply_to_all :
      (payload : String → InboxPushInput) (thread_id : String) (targets : List String)
      (w : Requests)
      → All (λ a. a ≢ "") targets
      → (reply_to_all
          (recorder found listed answer)
          config
          full_address
          payload
          thread_id
          targets
          w).1
        ≡ w ++ map (request_for found listed answer config full_address payload) targets
  unfolding reply_to_all
  made-reply_to_all payload thread_id [] w h = append_nil w
  made-reply_to_all payload thread_id (a ∷ targets) w h =
      (send_multicast_lem found listed answer config full_address payload thread_id (a ∷ targets) w
        h).0

  -- A reply to all on a message that is found by its identifier and names at least one
  -- recipient makes one request for each of its sender and recipients that is neither empty nor this
  -- address, with one thread, which is the message's where it has one, and no request twice.
  pub respond_to_message-all :
      (uuid message_id body : String) (status : Option InboxMessageStatus) (w : Requests)
      (m : InboxMessage) (meta : MessageMeta) (r : String) (rs : List String)
      → found message_id ≡ fulfilled (some m)
      → m.meta ≡ some meta
      → meta.recipients ≡ r ∷ rs
      → let (result, w') =
          respond_to_message
            (recorder found listed answer)
            config
            full_address
            uuid
            message_id
            body
            true
            status
            w in
        (targets : List String) × (w'
          ≡ w
            ++ map
                (λ to. (
                  truthy (other_host config.identity to),
                  record {
                    from = full_address;
                    to = some to;
                    body = body;
                    reply_to = some message_id;
                    thread_id = some (thread_or uuid (some m));
                    status = status;
                    meta = some (recipients_meta targets);
                  },
                ))
                targets)
        × NoRepeats targets
        × ((a : String)
            → includes targets a
              ≡ (not (a == "") && not (a == full_address) && includes (m.from ∷ r ∷ rs) a))
  unfolding respond_to_message
  respond_to_message-all uuid message_id body status w m meta r rs there has_meta has_recipients =
      let targets = reply_targets full_address m.from (r ∷ rs) in
      let (once, exactly) = reply_targets_lem full_address m.from (r ∷ rs) in
      let full : All (λ a. a ≢ "") targets =
        All-includes (λ a. a ≢ "") targets
          (λ a there e. absurd (ground (arith, there, exactly a, (eq_iff a "").1 e))) in
      rw (there, has_meta, has_recipients)
        (targets, made-reply_to_all _ _ targets w full, once, exactly)
