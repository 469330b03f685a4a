-- ===== src/Protocol/Ping.antt =====
-- A ping to a server that knows the sender.
use inter_claude_connector.Base.{String, ◌≡◌, refl, ◌≢◌, true, Option, some, arith, eq_iff}
use inter_claude_connector.Json.{Json, str, obj, get_field, set_field}
use inter_claude_connector.Protocol.{
  validate, Stamp, create_ping, create_pong, handle_message, ok, serialize, deserialize,
  receive_message, check_response, send, ping,
}
use inter_claude_connector.Server.{AuthResult}
use inter_claude_connector.Server.Auth.{validate_from}

IsStamp : Stamp → Type 0
IsStamp s = (s.from ≢ "") × (s.id ≢ "") × (s.timestamp ≢ "")

validate-create_ping :
    (s : Stamp)
    → IsStamp s
    → validate (obj (set_field "transport" (str "http") (create_ping s))) ≡ true
unfolding IsStamp validate create_ping set_field get_field
validate-create_ping s (from, id, time) =
    ground (arith, eq_iff s.from "", eq_iff s.id "", eq_iff s.timestamp "")

validate-create_pong :
    (s : Stamp) (reply_to : String) → IsStamp s → validate (obj (create_pong s reply_to)) ≡ true
unfolding IsStamp validate create_pong get_field
validate-create_pong s reply_to (from, id, time) =
    ground (arith, eq_iff s.from "", eq_iff s.id "", eq_iff s.timestamp "")

module _ (stringify : Json → String) (parse : String → Option Json) where
  -- `JSON.parse` gives back what `JSON.stringify` has printed.
  abbrev pub IsParsed : Json → Type 0
  IsParsed v = parse (stringify v) ≡ some v

  received :
      (sender receiver : Stamp) (auth : AuthResult)
      → IsParsed (obj (set_field "transport" (str "http") (create_ping sender)))
      → IsParsed (obj (create_pong receiver sender.id))
      → IsStamp sender
      → IsStamp receiver
      → validate_from auth.identity sender.from ≡ true
      → receive_message stringify parse receiver auth
          (stringify (obj (set_field "transport" (str "http") (create_ping sender))))
        ≡ ok (obj (create_pong receiver sender.id))
  unfolding receive_message serialize handle_message create_ping set_field get_field
  received sender receiver auth p q h k who =
      rw (p, validate-create_ping sender h, who, q, receive_message, handle_message) refl

  checked :
      (s : Stamp) (reply_to : String)
      → IsParsed (obj (create_pong s reply_to))
      → IsStamp s
      → check_response stringify parse (obj (create_pong s reply_to))
        ≡ some (obj (create_pong s reply_to))
  unfolding check_response deserialize serialize create_pong get_field
  checked s reply_to q h = rw (q, validate-create_pong s reply_to h, deserialize) refl

  answered :
      (sender receiver : Stamp) (auth : AuthResult)
      → IsParsed (obj (set_field "transport" (str "http") (create_ping sender)))
      → IsParsed (obj (create_pong receiver sender.id))
      → IsStamp sender
      → IsStamp receiver
      → validate_from auth.identity sender.from ≡ true
      → send stringify parse (receive_message stringify parse receiver auth) (create_ping sender)
        ≡ some (obj (create_pong receiver sender.id))
  unfolding send serialize
  answered sender receiver auth p q h k who =
      rw (p, received sender receiver auth p q h k who, checked receiver sender.id q k, send) refl

  -- A ping to a server that knows the sender as the host of its address is answered by a valid pong,
  -- from the server's address, if the addresses, the identifiers and the times are not empty and the two messages
  -- are parsed as they were printed.
  pub ping-receive_message :
      (sender receiver : Stamp) (auth : AuthResult)
      → IsParsed (obj (set_field "transport" (str "http") (create_ping sender)))
      → IsParsed (obj (create_pong receiver sender.id))
      → sender.from ≢ ""
      → sender.id ≢ ""
      → sender.timestamp ≢ ""
      → receiver.from ≢ ""
      → receiver.id ≢ ""
      → receiver.timestamp ≢ ""
      → validate_from auth.identity sender.from ≡ true
      → ping stringify parse sender (receive_message stringify parse receiver auth)
        ≡ some (true, some receiver.from)
  unfolding ping IsStamp create_pong get_field
  ping-receive_message sender receiver auth p q a b c d e f who =
      rw (answered sender receiver auth p q (a, b, c) (d, e, f) who, ping) refl
