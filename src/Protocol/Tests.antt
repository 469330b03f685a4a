-- ===== src/Protocol/Tests.antt =====
-- A ping from `mars/app` to the server of `venus`.
use inter_claude_connector.Base.{
  String, ◌≡◌, refl, true, Option, none, some, ◌==◌, if◌then◌else◌, different,
}
use inter_claude_connector.Address.{split_slash, parse_address}
use inter_claude_connector.Json.{Json, str, obj, get_field, set_field}
use inter_claude_connector.Server.Auth.{authenticated_as, validate_from}
use inter_claude_connector.Protocol.{
  validate, Stamp, create_ping, create_pong, serialize, receive_message, send, ping,
}
use inter_claude_connector.Protocol.Ping.{ping-receive_message}

abbrev mars : Stamp
mars = record { from = "mars/app"; id = "i"; timestamp = "1" }

abbrev venus_stamp : Stamp
venus_stamp = record { from = "venus"; id = "j"; timestamp = "2" }

-- Printing and parsing of the two messages.
abbrev print : Json → String
print (obj fs) = (elim (get_field "replyTo" fs) [ none ↦ "ping" | some _ ↦ "pong" ])
print _ = ""

abbrev read : String → Option Json
read text =
    if text == "ping"
    then some (obj (set_field "transport" (str "http") (create_ping mars)))
    else if text == "pong"
    then some (obj (create_pong venus_stamp "i"))
    else none

ping-receive_message_example :
    ping print read mars (receive_message print read venus_stamp (authenticated_as "mars"))
    ≡ some (true, some "venus")
unfolding get_field set_field create_ping create_pong validate_from split_slash parse_address
ping-receive_message_example =
    ping-receive_message print read mars venus_stamp (authenticated_as "mars") refl refl
      (different _ _ refl) (different _ _ refl) (different _ _ refl) (different _ _ refl)
      (different _ _ refl) (different _ _ refl) refl

spoofed_check :
    ping print read mars (receive_message print read venus_stamp (authenticated_as "earth")) ≡ none
unfolding ping send receive_message serialize validate validate_from create_ping set_field get_field
    split_slash parse_address
spoofed_check = refl
