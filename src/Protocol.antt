-- ===== src/Protocol.antt =====
-- src/protocol.ts, with POST /api/message of src/server.ts, `send` of src/transport/http.ts and `ping` of
-- src/client.ts, which exchange its messages. `stringify` and `parse` are `JSON.stringify` and
-- `JSON.parse`, where none is an exception.
pub mod Ping
mod Tests
use Prim.Native.String
use inter_claude_connector.Base.{
  ℕ, String, Bool, true, false, not, ◌&&◌, ◌||◌, Option, none, some, List, [], ◌∷◌, ◌==◌,
  if◌then◌else◌, truthy, is_some, includes,
}
use inter_claude_connector.Json.{
  Json, null, bool, num, str, arr, obj, Fields, end, field, get_field, set_field,
}
use inter_claude_connector.Server.{AuthResult}
use inter_claude_connector.Server.Auth.{validate_from}

abbrev pub valid_types : List String
valid_types = "error" ∷ "ping" ∷ "pong" ∷ []

abbrev pub protocol_version : String
protocol_version = "1"

-- The value of a field that is a text.
abbrev pub text_of : Option Json → Option String
text_of (some (str s)) = some s
text_of _ = none

abbrev pub text_field : String → Fields → Option String
text_field k fs = text_of (get_field k fs)

-- `typeof value === 'object'` for a value that is truthy.
abbrev pub is_object : Option Json → Bool
is_object (some (obj _)) = true
is_object (some (arr _)) = true
is_object _ = false

-- The truthiness of a value; the number 0 has the text "0".
abbrev pub is_truthy : Option Json → Bool
is_truthy none = false
is_truthy (some null) = false
is_truthy (some (bool b)) = b
is_truthy (some (num n)) = not (n == "0")
is_truthy (some (str s)) = not (s == "")
is_truthy (some _) = true

abbrev pub is_valid_type : Option String → Bool
is_valid_type none = false
is_valid_type (some type) = includes valid_types type

abbrev pub needs_reply_to : Option String → Bool
needs_reply_to none = false
needs_reply_to (some type) = type == "error" || type == "pong"

abbrev pub is_version : Option String → Bool
is_version none = false
is_version (some version) = version == protocol_version

unfoldable pub validate : Json → Bool
unfolding get_field
validate (obj msg) =
    is_version (text_field "version" msg)
    && is_some (truthy (text_field "id" msg))
    && is_valid_type (text_field "type" msg)
    && is_some (truthy (text_field "from" msg))
    && is_some (truthy (text_field "timestamp" msg))
    && is_object (get_field "payload" msg)
    && (not (needs_reply_to (text_field "type" msg)) || is_some (text_field "replyTo" msg))
validate _ = false

-- What `makeMessage` draws: the sender's full address, a random identifier and the time.
pub record Stamp : Type 0 where
  pub from : String
  pub id : String
  pub timestamp : String

-- `makeMessage`, where the fields of `extra` come last.
abbrev pub make_message : Stamp → (type : String) (payload extra : Fields) → Fields
make_message stamp type payload extra = field "version" (str protocol_version) (
    field "id" (str stamp.id) (
      field "type" (str type) (
        field "from" (str stamp.from)
          (field "timestamp" (str stamp.timestamp) (field "payload" (obj payload) extra)))))

unfoldable pub create_ping : Stamp → Fields
create_ping stamp = make_message stamp "ping" end end

unfoldable pub create_pong : Stamp → (reply_to : String) → Fields
create_pong stamp reply_to = make_message stamp "pong" end (field "replyTo" (str reply_to) end)

-- `handleMessage`: any message is answered by a pong.
unfoldable pub handle_message : Stamp → Fields → Fields
unfolding create_pong
handle_message stamp message =
    create_pong stamp (elim (text_field "id" message) [ none ↦ "" | some id ↦ id ])

-- The answer to a request: a status and, below 400, a value.
pub data Answer : Type 0 where
  refused : (status : ℕ) → Answer
  ok : Json → Answer

module _ (stringify : Json → String) (parse : String → Option Json) where
  unfoldable pub serialize : Json → String
  serialize message = stringify message

  unfoldable pub deserialize : String → Option Json
  unfolding validate
  deserialize text = elim (parse text) [
    | none ↦ none
    | some message ↦ if validate message then some message else none
  ]

  abbrev pub reply_fields : Json → Fields
  reply_fields (obj fs) = fs
  reply_fields _ = end

  -- POST /api/message
  unfoldable pub receive_message : Stamp → AuthResult → (body : String) → Answer
  unfolding validate handle_message serialize
  receive_message stamp auth body = elim (parse body) [
    | none ↦ refused 500
    | some message ↦
        if not (validate message)
        then refused 400
        else elim (text_field "from" (reply_fields message)) [
          | none ↦ refused 403
          | some from ↦
              if not (validate_from auth.identity from)
              then refused 403
              else elim (parse (serialize (obj (handle_message stamp (reply_fields message))))) [
                | none ↦ refused 500
                | some response ↦ ok response
              ]
        ]
  ]

  -- What `send` makes of a response: a text is parsed, null has no fields to read, and a value with a
  -- version has to be valid.
  unfoldable pub check_response : Json → Option Json
  unfolding deserialize serialize
  check_response null = none
  check_response (str s) = elim (deserialize s) [ none ↦ none | some m ↦ deserialize (serialize m) ]
  check_response (obj fs) =
      if is_truthy (get_field "version" fs) then deserialize (serialize (obj fs)) else some (obj fs)
  check_response response = some response

  -- `send` of the transport to a server that answers the text with `server`; the transport is noted in
  -- the message. None is a rejection.
  unfoldable pub send : (server : String → Answer) → Fields → Option Json
  unfolding check_response
  send server message =
      elim (parse (serialize (obj (set_field "transport" (str "http") message)))) [
        | none ↦ none
        | some body ↦ elim (server (serialize body)) [
          | refused _ ↦ none
          | ok response ↦ check_response response
        ]
      ]

  -- `ping` of the client: whether the response is a pong, and its sender.
  unfoldable pub ping : Stamp → (server : String → Answer) → Option (Bool × Option String)
  unfolding create_ping send
  ping stamp server = elim (send server (create_ping stamp)) [
    | none ↦ none
    | some response ↦ some (
      (elim (text_field "type" (reply_fields response)) [ none ↦ false | some t ↦ t == "pong" ]),
      text_field "from" (reply_fields response),
    )
  ]
