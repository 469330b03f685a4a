-- ===== src/Address.antt =====
-- src/address.ts: addresses "host/instance", where a bare host is a broadcast to all its instances.
-- The empty address parses to no host and no instance.
pub mod Laws
mod Tests
use Prim.Native.Char.{code}
use Prim.Native.String
use inter_claude_connector.Base.{
  String, Bool, true, false, not, ◌&&◌, Option, none, some, ◌==◌, nat_eq, if◌then◌else◌, or_null,
  truthy, is_text,
}

-- `ParsedAddress` of src/types.ts; the field `instance`.
pub record ParsedAddress : Type 0 where
  pub host : Option String
  pub instance_name : Option String

-- The text before the first slash and the text behind it, or none where there is no slash:
-- `indexOf('/')` with the two calls of `slice`.
unfoldable pub split_slash : String → Option (String × String)
split_slash String.[] = none
split_slash (String.◌∷◌ c s) =
    let rest = split_slash s in
    if nat_eq (code c) b'/'
    then some ("", s)
    else elim rest [ none ↦ none | some (h, i) ↦ some (String.◌∷◌ c h, i) ]

unfoldable pub parse_address : String → ParsedAddress
unfolding split_slash
parse_address address =
    if address == ""
    then record { host = none; instance_name = none }
    else elim (split_slash address) [
      | none ↦ record { host = some address; instance_name = none }
      | some (h, i) ↦ record { host = some h; instance_name = or_null i }
    ]

-- `instance` is a string or null; null and the empty text are both falsy.
unfoldable pub build_address : String → Option String → String
build_address host name =
    if host == ""
    then ""
    else elim (truthy name) [ none ↦ host | some i ↦ String.◌++◌ host (String.◌++◌ "/" i) ]

-- `a === b` between two values that are a string or null.
abbrev pub same_text : Option String → Option String → Bool
same_text none none = true
same_text (some a) (some b) = a == b
same_text _ _ = false

unfoldable pub address_matches : String → String → String → Bool
address_matches message_to full_address server_identity =
    let msg = parse_address message_to in
    let addr = parse_address full_address in
    if not (same_text msg.host addr.host) && not (is_text msg.host server_identity)
    then false
    else elim (truthy addr.instance_name) [
      | none ↦ true
      | some _ ↦ elim (truthy msg.instance_name) [
        | none ↦ true
        | some _ ↦ same_text msg.instance_name addr.instance_name
      ]
    ]
