-- ===== src/Peers.antt =====
-- src/peers.ts and `_resolvePeer` of src/client.ts: the transports of a host to its peers. The
-- configuration on disk is an argument where the source reads it again.
pub mod Refresh
use inter_claude_connector.Base.{
  String, not, Option, none, some, List, [], ◌∷◌, ◌==◌, if◌then◌else◌, or_null, truthy, is_text,
}
use inter_claude_connector.Dict.{Dict, get, set, has, keys}
use inter_claude_connector.Address.{parse_address}
use inter_claude_connector.Server.{Config}

-- `TransportManager`, for a peer's URL and token; the empty URL is an absent one.
pub record TransportManager : Type 0 where
  pub base_url : String
  pub auth_token : Option String

abbrev pub transport_to : String × String → TransportManager
transport_to (url, token) = record { base_url = url; auth_token = or_null token }

-- `_peers`
abbrev pub PeerRouter : Type 0
PeerRouter = Dict TransportManager

unfoldable pub add_peer : (identity : String) → String × String → PeerRouter → PeerRouter
add_peer identity remote peers = set identity (transport_to remote) peers

-- The loop of the constructor.
unfoldable pub initialize : Dict (String × String) → PeerRouter → PeerRouter
unfolding add_peer
initialize [] peers = peers
initialize ((identity, remote) ∷ remotes) peers =
    initialize remotes (add_peer identity remote peers)

-- The loop of `getTransport`: the peers that are not there yet.
unfoldable pub add_missing : Dict (String × String) → PeerRouter → PeerRouter
unfolding add_peer
add_missing [] peers = peers
add_missing ((identity, remote) ∷ remotes) peers =
    add_missing remotes (if has identity peers then peers else add_peer identity remote peers)

-- The end of `getTransport`: a transport to another URL than the configured one is made again.
unfoldable pub rebuild :
    (peer : String) (peer_config : Option (String × String))
    → TransportManager
    → PeerRouter
    → TransportManager × PeerRouter
unfolding add_peer
rebuild peer none tm peers = (tm, peers)
rebuild peer (some (url, token)) tm peers =
    if not (tm.base_url == url)
    then (transport_to (url, token), add_peer peer (url, token) peers)
    else (tm, peers)

-- `getTransport`, where the configuration on disk is `disk`; none is an exception.
unfoldable pub get_transport :
    (disk : Config) (peer : String) → PeerRouter → Option (TransportManager × PeerRouter)
unfolding add_missing rebuild
get_transport disk peer peers = elim (get peer peers) [
  | some tm ↦ some (rebuild peer (get peer disk.remotes) tm peers)
  | none ↦
      let peers' = add_missing disk.remotes peers in
      elim (get peer peers') [
        | none ↦ none
        | some tm ↦ some (rebuild peer (get peer disk.remotes) tm peers')
      ]
]

-- `resolveTarget`: none is local.
unfoldable pub resolve_target : Config → (to_address : String) → Option String
resolve_target config to_address =
    if to_address == ""
    then none
    else if is_text (parse_address to_address).host config.identity
    then none
    else (parse_address to_address).host

abbrev pub list_peers : PeerRouter → List String
list_peers peers = keys peers

unfoldable pub get_default_peer : PeerRouter → Option String
get_default_peer peers = elim (list_peers peers) [ p ∷ [] ↦ some p | _ ↦ none ]

-- `_resolvePeer` of src/client.ts; none is an exception.
unfoldable pub resolve_client_peer : (peer : Option String) → PeerRouter → Option String
unfolding get_default_peer
resolve_client_peer peer peers = elim (truthy peer) [
  | some p ↦ some p
  | none ↦ truthy (get_default_peer peers)
]
