-- ===== src/Mesh.antt =====
-- How a new host and the hosts of the mesh come to know each other: what POST /enroll/join/complete of
-- src/enroll.ts does to the authority's configuration once the certificate is signed, what it sends
-- to the other hosts, and what `icc join` of bin/icc.ts does with the reply. Random tokens are drawn
-- from `fresh`, by number in the order of the draws.
pub mod Agreement
mod Tests
use Prim.Native.String
use inter_claude_connector.Base.{
  ℕ, suc, String, Bool, ◌||◌, Option, none, some, List, [], ◌∷◌, ◌++◌, ◌==◌, if◌then◌else◌, or_else,
}
use inter_claude_connector.Dict.{Dict, get, set}
use inter_claude_connector.Server.{Config, MeshUpdate}

-- What the reply says of one host of the mesh.
pub record JoinedPeer : Type 0 where
  pub identity : String
  pub https_url : String
  pub outbound_token : String
  pub inbound_token : String

-- The reply's peers and the mesh updates that are sent, each with its addressee; `draws` is the number
-- of tokens drawn.
pub record Introductions : Type 0 where
  pub peers : List JoinedPeer
  pub updates : List (String × MeshUpdate)
  pub draws : ℕ

-- The URL of the authority for the new host, `port` being the port of the authority's server.
abbrev pub authority_url : (ca_address port : String) → String
authority_url ca_address port =
    String.◌++◌ "https://" (String.◌++◌ ca_address (String.◌++◌ ":" port))

-- The token of a remote is replaced, if there is such a remote.
abbrev pub set_token : (identity token : String) → Dict (String × String) → Dict (String × String)
set_token identity token remotes = elim (get identity remotes) [
  | none ↦ remotes
  | some remote ↦ set identity (remote.0, token) remotes
]

abbrev pub set_url : (identity url : String) → Dict (String × String) → Dict (String × String)
set_url identity url remotes = elim (get identity remotes) [
  | none ↦ remotes
  | some remote ↦ set identity (url, remote.1) remotes
]

-- The last step on the configuration: with an invitation the remote gets its https URL.
unfoldable pub upgrade_remote : (identity : String) (invited_url : Option String) → Config → Config
upgrade_remote identity none config = config
upgrade_remote identity (some url) config = record config {
  remotes = set_url identity url config.remotes;
}

module _ (fresh : ℕ → String) where
  -- The loop over `config.remotes`. `invited_url` is the https URL of the invitation, or empty.
  unfoldable pub introduce :
      (identity invited_url : String) (draws : ℕ) → Dict (String × String) → Introductions
  introduce identity invited_url draws [] = record { peers = []; updates = []; draws = draws }
  introduce identity invited_url draws ((peer, (url, token)) ∷ remotes) =
      let skipped = introduce identity invited_url draws remotes in
      let rest = introduce identity invited_url (suc (suc draws)) remotes in
      let token_for_new_host = fresh draws in
      let token_from_new_host = fresh (suc draws) in
      if peer == identity || url == "" then skipped else record {
        peers =
            record {
              identity = peer;
              https_url = url;
              outbound_token = token_for_new_host;
              inbound_token = token_from_new_host;
            }
            ∷ rest.peers;
        updates =
            (
              peer,
              record {
                action = "add-peer";
                peer_identity = some identity;
                https_url = some invited_url;
                peer_token = some token_from_new_host;
                outbound_token = some token_for_new_host;
              },
            )
            ∷ rest.updates;
        draws = rest.draws;
      }

  -- The authority introduces itself: `ca_address` is the address that the enrollment has, and none
  -- leaves the configuration as it is.
  unfoldable pub introduce_authority :
      (identity port : String) (ca_address : Option String) (draws : ℕ)
      → Config
      → List JoinedPeer × Config
  introduce_authority identity port none draws config = ([], config)
  introduce_authority identity port (some ca_address) draws config =
      let ca_outbound = fresh draws in
      let ca_inbound = fresh (suc draws) in
      (
        record {
          identity = config.identity;
          https_url = authority_url ca_address port;
          outbound_token = ca_inbound;
          inbound_token = ca_outbound;
        }
            ∷ [],
        record config {
          peer_tokens = set identity ca_inbound config.peer_tokens;
          remotes = set_token identity ca_outbound config.remotes;
        },
      )

  -- What the authority does when a certificate has been signed: the peers of the reply, the updates
  -- sent, and the configuration that `writeConfig` is given. `invited_url` is none without an
  -- invitation.
  unfoldable pub complete :
      (identity port : String) (ca_address invited_url : Option String)
      → Config
      → List JoinedPeer × List (String × MeshUpdate) × Config
  unfolding introduce introduce_authority upgrade_remote
  complete identity port ca_address invited_url config =
      let others = introduce identity (or_else invited_url "") 0 config.remotes in
      let (itself, config') = introduce_authority identity port ca_address others.draws config in
      (others.peers ++ itself, others.updates, upgrade_remote identity invited_url config')

-- `icc join`: one peer of the reply goes into the configuration of the new host.
unfoldable pub add_joined : JoinedPeer → Config → Config
add_joined peer config = record config {
  remotes = set peer.identity (peer.https_url, peer.outbound_token) config.remotes;
  peer_tokens = set peer.identity peer.inbound_token config.peer_tokens;
}

-- The loop over the peers of the reply; a host other than the authority has to answer.
unfoldable pub add_all :
    (reachable : String → Bool) (ca : String) → List JoinedPeer → Config → Config
unfolding add_joined
add_all reachable ca [] config = config
add_all reachable ca (peer ∷ peers) config =
    let wanted = peer.identity == ca || reachable peer.https_url in
    add_all reachable ca peers (if wanted then add_joined peer config else config)

unfoldable pub join_config :
    (reachable : String → Bool) (ca : String) → List JoinedPeer → Config → Config
unfolding add_all
join_config reachable ca peers config = record (add_all reachable ca peers config) { ca = some ca }
