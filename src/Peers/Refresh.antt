-- ===== src/Peers/Refresh.antt =====
-- Which transport `getTransport` of src/peers.ts gives.
use inter_claude_connector.Base.{
  String, ◌≡◌, refl, sym, ap, ◌∙◌, ◌≢◌, ◌⊎◌, inl, inr, Option, none, some, [], ◌∷◌, arith, ◌==◌,
  eq_iff, eq_refl, if◌then◌else◌, Bool-cases, Option-cases, different,
}
use inter_claude_connector.Dict.{Dict, get, set, has}
use inter_claude_connector.Dict.Laws.{get-set}
use inter_claude_connector.Peers.{
  TransportManager, transport_to, PeerRouter, add_peer, add_missing, rebuild, get_transport,
}
use inter_claude_connector.Server.{Config}

abbrev or_configured : Option TransportManager → Option (String × String) → Option TransportManager
or_configured (some tm) remote = some tm
or_configured none none = none
or_configured none (some remote) = some (transport_to remote)

get-add_missing :
    (k : String) (remotes : Dict (String × String)) (peers : PeerRouter)
    → get k (add_missing remotes peers) ≡ or_configured (get k peers) (get k remotes)
unfolding add_missing add_peer get
get-add_missing k [] peers = ground arith
get-add_missing k ((i, remote) ∷ remotes) peers =
    get-add_missing k remotes (if has i peers then peers else set i (transport_to remote) peers)
    ∙ elim (Bool-cases (i == k)) [
      | inl same ↦ ground (
        arith,
        same,
        get-set i k (transport_to remote) peers,
        ap (λ j. get j peers) ((eq_iff i k).0 same),
      )
      | inr different ↦
          ground (arith, different, eq_iff i k, get-set i k (transport_to remote) peers)
    ]

IsRefreshed :
    (peer : String) → Option (String × String) → PeerRouter → TransportManager × PeerRouter → Type 0
IsRefreshed peer remote peers (tm', peers') =
    (get peer peers' ≡ some tm')
    × ((url token : String) → remote ≡ some (url, token) → tm'.base_url ≡ url)
    × ((k : String) → k ≢ peer → get k peers' ≡ get k peers)

rebuild_lem :
    (peer : String) (remote : Option (String × String)) (tm : TransportManager) (peers : PeerRouter)
    → get peer peers ≡ some tm
    → IsRefreshed peer remote peers (rebuild peer remote tm peers)
unfolding IsRefreshed rebuild add_peer
rebuild_lem peer none tm peers there = (there, λ url token h. absurd (ground arith), λ k n. refl)
rebuild_lem peer (some (url, token)) tm peers there = (
  ground (arith, there, get-set peer peer (transport_to (url, token)) peers, eq_refl peer),
  λ url' token' h. ground (arith, eq_iff tm.base_url url),
  λ k n. ground (arith, get-set peer k (transport_to (url, token)) peers, eq_iff peer k),
)

refreshed :
    (disk : Config) (peer : String) (peers : PeerRouter) (tm : TransportManager)
    → get peer peers ≡ some tm
    → get_transport disk peer peers ≡ some (rebuild peer (get peer disk.remotes) tm peers)
unfolding get_transport
refreshed disk peer peers tm there = ground (arith, there)

added :
    (disk : Config) (peer : String) (peers : PeerRouter) (url token : String)
    → get peer peers ≡ none
    → get peer disk.remotes ≡ some (url, token)
    → get_transport disk peer peers
      ≡ some (
          rebuild peer
            (some (url, token))
            (transport_to (url, token))
            (add_missing disk.remotes peers))
unfolding get_transport
added disk peer peers url token missing given =
    ground (arith, missing, given, get-add_missing peer disk.remotes peers)

unknown :
    (disk : Config) (peer : String) (peers : PeerRouter)
    → get peer peers ≡ none
    → get peer disk.remotes ≡ none
    → get_transport disk peer peers ≡ none
unfolding get_transport
unknown disk peer peers missing absent =
    ground (arith, missing, absent, get-add_missing peer disk.remotes peers)

-- A peer that has a transport or is configured on disk gets a transport, which is the router's for it
-- from then on and goes to the URL that the configuration on disk has for it, if there is one, and
-- no other peer loses or changes its transport. Any other peer is an error.
pub get_transport_lem :
    (disk : Config) (peer : String) (peers : PeerRouter)
    → ((get_transport disk peer peers ≡ none)
        × (get peer peers ≡ none)
        × (get peer disk.remotes ≡ none))
      ⊎ ((tm : TransportManager) × (peers' : PeerRouter) × (get_transport disk peer peers
            ≡ some (tm, peers'))
          × (get peer peers' ≡ some tm)
          × ((url token : String) → get peer disk.remotes ≡ some (url, token) → tm.base_url ≡ url)
          × ((k : String) (x : TransportManager)
              → k ≢ peer
              → get k peers ≡ some x
              → get k peers' ≡ some x))
unfolding IsRefreshed
get_transport_lem disk peer peers = elim (Option-cases (get peer peers)) [
  | inr (tm, there) ↦
      let (own, to_url, others) = rebuild_lem peer (get peer disk.remotes) tm peers there in
      inr (
        (rebuild peer (get peer disk.remotes) tm peers).0,
        (rebuild peer (get peer disk.remotes) tm peers).1,
        refreshed disk peer peers tm there,
        own,
        to_url,
        λ k x n h. others k n ∙ h,
      )
  | inl missing ↦ elim (Option-cases (get peer disk.remotes)) [
    | inl absent ↦ inl (unknown disk peer peers missing absent, missing, absent)
    | inr ((url, token), given) ↦
        let peers' = add_missing disk.remotes peers in
        let tm = transport_to (url, token) in
        let there : get peer peers' ≡ some tm =
          get-add_missing peer disk.remotes peers ∙ ground (arith, missing, given) in
        let (own, to_url, others) = rebuild_lem peer (some (url, token)) tm peers' there in
        inr (
          (rebuild peer (some (url, token)) tm peers').0,
          (rebuild peer (some (url, token)) tm peers').1,
          added disk peer peers url token missing given,
          own,
          λ u t h. to_url u t (sym given ∙ h),
          λ k x n h. others k n ∙ get-add_missing k disk.remotes peers ∙ ground (arith, h),
        )
  ]
]

-- A transport whose URL is still the configured one is given as it is, with the token that it was
-- made with, whatever token the configuration on disk has.
pub get_transport-stale :
    (disk : Config) (peer : String) (peers : PeerRouter) (tm : TransportManager) (token : String)
    → get peer peers ≡ some tm
    → get peer disk.remotes ≡ some (tm.base_url, token)
    → get_transport disk peer peers ≡ some (tm, peers)
unfolding rebuild
get_transport-stale disk peer peers tm token there given =
    refreshed disk peer peers tm there ∙ rw given (ground (arith, eq_refl tm.base_url))
