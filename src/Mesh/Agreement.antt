-- ===== src/Mesh/Agreement.antt =====
-- Which tokens the two sides of a connection have after a host has joined.
use inter_claude_connector.Base.{
  ℕ, suc, String, ◌≡◌, refl, sym, ap, ◌∙◌, ◌≢◌, inl, inr, Bool, true, false, ◌||◌, Option, none,
  some, List, [], ◌∷◌, ◌++◌, arith, ◌==◌, eq_iff, eq_refl, if◌then◌else◌, Bool-cases, Option-cases,
  or_else,
}
use inter_claude_connector.Dict.{Dict, get, set, Distinct}
use inter_claude_connector.Server.{Config, MeshUpdate, Server, Surroundings}
use inter_claude_connector.Inbox.Operations.{push}
use inter_claude_connector.Mesh.{
  JoinedPeer, authority_url, set_token, upgrade_remote, introduce, introduce_authority, complete,
  add_joined, add_all, join_config,
}
use inter_claude_connector.Dict.Laws.{get-set}
use inter_claude_connector.Server.Administration.{peer_notice, add_peer, apply_mesh_update}
use inter_claude_connector.Server.Access.{config-wake_all}
use inter_claude_connector.Samples.{new_config}

module _ (reachable : String → Bool) (ca : String) where
  add_all-append :
      (xs ys : List JoinedPeer) (config : Config)
      → add_all reachable ca (xs ++ ys) config
        ≡ add_all reachable ca ys (add_all reachable ca xs config)
  unfolding add_all
  add_all-append [] ys config = refl
  add_all-append (x ∷ xs) ys config =
      add_all-append xs ys
        (if x.identity == ca || reachable x.https_url then add_joined x config else config)

set_token_lem :
    (identity token : String) (remotes : Dict (String × String)) (remote : String × String)
    → get identity remotes ≡ some remote
    → get identity (set_token identity token remotes) ≡ some (remote.0, token)
set_token_lem identity token remotes remote h =
    ground (arith, h, get-set identity identity (remote.0, token) remotes, eq_refl identity)

upgrade_remote_lem :
    (identity : String) (invited_url : Option String) (config : Config)
    → ((upgrade_remote identity invited_url config).peer_tokens ≡ config.peer_tokens)
      × ((remote : String × String)
          → get identity config.remotes ≡ some remote
          → (url : String) × (get identity (upgrade_remote identity invited_url config).remotes
              ≡ some (url, remote.1)))
unfolding upgrade_remote
upgrade_remote_lem identity none config = (refl, λ (u, t) h. (u, h))
upgrade_remote_lem identity (some url) config = (
  refl,
  λ (u, t) h.
      (url, ground (arith, h, get-set identity identity (url, t) config.remotes, eq_refl identity)),
)

joined_one :
    (reachable : String → Bool) (ca : String) (peer : JoinedPeer) (config : Config)
    → peer.identity ≡ ca
    → (get ca (add_all reachable ca (peer ∷ []) config).remotes
        ≡ some (peer.https_url, peer.outbound_token))
      × (get ca (add_all reachable ca (peer ∷ []) config).peer_tokens ≡ some peer.inbound_token)
unfolding add_all add_joined
joined_one reachable ca peer config e = (
  ground (
    arith,
    eq_iff peer.identity ca,
    get-set peer.identity ca (peer.https_url, peer.outbound_token) config.remotes,
  ),
  ground (
    arith,
    eq_iff peer.identity ca,
    get-set peer.identity ca peer.inbound_token config.peer_tokens,
  ),
)

-- The last peer of a reply that is the authority itself decides.
joined_last :
    (reachable : String → Bool) (ca : String) (peers : List JoinedPeer) (peer : JoinedPeer)
    (config : Config)
    → peer.identity ≡ ca
    → (get ca (join_config reachable ca (peers ++ peer ∷ []) config).remotes
        ≡ some (peer.https_url, peer.outbound_token))
      × (get ca (join_config reachable ca (peers ++ peer ∷ []) config).peer_tokens
          ≡ some peer.inbound_token)
unfolding join_config
joined_last reachable ca peers peer config e =
    rw (add_all-append reachable ca peers (peer ∷ []) config)
      (joined_one reachable ca peer (add_all reachable ca peers config) e)

-- After the authority has introduced itself, it accepts exactly the token with which the new host
-- calls it, and calls the new host, where it has a remote for it, with the token that the new host
-- accepts from it.
pub complete-join_config :
    (fresh : ℕ → String) (reachable : String → Bool) (identity port ca_address : String)
    (invited_url : Option String) (config new_config : Config)
    → let (peers, updates, config') =
        complete fresh identity port (some ca_address) invited_url config in
      let joined = join_config reachable config.identity peers new_config in
      (t t' : String) × (url : String) × (get identity config'.peer_tokens ≡ some t)
      × (get config.identity joined.remotes ≡ some (url, t))
      × (get config.identity joined.peer_tokens ≡ some t')
      × ((remote : String × String)
          → get identity config.remotes ≡ some remote
          → (url' : String) × (get identity config'.remotes ≡ some (url', t')))
unfolding complete introduce_authority join_config
complete-join_config fresh reachable identity port ca_address invited_url config new_config =
    let others = introduce fresh identity (or_else invited_url "") 0 config.remotes in
    let (itself, config') =
      introduce_authority fresh identity port (some ca_address) others.draws config in
    let (tokens, remotes) = upgrade_remote_lem identity invited_url config' in
    let (last, back) =
      joined_last reachable config.identity others.peers
        (record {
          identity = config.identity;
          https_url = authority_url ca_address port;
          outbound_token = fresh (suc others.draws);
          inbound_token = fresh others.draws;
        })
        new_config refl in
    (
      fresh (suc others.draws),
      fresh others.draws,
      authority_url ca_address port,
      ap (get identity) tokens
          ∙ get-set identity identity (fresh (suc others.draws)) config.peer_tokens
          ∙ ground (arith, eq_refl identity),
      last,
      back,
      λ remote h.
          remotes (remote.0, fresh others.draws)
            (set_token_lem identity (fresh others.draws) config.remotes remote h),
    )

module _ (fresh : ℕ → String) (reachable : String → Bool) (ca identity invited_url : String) where
  abbrev told_of : (q url : String) (n : ℕ) → JoinedPeer
  told_of q url n = record {
    identity = q;
    https_url = url;
    outbound_token = fresh n;
    inbound_token = fresh (suc n);
  }

  added_other :
      (p q url : String) (n : ℕ) (b : Bool) (config : Config)
      → (q == p) ≡ false
      → let config' = if b then add_joined (told_of q url n) config else config in
        (get p config'.remotes ≡ get p config.remotes)
        × (get p config'.peer_tokens ≡ get p config.peer_tokens)
  unfolding add_joined
  added_other p q url n b config h = (
    ground (arith, h, get-set q p (url, fresh n) config.remotes, eq_iff q p),
    ground (arith, h, get-set q p (fresh (suc n)) config.peer_tokens, eq_iff q p),
  )

  added_same :
      (p q url : String) (n : ℕ) (b : Bool) (config : Config)
      → b ≡ true
      → (q == p) ≡ true
      → let config' = if b then add_joined (told_of q url n) config else config in
        (get p config'.remotes ≡ some (url, fresh n))
        × (get p config'.peer_tokens ≡ some (fresh (suc n)))
  unfolding add_joined
  added_same p q url n b config h same = (
    ground (arith, h, get-set q p (url, fresh n) config.remotes, eq_iff q p),
    ground (arith, h, get-set q p (fresh (suc n)) config.peer_tokens, eq_iff q p),
  )

  -- Hosts that the authority has no remote for do not come up.
  unlisted :
      (p : String) (draws : ℕ) (remotes : Dict (String × String)) (config : Config)
      → get p remotes ≡ none
      → let joined =
          add_all reachable ca (introduce fresh identity invited_url draws remotes).peers config in
        (get p joined.remotes ≡ get p config.remotes)
        × (get p joined.peer_tokens ≡ get p config.peer_tokens)
  unfolding introduce add_all get
  unlisted p draws [] config h = (refl, refl)
  unlisted p draws ((q, (url, t)) ∷ remotes) config h =
      elim (Bool-cases (q == identity || url == "")) [
        | inl skipped ↦ rw (skipped, introduce) (unlisted p draws remotes config (ground arith))
        | inr told ↦
            let b = q == ca || reachable url in
            let config' = if b then add_joined (told_of q url draws) config else config in
            let (r, t) = added_other p q url draws b config (ground (arith, eq_iff q p)) in
            let (r', t') = unlisted p (suc (suc draws)) remotes config' (ground arith) in
            rw (told, introduce) (r' ∙ r, t' ∙ t)
      ]

  -- What a host that the authority has a remote for is told, and what the new host is told of it.
  listed :
      (p : String) (draws : ℕ) (remotes : Dict (String × String)) (config : Config) (u : MeshUpdate)
      → ((url : String) → reachable url ≡ true)
      → Distinct remotes
      → get p (introduce fresh identity invited_url draws remotes).updates ≡ some u
      → let joined =
          add_all reachable ca (introduce fresh identity invited_url draws remotes).peers config in
        (n : ℕ) × (url : String) × (u ≡ record {
          action = "add-peer";
          peer_identity = some identity;
          https_url = some invited_url;
          peer_token = some (fresh (suc n));
          outbound_token = some (fresh n);
        })
        × (get p joined.remotes ≡ some (url, fresh n))
        × (get p joined.peer_tokens ≡ some (fresh (suc n)))
  unfolding introduce add_all get
  listed p draws [] config u all_reachable d h = cc
  listed p draws ((q, (url, t)) ∷ remotes) config u all_reachable (new, d) h =
      elim (Bool-cases (q == identity || url == "")) [
        | inl skipped ↦
            rw (skipped, introduce)
              (listed p draws remotes config u all_reachable d (ground (arith, skipped)))
        | inr told ↦ elim (Bool-cases (q == p)) [
          | inl same ↦
              let e : q ≡ p = (eq_iff q p).0 same in
              let b = q == ca || reachable url in
              let config' = if b then add_joined (told_of q url draws) config else config in
              let (r, t) =
                unlisted p (suc (suc draws)) remotes config'
                  (ap (λ k. get k remotes) (sym e) ∙ new) in
              let (r', t') =
                added_same p q url draws b config (ground (arith, all_reachable url)) same in
              rw (told, introduce) (draws, url, ground (arith, told, same), r ∙ r', t ∙ t')
          | inr other ↦
              let b = q == ca || reachable url in
              let config' = if b then add_joined (told_of q url draws) config else config in
              rw (told, introduce)
                (listed p (suc (suc draws)) remotes config' u all_reachable d
                  (ground (arith, told, other)))
        ]
      ]

add_all-other :
    (reachable : String → Bool) (ca p : String) (peer : JoinedPeer) (config : Config)
    → (peer.identity == p) ≡ false
    → let joined = add_all reachable ca (peer ∷ []) config in
      (get p joined.remotes ≡ get p config.remotes)
      × (get p joined.peer_tokens ≡ get p config.peer_tokens)
unfolding add_all add_joined
add_all-other reachable ca p peer config h = (
  ground (
    arith,
    h,
    get-set peer.identity p (peer.https_url, peer.outbound_token) config.remotes,
    eq_iff peer.identity p,
  ),
  ground (
    arith,
    h,
    get-set peer.identity p peer.inbound_token config.peer_tokens,
    eq_iff peer.identity p,
  ),
)

config-add_peer :
    (env : Surroundings) (ca peer url token outbound : String) (s : Server)
    → ((c : Config) → env.reload (some c) ≡ c)
    → get peer (add_peer env ca peer url token outbound s).1.config.peer_tokens ≡ some token
unfolding add_peer
config-add_peer env ca peer url token outbound s stored =
    let changed : Config = record (s.config) {
      remotes = set peer (url, outbound) s.config.remotes;
      peer_tokens = set peer token s.config.peer_tokens;
    } in
    let s' : Server = record s { config = env.reload (some changed) } in
    let kept : get peer s'.config.peer_tokens ≡ some token =
      ap (λ (c : Config). get peer c.peer_tokens) (stored changed)
      ∙ get-set peer peer token s.config.peer_tokens
      ∙ ground (arith, eq_refl peer) in
    let sent =
      push env.host env.now env.message_id false (peer_notice env ca peer url s'.config.identity)
        s.inbox in
    elim (Option-cases sent) [
      | inl fails ↦ rw (fails, add_peer) kept
      | inr ((m, inbox), succeeds) ↦
          rw (succeeds, add_peer)
            (ap (λ (c : Config). get peer c.peer_tokens)
                (config-wake_all env m s.inbox.subscribers (record s' { inbox = inbox }))
              ∙ kept)
    ]

applied :
    (env : Surroundings) (ca peer url token outbound : String) (s : Server)
    → ((c : Config) → env.reload (some c) ≡ c)
    → peer ≢ ""
    → url ≢ ""
    → token ≢ ""
    → outbound ≢ ""
    → get peer
        (apply_mesh_update env ca
          (record {
            action = "add-peer";
            peer_identity = some peer;
            https_url = some url;
            peer_token = some token;
            outbound_token = some outbound;
          })
          s).1.config.peer_tokens
      ≡ some token
unfolding apply_mesh_update
applied env ca peer url token outbound s stored np nu nt nb = ground (
  arith,
  eq_iff peer "",
  eq_iff url "",
  eq_iff token "",
  eq_iff outbound "",
  config-add_peer env ca peer url token outbound s stored,
)

-- A host of the mesh other than the authority, which is told of the new host, and the new host do
-- not agree on a token: the new host calls it with another token than the one that it accepts, if
-- random tokens differ and are not empty, every host can be reached, and a configuration is read
-- as it was written.
pub complete-add_peer :
    (fresh : ℕ → String) (reachable : String → Bool) (identity port ca_address url p : String)
    (config new_config : Config) (env : Surroundings) (s : Server) (u : MeshUpdate)
    → ((m n : ℕ) → fresh m ≡ fresh n → m ≡ n)
    → ((n : ℕ) → fresh n ≢ "")
    → ((url : String) → reachable url ≡ true)
    → ((c : Config) → env.reload (some c) ≡ c)
    → Distinct config.remotes
    → identity ≢ ""
    → url ≢ ""
    → p ≢ config.identity
    → let (peers, updates, config') =
        complete fresh identity port (some ca_address) (some url) config in
      let joined = join_config reachable config.identity peers new_config in
      let s' = (apply_mesh_update env config.identity u s).1 in
      get p updates ≡ some u
      → (t t' : String) × (url' : String) × (get p joined.remotes ≡ some (url', t))
        × (get identity s'.config.peer_tokens ≡ some t')
        × (t ≢ t')
unfolding complete introduce_authority join_config
complete-add_peer fresh reachable identity port ca_address url p config new_config env s u inj full
      ok stored d ni nu np h =
    let others = introduce fresh identity url 0 config.remotes in
    let (n, url', told, remote, back) =
      listed fresh reachable config.identity identity url p 0 config.remotes new_config u ok d h in
    let itself : JoinedPeer = record {
      identity = config.identity;
      https_url = authority_url ca_address port;
      outbound_token = fresh (suc others.draws);
      inbound_token = fresh others.draws;
    } in
    let (r, b) =
      add_all-other reachable config.identity p itself
        (add_all reachable config.identity others.peers new_config)
        (ground (arith, eq_iff config.identity p)) in
    (
      fresh n,
      fresh (suc n),
      url',
      ap (λ (c : Config). get p c.remotes)
            (add_all-append reachable config.identity others.peers (itself ∷ []) new_config)
          ∙ r
          ∙ remote,
      rw told (
          applied env config.identity identity url (fresh (suc n)) (fresh n) s stored ni nu
            (full (suc n)) (full n)),
      λ e. omega (arith, inj n (suc n) e),
    )
