-- ===== src/Mesh/Tests.antt =====
-- The new host `pluto` joins the mesh of the authority `earth` and the host `venus`.
use Prim.Native.String
use text.Mathlib.TextLemmas.{length-nil, length-cons}
use inter_claude_connector.Base.{
  ℕ, zero, suc, String, ◌≡◌, refl, ap, ◌≢◌, true, none, some, [], ◌∷◌, arith, different,
}
use inter_claude_connector.Dict.{get, Distinct}
use inter_claude_connector.Server.{Config, MeshUpdate}
use inter_claude_connector.Server.Administration.{apply_mesh_update}
use inter_claude_connector.Samples.{new_config, venus, venus_env}
use inter_claude_connector.Mesh.{introduce, complete, join_config}
use inter_claude_connector.Mesh.Agreement.{complete-join_config, complete-add_peer}

unfoldable fresh : ℕ → String
fresh zero = "t"
fresh (suc n) = String.◌∷◌ "t" (fresh n)

count-fresh : (n : ℕ) → String.count (fresh n) ≡ suc n
unfolding fresh
count-fresh zero = refl
count-fresh (suc n) = omega (arith, length-cons "t" (fresh n), count-fresh n)

fresh_injective : (m n : ℕ) → fresh m ≡ fresh n → m ≡ n
fresh_injective m n e = omega (arith, ap String.count e, count-fresh m, count-fresh n)

fresh_ne_nil : (n : ℕ) → fresh n ≢ ""
fresh_ne_nil n e = absurd (omega (arith, ap String.count e, count-fresh n, length-nil))

abbrev earth_config : Config
earth_config = record {
  identity = "earth";
  local_token = some "e";
  peer_tokens = [];
  ca = none;
  remotes = ("venus", ("https://10.0.0.2", "v")) ∷ ("pluto", ("http://10.0.0.3", "")) ∷ [];
}

complete-join_config_example :
    let (peers, updates, config') =
      complete fresh "pluto" "3179" (some "10.0.0.1") none earth_config in
    let joined = join_config (λ _. true) "earth" peers (new_config "pluto" none) in
    (t t' : String) × (url : String) × (get "pluto" config'.peer_tokens ≡ some t)
    × (get "earth" joined.remotes ≡ some (url, t))
    × (get "earth" joined.peer_tokens ≡ some t')
    × ((remote : String × String)
        → get "pluto" earth_config.remotes ≡ some remote
        → (url' : String) × (get "pluto" config'.remotes ≡ some (url', t')))
complete-join_config_example =
    complete-join_config fresh (λ _. true) "pluto" "3179" "10.0.0.1" none earth_config
      (new_config "pluto" none)

earth-Distinct : Distinct earth_config.remotes
unfolding get
earth-Distinct = (refl, (refl, tt))

abbrev venus_update : MeshUpdate
venus_update = record {
  action = "add-peer";
  peer_identity = some "pluto";
  https_url = some "https://10.0.0.3:3179";
  peer_token = some (fresh 1);
  outbound_token = some (fresh 0);
}

venus_told :
    get "venus"
      (complete fresh "pluto" "3179"
        (some "10.0.0.1")
        (some "https://10.0.0.3:3179")
        earth_config).1
    ≡ some venus_update
unfolding complete introduce get
venus_told = refl

complete-add_peer_example :
    let (peers, updates, config') =
      complete fresh "pluto" "3179" (some "10.0.0.1") (some "https://10.0.0.3:3179") earth_config in
    let joined = join_config (λ _. true) "earth" peers (new_config "pluto" none) in
    let s' = (apply_mesh_update venus_env "earth" venus_update venus).1 in
    (t t' : String) × (url : String) × (get "venus" joined.remotes ≡ some (url, t))
    × (get "pluto" s'.config.peer_tokens ≡ some t')
    × (t ≢ t')
complete-add_peer_example =
    complete-add_peer fresh (λ _. true) "pluto" "3179" "10.0.0.1" "https://10.0.0.3:3179" "venus"
      earth_config (new_config "pluto" none) venus_env venus venus_update fresh_injective
      fresh_ne_nil (λ _. refl) (λ _. refl) earth-Distinct (different "pluto" "" refl)
      (different "https://10.0.0.3:3179" "" refl) (different "venus" "earth" refl) venus_told
