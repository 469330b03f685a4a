-- ===== src/Server/Auth/Laws.antt =====
-- Which requests `checkAuth` accepts, and as whom.
use inter_claude_connector.Base.{
  ℕ, String, ◌≡◌, refl, ap, ◌≢◌, ◌↔◌, inl, inr, Bool, true, false, not, ◌&&◌, ◌||◌, Option, none,
  some, List, [], ◌∷◌, arith, ◌==◌, eq_iff, if◌then◌else◌, Option-cases, truthy, is_text, any,
}
use inter_claude_connector.Server.Auth.{
  same_bytes, extract_token, has_any_token, authenticated_as, validate_from, safe_token_equals,
  is_local_token, peer_of_token, check_auth,
}
use inter_claude_connector.Dict.{Dict}
use inter_claude_connector.Server.{Config, Request}
use inter_claude_connector.Address.{parse_address}

same_bytes-equal : (xs ys : List ℕ) → same_bytes xs ys ≡ true → xs ≡ ys
same_bytes-equal [] [] h = refl
same_bytes-equal [] (y ∷ ys) h = cc
same_bytes-equal (x ∷ xs) [] h = cc
same_bytes-equal (x ∷ xs) (y ∷ ys) h =
    let e : x ≡ y = ground arith in
    let r : xs ≡ ys = same_bytes-equal xs ys (ground arith) in rw (e, r)

same_bytes_refl : (xs : List ℕ) → same_bytes xs xs ≡ true
same_bytes_refl [] = refl
same_bytes_refl (x ∷ xs) = ground (arith, same_bytes_refl xs)

module _ (buffer_from : String → List ℕ)
    (injective : (a b : String) → buffer_from a ≡ buffer_from b → a ≡ b) where
  pub safe_token_equals_iff : (a b : String) → (safe_token_equals buffer_from a b ≡ true) ↔ (a ≡ b)
  unfolding safe_token_equals
  safe_token_equals_iff a b = (
    λ h. injective a b (same_bytes-equal (buffer_from a) (buffer_from b) (ground arith)),
    λ e. rw e (ground (arith, same_bytes_refl (buffer_from b))),
  )

  -- The configuration gives the token to the peer.
  abbrev pub is_token_of : (peer token : String) → Dict String → Bool
  is_token_of peer token peers = any (λ e. e.0 == peer && e.1 == token) peers

  -- The token is the local one or a peer's.
  abbrev pub is_known_token : String → Config → Bool
  is_known_token token config =
      not (token == "")
      && (is_text config.local_token token || any (λ e. e.1 == token) config.peer_tokens)

  peer_of_token-is_token_of :
      (peer token : String) (peers : Dict String)
      → peer_of_token buffer_from token peers ≡ authenticated_as peer
      → is_token_of peer token peers ≡ true
  unfolding peer_of_token
  peer_of_token-is_token_of peer token [] h = cc
  peer_of_token-is_token_of peer token ((p, t) ∷ peers) h = ground (
    arith,
    peer_of_token-is_token_of peer token peers,
    safe_token_equals_iff token t,
    eq_iff p peer,
    eq_iff t token,
  )

  peer_of_token-refuses :
      (token : String) (peers : Dict String)
      → token ≢ ""
      → (peer_of_token buffer_from token peers).authenticated ≡ any (λ e. e.1 == token) peers
  unfolding peer_of_token
  peer_of_token-refuses token [] h = refl
  peer_of_token-refuses token ((p, t) ∷ peers) h = ground (
    arith,
    peer_of_token-refuses token peers h,
    safe_token_equals_iff token t,
    eq_iff t token,
    eq_iff t "",
  )

  is_local_token_lem :
      (token : String) (local : Option String)
      → token ≢ ""
      → is_local_token buffer_from token local ≡ is_text local token
  unfolding is_local_token
  is_local_token_lem token none h = refl
  is_local_token_lem token (some local) h =
      ground (arith, safe_token_equals_iff token local, eq_iff local "", eq_iff local token)

  -- A request that is authenticated as a peer, which is not named "_local", carries a token that
  -- is not empty and that the configuration gives to that peer.
  pub check_auth-peer :
      (req : Request) (config : Config) (peer : String)
      → check_auth buffer_from req config ≡ authenticated_as peer
      → peer ≢ "_local"
      → (token : String) × (extract_token req ≡ some token)
        × (token ≢ "")
        × (is_token_of peer token config.peer_tokens ≡ true)
  unfolding check_auth
  check_auth-peer req config peer h n = elim (Option-cases (truthy (extract_token req))) [
    | inl missing ↦ absurd (ground arith)
    | inr (token, found) ↦ (
      token,
      ground (arith, eq_iff token ""),
      ground (arith, eq_iff token ""),
      peer_of_token-is_token_of peer token config.peer_tokens (ground arith),
    )
  ]

  -- Once a token is configured, a request is authenticated exactly if it carries a token that is
  -- not empty and is the local one or a peer's; with none configured every request is.
  pub check_auth_lem :
      (req : Request) (config : Config)
      → (check_auth buffer_from req config).authenticated ≡ (
          if has_any_token config
          then elim (extract_token req) [ none ↦ false | some token ↦ is_known_token token config ]
          else true)
  unfolding check_auth
  check_auth_lem req config = elim (Option-cases (extract_token req)) [
    | inl missing ↦ ground arith
    | inr (token, found) ↦ ground (
      arith,
      eq_iff token "",
      is_local_token_lem token config.local_token,
      peer_of_token-refuses token config.peer_tokens,
    )
  ]

is_text-equal : (o : Option String) (s : String) → is_text o s ≡ true → o ≡ some s
is_text-equal none s h = cc
is_text-equal (some t) s h = ap some ((eq_iff t s).0 h)

-- A sender that is accepted for a peer has that peer's name as its host.
pub validate_from-peer :
    (peer from : String)
    → peer ≢ "_local"
    → validate_from (some peer) from ≡ true
    → (parse_address from).host ≡ some peer
unfolding validate_from
validate_from-peer peer from n h =
    is_text-equal (parse_address from).host peer
      (ground (arith, eq_iff peer "_local", eq_iff from ""))
