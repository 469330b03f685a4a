-- ===== src/Server/Auth.antt =====
-- Who makes a request: `safeTokenEquals`, `extractToken`, `checkAuth` and `validateFrom` of
-- src/server.ts. `Buffer.from` is a parameter; `timingSafeEqual` compares two buffers of one length.
pub mod Laws
use Prim.Native.Char.{code}
use Prim.Native.String
use inter_claude_connector.Base.{
  ℕ, String, Bool, true, false, not, ◌&&◌, ◌||◌, Option, none, some, List, [], ◌∷◌, ◌==◌, nat_eq,
  if◌then◌else◌, or_null, truthy, is_text, is_some, length,
}
use inter_claude_connector.Dict.{Dict, get}
use inter_claude_connector.Address.{parse_address}
use inter_claude_connector.Server.{Config, AuthResult, Request}

abbrev pub same_bytes : List ℕ → List ℕ → Bool
same_bytes [] [] = true
same_bytes (x ∷ xs) (y ∷ ys) = nat_eq x y && same_bytes xs ys
same_bytes _ _ = false

-- The text before the first space, and the text behind it if there is a space.
unfoldable pub split_space : String → String × Option String
split_space String.[] = ("", none)
split_space (String.◌∷◌ c s) =
    let (word, behind) = split_space s in
    if nat_eq (code c) b' ' then ("", some s) else (String.◌∷◌ c word, behind)

-- The token in an `Authorization` header: `const [scheme, token] = header.split(' ')`.
unfoldable pub bearer_token : String → Option String
bearer_token header = elim (split_space header).1 [
  | none ↦ none
  | some behind ↦
      if (split_space header).0 == "Bearer" then or_null (split_space behind).0 else none
]

unfoldable pub extract_token : Request → Option String
unfolding bearer_token
extract_token req = elim (truthy req.authorization) [
  | none ↦ get "token" req.query
  | some header ↦ elim (bearer_token header) [
    | none ↦ get "token" req.query
    | some token ↦ some token
  ]
]

abbrev pub is_cons {ℓ} : {A : Type ℓ} → List A → Bool
is_cons [] = false
is_cons (_ ∷ _) = true

abbrev pub has_any_token : Config → Bool
has_any_token config = is_some (truthy config.local_token) || is_cons config.peer_tokens

abbrev pub unauthenticated : AuthResult
unauthenticated = record { authenticated = false; identity = none }

abbrev pub authenticated_as : String → AuthResult
authenticated_as identity = record { authenticated = true; identity = some identity }

-- `validateFrom`
unfoldable pub validate_from : Option String → String → Bool
validate_from identity from = elim identity [
  | none ↦ false
  | some i ↦
      if i == "_local"
      then true
      else if from == ""
      then false
      else is_text (parse_address from).host i
]

module _ (buffer_from : String → List ℕ) where
  unfoldable pub safe_token_equals : String → String → Bool
  safe_token_equals a b =
      if nat_eq (length (buffer_from a)) (length (buffer_from b))
      then same_bytes (buffer_from a) (buffer_from b)
      else false

  -- `localToken && safeTokenEquals(token, localToken)`
  unfoldable pub is_local_token : String → Option String → Bool
  is_local_token token local = elim (truthy local) [
    | none ↦ false
    | some local ↦ safe_token_equals token local
  ]

  -- The loop over the peers' tokens.
  unfoldable pub peer_of_token : String → Dict String → AuthResult
  peer_of_token token [] = unauthenticated
  peer_of_token token ((peer, peer_token) ∷ peers) =
      let rest = peer_of_token token peers in
      if not (peer_token == "") && safe_token_equals token peer_token
      then authenticated_as peer
      else rest

  unfoldable pub check_auth : Request → Config → AuthResult
  check_auth req config =
      if not (has_any_token config)
      then authenticated_as "_local"
      else elim (truthy (extract_token req)) [
        | none ↦ unauthenticated
        | some token ↦
            if is_local_token token config.local_token
            then authenticated_as "_local"
            else peer_of_token token config.peer_tokens
      ]
