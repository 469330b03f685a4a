-- ===== src/Server/Waking.antt =====
-- The long polls of src/server.ts over time: who is woken, and who keeps the slot of a session.
use inter_claude_connector.Base.{
  ℕ, String, ◌≡◌, refl, sym, ap, ◌∙◌, ◌≢◌, inl, inr, Bool, false, not, ◌&&◌, Option, none, some,
  List, [], ◌∷◌, ◌++◌, map, arith, eq_iff, eq_refl, nat_eq, if◌then◌else◌, Option-cases, truthy,
  is_some, filter, any,
}
use inter_claude_connector.Messages.{InboxMessage, is_receipt}
use inter_claude_connector.Inbox.Lifecycle.{unsubscribe}
use inter_claude_connector.Server.{Reply, pending, mail, duplicate, Server, Surroundings}
use inter_claude_connector.Server.Watch.{
  cleanup, wake, wake_all, start_waiting, answer_or_wait, reserve, watch, close,
}
use inter_claude_connector.Dict.{Dict, get}
use inter_claude_connector.Dict.Laws.{get-set, get-delete}

append_assoc {ℓ} : {A : Type ℓ} (xs ys zs : List A) → (xs ++ ys) ++ zs ≡ xs ++ (ys ++ zs)
append_assoc [] ys zs = refl
append_assoc (x ∷ xs) ys zs = ap (λ l. x ∷ l) (append_assoc xs ys zs)

append_nil {ℓ} : {A : Type ℓ} (xs : List A) → xs ++ [] ≡ xs
append_nil [] = refl
append_nil (x ∷ xs) = ap (λ l. x ∷ l) (append_nil xs)

any-filter_out :
    (id c : ℕ) (ids : List ℕ)
    → any (nat_eq c) (filter (λ k. not (nat_eq id k)) ids)
      ≡ (any (nat_eq c) ids && not (nat_eq id c))
any-filter_out id c [] = refl
any-filter_out id c (k ∷ ids) = ground (arith, any-filter_out id c ids)

-- The given responses that are long polls get the reply.
abbrev pub mails : (ℕ → Option (Option String)) → List ℕ → List (ℕ × Reply)
mails waits ids = map (λ id. (id, mail 1)) (filter (λ id. is_some (waits id)) ids)

-- The response is subscribed to the inbox.
abbrev pub is_subscribed : ℕ → Server → Bool
is_subscribed id s = any (nat_eq id) s.inbox.subscribers

module _ (env : Surroundings) where
  wake_lem :
      (id : ℕ) (s : Server) (waits : ℕ → Option (Option String))
      → s.waits ≡ waits
      → ((wake env id s).waits ≡ waits)
        × ((wake env id s).sent
            ≡ (if is_some (waits id) then s.sent ++ (id, mail 1) ∷ [] else s.sent))
        × ((c : ℕ)
            → is_subscribed c (wake env id s)
              ≡ (is_subscribed c s && not (is_some (waits id) && nat_eq id c)))
  unfolding wake cleanup unsubscribe
  wake_lem id s waits e =
      let at : s.waits id ≡ waits id = ap (λ (f : ℕ → Option (Option String)). f id) e in
      elim (Option-cases (s.waits id)) [
        | inl other ↦ (ground (arith, other), ground (arith, other), λ c. ground (arith, other))
        | inr (token, there) ↦ (
          ground (arith, there),
          ground (arith, there),
          λ c. ground (arith, there, any-filter_out id c s.inbox.subscribers),
        )
      ]

  wake_all_from :
      (m : InboxMessage) (ids : List ℕ) (s : Server) (waits : ℕ → Option (Option String))
      → s.waits ≡ waits
      → is_receipt m ≡ false
      → ((wake_all env m ids s).sent ≡ s.sent ++ mails waits ids)
        × ((c : ℕ)
            → is_subscribed c (wake_all env m ids s)
              ≡ (is_subscribed c s && not (any (λ id. is_some (waits id) && nat_eq id c) ids)))
  unfolding wake_all
  wake_all_from m [] s waits e h = (sym (append_nil s.sent), λ c. ground arith)
  wake_all_from m (id ∷ ids) s waits e h =
      let (kept, replied, left) = wake_lem id s waits e in
      let (replied', left') = wake_all_from m ids (wake env id s) waits kept h in
      rw (h, wake_all)
        (
          replied'
              ∙ ground (arith, replied, append_assoc s.sent ((id, mail 1) ∷ []) (mails waits ids)),
          λ c. left' c ∙ ground (arith, left c),
        )

  -- A message that is no receipt is answered once to each of the given responses that is a long
  -- poll, in their order, and exactly these long polls are unsubscribed.
  pub wake_all_lem :
      (m : InboxMessage) (ids : List ℕ) (s : Server)
      → is_receipt m ≡ false
      → ((wake_all env m ids s).sent ≡ s.sent ++ mails s.waits ids)
        × ((c : ℕ)
            → is_subscribed c (wake_all env m ids s)
              ≡ (is_subscribed c s && not (any (λ id. is_some (s.waits id) && nat_eq id c) ids)))
  wake_all_lem m ids s h = wake_all_from m ids s s.waits refl h

answer_or_wait-pending :
    (env : Surroundings) (token : Option String) (s s' : Server)
    → answer_or_wait env token s ≡ (pending, s')
    → s'.watchers ≡ s.watchers
unfolding answer_or_wait start_waiting
answer_or_wait-pending env token s s' h = ground arith

reserve-get :
    (env : Surroundings) (token : String) (s s' : Server)
    → reserve env token s ≡ some s'
    → get token s'.watchers ≡ some env.response
unfolding reserve
reserve-get env token s s' h =
    ground (arith, get-set token token env.response s.watchers, eq_refl token)

-- While a long poll waits with a session token, every other one with the token is told that it is
-- a duplicate and changes nothing.
pub watch-watch :
    (env env' : Surroundings) (query query' : Dict String) (s s' : Server) (token name : String)
    → truthy (get "sessionToken" query) ≡ some token
    → truthy (get "sessionToken" query') ≡ some token
    → truthy (get "instance" query') ≡ some name
    → watch env query s ≡ (pending, s')
    → watch env' query' s' ≡ (duplicate, s')
unfolding watch
watch-watch env env' query query' s s' token name e e' i h =
    elim (Option-cases (get token s'.watchers)) [
      | inl free ↦ elim (Option-cases (reserve env token s)) [
        | inl stale ↦ absurd (ground arith)
        | inr (t, reserved) ↦ absurd (
            ground (
              arith,
              reserve-get env token s t reserved,
              answer_or_wait-pending env (some token) t s',
            ))
      ]
      | inr (_, held) ↦ ground (arith, held)
    ]

-- The end of the connection of a long poll frees the slot of its session token, also when the slot
-- has since been given to another response.
pub close-get :
    (env : Surroundings) (id : ℕ) (token : String) (s : Server)
    → s.waits id ≡ some (some token)
    → token ≢ ""
    → (get token (close env id s).watchers ≡ none) × (is_subscribed id (close env id s) ≡ false)
unfolding close cleanup unsubscribe
close-get env id token s e n = (
  ground (arith, e, eq_iff token "", get-delete token token s.watchers, eq_refl token),
  ground (arith, e, eq_iff token "", any-filter_out id id s.inbox.subscribers),
)
