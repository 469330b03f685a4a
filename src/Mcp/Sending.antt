-- ===== src/Mcp/Sending.antt =====
-- Which requests a message to several recipients makes, and what is told of them.
use inter_claude_connector.Base.{
  ℕ, suc, ◌+◌, String, ◌≡◌, refl, ap, ◌∙◌, ◌≢◌, ◌↔◌, inl, inr, Bool, true, false, not, ◌&&◌, Option,
  some, List, [], ◌∷◌, ◌++◌, map, arith, ◌==◌, eq_iff, eq_refl, nat_eq, Bool-cases, truthy, length,
  filter, append_nil, append_assoc, includes, All,
}
use inter_claude_connector.Messages.{InboxMessage}
use inter_claude_connector.Inbox.Operations.{InboxPushInput}
use inter_claude_connector.Server.{Config}
use inter_claude_connector.Mcp.{
  Failure, Outcome, failed, fulfilled, Api, multicast, is_error, other_host, resolve_peer,
  succeeded, failed_entries, distinct, reply_targets, post_to, post_each, send_multicast,
}

abbrev pub Requests : Type 0
Requests = List (Option String × InboxPushInput)

-- An API that answers by the request alone and keeps the posts that it was asked for.
abbrev pub recorder :
    (found : String → Outcome (Option InboxMessage)) (listed : Outcome (List InboxMessage))
    (answer : Option String → InboxPushInput → Outcome String)
    → Api Requests
recorder found listed answer = record {
  lookup = λ id w. (found id, w);
  all_messages = λ w. (listed, w);
  post = λ peer payload w. (answer peer payload, w ++ (peer, payload) ∷ []);
}

none_delivered : (d f n : ℕ) → d + f ≡ n → (nat_eq f n ≡ true) ↔ (d ≡ 0)
none_delivered d f n e = (λ h. ground (arith, e), λ h. ground (arith, e))

length-map {ℓ κ} :
    {A : Type ℓ} {B : Type κ} (f : A → B) (xs : List A) → length (map f xs) ≡ length xs
length-map f [] = refl
length-map f (x ∷ xs) = ap suc (length-map f xs)

count_results :
    (results : List (String × Outcome String))
    → length (succeeded results) + length (failed_entries results) ≡ length results
unfolding succeeded failed_entries
count_results [] = refl
count_results ((r, fulfilled id) ∷ results) = omega (arith, count_results results)
count_results ((r, failed e) ∷ results) = omega (arith, count_results results)

-- What is told of the posts to `recipients`, in their order, by the outcome of each: it was delivered
-- with the identifier that the server gave it, or it was not delivered for the reason given.
pub data IsTold (outcome : String → Outcome String)
    : List String → List (String × String) → List (String × Failure) → Type 0 where
  no_more : IsTold outcome [] [] []
  is_delivered :
      {to id : String} {recipients : List String} {delivered : List (String × String)}
      {not_delivered : List (String × Failure)}
      → outcome to ≡ fulfilled id
      → IsTold outcome recipients delivered not_delivered
      → IsTold outcome (to ∷ recipients) ((to, id) ∷ delivered) not_delivered
  is_failed :
      {to : String} {e : Failure} {recipients : List String} {delivered : List (String × String)}
      {not_delivered : List (String × Failure)}
      → outcome to ≡ failed e
      → IsTold outcome recipients delivered not_delivered
      → IsTold outcome (to ∷ recipients) delivered ((to, e) ∷ not_delivered)

results-IsTold :
    (outcome : String → Outcome String) (recipients : List String)
    → IsTold outcome recipients
        (succeeded (map (λ a. (a, outcome a)) recipients))
        (failed_entries (map (λ a. (a, outcome a)) recipients))
unfolding succeeded failed_entries
results-IsTold outcome [] = no_more
results-IsTold outcome (a ∷ recipients) = go (results-IsTold outcome recipients) (outcome a) refl
  where
    go :
        IsTold outcome recipients
          (succeeded (map (λ a. (a, outcome a)) recipients))
          (failed_entries (map (λ a. (a, outcome a)) recipients))
        → (o : Outcome String) → outcome a ≡ o
        → IsTold outcome
            (a ∷ recipients)
            (succeeded ((a, o) ∷ map (λ a. (a, outcome a)) recipients))
            (failed_entries ((a, o) ∷ map (λ a. (a, outcome a)) recipients))
    go told (fulfilled id) e = is_delivered e told
    go told (failed reason) e = is_failed e told

module _ (found : String → Outcome (Option InboxMessage)) (listed : Outcome (List InboxMessage))
    (answer : Option String → InboxPushInput → Outcome String) (config : Config)
    (full_address : String) (payload : String → InboxPushInput) where
  -- The request for a recipient: to its host's server, or to the local one.
  abbrev pub request_for : String → Option String × InboxPushInput
  request_for to = (truthy (other_host config.identity to), payload to)

  post_to_lem :
      (to : String) (w : Requests)
      → to ≢ ""
      → post_to (recorder found listed answer) config full_address (payload to) (some to) w
        ≡ (answer (request_for to).0 (payload to), w ++ request_for to ∷ [])
  unfolding post_to resolve_peer
  post_to_lem to w n = ground (arith, eq_iff to "")

  post_each_lem :
      (recipients : List String) (w : Requests)
      → All (λ a. a ≢ "") recipients
      → post_each (recorder found listed answer) config full_address payload recipients w ≡ (
        map (λ a. (a, answer (request_for a).0 (payload a))) recipients,
        w ++ map request_for recipients,
      )
  unfolding post_each
  post_each_lem [] w h = ap (λ v. ([], v)) (append_nil w)
  post_each_lem (a ∷ recipients) w (n, h) =
      rw (post_to_lem a w n, post_each_lem recipients (w ++ request_for a ∷ []) h)
        (ap (λ v. (map (λ a. (a, answer (request_for a).0 (payload a))) (a ∷ recipients), v))
          (append_assoc w (request_for a ∷ []) (map request_for recipients)))

  pub send_multicast_lem :
      (thread_id : String) (recipients : List String) (w : Requests)
      → All (λ a. a ≢ "") recipients
      → let (result, w') =
          send_multicast
            (recorder found listed answer)
            config
            full_address
            payload
            thread_id
            recipients
            w in
        (w' ≡ w ++ map request_for recipients)
        × (delivered : List (String × String)) × (not_delivered : List (String × Failure)) × (result
            ≡ multicast (length recipients) delivered not_delivered thread_id)
        × IsTold (λ to. answer (request_for to).0 (payload to)) recipients delivered not_delivered
        × (length delivered + length not_delivered ≡ length recipients)
        × ((is_error result ≡ true) ↔ (length delivered ≡ 0))
  unfolding send_multicast
  send_multicast_lem thread_id recipients w h =
      let results : List (String × Outcome String) =
        map (λ a. (a, answer (request_for a).0 (payload a))) recipients in
      let e = post_each_lem recipients w h in
      let counted : length (succeeded results) + length (failed_entries results)
          ≡ length recipients =
        count_results results ∙ length-map _ recipients in
      rw e (
        refl,
        succeeded results,
        failed_entries results,
        refl,
        results-IsTold _ recipients,
        counted,
        none_delivered _ _ _ counted,
      )

-- No text occurs twice.
abbrev pub NoRepeats : List String → Type 0
NoRepeats [] = Unit
NoRepeats (s ∷ ss) = (includes ss s ≡ false) × NoRepeats ss

includes-filter :
    (p : String → Bool) (a : String) (ss : List String)
    → includes (filter p ss) a ≡ (p a && includes ss a)
includes-filter p a [] = ground arith
includes-filter p a (s ∷ ss) = elim (Bool-cases (s == a)) [
  | inl same ↦ ground (arith, includes-filter p a ss, ap p ((eq_iff s a).0 same))
  | inr other ↦ ground (arith, includes-filter p a ss)
]

includes-distinct : (a : String) (ss : List String) → includes (distinct ss) a ≡ includes ss a
unfolding distinct
includes-distinct a [] = refl
includes-distinct a (s ∷ ss) = ground (
  arith,
  includes-filter (λ t. not (t == s)) a (distinct ss),
  includes-distinct a ss,
  eq_iff a s,
  eq_iff s a,
)

NoRepeats-filter : (p : String → Bool) (ss : List String) → NoRepeats ss → NoRepeats (filter p ss)
NoRepeats-filter p [] h = tt
NoRepeats-filter p (s ∷ ss) (new, h) = elim (Bool-cases (p s)) [
  | inl kept ↦ rw kept (includes-filter p s ss ∙ ground (arith, new), NoRepeats-filter p ss h)
  | inr dropped ↦ rw dropped (NoRepeats-filter p ss h)
]

distinct-NoRepeats : (ss : List String) → NoRepeats (distinct ss)
unfolding distinct
distinct-NoRepeats [] = tt
distinct-NoRepeats (s ∷ ss) = (
  includes-filter (λ t. not (t == s)) s (distinct ss) ∙ ground (arith, eq_refl s),
  NoRepeats-filter (λ t. not (t == s)) (distinct ss) (distinct-NoRepeats ss),
)

-- The targets of a reply to all are, each once, the sender and the other recipients that are
-- neither empty nor this address.
pub reply_targets_lem :
    (full_address to : String) (recipients : List String)
    → NoRepeats (reply_targets full_address to recipients)
      × ((a : String)
          → includes (reply_targets full_address to recipients) a
            ≡ (not (a == "") && not (a == full_address) && includes (to ∷ recipients) a))
unfolding reply_targets
reply_targets_lem full_address to recipients =
    let wanted : String → Bool = λ a. not (a == "") && not (a == full_address) in
    (
      distinct-NoRepeats (filter wanted (to ∷ recipients)),
      λ a.
          includes-distinct a (filter wanted (to ∷ recipients))
          ∙ includes-filter wanted a (to ∷ recipients)
          ∙ ground arith,
    )
