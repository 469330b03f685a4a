-- ===== src/Enroll/Certificates.antt =====
-- Who gets a certificate from src/enroll.ts: what a verification is for, and that an enrollment is
-- used up.
use inter_claude_connector.Base.{
  ℕ, ◌+◌, ◌≤◌, String, ◌≡◌, ◌∙◌, inl, inr, Option, none, some, arith, ◌==◌, eq_iff, ltb,
  Option-cases, truthy,
}
use inter_claude_connector.Dict.{Dict, get, delete_where, Distinct}
use inter_claude_connector.Dict.Laws.{get-set, get_of_delete_where, get-delete_where}
use inter_claude_connector.Enroll.Joining.{JoinBody, join}
use inter_claude_connector.Enroll.{
  EnrollmentEntry, JoinEntry, Enrollments, Verification, challenged, purge_expired,
  start_enrollment, enroll, verifying, start_verification,
}

truthy_lem : (o : Option String) (s : String) → truthy o ≡ some s → o ≡ some s
truthy_lem none s h = cc
truthy_lem (some t) s h = ground arith

get-purge_expired :
    (now : ℕ) (id : String) (entries : Dict EnrollmentEntry) (entry : EnrollmentEntry)
    → Distinct entries
    → get id (purge_expired now entries) ≡ some entry
    → (get id entries ≡ some entry) × (now ≤ entry.expires_at)
unfolding purge_expired
get-purge_expired now id entries entry d e =
    let (found, live) = get_of_delete_where (λ x. ltb x.expires_at now) entries id entry d e in
    (found, ground (arith, live))

-- A verification is started only for an enrollment that is there under the identifier given and
-- has not expired; it asks the URL of the enrollment's identity.
pub start_verification_lem :
    (now no_url : ℕ) (enrollment_id csr : Option String) (s s' : Enrollments) (v : Verification)
    → Distinct s.enrollments
    → start_verification now no_url enrollment_id csr s ≡ (verifying v, s')
    → (enrollment_id ≡ some v.id)
      × (csr ≡ some v.csr)
      × (get v.id s.enrollments ≡ some v.entry)
      × (now ≤ v.entry.expires_at)
      × (get v.entry.identity s.peer_configs ≡ some v.url)
unfolding start_verification
start_verification_lem now no_url enrollment_id csr s s' v d h =
    elim (Option-cases (truthy enrollment_id)) [
      | inl missing ↦ absurd (ground arith)
      | inr (id, given) ↦ elim (Option-cases (truthy csr)) [
        | inl missing ↦ absurd (ground arith)
        | inr (request, asked) ↦ elim (Option-cases (get id (purge_expired now s.enrollments))) [
          | inl missing ↦ absurd (ground arith)
          | inr (entry, found) ↦ ground (
            arith,
            truthy_lem enrollment_id id given,
            truthy_lem csr request asked,
            get-purge_expired now id s.enrollments entry d found,
          )
        ]
      ]
    ]

-- A host joins only with the token of an invitation for it that has not expired.
pub join-challenged :
    (now ttl : ℕ) (id challenge : String) (b : JoinBody) (s : Enrollments) {i c : String}
    → (join now ttl id challenge (some b) s).0 ≡ challenged i c
    → (identity : String) × (invite : JoinEntry) × (b.identity ≡ some identity)
      × (get identity s.join_tokens ≡ some invite)
      × (b.join_token ≡ some invite.join_token)
      × (now ≤ invite.expires_at)
unfolding join
join-challenged now ttl id challenge b s h = elim (Option-cases (truthy b.identity)) [
  | inl missing ↦ absurd (ground arith)
  | inr (identity, given) ↦ elim (Option-cases (truthy b.join_token)) [
    | inl missing ↦ absurd (ground arith)
    | inr (given_token, shown) ↦ elim (Option-cases (get identity s.join_tokens)) [
      | inl missing ↦ absurd (ground arith)
      | inr (invite, found) ↦
          let ok : invite.join_token ≡ given_token =
            ground (arith, eq_iff invite.join_token given_token) in
          (
            identity,
            invite,
            truthy_lem b.identity identity given,
            found,
            truthy_lem b.join_token given_token shown ∙ ground (arith, ok),
            ground arith,
          )
    ]
  ]
]

-- After a host has enrolled, it has one enrollment, the one of the reply.
pub enroll-challenged :
    (now ttl : ℕ) (id challenge identity : String) (s : Enrollments) {i c : String}
    → (enroll now ttl id challenge (some (some identity)) s).0 ≡ challenged i c
    → (k : String) (e : EnrollmentEntry)
    → get k (enroll now ttl id challenge (some (some identity)) s).1.enrollments ≡ some e
    → e.identity ≡ identity
    → (k ≡ i) × (e.challenge ≡ c)
unfolding enroll start_enrollment
enroll-challenged now ttl id challenge identity s h k e g same = ground (
  arith,
  eq_iff id k,
  eq_iff e.identity identity,
  get-delete_where (λ (x : EnrollmentEntry). x.identity == identity)
      (purge_expired now s.enrollments) k e,
  get-set id k
      (record {
        identity = identity;
        challenge = challenge;
        ca_address = none;
        expires_at = now + ttl;
      })
      (delete_where (λ x. x.identity == identity) (purge_expired now s.enrollments)),
)
