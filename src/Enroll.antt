-- ===== src/Enroll.antt =====
-- src/enroll.ts: the enrollment server of the certificate authority. A request that verifies a
-- challenge is two steps, up to the `await` and behind it, so that others can run in between.
-- `signCSR` and the random numbers are given by the caller.
pub mod Joining
pub mod Rate
pub mod Certificates
mod Tests
use Prim.Native.String
use inter_claude_connector.Base.{
  ℕ, suc, ◌+◌, ◌*◌, String, Bool, true, false, not, Option, none, some, ◌==◌, ltb, leb,
  if◌then◌else◌, truthy,
}
use inter_claude_connector.Dict.{Dict, get, set, delete, has, delete_where}

pub record EnrollmentEntry : Type 0 where
  pub identity : String
  pub challenge : String
  pub ca_address : Option String
  pub expires_at : ℕ

pub record JoinEntry : Type 0 where
  pub identity : String
  pub join_token : String
  pub ip : String
  pub port : ℕ
  pub expires_at : ℕ

pub record RateLimit : Type 0 where
  pub count : ℕ
  pub reset_at : ℕ

abbrev pub rate_limit : ℕ
rate_limit = 3

abbrev pub rate_window : ℕ
rate_window = 15 * 60 * 1000

-- `peer_configs` has the URL of each peer.
pub record Enrollments : Type 0 where
  pub peer_configs : Dict String
  pub enrollments : Dict EnrollmentEntry
  pub join_tokens : Dict JoinEntry
  pub rate_limits : Dict RateLimit

-- What a request asks to be verified: the challenge at the URL. `id` is the enrollment.
pub record Verification : Type 0 where
  pub id : String
  pub csr : String
  pub entry : EnrollmentEntry
  pub url : String

pub data EnrollReply : Type 0 where
  refused : (status : ℕ) → EnrollReply
  challenged : (enrollment_id challenge : String) → EnrollReply
  certified : (cert : String) → EnrollReply
  accepted : EnrollReply

unfoldable pub check_rate_limit : (now : ℕ) → String → Dict RateLimit → Bool × Dict RateLimit
check_rate_limit now identity limits =
    let fresh = set identity (record { count = 1; reset_at = now + rate_window }) limits in
    elim (get identity limits) [
      | none ↦ (true, fresh)
      | some limit ↦
          let counted = set identity (record limit { count = suc limit.count }) limits in
          if leb limit.reset_at now
          then (true, fresh)
          else if leb rate_limit limit.count
          then (false, limits)
          else (true, counted)
    ]

unfoldable pub purge_expired : (now : ℕ) → Dict EnrollmentEntry → Dict EnrollmentEntry
purge_expired now entries = delete_where (λ e. ltb e.expires_at now) entries

-- The new enrollment of /enroll; the one that the identity had is replaced.
unfoldable pub start_enrollment :
    (now ttl : ℕ) (identity id challenge : String) → Dict EnrollmentEntry → Dict EnrollmentEntry
unfolding purge_expired
start_enrollment now ttl identity id challenge entries =
    set id
      (record {
        identity = identity;
        challenge = challenge;
        ca_address = none;
        expires_at = now + ttl;
      })
      (delete_where (λ e. e.identity == identity) (purge_expired now entries))

-- POST /enroll. A body that cannot be read is none.
unfoldable pub enroll :
    (now ttl : ℕ) (id challenge : String) (body : Option (Option String))
    → Enrollments
    → EnrollReply × Enrollments
unfolding start_enrollment
enroll now ttl id challenge none s = (refused 400, s)
enroll now ttl id challenge (some field) s = elim (truthy field) [
  | none ↦ (refused 400, s)
  | some identity ↦
      if not (has identity s.peer_configs)
      then (refused 403, s)
      else let (ok, limits) = check_rate_limit now identity s.rate_limits in
        let limited = record s { rate_limits = limits } in
        if not ok then (refused 429, limited) else (
          challenged id challenge,
          record limited {
            enrollments = start_enrollment now ttl identity id challenge s.enrollments;
          },
        )
]

pub data Started : Type 0 where
  rejected : (status : ℕ) → Started
  verifying : Verification → Started

-- POST /enroll/csr and POST /enroll/join/complete up to the call of `verifyChallenge`. Where the
-- identity has no URL the one throws, which is the status 500, and the other says 400.
unfoldable pub start_verification :
    (now no_url : ℕ) (enrollment_id csr : Option String) → Enrollments → Started × Enrollments
unfolding purge_expired
start_verification now no_url enrollment_id csr s = elim (truthy enrollment_id) [
  | none ↦ (rejected 400, s)
  | some id ↦ elim (truthy csr) [
    | none ↦ (rejected 400, s)
    | some request ↦
        let live = purge_expired now s.enrollments in
        let s' = record s { enrollments = live } in
        elim (get id live) [
          | none ↦ (rejected 400, s')
          | some entry ↦ elim (get entry.identity s.peer_configs) [
            | none ↦ (rejected no_url, s')
            | some url ↦
                (verifying (record { id = id; csr = request; entry = entry; url = url }), s')
          ]
        ]
  ]
]

-- POST /enroll/csr behind `verifyChallenge`; `sign` is `signCSR` for the authority's directory,
-- with none where it throws.
unfoldable pub finish_csr :
    (sign : (csr identity : String) → Option String)
    → Verification
    → (verified : Bool) → Enrollments
    → EnrollReply × Enrollments
finish_csr sign v verified s =
    let s' = record s { enrollments = delete v.id s.enrollments } in
    if not verified then (refused 403, s') else elim (sign v.csr v.entry.identity) [
      | none ↦ (refused 500, s)
      | some cert ↦ (certified cert, s')
    ]

-- POST /enroll/join/complete behind `verifyChallenge`, for what it does to the state of this server.
unfoldable pub finish_join :
    (sign : (csr identity : String) → Option String)
    → Verification
    → (verified : Bool) → Enrollments
    → EnrollReply × Enrollments
finish_join sign v verified s =
    let s' = record s { enrollments = delete v.id s.enrollments } in
    if not verified then (refused 403, s') else elim (sign v.csr v.entry.identity) [
      | none ↦ (refused 500, s)
      | some cert ↦
          (certified cert, record s' { join_tokens = delete v.entry.identity s'.join_tokens })
    ]
