-- ===== src/Tls/Enrolling.antt =====
-- A renewal of src/tls.ts against the authority of src/enroll.ts, from the first request to the
-- certificate on disk.
use inter_claude_connector.Exec.{starts_with}
use inter_claude_connector.Base.{
  ℕ, ◌+◌, ◌≤◌, String, ◌≡◌, refl, sym, ap, ◌∙◌, ◌≢◌, inl, inr, true, false, Option, none, some,
  arith, ◌==◌, eq_iff, eq_refl, ltb, Bool-cases, truthy,
}
use inter_claude_connector.Dict.{get, set, delete}
use inter_claude_connector.Enroll.{
  EnrollmentEntry, Enrollments, Verification, challenged, certified, check_rate_limit,
  purge_expired, start_enrollment, enroll, verifying, start_verification, finish_csr,
}
use inter_claude_connector.Tls.{Folder, Openssl, write}
use inter_claude_connector.Tls.Renewing.{
  at_url, take_cert, request_cert, after_enroll, enroll_at, obtain,
}
use inter_claude_connector.Tls.Challenge.{
  challenge_max_age, token, is_expired, icc_challenge, verify_challenge, Hosting, enroll_answer,
  csr_answer, verified_csr, is_sent, hosted,
}
use inter_claude_connector.Strings.{trim}
use inter_claude_connector.Dict.Laws.{get-set, delete_where-kept}

-- A challenge without white space around it, in a file that is not ten minutes old, is verified.
verify_challenge-icc_challenge :
    (now modified : ℕ) (challenge : String) (d : Folder)
    → trim challenge ≡ challenge
    → now ≤ modified + challenge_max_age
    → verify_challenge
        (icc_challenge now (some modified) (set ".challenge" challenge d)).0
        challenge
      ≡ true
unfolding icc_challenge verify_challenge
verify_challenge-icc_challenge now modified challenge d t h =
    let fresh : is_expired now (some modified) ≡ false = ground arith in
    let served : (icc_challenge now (some modified) (set ".challenge" challenge d)).0
        ≡ token challenge =
      rw (icc_challenge, get-set, fresh) (ap (λ x. token x) t) in
    rw (served, verify_challenge, t) (eq_refl challenge)

enroll-challenged :
    (now ttl : ℕ) (id challenge identity url : String) (s : Enrollments)
    → identity ≢ ""
    → get identity s.peer_configs ≡ some url
    → (check_rate_limit now identity s.rate_limits).0 ≡ true
    → enroll now ttl id challenge (some (some identity)) s ≡ (
      challenged id challenge,
      record s {
        rate_limits = (check_rate_limit now identity s.rate_limits).1;
        enrollments = start_enrollment now ttl identity id challenge s.enrollments;
      },
    )
unfolding enroll
enroll-challenged now ttl id challenge identity url s n p r = ground (arith, eq_iff identity "")

start_verification-verifying :
    (now no_url : ℕ) (id csr url : String) (entry : EnrollmentEntry) (s : Enrollments)
    → id ≢ ""
    → csr ≢ ""
    → get id s.enrollments ≡ some entry
    → now ≤ entry.expires_at
    → get entry.identity s.peer_configs ≡ some url
    → start_verification now no_url (some id) (some csr) s ≡ (
      verifying (record { id = id; csr = csr; entry = entry; url = url }),
      record s { enrollments = purge_expired now s.enrollments },
    )
unfolding start_verification purge_expired
start_verification-verifying now no_url id csr url entry s i c e live p = ground (
  arith,
  eq_iff id "",
  eq_iff csr "",
  delete_where-kept (λ (x : EnrollmentEntry). ltb x.expires_at now) s.enrollments id entry e,
)

finish_csr-certified :
    (sign : (csr identity : String) → Option String) (v : Verification) (s : Enrollments)
    (cert : String)
    → sign v.csr v.entry.identity ≡ some cert
    → finish_csr sign v true s
      ≡ (certified cert, record s { enrollments = delete v.id s.enrollments })
unfolding finish_csr
finish_csr-certified sign v s cert e = rw e refl

-- What the authority answers to the second request, while the challenge is the file.
verified_csr-certified :
    (h : Hosting) (d : Folder) (v : Verification) (s : Enrollments) (cert : String)
    → trim v.entry.challenge ≡ v.entry.challenge
    → h.signed_at ≤ h.written_at + challenge_max_age
    → h.sign v.csr v.entry.identity ≡ some cert
    → verified_csr h (set ".challenge" v.entry.challenge d) (verifying v) s ≡ (
      csr_answer h.ca_cert (certified cert),
      record s { enrollments = delete v.id s.enrollments },
    )
unfolding verified_csr
verified_csr-certified h d v s cert t m e =
    rw
      (
        verified_csr,
        verify_challenge-icc_challenge h.signed_at h.written_at v.entry.challenge d t m,
        finish_csr-certified h.sign v s cert e,
      )
      refl

not_empty : (url : String) → starts_with "http://" url ≡ true → (url == "") ≡ false
unfolding starts_with
not_empty url u = elim (Bool-cases (url == "")) [
  | inl empty ↦
      let none_there : starts_with "http://" "" ≡ true =
        ap (λ x. starts_with "http://" x) (sym ((eq_iff url "").0 empty)) ∙ u in
      absurd (ground arith)
  | inr other ↦ other
]

pub obtain-not_http :
    (h : Hosting) (openssl : Openssl) (identity csr url : String) (d : Folder) (s : Enrollments)
    → starts_with "http://" url ≡ false
    → obtain (hosted h) openssl identity (at_url url) csr d s ≡ (none, (d, s))
unfolding obtain enroll_at after_enroll hosted
obtain-not_http h openssl identity csr url d s u =
    let not_sent : is_sent h url ≡ false = ground (arith, u) in
    elim (Bool-cases (url == "")) [
      | inl empty ↦ rw (obtain, empty) refl
      | inr other ↦ rw (obtain, other, enroll_at, not_sent) refl
    ]

module _ (h : Hosting) (identity peer_url : String) (s : Enrollments) where
  abbrev pub entry : EnrollmentEntry
  entry = record {
    identity = identity;
    challenge = h.challenge;
    ca_address = none;
    expires_at = h.enrolled_at + h.ttl;
  }

  abbrev pub enrolled : Enrollments
  enrolled = record s {
    rate_limits = (check_rate_limit h.enrolled_at identity s.rate_limits).1;
    enrollments = start_enrollment h.enrolled_at h.ttl identity h.id h.challenge s.enrollments;
  }

  abbrev pub signed : Enrollments
  signed = record enrolled {
    enrollments = delete h.id (purge_expired h.signed_at enrolled.enrollments);
  }

  get-enrolled : get h.id enrolled.enrollments ≡ some entry
  unfolding start_enrollment
  get-enrolled = rw (get-set, eq_refl h.id) refl

  sent_there : starts_with "http://" h.url ≡ true → is_sent h h.url ≡ true
  sent_there u = rw (eq_refl h.url) u

  csr-certified :
      (csr cert : String) (d : Folder)
      → starts_with "http://" h.url ≡ true
      → h.id ≢ ""
      → csr ≢ ""
      → trim h.challenge ≡ h.challenge
      → get identity s.peer_configs ≡ some peer_url
      → h.signed_at ≤ h.enrolled_at + h.ttl
      → h.signed_at ≤ h.written_at + challenge_max_age
      → h.sign csr identity ≡ some cert
      → (hosted h).post_csr h.url h.id csr (set ".challenge" h.challenge d) enrolled
        ≡ (some (csr_answer h.ca_cert (certified cert)), signed)
  unfolding hosted
  csr-certified csr cert d u i c t p live fresh e =
      let verification : Verification = record {
        id = h.id;
        csr = csr;
        entry = entry;
        url = peer_url;
      } in
      let state : Enrollments = record enrolled {
        enrollments = purge_expired h.signed_at enrolled.enrollments;
      } in
      let answered : verified_csr h (set ".challenge" h.challenge d) (verifying verification) state
          ≡ (csr_answer h.ca_cert (certified cert), signed) =
        verified_csr-certified h d verification state cert t fresh e in
      rw
        (
          start_verification-verifying h.signed_at 500 h.id csr peer_url entry enrolled i c
              get-enrolled live p,
          sent_there u,
        )
        (ap (λ x. (some x.0, x.1)) answered)

  enroll-enrolled :
      (d : Folder)
      → starts_with "http://" h.url ≡ true
      → identity ≢ ""
      → get identity s.peer_configs ≡ some peer_url
      → (check_rate_limit h.enrolled_at identity s.rate_limits).0 ≡ true
      → (hosted h).post_enroll h.url identity d s
        ≡ (some (enroll_answer (challenged h.id h.challenge)), enrolled)
  unfolding hosted
  enroll-enrolled d u n p r =
      rw
        (
          enroll-challenged h.enrolled_at h.ttl h.id h.challenge identity peer_url s n p r,
          sent_there u,
        )
        refl

  pub obtain-certified :
      (openssl : Openssl) (csr cert : String) (d : Folder)
      → starts_with "http://" h.url ≡ true
      → identity ≢ ""
      → cert ≢ ""
      → h.id ≢ ""
      → csr ≢ ""
      → trim h.challenge ≡ h.challenge
      → get identity s.peer_configs ≡ some peer_url
      → (check_rate_limit h.enrolled_at identity s.rate_limits).0 ≡ true
      → h.signed_at ≤ h.enrolled_at + h.ttl
      → h.signed_at ≤ h.written_at + challenge_max_age
      → h.sign csr identity ≡ some cert
      → obtain (hosted h) openssl identity (at_url h.url) csr d s ≡ (
        some cert,
        (
          write "ca.crt" (truthy h.ca_cert) (delete ".challenge" (set ".challenge" h.challenge d)),
          signed,
        ),
      )
  unfolding obtain enroll_at after_enroll request_cert take_cert
  obtain-certified openssl csr cert d u n ce i c t p r live fresh e =
      let enrolls = enroll-enrolled d u n p r in
      let certifies = csr-certified csr cert d u i c t p live fresh e in
      let no_url : (h.url == "") ≡ false = not_empty h.url u in
      let no_id : (h.id == "") ≡ false = ground (arith, eq_iff h.id "") in
      let no_cert : (cert == "") ≡ false = ground (arith, eq_iff cert "") in
      rw
        (
          obtain, no_url, enroll_at, enrolls, after_enroll, no_id, request_cert, certifies,
          take_cert, no_cert,
        )
        refl
