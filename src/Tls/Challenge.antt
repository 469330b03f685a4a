-- ===== src/Tls/Challenge.antt =====
-- The challenge of an enrollment, across the components: src/tls.ts writes it to a file, the server of
-- src/server.ts serves that file, and src/enroll.ts compares what is served with what it gave out.
use inter_claude_connector.Base.{
  ℕ, ◌-◌, ◌*◌, String, Bool, false, ◌&&◌, Option, none, some, ◌==◌, ltb, if◌then◌else◌,
}
use inter_claude_connector.Dict.{get, delete}
use inter_claude_connector.Tls.{Folder}
use inter_claude_connector.Exec.{starts_with}
use inter_claude_connector.Strings.{trim}
use inter_claude_connector.Enroll.{
  Enrollments, EnrollReply, refused, challenged, certified, enroll, Started, rejected, verifying,
  start_verification, finish_csr,
}
use inter_claude_connector.Tls.Renewing.{EnrollAnswer, CsrAnswer, Authority}

abbrev pub challenge_max_age : ℕ
challenge_max_age = 10 * 60 * 1000

pub data ChallengeReply : Type 0 where
  token : String → ChallengeReply
  not_found : ChallengeReply

abbrev pub is_expired : (now : ℕ) → Option ℕ → Bool
is_expired now none = false
is_expired now (some modified) = ltb challenge_max_age (now - modified)

-- GET /.well-known/icc-challenge. The time when the file was written is none where that cannot be read.
unfoldable pub icc_challenge : (now : ℕ) (modified : Option ℕ) → Folder → ChallengeReply × Folder
icc_challenge now modified d = elim (get ".challenge" d) [
  | none ↦ (not_found, d)
  | some content ↦
      if is_expired now modified
      then (not_found, delete ".challenge" d)
      else (token (trim content), d)
]

-- `verifyChallenge`, by the text of the answer; that of a refusal is JSON.
unfoldable pub verify_challenge : ChallengeReply → (expected : String) → Bool
verify_challenge not_found expected = false
verify_challenge (token text) expected = trim text == expected

-- An authority with the state of src/enroll.ts, with its URL, the times of the two requests and of the
-- challenge file, the random texts it gives out, and its `signCSR`.
pub record Hosting : Type 0 where
  pub url : String
  pub enrolled_at : ℕ
  pub signed_at : ℕ
  pub written_at : ℕ
  pub ttl : ℕ
  pub id : String
  pub challenge : String
  pub ca_cert : Option String
  pub sign : (csr identity : String) → Option String

abbrev pub enroll_answer : EnrollReply → EnrollAnswer
enroll_answer (challenged id challenge) = record {
  enrollment_id = some id;
  challenge = some challenge;
}
enroll_answer _ = record { enrollment_id = none; challenge = none }

abbrev pub csr_answer : Option String → EnrollReply → CsrAnswer
csr_answer ca_cert (certified cert) = record { cert = some cert; ca_cert = ca_cert }
csr_answer ca_cert _ = record { cert = none; ca_cert = none }

unfoldable pub verified_csr : Hosting → Folder → Started → Enrollments → CsrAnswer × Enrollments
unfolding finish_csr icc_challenge verify_challenge
verified_csr h d (rejected status) s = (csr_answer none (refused status), s)
verified_csr h d (verifying v) s =
    let served = (icc_challenge h.signed_at (some h.written_at) d).0 in
    let (reply, s') = finish_csr h.sign v (verify_challenge served v.entry.challenge) s in
    (csr_answer h.ca_cert reply, s')

-- `httpJSON` sends a request for the authority's URL only, and, with `request` of node:http, only
-- where this URL is one of http; that of https is rejected before anything is sent.
abbrev pub is_sent : Hosting → (url : String) → Bool
is_sent h url = (url == h.url) && starts_with "http://" url

unfoldable pub hosted : Hosting → Authority Enrollments
unfolding verified_csr
hosted h = record {
  post_enroll = λ url identity d s.
      let (reply, s') = enroll h.enrolled_at h.ttl h.id h.challenge (some (some identity)) s in
      if is_sent h url then (some (enroll_answer reply), s') else (none, s);
  post_csr = λ url id csr d s.
      let (started, s1) = start_verification h.signed_at 500 (some id) (some csr) s in
      let (answer, s2) = verified_csr h d started s1 in
      if is_sent h url then (some answer, s2) else (none, s);
}
