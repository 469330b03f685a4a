-- ===== src/Enroll/Tests.antt =====
-- The laws of the enrollment server at a small one: `mars` is a known peer with an enrollment "e", and
-- `venus` is invited with the token "j".
use inter_claude_connector.Base.{min, String, ◌≡◌, refl, inl, Option, none, some, [], ◌∷◌, arith}
use inter_claude_connector.Dict.{get, set, delete_where}
use inter_claude_connector.Enroll.Joining.{JoinBody, accept_join, join}
use inter_claude_connector.Enroll.{
  EnrollmentEntry, JoinEntry, RateLimit, Enrollments, Verification, challenged, check_rate_limit,
  purge_expired, start_enrollment, enroll,
}
use inter_claude_connector.Enroll.Rate.{accepted_of, accepted_of_lem}

abbrev sample_entry : EnrollmentEntry
sample_entry = record { identity = "mars"; challenge = "c"; ca_address = none; expires_at = 9 }

abbrev sample_invite : JoinEntry
sample_invite = record {
  identity = "venus";
  join_token = "j";
  ip = "10.0.0.2";
  port = 3179;
  expires_at = 9;
}

abbrev sample : Enrollments
sample = record {
  peer_configs = ("mars", "http://10.0.0.1") ∷ [];
  enrollments = ("e", sample_entry) ∷ [];
  join_tokens = ("venus", sample_invite) ∷ [];
  rate_limits = [];
}

abbrev sample_verification : Verification
sample_verification = record { id = "e"; csr = "r"; entry = sample_entry; url = "http://10.0.0.1" }

no_limit : ◌≡◌ {A = Option RateLimit} (get "mars" []) none
unfolding get
no_limit = refl

accepted_of_lem_example : accepted_of "mars" (1 ∷ 2 ∷ 3 ∷ 4 ∷ []) [] ≡ min 3 4
accepted_of_lem_example = accepted_of_lem "mars" 1 (2 ∷ 3 ∷ 4 ∷ []) [] (inl no_limit) (omega arith)

abbrev sign_all : (csr identity : String) → Option String
sign_all csr identity = some identity

abbrev used_up : Enrollments
used_up = record sample { enrollments = [] }

abbrev sample_join : JoinBody
sample_join = record {
  identity = some "venus";
  join_token = some "j";
  ip = none;
  port = 0;
  http_url = some "http://10.0.0.2";
  ca_address = none;
}

join_challenges : (join 5 300 "f" "d" (some sample_join) sample).0 ≡ challenged "f" "d"
unfolding join accept_join check_rate_limit get
join_challenges = refl

enroll_challenges : (enroll 5 300 "f" "d" (some (some "mars")) sample).0 ≡ challenged "f" "d"
unfolding enroll check_rate_limit get
enroll_challenges = refl

abbrev enrolled : Enrollments
enrolled = (enroll 5 300 "f" "d" (some (some "mars")) sample).1

enrolled_entry :
    get "f" enrolled.enrollments
    ≡ some (record { identity = "mars"; challenge = "d"; ca_address = none; expires_at = 305 })
unfolding enroll check_rate_limit get start_enrollment purge_expired set delete_where
enrolled_entry = refl
