-- ===== src/Tls/Tests.antt =====
-- The laws of the TLS files at a small directory, an openssl that always makes the same files, and an
-- authority that knows the peer `mars`.
use inter_claude_connector.Base.{
  ◌+◌, ◌*◌, ◌<◌, String, ◌≡◌, refl, ◌↔◌, true, false, none, some, [], ◌∷◌,
}
use inter_claude_connector.Tls.Certified.{renew-not_http}
use inter_claude_connector.Tls.Dates.{needs_renewal_lem}
use inter_claude_connector.Tls.Swap.{Outcome, renew_if_needed-Outcome}
use inter_claude_connector.Tls.{
  Folder, Run, Openssl, CertInfo, read_line, read_lines, get_cert_info, pos, day, Renewal,
  needs_renewal, Calendar,
}
use inter_claude_connector.Strings.{trim_start, trim_end, split_lines}
use inter_claude_connector.Server.Routes.{strip_prefix}
use inter_claude_connector.Exec.{starts_with}
use inter_claude_connector.Enroll.{Enrollments}
use inter_claude_connector.Tls.Challenge.{Hosting, hosted}
use inter_claude_connector.Tls.Renewing.{TlsDir, at_url, RenewOptions, renew, renew_if_needed}

abbrev made_by : String → Run
made_by text = record { ok = true; stdout = text; out = some text; serial = none }

abbrev sample_openssl : Openssl
sample_openssl = record {
  genpkey = made_by "KEY";
  self_sign = λ key days. made_by "ROOT";
  req = λ key cn. made_by "CSR";
  x509_req = λ csr ca_crt ca_key serial days. made_by "CERT";
  x509 = λ crt. made_by "subject=CN = mars\nnotAfter=soon\n";
}

abbrev sample_calendar : Calendar
sample_calendar = record { now = 1000; get_time = λ date. some (pos 5000) }

abbrev sample_hosting : Hosting
sample_hosting = record {
  url = "http://10.0.0.9:4179";
  enrolled_at = 10;
  signed_at = 20;
  written_at = 11;
  ttl = 300;
  id = "e";
  challenge = "c";
  ca_cert = some "ROOT";
  sign = λ csr identity. some "CERT";
}

abbrev known : Enrollments
known = record {
  peer_configs = ("mars", "http://10.0.0.1") ∷ [];
  enrollments = [];
  join_tokens = [];
  rate_limits = [];
}

abbrev sample_options : RenewOptions
sample_options = record {
  identity = "mars";
  threshold_days = 30;
  ca_enroll_url = at_url "http://10.0.0.9:4179";
  force = false;
}

abbrev sample_dir : TlsDir
sample_dir = record { files = ("server.key", "OLD") ∷ ("server.crt", "OLD") ∷ []; renew_tmp = none }

abbrev sample_made : Folder
sample_made = ("server.key", "KEY") ∷ []

abbrev joined_options : RenewOptions
joined_options = record sample_options { ca_enroll_url = at_url "https://10.0.0.9:4179" }

https_is_not_http : starts_with "http://" "https://10.0.0.9:4179" ≡ false
unfolding starts_with
https_is_not_http = refl

renew-not_http_example :
    renew (hosted sample_hosting) sample_openssl sample_calendar joined_options sample_dir known
    ≡ (none, (record { files = sample_dir.files; renew_tmp = none }, known))
renew-not_http_example =
    renew-not_http sample_hosting sample_openssl sample_calendar joined_options sample_dir known
      "https://10.0.0.9:4179" refl https_is_not_http

renew_if_needed-Outcome_example :
    Outcome (hosted sample_hosting) sample_openssl sample_options sample_dir known (
      renew_if_needed
        (hosted sample_hosting)
        sample_openssl
        sample_calendar
        sample_options
        sample_dir
        known)
renew_if_needed-Outcome_example =
    renew_if_needed-Outcome (hosted sample_hosting) sample_openssl sample_calendar sample_options
      sample_dir known refl

abbrev sample_info : CertInfo
sample_info = record {
  subject = some "CN = mars";
  issuer = none;
  not_before = none;
  not_after = some "soon";
}

sample_read : get_cert_info sample_openssl (some "CERT") ≡ some sample_info
unfolding get_cert_info read_lines read_line trim_start trim_end split_lines strip_prefix
sample_read = refl

needs_renewal_example :
    (r : Renewal) × (needs_renewal sample_openssl sample_calendar 30 (some "CERT") ≡ some r)
    × ((r.needs_renewal ≡ true) ↔ (5000 < 1000 + 31 * day))
needs_renewal_example =
    needs_renewal_lem sample_openssl sample_calendar 30 5000 (some "CERT") sample_info "soon"
      sample_read refl refl
