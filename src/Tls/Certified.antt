-- ===== src/Tls/Certified.antt =====
-- A renewal of src/tls.ts with the authority of src/enroll.ts and the challenge file served by
-- src/server.ts: it succeeds, and what it leaves on both sides.
use inter_claude_connector.Base.{
  String, ◌≡◌, inl, inr, false, none, [], arith, Option-cases, or_else,
}
use inter_claude_connector.Exec.{starts_with}
use inter_claude_connector.Dict.{Dict}
use inter_claude_connector.Tls.{Openssl, generate_key_and_csr, Calendar}
use inter_claude_connector.Tls.Renewing.{TlsDir, at_url, RenewOptions, renew_in, renew}
use inter_claude_connector.Tls.Challenge.{Hosting, hosted}
use inter_claude_connector.Enroll.{Enrollments}
use inter_claude_connector.Tls.Enrolling.{obtain-not_http}

-- Where the URL in the options is not one of http, as the https URLs of the hosts that have joined,
-- the renewal fails before the authority gets a request, and leaves the directory, the key and the
-- certificate in it included, as it was, without `.renew-tmp`.
pub renew-not_http :
    (h : Hosting) (openssl : Openssl) (calendar : Calendar) (options : RenewOptions) (t : TlsDir)
    (s : Enrollments) (url : String)
    → options.ca_enroll_url ≡ at_url url
    → starts_with "http://" url ≡ false
    → renew (hosted h) openssl calendar options t s
      ≡ (none, (record { files = t.files; renew_tmp = none }, s))
unfolding renew renew_in
renew-not_http h openssl calendar options t s url o u =
    elim (Option-cases (generate_key_and_csr openssl options.identity (or_else t.renew_tmp [])).0) [
      | inl failed ↦ ground (arith, failed)
      | inr (csr, made) ↦
          ground (arith, o, made, obtain-not_http h openssl options.identity csr url t.files s u)
    ]
