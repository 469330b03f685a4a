-- ===== src/Tls/Dates.antt =====
-- When src/tls.ts renews a certificate, in milliseconds in place of days.
use inter_claude_connector.Base.{
  ℕ, suc, ◌+◌, ◌*◌, ◌<◌, String, ◌≡◌, refl, ◌↔◌, true, Option, some, arith, truthy,
}
use inter_claude_connector.Tls.{
  Openssl, CertInfo, get_cert_info, pos, day, days_until, at_most, Renewal, needs_renewal, Calendar,
  renewal_of,
}

days_until_lem :
    (e now threshold : ℕ)
    → (at_most (days_until (pos e) now) threshold ≡ true) ↔ (e < now + suc threshold * day)
unfolding days_until
days_until_lem e now threshold = ground arith

-- Where openssl gives the time when a certificate expires and the calendar can read it, the certificate
-- is due for renewal exactly when less than `threshold + 1` days are left until that time: one that
-- has `threshold` days and some hours left is due, one with `threshold + 1` days to the
-- millisecond is not.
pub needs_renewal_lem :
    (openssl : Openssl) (calendar : Calendar) (threshold e : ℕ) (crt : Option String)
    (info : CertInfo) (date : String)
    → get_cert_info openssl crt ≡ some info
    → truthy info.not_after ≡ some date
    → calendar.get_time date ≡ some (pos e)
    → (r : Renewal) × (needs_renewal openssl calendar threshold crt ≡ some r)
      × ((r.needs_renewal ≡ true) ↔ (e < calendar.now + suc threshold * day))
unfolding needs_renewal renewal_of
needs_renewal_lem openssl calendar threshold e crt info date i d t = (
  renewal_of calendar threshold info,
  rw (needs_renewal, i) refl,
  rw (renewal_of, d, t) (days_until_lem e calendar.now threshold),
)
