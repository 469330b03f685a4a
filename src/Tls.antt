-- ===== src/Tls.antt =====
-- src/tls.ts: keys and certificates in a directory, by calls of openssl, and their renewal. A function
-- that throws answers none. Files are written and removed without errors of their own.
pub mod Renewing
pub mod Folders
pub mod Swap
pub mod Dates
pub mod Challenge
pub mod Enrolling
pub mod Certified
mod Tests
use Prim.Native.String
use inter_claude_connector.Base.{
  ℕ, ◌+◌, ◌-◌, ◌*◌, ◌/◌, String, Bool, true, false, not, Option, none, some, List, [], ◌∷◌, leb,
  if◌then◌else◌, truthy,
}
use inter_claude_connector.Dict.{Dict, get, set, delete}
use inter_claude_connector.Strings.{trim, split_lines}
use inter_claude_connector.Server.Routes.{strip_prefix}

-- The files of a directory by their names.
abbrev pub Folder : Type 0
Folder = Dict String

-- A run of openssl: whether it exits with 0, its output, and what it has written to the file of
-- `-out` and to the serial file, where it has.
pub record Run : Type 0 where
  pub ok : Bool
  pub stdout : String
  pub out : Option String
  pub serial : Option String

-- openssl with the contents of the files that the arguments name.
pub record Openssl : Type 0 where
  pub genpkey : Run
  pub self_sign : (key : Option String) (days : ℕ) → Run
  pub req : (key : Option String) (cn : String) → Run
  pub x509_req : (csr ca_crt ca_key serial : Option String) (days : ℕ) → Run
  pub x509 : (crt : Option String) → Run

unfoldable pub write : String → Option String → Folder → Folder
write name none d = d
write name (some content) d = set name content d

module _ (openssl : Openssl) where
  -- `serial` is the random start of the serial numbers, in hexadecimal.
  unfoldable pub init_ca : (serial : String) (days : ℕ) → Folder → Bool × Folder
  init_ca serial days d =
      let key = openssl.genpkey in
      let d1 = write "ca.key" key.out d in
      let crt = openssl.self_sign (get "ca.key" d1) days in
      let d2 = write "ca.crt" crt.out d1 in
      if not key.ok
      then (false, d1)
      else if not crt.ok
      then (false, d2)
      else (true, set "ca.srl" (String.◌++◌ serial "\n") d2)

  unfoldable pub generate_key_and_csr : (identity : String) → Folder → Option String × Folder
  generate_key_and_csr identity d =
      let key = openssl.genpkey in
      let d1 = write "server.key" key.out d in
      let csr = openssl.req (get "server.key" d1) identity in
      if not key.ok then (none, d1) else if not csr.ok then (none, d1) else (some csr.stdout, d1)

  -- Without a serial file openssl is told to create one.
  unfoldable pub sign_csr : (csr : String) (days : ℕ) → Folder → Option String × Folder
  sign_csr csr days d =
      let d1 = set ".tmp-csr.pem" csr d in
      let run =
        openssl.x509_req (get ".tmp-csr.pem" d1) (get "ca.crt" d1) (get "ca.key" d1)
          (get "ca.srl" d1) days in
      let d2 = write "ca.srl" run.serial (write ".tmp-cert.pem" run.out d1) in
      (
        if run.ok then get ".tmp-cert.pem" d2 else none,
        delete ".tmp-cert.pem" (delete ".tmp-csr.pem" d2),
      )

pub record CertInfo : Type 0 where
  pub subject : Option String
  pub issuer : Option String
  pub not_before : Option String
  pub not_after : Option String

-- One line of the output of openssl.
unfoldable pub read_line : CertInfo → String → CertInfo
read_line info line = elim (strip_prefix "subject=" line) [
  | some v ↦ record info { subject = some (trim v) }
  | none ↦ elim (strip_prefix "issuer=" line) [
    | some v ↦ record info { issuer = some (trim v) }
    | none ↦ elim (strip_prefix "notBefore=" line) [
      | some v ↦ record info { not_before = some (trim v) }
      | none ↦ elim (strip_prefix "notAfter=" line) [
        | some v ↦ record info { not_after = some (trim v) }
        | none ↦ info
      ]
    ]
  ]
]

unfoldable pub read_lines : CertInfo → List String → CertInfo
read_lines info [] = info
read_lines info (line ∷ lines) = read_lines (read_line info line) lines

abbrev pub no_info : CertInfo
no_info = record { subject = none; issuer = none; not_before = none; not_after = none }

unfoldable pub get_cert_info : Openssl → (crt : Option String) → Option CertInfo
get_cert_info openssl crt =
    let run = openssl.x509 crt in
    if run.ok then some (read_lines no_info (split_lines (trim run.stdout))) else none

-- The integers, for the milliseconds from now to a date.
pub data ℤ : Type 0 where
  pos negsuc : ℕ → ℤ

abbrev pub day : ℕ
day = 24 * 60 * 60 * 1000

-- `Math.floor((expiry - now) / day)`
unfoldable pub days_until : (expiry : ℤ) (now : ℕ) → ℤ
days_until (pos e) now = if leb now e then pos ((e - now) / day) else negsuc ((now - (e + 1)) / day)
days_until (negsuc e) now = negsuc ((now + e) / day)

abbrev pub at_most : ℤ → ℕ → Bool
at_most (pos n) threshold = leb n threshold
at_most (negsuc n) threshold = true

-- The days are none where the source has NaN, which is not below any threshold.
pub record Renewal : Type 0 where
  pub needs_renewal : Bool
  pub days_remaining : Option ℤ
  pub not_after : String

-- The clock, and `new Date(text).getTime()` with none for NaN.
pub record Calendar : Type 0 where
  pub now : ℕ
  pub get_time : String → Option ℤ

unfoldable pub renewal_of : Calendar → (threshold : ℕ) → CertInfo → Renewal
unfolding days_until
renewal_of calendar threshold info = elim (truthy info.not_after) [
  | none ↦ record { needs_renewal = true; days_remaining = some (pos 0); not_after = "unknown" }
  | some date ↦ elim (calendar.get_time date) [
    | none ↦ record { needs_renewal = false; days_remaining = none; not_after = date }
    | some expiry ↦
        let days = days_until expiry calendar.now in
        record {
          needs_renewal = at_most days threshold;
          days_remaining = some days;
          not_after = date;
        }
  ]
]

unfoldable pub needs_renewal :
    Openssl → Calendar → (threshold : ℕ) (crt : Option String) → Option Renewal
needs_renewal openssl calendar threshold crt = elim (get_cert_info openssl crt) [
  | none ↦ none
  | some info ↦ some (renewal_of calendar threshold info)
]
