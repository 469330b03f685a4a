-- ===== src/Tls/Renewing.antt =====
-- `renewIfNeeded` of src/tls.ts, over the directory of the TLS files, its subdirectory `.renew-tmp`
-- and the authority, which has a state `W` of its own and can look at the files of this host while
-- it answers.
use inter_claude_connector.Base.{
  ℕ, String, Bool, true, false, not, ◌&&◌, Option, none, some, [], ◌==◌, if◌then◌else◌, truthy,
  or_else,
}
use inter_claude_connector.Dict.{Dict, get, set, delete, has}
use inter_claude_connector.Tls.{
  Folder, Openssl, write, generate_key_and_csr, sign_csr, ℤ, Renewal, needs_renewal, Calendar,
}

pub record TlsDir : Type 0 where
  pub files : Folder
  pub renew_tmp : Option Folder

pub record EnrollAnswer : Type 0 where
  pub enrollment_id : Option String
  pub challenge : Option String

pub record CsrAnswer : Type 0 where
  pub cert : Option String
  pub ca_cert : Option String

-- The two requests of `httpJSON`, with none where they are rejected.
pub record Authority (W : Type 0) : Type 0 where
  pub post_enroll : (url identity : String) → Folder → W → Option EnrollAnswer × W
  pub post_csr : (url enrollment_id csr : String) → Folder → W → Option CsrAnswer × W

-- `caEnrollUrl` is undefined, null or a text.
pub data CaEnrollUrl : Type 0 where
  undefined null : CaEnrollUrl
  at_url : String → CaEnrollUrl

-- `buildCaEnrollUrl` of src/server.ts. `ca` is the authority that the configuration names, `peer_url`
-- has the URLs of the peers, and `with_port` gives a URL the port of the enrollment server.
unfoldable pub build_ca_enroll_url :
    (ca : Option String) (peer_url : Dict String) (with_port : String → String)
    → Folder
    → CaEnrollUrl
build_ca_enroll_url ca peer_url with_port d = if has "ca.key" d then null else elim (truthy ca) [
  | none ↦ null
  | some name ↦ elim (truthy (get name peer_url)) [
    | none ↦ null
    | some url ↦ at_url (with_port url)
  ]
]

pub record RenewOptions : Type 0 where
  pub identity : String
  pub threshold_days : ℕ
  pub ca_enroll_url : CaEnrollUrl
  pub force : Bool

pub record RenewResult : Type 0 where
  pub renewed : Bool
  pub days_remaining : Option ℤ
  pub not_after : String

abbrev pub as_result : (renewed : Bool) → Renewal → RenewResult
as_result renewed r = record {
  renewed = renewed;
  days_remaining = r.days_remaining;
  not_after = r.not_after;
}

-- The answer to the signing request, with the challenge removed.
unfoldable pub take_cert : Option CsrAnswer → Folder → Option String × Folder
take_cert none d = (none, d)
take_cert (some answer) d =
    let d1 = delete ".challenge" d in
    elim (truthy answer.cert) [
      | none ↦ (none, d1)
      | some cert ↦ (some cert, write "ca.crt" (truthy answer.ca_cert) d1)
    ]

abbrev pub reported : Option Renewal → Option RenewResult
reported none = none
reported (some r) = some (as_result true r)

-- The key of `.renew-tmp` is renamed, which throws where it is not there, and the certificate is
-- written and read again.
unfoldable pub install :
    Openssl
    → Calendar
    → (threshold : ℕ) (cert : String) (tmp : Folder) → Folder
    → Option RenewResult × Folder
install openssl calendar threshold cert tmp d = elim (get "server.key" tmp) [
  | none ↦ (none, d)
  | some key ↦
      let d1 = set "server.crt" cert (set "server.key" key d) in
      (reported (needs_renewal openssl calendar threshold (get "server.crt" d1)), d1)
]

module _ {W : Type 0} (ca : Authority W) where
  -- The signing request; the challenge is a file while it runs.
  unfoldable pub request_cert :
      (url id challenge csr : String) → Folder → W → Option String × (Folder × W)
  unfolding take_cert
  request_cert url id challenge csr d w =
      let d1 = set ".challenge" challenge d in
      let (answer, w1) = ca.post_csr url id csr d1 w in
      let (cert, d2) = take_cert answer d1 in (cert, (d2, w1))

  unfoldable pub after_enroll :
      (url csr : String) → Option EnrollAnswer → Folder → W → Option String × (Folder × W)
  unfolding request_cert
  after_enroll url csr none d w = (none, (d, w))
  after_enroll url csr (some given) d w = elim (truthy given.enrollment_id) [
    | none ↦ (none, (d, w))
    | some id ↦ elim given.challenge [
      | none ↦ (none, (d, w))
      | some challenge ↦ request_cert url id challenge csr d w
    ]
  ]

  unfoldable pub enroll_at : (url identity csr : String) → Folder → W → Option String × (Folder × W)
  unfolding after_enroll
  enroll_at url identity csr d w =
      let (answer, w1) = ca.post_enroll url identity d w in after_enroll url csr answer d w1

  unfoldable pub obtain :
      Openssl
      → (identity : String) → CaEnrollUrl
      → (csr : String) → Folder
      → W
      → Option String × (Folder × W)
  unfolding enroll_at
  obtain openssl identity undefined csr d w = (none, (d, w))
  obtain openssl identity null csr d w =
      let (cert, d1) = sign_csr openssl csr 365 d in (cert, (d1, w))
  obtain openssl identity (at_url url) csr d w =
      if url == "" then (none, (d, w)) else enroll_at url identity csr d w

  module _ (openssl : Openssl) (calendar : Calendar) (options : RenewOptions) where
    unfoldable pub renew_in : (tmp : Folder) → Folder → W → Option RenewResult × (Folder × W)
    unfolding obtain install
    renew_in tmp d w =
        let (csr, tmp1) = generate_key_and_csr openssl options.identity tmp in
        elim csr [
          | none ↦ (none, (d, w))
          | some request ↦
              let (cert, (d1, w1)) =
                obtain openssl options.identity options.ca_enroll_url request d w in
              elim cert [
                | none ↦ (none, (d1, w1))
                | some signed ↦
                    let (result, d2) =
                      install openssl calendar options.threshold_days signed tmp1 d1 in
                    (result, (d2, w1))
              ]
        ]

    -- The renewal, with `.renew-tmp` removed in the end.
    unfoldable pub renew : TlsDir → W → Option RenewResult × (TlsDir × W)
    unfolding renew_in
    renew t w =
        let (result, (d, w1)) = renew_in (or_else t.renew_tmp []) t.files w in
        (result, (record { files = d; renew_tmp = none }, w1))

    unfoldable pub renew_checked : Option Renewal → TlsDir → W → Option RenewResult × (TlsDir × W)
    unfolding renew
    renew_checked none t w = (none, (t, w))
    renew_checked (some check) t w =
        if not check.needs_renewal && not options.force
        then (some (as_result false check), (t, w))
        else renew t w

    unfoldable pub renew_if_needed : TlsDir → W → Option RenewResult × (TlsDir × W)
    unfolding renew_checked
    renew_if_needed t w =
        if has "server.crt" t.files
        then renew_checked
            (needs_renewal openssl calendar options.threshold_days (get "server.crt" t.files)) t w
        else renew t w
