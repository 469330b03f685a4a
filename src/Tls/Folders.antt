-- ===== src/Tls/Folders.antt =====
-- Which files signing and obtaining a certificate in src/tls.ts touch.
use inter_claude_connector.Base.{
  ℕ, String, ◌≡◌, refl, ◌∙◌, ◌≢◌, inl, inr, true, false, Option, none, some, List, [], ◌∷◌, arith,
  ◌==◌, eq_iff, if◌then◌else◌, Bool-cases, Option-cases, truthy, includes,
}
use inter_claude_connector.Dict.{get, set, delete}
use inter_claude_connector.Dict.Laws.{get-set, get-delete}
use inter_claude_connector.Tls.{Folder, Openssl, write, sign_csr}
use inter_claude_connector.Tls.Renewing.{
  EnrollAnswer, CsrAnswer, Authority, CaEnrollUrl, undefined, null, at_url, take_cert, request_cert,
  after_enroll, enroll_at, obtain,
}

pub get-write :
    (k j : String) (o : Option String) (d : Folder)
    → get j (write k o d)
      ≡ (if k == j then elim o [ none ↦ get j d | some c ↦ some c ] else get j d)
unfolding write
get-write k j none d = ground arith
get-write k j (some c) d = get-set k j c d

get_cleaned :
    (csr : String) (out serial : Option String) (d : Folder) (name : String)
    → name ≢ "ca.srl"
    → get name (
        delete ".tmp-cert.pem" (
          delete ".tmp-csr.pem"
            (write "ca.srl" serial (write ".tmp-cert.pem" out (set ".tmp-csr.pem" csr d)))))
      ≡ (if includes (".tmp-csr.pem" ∷ ".tmp-cert.pem" ∷ []) name then none else get name d)
get_cleaned csr out serial d name h =
    rw (get-delete, get-delete, get-write, get-write, get-set)
      (ground (arith, eq_iff "ca.srl" name))

-- The certificate authority signs without touching another file than its serial numbers, whether
-- openssl fails or not, and its temporary files are gone.
pub get-sign_csr :
    (openssl : Openssl) (csr : String) (days : ℕ) (d : Folder) (name : String)
    → name ≢ "ca.srl"
    → get name (sign_csr openssl csr days d).1
      ≡ (if includes (".tmp-csr.pem" ∷ ".tmp-cert.pem" ∷ []) name then none else get name d)
unfolding sign_csr
get-sign_csr openssl csr days d name h = get_cleaned csr _ _ d name h

-- Between two states of a directory only the files of these names differ.
abbrev pub Touches : List String → Folder → Folder → Type 0
Touches names d d' = (k : String) → includes names k ≡ false → get k d' ≡ get k d

module _ (names : List String) where
  not_included :
      (name k : String)
      → includes names name ≡ true
      → includes names k ≡ false
      → (name == k) ≡ false
  not_included name k h n = ground (arith, eq_iff name k)

  set-Touches :
      (name content : String) (d : Folder)
      → includes names name ≡ true
      → Touches names d (set name content d)
  set-Touches name content d h k n = rw (get-set, not_included name k h n) refl

  delete-Touches :
      (name : String) (d : Folder) → includes names name ≡ true → Touches names d (delete name d)
  delete-Touches name d h k n = rw (get-delete, not_included name k h n) refl

  write-Touches :
      (name : String) (o : Option String) (d : Folder)
      → includes names name ≡ true
      → Touches names d (write name o d)
  write-Touches name o d h k n = rw (get-write, not_included name k h n) refl

-- What obtaining a certificate writes.
abbrev pub scratch : List String
scratch = ".challenge" ∷ "ca.crt" ∷ "ca.srl" ∷ ".tmp-csr.pem" ∷ ".tmp-cert.pem" ∷ []

sign_csr-Touches :
    (openssl : Openssl) (csr : String) (days : ℕ) (d : Folder)
    → Touches scratch d (sign_csr openssl csr days d).1
sign_csr-Touches openssl csr days d k n =
    ground (arith, get-sign_csr openssl csr days d k, eq_iff "ca.srl" k)

take_cert-Touches :
    (answer : Option CsrAnswer) (d : Folder) → Touches scratch d (take_cert answer d).1
unfolding take_cert
take_cert-Touches none d k n = refl
take_cert-Touches (some answer) d k n = ground (
  arith,
  delete-Touches scratch ".challenge" d refl k n,
  write-Touches scratch "ca.crt" (truthy answer.ca_cert) (delete ".challenge" d) refl k n,
)

module _ {W : Type 0} (ca : Authority W) where
  request_cert-Touches :
      (url id challenge csr : String) (d : Folder) (w : W)
      → Touches scratch d (request_cert ca url id challenge csr d w).1.0
  unfolding request_cert
  request_cert-Touches url id challenge csr d w k n =
      let d1 = set ".challenge" challenge d in
      take_cert-Touches (ca.post_csr url id csr d1 w).0 d1 k n
      ∙ set-Touches scratch ".challenge" challenge d refl k n

  after_enroll-Touches :
      (url csr : String) (answer : Option EnrollAnswer) (d : Folder) (w : W)
      → Touches scratch d (after_enroll ca url csr answer d w).1.0
  unfolding after_enroll
  after_enroll-Touches url csr none d w k n = refl
  after_enroll-Touches url csr (some given) d w k n =
      elim (Option-cases (truthy given.enrollment_id)) [
        | inl e ↦ rw (after_enroll, e) refl
        | inr (id, e) ↦ elim (Option-cases given.challenge) [
          | inl c ↦ rw (after_enroll, e, c) refl
          | inr (challenge, c) ↦
              rw (after_enroll, e, c) (request_cert-Touches url id challenge csr d w k n)
        ]
      ]

  pub obtain-Touches :
      (openssl : Openssl) (identity : String) (at : CaEnrollUrl) (csr : String) (d : Folder) (w : W)
      → Touches scratch d (obtain ca openssl identity at csr d w).1.0
  unfolding obtain enroll_at
  obtain-Touches openssl identity undefined csr d w k n = refl
  obtain-Touches openssl identity null csr d w k n = sign_csr-Touches openssl csr 365 d k n
  obtain-Touches openssl identity (at_url address) csr d w k n = elim (Bool-cases (address == "")) [
    | inl e ↦ rw (obtain, e) refl
    | inr e ↦
        rw (obtain, e)
          (after_enroll-Touches address csr (ca.post_enroll address identity d w).0 d
            (ca.post_enroll address identity d w).1 k n)
  ]
