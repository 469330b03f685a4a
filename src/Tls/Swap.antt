-- ===== src/Tls/Swap.antt =====
-- What a renewal in src/tls.ts leaves of the key and the certificate that are there: both are replaced,
-- or neither.
use inter_claude_connector.Base.{
  ℕ, String, ◌≡◌, refl, ◌⊎◌, inl, inr, false, not, ◌&&◌, Option, none, some, [], arith, Bool-cases,
  Option-cases,
}
use inter_claude_connector.Dict.{get, set, has}
use inter_claude_connector.Dict.Laws.{get-set}
use inter_claude_connector.Tls.{
  Folder, Openssl, generate_key_and_csr, Renewal, needs_renewal, Calendar,
}
use inter_claude_connector.Tls.Folders.{Touches, scratch, obtain-Touches}
use inter_claude_connector.Tls.Renewing.{
  TlsDir, Authority, RenewOptions, RenewResult, install, obtain, renew_in, renew, renew_checked,
  renew_if_needed,
}

abbrev pub Keeps : Folder → Folder → Type 0
Keeps d d' = (get "server.key" d' ≡ get "server.key" d) × (get "server.crt" d' ≡ get "server.crt" d)

abbrev pub Swapped : (key cert : String) → Folder → Type 0
Swapped key cert d = (get "server.key" d ≡ some key) × (get "server.crt" d ≡ some cert)

pub set-Swapped :
    (key cert : String) (d : Folder)
    → Swapped key cert (set "server.crt" cert (set "server.key" key d))
set-Swapped key cert d = (rw (get-set, get-set) refl, rw get-set refl)

-- The certificate is installed with the key that was made for it, or nothing is.
install_lem :
    (openssl : Openssl) (calendar : Calendar) (threshold : ℕ) (cert : String) (tmp d : Folder)
    → let (result, d') = install openssl calendar threshold cert tmp d in
      ((result ≡ none) × (d' ≡ d))
      ⊎ ((key : String) × (get "server.key" tmp ≡ some key) × Swapped key cert d')
unfolding install
install_lem openssl calendar threshold cert tmp d = elim (Option-cases (get "server.key" tmp)) [
  | inl e ↦ inl (rw (install, e) (refl, refl))
  | inr (key, e) ↦ inr (key, e, rw (install, e) (set-Swapped key cert d))
]

-- A directory has the key that was made for a request, and the certificate obtained for it.
pub record Renewed {W : Type 0} (ca : Authority W) (openssl : Openssl) (options : RenewOptions)
    (tmp d : Folder) (w : W) (d' : Folder) : Type 0 where
  pub key : String
  pub csr : String
  pub cert : String
  pub requested : (generate_key_and_csr openssl options.identity tmp).0 ≡ some csr
  pub made : get "server.key" (generate_key_and_csr openssl options.identity tmp).1 ≡ some key
  pub obtained : (obtain ca openssl options.identity options.ca_enroll_url csr d w).0 ≡ some cert
  pub swapped : Swapped key cert d'

abbrev pub Unchanged : Folder → Folder → Option RenewResult → Type 0
Unchanged d d' result = Keeps d d' × ((r : RenewResult) → result ≡ some r → r.renewed ≡ false)

-- The outcomes of a renewal of a directory without `.renew-tmp`.
pub record Outcome {W : Type 0} (ca : Authority W) (openssl : Openssl) (options : RenewOptions)
    (t : TlsDir) (w : W) (o : Option RenewResult × (TlsDir × W)) : Type 0 where
  pub cleaned : o.1.0.renew_tmp ≡ none
  pub settled :
      Unchanged t.files o.1.0.files o.0 ⊎ Renewed ca openssl options [] t.files w o.1.0.files

module _ {W : Type 0} (ca : Authority W) (openssl : Openssl) (calendar : Calendar)
    (options : RenewOptions) where
  Touches-Keeps : (d d' : Folder) → Touches scratch d d' → Keeps d d'
  Touches-Keeps d d' h = (h "server.key" refl, h "server.crt" refl)

  renew_in-Renewed :
      (tmp d : Folder) (w : W)
      → let (result, (d', w')) = renew_in ca openssl calendar options tmp d w in
        Unchanged d d' result ⊎ Renewed ca openssl options tmp d w d'
  unfolding renew_in
  renew_in-Renewed tmp d w =
      elim (Option-cases (generate_key_and_csr openssl options.identity tmp).0) [
        | inl e ↦ inl (rw (renew_in, e) ((refl, refl), λ r h. ground arith))
        | inr (csr, e) ↦
            let made = (generate_key_and_csr openssl options.identity tmp).1 in
            let (cert, (d1, w1)) =
              obtain ca openssl options.identity options.ca_enroll_url csr d w in
            let kept =
              Touches-Keeps d d1
                (obtain-Touches ca openssl options.identity options.ca_enroll_url csr d w) in
            elim (Option-cases cert) [
              | inl c ↦ inl (rw (renew_in, e, c) (kept, λ r h. ground arith))
              | inr (signed, c) ↦
                  elim (install_lem openssl calendar options.threshold_days signed made d1) [
                    | inl (failed, same) ↦
                        inl (rw (renew_in, e, c, failed, same) (kept, λ r h. ground arith))
                    | inr (key, k, new) ↦ inr (
                        rw (renew_in, e, c)
                          (record {
                            key = key;
                            csr = csr;
                            cert = signed;
                            requested = e;
                            made = k;
                            obtained = c;
                            swapped = new;
                          }))
                  ]
            ]
      ]

  renew-Outcome :
      (t : TlsDir) (w : W)
      → t.renew_tmp ≡ none
      → Outcome ca openssl options t w (renew ca openssl calendar options t w)
  unfolding renew
  renew-Outcome t w h =
      rw (renew, h) (record { cleaned = refl; settled = renew_in-Renewed [] t.files w })

  renew_checked-Outcome :
      (check : Option Renewal) (t : TlsDir) (w : W)
      → t.renew_tmp ≡ none
      → Outcome ca openssl options t w (renew_checked ca openssl calendar options check t w)
  unfolding renew_checked
  renew_checked-Outcome none t w h = record {
    cleaned = h;
    settled = inl ((refl, refl), λ r e. ground arith);
  }
  renew_checked-Outcome (some check) t w h =
      elim (Bool-cases (not check.needs_renewal && not options.force)) [
        | inl b ↦
            rw (renew_checked, b)
              (record { cleaned = h; settled = inl ((refl, refl), λ r e. ground arith) })
        | inr b ↦ rw (renew_checked, b) (renew-Outcome t w h)
      ]

  -- A renewal that starts without `.renew-tmp` ends without it, and either leaves the key and the
  -- certificate of the server as they were and does not claim to have renewed them, or has replaced
  -- both: by the key that was made for the request, and by the certificate obtained for that request.
  -- This holds whatever openssl and the authority do.
  pub renew_if_needed-Outcome :
      (t : TlsDir) (w : W)
      → t.renew_tmp ≡ none
      → Outcome ca openssl options t w (renew_if_needed ca openssl calendar options t w)
  unfolding renew_if_needed
  renew_if_needed-Outcome t w h = elim (Bool-cases (has "server.crt" t.files)) [
    | inl b ↦
        let check =
          needs_renewal openssl calendar options.threshold_days (get "server.crt" t.files) in
        rw (renew_if_needed, b) (renew_checked-Outcome check t w h)
    | inr b ↦ rw (renew_if_needed, b) (renew-Outcome t w h)
  ]
