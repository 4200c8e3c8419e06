-- ===== src/Tls/Written.antt =====
-- What GenerateSelfSignedCert of internal/tls/cert.go leaves on disk.
use ai_local.Prelude.{
  Option, Result, Text, ap, codes, err, false, lookup, ok, refl, some, text_eq, true, ◌∙◌, ◌≡◌,
}
use ai_local.Tls.{
  WriteFate, CertError, Crypto, Files, write_cert, write_pair, UrlParts, cert_exists,
  generate_self_signed_cert, make_certificate,
}
use mathlib.Core.Path.{subst}
use ai_local.Usage.Tables.{Time}
use ai_local.Tls.Steps.{
  write_cert_elsewhere, key_behind_elsewhere, write_cert-ok, write_key-ok, key_behind-ok,
}

-- Both files hold what was made: the certificate, and the key that belongs to it.
abbrev pub IsPair :
    (Text → Text → Text) → (c : Crypto) → Text → Text → Text × c.PrivateKey → Files → Type 0
IsPair pem c cert_path key_path (der, priv) files =
    (key : Text) × ((c.marshal priv ≡ some key)
      × (lookup cert_path files ≡ some (pem (codes "CERTIFICATE") der))
      × (lookup key_path files ≡ some (pem (codes "PRIVATE KEY") key)))

module _ (pem : Text → Text → Text) where
  module _ (c : Crypto) (cert_fate key_fate : WriteFate) (cert_path key_path : Text)
      (files : Files) where
    write_pair_elsewhere :
        (path : Text) (made : Result CertError (Text × c.PrivateKey))
        → text_eq cert_path path ≡ false
        → text_eq key_path path ≡ false
        → lookup path (write_pair pem c cert_fate key_fate cert_path key_path files made).0
          ≡ lookup path files
    unfolding write_pair
    write_pair_elsewhere path (err e) h h' = refl
    write_pair_elsewhere path (ok (der, priv)) h h' =
        key_behind_elsewhere pem key_fate key_path path (c.marshal priv)
          (write_cert pem cert_fate cert_path der files) h'
        ∙ write_cert_elsewhere pem cert_fate cert_path path der files h

    write_pair-ok :
        (made : Result CertError (Text × c.PrivateKey))
        → text_eq key_path cert_path ≡ false
        → (write_pair pem c cert_fate key_fate cert_path key_path files made).1 ≡ ok tt
        → (both : Text × c.PrivateKey) × ((made ≡ ok both)
            × IsPair pem c cert_path key_path both
                (write_pair pem c cert_fate key_fate cert_path key_path files made).0)
    unfolding write_pair
    write_pair-ok (err e) apart h = absurd (cc)
    write_pair-ok (ok (der, priv)) apart h =
        let fine =
          key_behind-ok pem key_fate key_path (c.marshal priv)
            (write_cert pem cert_fate cert_path der files) h in
        let wrote = write_cert pem cert_fate cert_path der files in
        let found =
          write_key-ok pem key_fate key_path (c.marshal priv) wrote.0
            (subst (λ r. r.1 ≡ ok tt) fine.1 h) in
        (
          (der, priv),
          (
            refl,
            (
              found.0,
              (
                found.1.0,
                key_behind_elsewhere pem key_fate key_path cert_path (c.marshal priv) wrote apart
                    ∙ write_cert-ok pem cert_fate cert_path der files fine.0,
                ap (λ r. lookup key_path r.0) fine.1 ∙ found.1.1,
              ),
            ),
          ),
        )

    IsPair-cert_exists :
        (both : Text × c.PrivateKey)
        → IsPair pem c cert_path key_path both files
        → cert_exists cert_path key_path files ≡ true
    unfolding cert_exists
    IsPair-cert_exists both (key, (e, cert, k)) = rw (cert, k) refl

-- What a run of GenerateSelfSignedCert leaves: the result of the calls that make a certificate, and
-- the files.
module _ (parse_url : Text → Option UrlParts) (split_host_port : Text → Option Text)
    (parse_ip : Text → Option Text) (pem : Text → Text → Text) (c : Crypto)
    (cert_fate key_fate : WriteFate) (base_uri cert_path key_path : Text) (now then_now : Time)
    (files : Files) where
  -- Where the certificate's path is not the key's, and GenerateSelfSignedCert returns nil: the
  -- certificate file holds the certificate that was made for the host of the base URI, the key file
  -- holds the private key it was made with, CertExists finds both, and any other path is as it was.
  pub generate_self_signed_cert-IsPair :
      (path : Text)
      → text_eq key_path cert_path ≡ false
      → text_eq cert_path path ≡ false
      → text_eq key_path path ≡ false
      → (generate_self_signed_cert parse_url split_host_port parse_ip pem c cert_fate key_fate
          base_uri cert_path key_path now then_now files).1
        ≡ ok tt
      → (both : Text × c.PrivateKey) × ((make_certificate parse_url split_host_port parse_ip pem c
              base_uri now then_now
            ≡ ok both)
          × IsPair pem c cert_path key_path both
              (generate_self_signed_cert parse_url split_host_port parse_ip pem c cert_fate key_fate
                base_uri cert_path key_path now then_now files).0
          × (cert_exists cert_path key_path
                (generate_self_signed_cert parse_url split_host_port parse_ip pem c cert_fate
                  key_fate base_uri cert_path key_path now then_now files).0
              ≡ true)
          × (lookup path
                (generate_self_signed_cert parse_url split_host_port parse_ip pem c cert_fate
                  key_fate base_uri cert_path key_path now then_now files).0
              ≡ lookup path files))
  unfolding generate_self_signed_cert
  generate_self_signed_cert-IsPair path apart away away' h =
      let made = make_certificate parse_url split_host_port parse_ip pem c base_uri now then_now in
      let r = write_pair-ok pem c cert_fate key_fate cert_path key_path files made apart h in
      let left = write_pair pem c cert_fate key_fate cert_path key_path files made in
      (
        r.0,
        (
          r.1.0,
          r.1.1,
          IsPair-cert_exists pem c cert_fate key_fate cert_path key_path left.0 r.0 r.1.1,
          write_pair_elsewhere pem c cert_fate key_fate cert_path key_path files path made away
              away',
        ),
      )
