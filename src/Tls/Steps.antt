-- ===== src/Tls/Steps.antt =====
-- What writeCert and writeKey of internal/tls/cert.go leave on disk, each alone.
use ai_local.Prelude.{
  Option, Result, Text, [], arith, codes, err, false, lookup, lookup-insert, none, ok, refl, some,
  text_eq, text_eq_refl, true, ◌≡◌, ◌≢◌,
}
use ai_local.Tls.{
  WriteFate, CertError, Files, write_cert, write_key, key_behind, not_created, written, broken_off,
  is_there, cert_exists,
}

module _ (pem : Text → Text → Text) where
  pub write_cert_elsewhere :
      (fate : WriteFate) (path other der : Text) (files : Files)
      → text_eq path other ≡ false
      → lookup other (write_cert pem fate path der files).0 ≡ lookup other files
  unfolding write_cert
  write_cert_elsewhere not_created path other der files h = refl
  write_cert_elsewhere (broken_off part) path other der files h =
      ground (arith, lookup-insert path other part files)
  write_cert_elsewhere written path other der files h =
      ground (arith, lookup-insert path other (pem (codes "CERTIFICATE") der) files)

  pub write_key_elsewhere :
      (fate : WriteFate) (path other : Text) (key : Option Text) (files : Files)
      → text_eq path other ≡ false
      → lookup other (write_key pem fate path key files).0 ≡ lookup other files
  unfolding write_key
  write_key_elsewhere not_created path other key files h = refl
  write_key_elsewhere (broken_off part) path other none files h =
      ground (arith, lookup-insert path other [] files)
  write_key_elsewhere written path other none files h =
      ground (arith, lookup-insert path other [] files)
  write_key_elsewhere (broken_off part) path other (some key) files h =
      ground (arith, lookup-insert path other part files)
  write_key_elsewhere written path other (some key) files h =
      ground (arith, lookup-insert path other (pem (codes "PRIVATE KEY") key) files)

  pub key_behind_elsewhere :
      (fate : WriteFate) (path other : Text) (key : Option Text)
      (done : Files × Result CertError (Unit {0}))
      → text_eq path other ≡ false
      → lookup other (key_behind pem fate path key done).0 ≡ lookup other done.0
  unfolding key_behind
  key_behind_elsewhere fate path other key (files, ok u) h =
      write_key_elsewhere fate path other key files h
  key_behind_elsewhere fate path other key (files, err e) h = refl

  pub write_cert-ok :
      (fate : WriteFate) (path der : Text) (files : Files)
      → (write_cert pem fate path der files).1 ≡ ok tt
      → lookup path (write_cert pem fate path der files).0 ≡ some (pem (codes "CERTIFICATE") der)
  unfolding write_cert
  write_cert-ok not_created path der files h = absurd (cc)
  write_cert-ok (broken_off part) path der files h = absurd (cc)
  write_cert-ok written path der files h =
      ground
        (arith, lookup-insert path path (pem (codes "CERTIFICATE") der) files, text_eq_refl path)

  pub write_key-ok :
      (fate : WriteFate) (path : Text) (key : Option Text) (files : Files)
      → (write_key pem fate path key files).1 ≡ ok tt
      → (k : Text) × ((key ≡ some k)
          × (lookup path (write_key pem fate path key files).0
              ≡ some (pem (codes "PRIVATE KEY") k)))
  unfolding write_key
  write_key-ok not_created path key files h = absurd (cc)
  write_key-ok (broken_off part) path none files h = absurd (cc)
  write_key-ok written path none files h = absurd (cc)
  write_key-ok (broken_off part) path (some k) files h = absurd (cc)
  write_key-ok written path (some k) files h = (
    k,
    (
      refl,
      ground
          (arith, lookup-insert path path (pem (codes "PRIVATE KEY") k) files, text_eq_refl path),
    ),
  )

  pub key_behind-ok :
      (fate : WriteFate) (path : Text) (key : Option Text)
      (done : Files × Result CertError (Unit {0}))
      → (key_behind pem fate path key done).1 ≡ ok tt
      → (done.1 ≡ ok tt) × (key_behind pem fate path key done ≡ write_key pem fate path key done.0)
  unfolding key_behind
  key_behind-ok fate path key (files, ok tt) h = (refl, refl)
  key_behind-ok fate path key (files, err e) h = absurd (cc)

  -- A key file that was begun stays, with whatever got into it.
  pub write_key-is_there :
      (fate : WriteFate) (path : Text) (key : Option Text) (files : Files)
      → (fate ≢ not_created)
      → is_there (lookup path (write_key pem fate path key files).0) ≡ true
  unfolding write_key
  write_key-is_there not_created path key files h = absurd (h refl)
  write_key-is_there (broken_off part) path none files h =
      ground (arith, lookup-insert path path [] files, text_eq_refl path)
  write_key-is_there written path none files h =
      ground (arith, lookup-insert path path [] files, text_eq_refl path)
  write_key-is_there (broken_off part) path (some k) files h =
      ground (arith, lookup-insert path path part files, text_eq_refl path)
  write_key-is_there written path (some k) files h =
      ground (arith, lookup-insert path path (pem (codes "PRIVATE KEY") k) files, text_eq_refl path)

  -- A key file that breaks off is found by CertExists, though the key is not in it.
  write_key_half :
      (part cert_path key_path : Text) (key : Option Text) (files : Files)
      → text_eq key_path cert_path ≡ false
      → is_there (lookup cert_path files) ≡ true
      → ((write_key pem (broken_off part) key_path key files).1 ≢ ok tt)
        × (cert_exists cert_path key_path (write_key pem (broken_off part) key_path key files).0
            ≡ true)
  unfolding cert_exists write_key
  write_key_half part cert_path key_path key files apart h = (
    λ e. broken_off_fails key e,
    rw
        (
          write_key_elsewhere (broken_off part) key_path cert_path key files apart,
          h,
          write_key-is_there (broken_off part) key_path key files (λ e. cc),
        )
        refl,
  )
    where
      broken_off_fails :
          (key : Option Text) → (write_key pem (broken_off part) key_path key files).1 ≢ ok tt
      broken_off_fails none e = cc
      broken_off_fails (some k) e = cc
