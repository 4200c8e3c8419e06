-- ===== src/Tests/Tls.antt =====
-- A certificate for a name, on an empty disk.
use ai_local.Prelude.{
  Option, Result, Text, [], codes, false, has_prefix, lookup, none, ok, refl, some, text_eq, true,
  ℕ, ◌++◌, ◌∷◌, ◌≡◌,
}
use ai_local.Tls.{
  Crypto, Files, UrlParts, WriteFate, cert_exists, cert_template, contains, extract_host,
  generate_self_signed_cert, CertError, base_template, add_name, ten_years_after, write_pair,
  write_cert, write_key, key_behind, host_of, make_certificate, written,
}
use ai_local.Tls.Written.{IsPair, generate_self_signed_cert-IsPair}
use ai_local.Usage.Tables.{Time}

abbrev noon : Time
noon = record { year = 2028; month = 2; day = 29; nanos = 0 }

abbrev parse_url : Text → Option UrlParts
parse_url uri = some (record { host = codes "ai.local:8443"; path = [] })

abbrev split_host_port : Text → Option Text
split_host_port host = some (codes "ai.local")

abbrev parse_ip : Text → Option Text
parse_ip host = none

abbrev pem : Text → Text → Text
pem kind der = kind ++ der

abbrev pub crypto : Crypto
crypto = record {
  PrivateKey = ℕ;
  generate_key = some 7;
  draw_serial = some 1;
  create_certificate = λ t k. some (t.common_name);
  marshal = λ k. some (k ∷ []);
}

abbrev base : Text
base = codes "https://ai.local:8443"

abbrev cert : Text
cert = codes "ai.local.crt"

abbrev key : Text
key = codes "ai.local.key"

made :
    make_certificate parse_url split_host_port parse_ip pem crypto base noon noon
    ≡ ok (codes "ai.local", 7)
unfolding make_certificate extract_host host_of cert_template contains has_prefix text_eq add_name
    base_template
made = refl

-- There is no 29 February ten years on.
ends_in_march :
    (cert_template parse_ip (codes "ai.local") 1 noon noon).not_after
    ≡ record { year = 2038; month = 3; day = 1; nanos = 0 }
unfolding cert_template base_template add_name ten_years_after
ends_in_march = refl

abbrev after : WriteFate → Files × Result CertError (Unit {0})
after key_fate =
    generate_self_signed_cert parse_url split_host_port parse_ip pem crypto written key_fate base
      cert key noon noon []

apart : text_eq key cert ≡ false
unfolding text_eq
apart = refl

went_well : (after written).1 ≡ ok tt
unfolding generate_self_signed_cert make_certificate extract_host host_of cert_template contains
    has_prefix text_eq add_name base_template write_pair write_cert write_key key_behind
went_well = refl

generate_self_signed_cert-IsPair_example :
    (both : Text × ℕ) × ((make_certificate parse_url split_host_port parse_ip pem crypto base noon
          noon
        ≡ ok both)
      × IsPair pem crypto cert key both (after written).0
      × (cert_exists cert key (after written).0 ≡ true)
      × (lookup (codes "usage.db") (after written).0 ≡ none))
unfolding lookup
generate_self_signed_cert-IsPair_example =
    generate_self_signed_cert-IsPair parse_url split_host_port parse_ip pem crypto written written
      base cert key noon noon [] (codes "usage.db") apart (unfold text_eq in refl)
      (unfold text_eq in refl) went_well
