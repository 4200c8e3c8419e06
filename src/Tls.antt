-- ===== src/Tls.antt =====
-- internal/tls/cert.go: the self-signed certificate of the data plane.
-- net/url, net, crypto/rsa, crypto/x509 and encoding/pem are parameters; the file system is a map
-- from paths to contents, and what befalls a write is an argument.
use ai_local.Prelude.{
  Bool, List, Map, Option, Result, Text, [], codes, err, false, has_prefix, if◌then◌else◌, insert,
  lookup, none, ok, some, text_eq, true, ℕ, ◌&&◌, ◌++◌, ◌+◌, ◌==◌, ◌>>=◌, ◌>>◌, ◌||◌, ◌∷◌,
}
use ai_local.Usage.Tables.{Time}
pub mod Steps
pub mod Written

-- What befalls a file that is created and written: it cannot be created, the write breaks off
-- behind some bytes, or nothing.
pub data WriteFate : Type 0 where
  not_created written : WriteFate
  broken_off : Text → WriteFate

-- The host and the path of a URL.
pub record UrlParts : Type 0 where
  pub host : Text
  pub path : Text

pub data KeyUsage : Type 0 where
  key_encipherment digital_signature : KeyUsage

pub data ExtKeyUsage : Type 0 where
  server_auth : ExtKeyUsage

pub record Template : Type 0 where
  pub serial_number : ℕ
  pub organization : Text
  pub common_name : Text
  pub not_before : Time
  pub not_after : Time
  pub key_usage : List KeyUsage
  pub ext_key_usage : List ExtKeyUsage
  pub basic_constraints_valid : Bool
  pub ip_addresses : List Text
  pub dns_names : List Text

pub data CertError : Type 0 where
  bad_uri no_host : Text → CertError
  no_private_key no_serial_number no_certificate : CertError
  cert_not_created cert_not_written key_not_created key_not_marshalled key_not_written :
      Text → CertError

-- strings.Contains(s, part)
unfoldable pub contains : Text → Text → Bool
contains [] part = text_eq part []
contains (c ∷ s) part = has_prefix (c ∷ s) part || contains s part

-- t.AddDate(10, 0, 0): ten years after a 29 February there is none.
unfoldable pub ten_years_after : Time → Time
ten_years_after t =
    if t.month == 2 && t.day == 29
    then record t { year = t.year + 10; month = 3; day = 1 }
    else record t { year = t.year + 10 }

-- `if err != nil { return … }`
abbrev pub or_fail {ℓ} : {A : Type ℓ} → CertError → Option A → Result CertError A
or_fail e none = err e
or_fail e (some a) = ok a

abbrev pub Files : Type 0
Files = Map Text

-- os.Stat finds the file.
abbrev pub is_there : Option Text → Bool
is_there none = false
is_there (some content) = true

-- CertExists
unfoldable pub cert_exists : Text → Text → Files → Bool
cert_exists cert_path key_path files =
    is_there (lookup cert_path files) && is_there (lookup key_path files)

module _ (parse_url : Text → Option UrlParts) (split_host_port : Text → Option Text) where
  -- The host of a parsed URI, or its path where it has no host, without the port.
  unfoldable pub host_of : Text → Option UrlParts → Result CertError Text
  host_of base_uri none = err (bad_uri base_uri)
  host_of base_uri (some u) =
      let host = if text_eq u.host [] then u.path else u.host in
      if text_eq host []
      then err (no_host base_uri)
      else elim (split_host_port host) [ none ↦ ok host | some h ↦ ok h ]

  unfoldable pub extract_host : Text → Result CertError Text
  extract_host base_uri =
      let uri =
        if contains base_uri (codes "://") then base_uri else codes "https://" ++ base_uri in
      host_of uri (parse_url uri)

-- The fields that do not depend on what the host is. The clock is read once for each end.
unfoldable pub base_template : Text → ℕ → Time → Time → Template
base_template host serial now then_now = record {
  serial_number = serial;
  organization = codes "ai.local Edge Proxy";
  common_name = host;
  not_before = now;
  not_after = ten_years_after then_now;
  key_usage = key_encipherment ∷ digital_signature ∷ [];
  ext_key_usage = server_auth ∷ [];
  basic_constraints_valid = true;
  ip_addresses = [];
  dns_names = [];
}

-- The alternative name: an address or a name.
unfoldable pub add_name : Text → Option Text → Template → Template
add_name host (some ip) t = record t { ip_addresses = ip ∷ [] }
add_name host none t = record t { dns_names = host ∷ [] }

unfoldable pub cert_template : (Text → Option Text) → Text → ℕ → Time → Time → Template
cert_template parse_ip host serial now then_now =
    add_name host (parse_ip host) (base_template host serial now then_now)

module _ (pem : Text → Text → Text) where
  unfoldable pub write_cert : WriteFate → Text → Text → Files → Files × Result CertError (Unit {0})
  write_cert not_created path der files = (files, err (cert_not_created path))
  write_cert (broken_off part) path der files =
      (insert path part files, err (cert_not_written path))
  write_cert written path der files = (insert path (pem (codes "CERTIFICATE") der) files, ok tt)

  -- The file is there, and empty, before the key is marshalled.
  unfoldable pub write_key :
      WriteFate → Text → Option Text → Files → Files × Result CertError (Unit {0})
  write_key not_created path marshalled files = (files, err (key_not_created path))
  write_key fate path none files = (insert path [] files, err (key_not_marshalled path))
  write_key (broken_off part) path (some key) files =
      (insert path part files, err (key_not_written path))
  write_key written path (some key) files =
      (insert path (pem (codes "PRIVATE KEY") key) files, ok tt)

  -- The key file is not begun if the certificate fails.
  unfoldable pub key_behind :
      WriteFate
      → Text
      → Option Text
      → Files × Result CertError (Unit {0})
      → Files × Result CertError (Unit {0})
  key_behind fate path marshalled (files, ok u) = write_key fate path marshalled files
  key_behind fate path marshalled (files, err e) = (files, err e)

-- What the cryptographic packages give: a private key, a serial number, the certificate for a
-- template, and the key as PKCS 8.
pub record Crypto : Type 1 where
  pub PrivateKey : Type 0
  pub generate_key : Option PrivateKey
  pub draw_serial : Option ℕ
  pub create_certificate : Template → PrivateKey → Option Text
  pub marshal : PrivateKey → Option Text

module _ (pem : Text → Text → Text) (c : Crypto) where
  -- Nothing is written where nothing was made.
  unfoldable pub write_pair :
      WriteFate
      → WriteFate
      → Text
      → Text
      → Files
      → Result CertError (Text × c.PrivateKey)
      → Files × Result CertError (Unit {0})
  write_pair cert_fate key_fate cert_path key_path files (err e) = (files, err e)
  write_pair cert_fate key_fate cert_path key_path files (ok (der, priv)) =
      key_behind pem key_fate key_path (c.marshal priv)
        (write_cert pem cert_fate cert_path der files)

module _ (parse_url : Text → Option UrlParts) (split_host_port : Text → Option Text)
    (parse_ip : Text → Option Text) (pem : Text → Text → Text) (c : Crypto) where
  open c use {PrivateKey, generate_key, draw_serial, create_certificate}

  -- What is made before anything is written: the certificate and the private key.
  unfoldable pub make_certificate : Text → Time → Time → Result CertError (Text × PrivateKey)
  make_certificate base_uri now then_now = do
    host ← extract_host parse_url split_host_port base_uri
    priv ← or_fail no_private_key generate_key
    serial ← or_fail no_serial_number draw_serial
    der ←
        or_fail no_certificate
          (create_certificate (cert_template parse_ip host serial now then_now) priv)
    ok (der, priv)

  unfoldable pub generate_self_signed_cert :
      WriteFate
      → WriteFate
      → Text
      → Text
      → Text
      → Time
      → Time
      → Files
      → Files × Result CertError (Unit {0})
  generate_self_signed_cert cert_fate key_fate base_uri cert_path key_path now then_now files =
      write_pair pem c cert_fate key_fate cert_path key_path files
        (make_certificate base_uri now then_now)
