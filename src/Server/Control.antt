-- ===== src/Server/Control.antt =====
-- grpc/tls.go and grpc/server.go: the credentials of the control plane, which live in memory only.
-- What the cryptographic packages give is that of Tls; x509_key_pair is tls.X509KeyPair.
use ai_local.Prelude.{
  Option, Result, Text, [], codes, err, none, ok, some, true, ℕ, ◌++◌, ◌>>=◌, ◌∷◌,
}
use ai_local.Logx.{Log, app_infof}
use ai_local.Tls.{Template, Crypto, key_encipherment, digital_signature, server_auth}
use ai_local.Usage.Tables.{Time}

pub data ControlError : Type 0 where
  no_rsa_key no_serial not_certified not_marshalled not_paired : ControlError

-- `if err != nil { return nil, … }`
abbrev pub or_error {ℓ} : {A : Type ℓ} → ControlError → Option A → Result ControlError A
or_error e none = err e
or_error e (some a) = ok a

-- The clock is read once for each end; `year_later` is a time 365 days behind the second reading.
unfoldable pub control_template : ℕ → Time → Time → Template
control_template serial now year_later = record {
  serial_number = serial;
  organization = codes "ai.local";
  common_name = codes "127.0.0.1";
  not_before = now;
  not_after = year_later;
  key_usage = key_encipherment ∷ digital_signature ∷ [];
  ext_key_usage = server_auth ∷ [];
  basic_constraints_valid = true;
  ip_addresses = [];
  dns_names = [];
}

module _ (pem : Text → Text → Text) (c : Crypto) {Credentials : Type 0}
    (x509_key_pair : Text → Text → Option Credentials) where
  unfoldable pub generate_ephemeral_grpc_tls_config : Time → Time → Result ControlError Credentials
  generate_ephemeral_grpc_tls_config now year_later = do
    priv ← or_error no_rsa_key c.generate_key
    serial ← or_error no_serial c.draw_serial
    der ←
        or_error not_certified (c.create_certificate (control_template serial now year_later) priv)
    key ← or_error not_marshalled (c.marshal priv)
    or_error not_paired
        (x509_key_pair (pem (codes "CERTIFICATE") der) (pem (codes "PRIVATE KEY") key))

  -- NewServer; the credentials stand for the server that is made with them.
  unfoldable pub new_server : Time → Time → Result ControlError Credentials
  new_server now year_later = generate_ephemeral_grpc_tls_config now year_later

unfoldable pub serve_error : Option Text → Option Text
serve_error none = none
serve_error (some e) = some (codes "gRPC control execution crash: " ++ e)

-- Start: what it logs, and its error. The two options are the errors of net.Listen and of Serve.
unfoldable pub start_control : Text → Option Text → Option Text → Log → Log × Option Text
start_control addr (some e) crash l =
    (l, some (codes "failed to open gRPC transport address " ++ addr ++ codes ": " ++ e))
start_control addr none crash l = (
  app_infof (codes "ai.local-control admin control-plane listening on gRPC: " ++ addr) l,
  serve_error crash,
)

-- Stop, over GracefulStop; a Server that holds no gRPC server is left alone.
unfoldable pub stop_control {ℓ κ} :
    {GrpcServer : Type ℓ} {World : Type κ}
    → (GrpcServer → World → World)
    → Option GrpcServer
    → World
    → World
stop_control graceful_stop none w = w
stop_control graceful_stop (some s) w = graceful_stop s w
