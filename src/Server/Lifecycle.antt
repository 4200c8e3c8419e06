-- ===== src/Server/Lifecycle.antt =====
-- When main of cmd/server/main.go binds its listeners, and how it ends.
use ai_local.Prelude.{
  Bool, List, Result, [], arith, err, false, lookup, ok, refl, sym, true, ◌++◌, ◌||◌, ◌∙◌, ◌∷◌, ◌≡◌,
}
use ai_local.Server.Main.{
  Action, Ending, Failure, Run, at_return, deferring, ended, need, backend_stopped,
  control_plane_bound, data_plane_bound, db_closed, db_opened, dir_made, exits, going_on,
  grpc_stopped, returned, worker_started, Fates, Flags, Packages, did, generate_cert, behind_cert,
  init_database, load_config, no_credentials, no_data_directory, resolve_cert_paths,
  resolve_config_path, serve_or_generate, server_main, with_config, no_log,
}
use ai_local.Tls.{Files, CertError, cert_exists}
use ai_local.Apml.{ApmlConfig}
use ai_local.Apml.Yaml.{ParseError}
use ai_local.Apml.Valid.{IsValid}
use ai_local.Apml.Parsed.{parse_sound}

-- A listener is bound.
abbrev pub binds : Action → Bool
binds (control_plane_bound addr) = true
binds (data_plane_bound addr cert key) = true
binds (dir_made path) = false
binds (db_opened path) = false
binds worker_started = false
binds grpc_stopped = false
binds backend_stopped = false
binds db_closed = false

-- One of the two deferred calls.
abbrev pub winds_up : Action → Bool
winds_up (control_plane_bound addr) = false
winds_up (data_plane_bound addr cert key) = false
winds_up (dir_made path) = false
winds_up (db_opened path) = false
winds_up worker_started = false
winds_up grpc_stopped = false
winds_up backend_stopped = true
winds_up db_closed = true

unfoldable pub does : (Action → Bool) → List Action → Bool
does test [] = false
does test (a ∷ acts) = test a || does test acts

does-append :
    (test : Action → Bool) (acts bs : List Action)
    → does test (acts ++ bs) ≡ (does test acts || does test bs)
unfolding does
does-append test [] bs = refl
does-append test (a ∷ acts) bs = ground (arith, does-append test acts bs)

-- The runs that start nothing but what stands behind the guard.
need-does :
    (test : Action → Bool) (b : Bool) (e : Failure) (files : Files) (r : Run)
    → does test (need b e files r).actions ≡ true
    → (b ≡ true) × (does test r.actions ≡ true)
unfolding need ended does
need-does test true e files r h = (refl, h)
need-does test false e files r h = absurd (cc)

deferring-does :
    (test : Action → Bool) (a : Action) (r : Run)
    → test a ≡ false
    → does test (deferring a r).actions ≡ true
    → does test r.actions ≡ true
unfolding deferring does
deferring-does test a r quiet h =
    by_ending r.ending (sym (does-append test r.actions (at_return a r.ending)) ∙ h)
  where
    by_ending :
        (e : Ending)
        → (does test r.actions || does test (at_return a e)) ≡ true
        → does test r.actions ≡ true
    by_ending returned q = ground arith
    by_ending going_on q = ground arith
    by_ending (exits f) q = ground arith

-- What must hold before a listener is bound: main serves, the configuration was read and is valid,
-- and the certificate and its key are there.
pub record IsReady (p : Packages) (f : Flags) (files : Files) : Type 0 where
  pub config : ApmlConfig
  pub loaded : load_config p (resolve_config_path p f) files ≡ ok config
  pub valid : IsValid config
  pub credentials :
      cert_exists (resolve_cert_paths p f.data_dir).0 (resolve_cert_paths p f.data_dir).1 files
      ≡ true
  pub serves : f.gen_cert_only ≡ false

module _ (p : Packages) (f : Flags) (w : Fates) where
  behind_cert-binds :
      (r : Files × Result CertError (Unit {0})) → does binds (behind_cert p f r).actions ≡ true → ⊥
  unfolding behind_cert ended does
  behind_cert-binds (files, ok u) h = cc
  behind_cert-binds (files, err e) h = cc

  serve_or_generate-binds :
      (cfg : ApmlConfig) (gen : Bool) (files : Files)
      → does binds (serve_or_generate p f w cfg gen files).actions ≡ true
      → (cert_exists (resolve_cert_paths p f.data_dir).0 (resolve_cert_paths p f.data_dir).1 files
          ≡ true)
        × (gen ≡ false)
  unfolding serve_or_generate generate_cert
  serve_or_generate-binds cfg true files h = absurd (behind_cert-binds _ h)
  serve_or_generate-binds cfg false files h =
      ((need-does binds _ no_credentials files (init_database p f w cfg files) h).0, refl)

  -- Whenever main has bound a listener, it serves, the configuration was read and is valid, and the
  -- certificate and its key were there.
  pub server_main-IsReady :
      (files : Files) → does binds (server_main p f w files).actions ≡ true → IsReady p f files
  unfolding server_main with_config did does ended load_config
  server_main-IsReady files h =
      by_config (load_config p (resolve_config_path p f) files) refl
        (need-does binds w.makes_dir no_data_directory files _ h).1
    where
      by_config :
          (r : Result ParseError ApmlConfig)
          → load_config p (resolve_config_path p f) files ≡ r
          → does binds (with_config p f w r files).actions ≡ true
          → IsReady p f files
      by_config (err e) loaded q = absurd (cc)
      by_config (ok cfg) loaded q =
          let behind =
            serve_or_generate-binds cfg f.gen_cert_only files
              (need-does binds w.opens_log no_log files
                (serve_or_generate p f w cfg f.gen_cert_only files) q).1 in
          record {
            config = cfg;
            loaded = loaded;
            valid =
                (parse_sound p.yaml p.load (lookup (resolve_config_path p f) files) cfg loaded).0;
            credentials = behind.0;
            serves = behind.1;
          }
