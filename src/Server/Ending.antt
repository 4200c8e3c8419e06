-- ===== src/Server/Ending.antt =====
-- How main of cmd/server/main.go ends: what is deferred, and in which order it is done.
use mathlib.Core.List.{append-nil, append_assoc}
use ai_local.Prelude.{
  Bool, List, Map, Result, Text, [], ap, err, false, ok, refl, sym, true, ◌++◌, ◌∙◌, ◌∷◌, ◌≡◌,
}
use ai_local.Apml.{ApmlConfig}
use ai_local.Proxy.Rewrite.{Url}
use ai_local.Server.Main.{
  Action, Ending, ServerEvent, Failure, Fates, Flags, Packages, Run, at_return, bind_data_plane,
  back_up, deferring, did, ended, need, init_database, run_services, serve_until, shut_down,
  with_services, backed_up, backend_stopped, control_plane_bound, db_closed, drained, exits,
  going_on, grpc_bound, grpc_fails, grpc_stopped, no_database, no_schema, proxy_bound, proxy_fails,
  returned, signalled, worker_started, behind_cert, no_log, serve_or_generate, with_config,
  dir_made, generate_cert, no_credentials, no_data_directory, server_main,
}
use ai_local.Server.Control.{ControlError}
use ai_local.Server.Lifecycle.{does, winds_up}
use ai_local.Tls.{Files, CertError}
use ai_local.Apml.Yaml.{ParseError}
use mathlib.Core.Path.{subst}

-- A run that returns does `tail` last, and nothing that is deferred before; one that does not return
-- does nothing that is deferred.
abbrev pub IsOrderly : List Action → Ending → List Action → Type 0
IsOrderly tail returned acts =
    (before : List Action) × ((acts ≡ before ++ tail) × (does winds_up before ≡ false))
IsOrderly tail going_on acts = does winds_up acts ≡ false
IsOrderly tail (exits f) acts = does winds_up acts ≡ false

did-IsOrderly :
    (tail : List Action) (a : Action) (e : Ending) (acts : List Action)
    → winds_up a ≡ false
    → IsOrderly tail e acts
    → IsOrderly tail e (a ∷ acts)
unfolding does
did-IsOrderly tail a returned acts quiet (before, (e, h)) =
    (a ∷ before, (ap (λ xs. a ∷ xs) e, rw (quiet, h) refl))
did-IsOrderly tail a going_on acts quiet h = rw (quiet, h) refl
did-IsOrderly tail a (exits f) acts quiet h = rw (quiet, h) refl

deferring-IsOrderly :
    (tail : List Action) (a : Action) (e : Ending) (acts : List Action)
    → IsOrderly tail e acts
    → IsOrderly (tail ++ a ∷ []) e (acts ++ at_return a e)
deferring-IsOrderly tail a returned acts (before, (e, h)) =
    (before, (ap (λ xs. xs ++ a ∷ []) e ∙ append_assoc before tail (a ∷ []), h))
deferring-IsOrderly tail a going_on acts h =
    subst (λ xs. does winds_up xs ≡ false) (sym (append-nil acts)) h
deferring-IsOrderly tail a (exits f) acts h =
    subst (λ xs. does winds_up xs ≡ false) (sym (append-nil acts)) h

need-IsOrderly :
    (tail : List Action) (b : Bool) (f : Failure) (files : Files) (r : Run)
    → IsOrderly tail r.ending r.actions
    → IsOrderly tail (need b f files r).ending (need b f files r).actions
unfolding need ended does
need-IsOrderly tail true f files r h = h
need-IsOrderly tail false f files r h = refl

module _ (p : Packages) (f : Flags) where
  shut_down-IsOrderly :
      (cfg : ApmlConfig) (events : List ServerEvent) (files : Files)
      → IsOrderly
          (grpc_stopped ∷ [])
          (shut_down p f cfg events files).ending
          (shut_down p f cfg events files).actions
  unfolding shut_down did ended does
  shut_down-IsOrderly cfg [] files = refl
  shut_down-IsOrderly cfg (grpc_bound ∷ events) files =
      did-IsOrderly (grpc_stopped ∷ []) (control_plane_bound f.grpc_addr) _ _ refl
        (shut_down-IsOrderly cfg events files)
  shut_down-IsOrderly cfg (proxy_bound ∷ events) files =
      did-IsOrderly (grpc_stopped ∷ []) (bind_data_plane p f) _ _ refl
        (shut_down-IsOrderly cfg events files)
  shut_down-IsOrderly cfg (grpc_fails ∷ events) files = refl
  shut_down-IsOrderly cfg (proxy_fails ∷ events) files = refl
  shut_down-IsOrderly cfg (signalled ∷ events) files = shut_down-IsOrderly cfg events files
  shut_down-IsOrderly cfg (drained ∷ events) files = ([], (refl, refl))
  shut_down-IsOrderly cfg (backed_up timestamp latest history ∷ events) files =
      shut_down-IsOrderly cfg events (back_up p f cfg timestamp latest history files)

  serve_until-IsOrderly :
      (cfg : ApmlConfig) (events : List ServerEvent) (files : Files)
      → IsOrderly
          (grpc_stopped ∷ [])
          (serve_until p f cfg events files).ending
          (serve_until p f cfg events files).actions
  unfolding serve_until did ended does
  serve_until-IsOrderly cfg [] files = refl
  serve_until-IsOrderly cfg (grpc_bound ∷ events) files =
      did-IsOrderly (grpc_stopped ∷ []) (control_plane_bound f.grpc_addr) _ _ refl
        (serve_until-IsOrderly cfg events files)
  serve_until-IsOrderly cfg (proxy_bound ∷ events) files =
      did-IsOrderly (grpc_stopped ∷ []) (bind_data_plane p f) _ _ refl
        (serve_until-IsOrderly cfg events files)
  serve_until-IsOrderly cfg (grpc_fails ∷ events) files = refl
  serve_until-IsOrderly cfg (proxy_fails ∷ events) files = refl
  serve_until-IsOrderly cfg (signalled ∷ events) files = shut_down-IsOrderly cfg events files
  serve_until-IsOrderly cfg (drained ∷ events) files = serve_until-IsOrderly cfg events files
  serve_until-IsOrderly cfg (backed_up timestamp latest history ∷ events) files =
      serve_until-IsOrderly cfg events (back_up p f cfg timestamp latest history files)

  with_services-IsOrderly :
      (w : Fates) (cfg : ApmlConfig) (c : Result ControlError p.Credentials)
      (targets : Result Text (Map Url)) (files : Files)
      → IsOrderly
          (grpc_stopped ∷ backend_stopped ∷ [])
          (with_services p f w cfg c targets files).ending
          (with_services p f w cfg c targets files).actions
  unfolding with_services deferring ended does
  with_services-IsOrderly w cfg (err e) targets files = refl
  with_services-IsOrderly w cfg (ok c) (err path) files = refl
  with_services-IsOrderly w cfg (ok c) (ok targets) files =
      deferring-IsOrderly (grpc_stopped ∷ []) backend_stopped _ _
        (serve_until-IsOrderly cfg w.events files)

  -- The last things that a run does which serves or generates.
  abbrev pub last_of : Bool → List Action
  last_of true = []
  last_of false = grpc_stopped ∷ backend_stopped ∷ db_closed ∷ []

  init_database-IsOrderly :
      (w : Fates) (cfg : ApmlConfig) (files : Files)
      → IsOrderly
          (last_of false)
          (init_database p f w cfg files).ending
          (init_database p f w cfg files).actions
  unfolding init_database run_services did deferring
  init_database-IsOrderly w cfg files =
      need-IsOrderly (last_of false) w.opens_db no_database files _ (
        need-IsOrderly (last_of false) _ no_schema files _ (
          did-IsOrderly (last_of false) _ _ _ refl (
            deferring-IsOrderly (grpc_stopped ∷ backend_stopped ∷ []) db_closed _ _ (
              did-IsOrderly (grpc_stopped ∷ backend_stopped ∷ []) worker_started _ _ refl
                (with_services-IsOrderly w cfg _ _ files)))))

  with_config-IsOrderly :
      (w : Fates) (r : Result ParseError ApmlConfig) (gen : Bool) (files : Files)
      → gen ≡ f.gen_cert_only
      → IsOrderly
          (last_of gen)
          (with_config p f w r files).ending
          (with_config p f w r files).actions
  unfolding with_config serve_or_generate generate_cert behind_cert ended does
  with_config-IsOrderly w (err e) true files h = refl
  with_config-IsOrderly w (err e) false files h = refl
  with_config-IsOrderly w (ok cfg) gen files h =
      need-IsOrderly (last_of gen) w.opens_log no_log files _ (
        subst
          (λ g.
            IsOrderly (last_of gen) (serve_or_generate p f w cfg g files).ending
              (serve_or_generate p f w cfg g files).actions)
          h (by_flag gen))
    where
      by_result :
          (r : Files × Result CertError (Unit {0}))
          → IsOrderly [] (behind_cert p f r).ending (behind_cert p f r).actions
      by_result (files', ok u) = ([], (refl, refl))
      by_result (files', err e) = refl

      by_flag :
          (g : Bool)
          → IsOrderly
              (last_of g)
              (serve_or_generate p f w cfg g files).ending
              (serve_or_generate p f w cfg g files).actions
      by_flag true = by_result _
      by_flag false =
          need-IsOrderly (last_of false) _ no_credentials files _
            (init_database-IsOrderly w cfg files)

  -- A run that main returns from ends as its defers ask. With -gen-cert nothing is wound up, since
  -- nothing was opened. Otherwise the last three things it does are to stop the control plane, to
  -- stop the usage backend and to close the database, in this order, and neither of the last two is
  -- done before. A run that does not return, in which a listener crashed for one, does neither of
  -- them.
  pub server_main-IsOrderly :
      (w : Fates) (files : Files)
      → IsOrderly
          (last_of f.gen_cert_only)
          (server_main p f w files).ending
          (server_main p f w files).actions
  unfolding server_main did
  server_main-IsOrderly w files =
      need-IsOrderly (last_of f.gen_cert_only) w.makes_dir no_data_directory files _ (
        did-IsOrderly (last_of f.gen_cert_only) (dir_made f.data_dir) _ _ refl
          (with_config-IsOrderly w _ f.gen_cert_only files refl))
