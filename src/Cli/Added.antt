-- ===== src/Cli/Added.antt =====
-- A key that the command line has added works.
use mathlib.Core.Path.{subst}
use ai_local.Prelude.{
  Bool, Bool-cases, List, Option, Option-cases, Result, Text, [], ap, codes, err, false,
  if◌then◌else◌, inl, inr, lookup, lookup-insert, none, ok, ok-injective, refl, some, sym, text_eq,
  text_eq_refl, trim_space, true, ℕ, ◌∷◌, ◌≡◌,
}
use ai_local.Apml.{ApmlConfig, RouteConfig}
use ai_local.Keystore.{
  Store, KeyRecord, AddError, add_key, register, find_duplicate, list_keys, get_key_by_internal,
  make_record, store_record,
}
use ai_local.Admin.{AddKeyRequest, serve_add_key, add_to_route, add_answer, AdminError}
use ai_local.Cli.Output.{Output, fails_with}
use ai_local.Cli.Dispatch.{
  cli_main, generated, handle_key_add, run_command, shown, submit_key, typed_add,
}
use ai_local.Cli.Command.{
  RpcError, Control, Surroundings, Wire, answered, call, connect_failed, command_of, key_command,
  reply, resource_command, unanswered, unreachable,
}
use ai_local.Cli.{CliError}
use ai_local.Usage.Tables.{Time, Database}

-- The record that a request asks for, which its internal key finds.
pub record IsStoredFor (sha256 : Text → List ℕ) (req : AddKeyRequest) (r : KeyRecord) (s : Store)
    : Type 0 where
  pub on_route : r.route ≡ req.route
  pub with_key : r.real_key ≡ req.real_key
  pub with_alias : r.alias ≡ req.alias
  pub found : get_key_by_internal sha256 r.internal_key s ≡ some r

module _ (sha256 : Text → List ℕ) where
  add_key-ok :
      (id : Option Text) (entropy : Option (List ℕ)) (req : AddKeyRequest) (s : Store)
      (r : KeyRecord)
      → (add_key sha256 id entropy req.route req.real_key req.alias s).1 ≡ ok r
      → IsStoredFor sha256 req r (add_key sha256 id entropy req.route req.real_key req.alias s).0
  unfolding add_key register make_record store_record get_key_by_internal
  add_key-ok id entropy req s r h =
      elim (Option-cases (find_duplicate req.route req.real_key (list_keys s))) [
        | inl n ↦ rw (n, add_key) (by_draw id entropy (rw (n, add_key) at h))
        | inr (x, n) ↦ absurd (cc (rw (n, add_key) at h))
      ]
    where
      by_draw :
          (i : Option Text) (b : Option (List ℕ))
          → (register sha256 i b req.route req.real_key req.alias s).1 ≡ ok r
          → IsStoredFor sha256 req r (register sha256 i b req.route req.real_key req.alias s).0
      by_draw none b h = cc
      by_draw (some i) none h = cc
      by_draw (some i) (some b) h =
          let new = make_record sha256 i b req.route req.real_key req.alias in
          let same : new ≡ r = ok-injective h in
          rw (← same) (record {
            on_route = refl;
            with_key = refl;
            with_alias = refl;
            found = rw (lookup-insert, text_eq_refl) refl;
          })

  add_answer-ok :
      (a : Store × Result AddError KeyRecord) (key : Text)
      → (add_answer a).1 ≡ ok key
      → (r : KeyRecord) × (a.1 ≡ ok r) × (r.internal_key ≡ key) × ((add_answer a).0 ≡ a.0)
  unfolding add_answer
  add_answer-ok (t, ok r) key h = (r, refl, ok-injective h, refl)
  add_answer-ok (t, err e) key h = cc

  serve_add_key-ok :
      (cfg : ApmlConfig) (id : Option Text) (entropy : Option (List ℕ)) (req : AddKeyRequest)
      (s : Store) (key : Text)
      → (serve_add_key sha256 cfg id entropy req s).1 ≡ ok key
      → (r : KeyRecord) × (r.internal_key ≡ key)
        × IsStoredFor sha256 req r (serve_add_key sha256 cfg id entropy req s).0
  unfolding serve_add_key add_to_route
  serve_add_key-ok cfg id entropy req s key h = by_route (lookup req.route cfg.routes) h
    where
      by_route :
          (o : Option RouteConfig)
          → (add_to_route sha256 o id entropy req s).1 ≡ ok key
          → (r : KeyRecord) × (r.internal_key ≡ key)
            × IsStoredFor sha256 req r (add_to_route sha256 o id entropy req s).0
      by_route none h = cc
      by_route (some c) h = elim (Bool-cases (text_eq (trim_space req.real_key) [])) [
        | inl b ↦ absurd (cc (rw b at h))
        | inr b ↦
            let (r, e, k, t) =
              add_answer-ok (add_key sha256 id entropy req.route req.real_key req.alias s) key
                (rw b at h) in
            rw b (r, k, subst (IsStoredFor sha256 req r) (sym t) (add_key-ok id entropy req s r e))
      ]

module _ (sha256 : Text → List ℕ) (align : Text → Text) (describe : RpcError → Text)
    (describe_options : CliError → Text) (help : Text) (timestamp : Time → Text) (cfg : ApmlConfig)
    (db : Database) where
  shown_ok :
      {A : Type 0} (wire : Wire) (f : Control → Control × Result AdminError A) (c : Control)
      (print : A → Output)
      → (shown sha256 align describe describe_options help timestamp cfg db print
          (call wire f c)).1.status
        ≡ 0
      → (a : A) × ((f c).1 ≡ ok a)
        × (shown sha256 align describe describe_options help timestamp cfg db print (call wire f c)
            ≡ ((f c).0, print a))
  shown_ok unreachable f c print h = cc
  shown_ok unanswered f c print h = cc
  shown_ok {A} answered f c print h = by_answer (f c) h
    where
      by_answer :
          (m : Control × Result AdminError A)
          → (shown sha256 align describe describe_options help timestamp cfg db print
              (reply m)).1.status
            ≡ 0
          → (a : A) × (m.1 ≡ ok a)
            × (shown sha256 align describe describe_options help timestamp cfg db print (reply m)
                ≡ (m.0, print a))
      by_answer (d, ok a) h = (a, refl, refl)
      by_answer (d, err e) h = cc

  abbrev add_run : List Text → Surroundings → Control → Control × Output
  add_run args w c = cli_main sha256 align describe describe_options help timestamp cfg db args w c

  -- What a key that was typed and stored leaves.
  abbrev pub IsAdded : Text → Surroundings → Control × Output → Type 0
  IsAdded route w out =
      (real_key : Text) × (alias : Text) × (r : KeyRecord) × (w.real_key ≡ ok real_key)
      × (w.alias ≡ ok alias)
      × IsStoredFor sha256 (record { route = route; real_key = real_key; alias = alias }) r
          out.0.store
      × (out.1.stdout
          ≡ generated sha256 align describe describe_options help timestamp cfg db r.internal_key)

  typed_add-IsAdded :
      (route : Text) (real_key alias : Result Text Text) (w : Surroundings) (c : Control)
      → real_key ≡ w.real_key
      → alias ≡ w.alias
      → (typed_add sha256 align describe describe_options help timestamp cfg db route real_key alias
          w c).1.status
        ≡ 0
      → IsAdded route w (
          typed_add sha256 align describe describe_options help timestamp cfg db route real_key
            alias w c)
  unfolding typed_add submit_key
  typed_add-IsAdded route (err e) alias w c p q h = cc
  typed_add-IsAdded route (ok k) (err e) w c p q h = cc
  typed_add-IsAdded route (ok k) (ok a) w c p q h =
      let req : AddKeyRequest = record { route = route; real_key = k; alias = a } in
      let (key, e, out) = shown_ok w.wire _ c _ h in
      let (r, same, s) = serve_add_key-ok sha256 cfg w.id w.entropy req c.store key e in
      rw out (
        k,
        a,
        r,
        sym p,
        sym q,
        s,
        ap (generated sha256 align describe describe_options help timestamp cfg db) (sym same),
      )

  -- If `key add` on a route exits with status 0, then a key and an alias were typed, and the control
  -- plane holds a record of them for the route, which the internal key finds that is printed.
  pub key_add_works :
      (route : Text) (rest : List Text) (w : Surroundings) (c : Control)
      → (cli_main sha256 align describe describe_options help timestamp cfg db
          (codes "key" ∷ codes "add" ∷ route ∷ rest)
          w
          c).1.status
        ≡ 0
      → IsAdded route w (
          cli_main sha256 align describe describe_options help timestamp cfg db
            (codes "key" ∷ codes "add" ∷ route ∷ rest)
            w
            c)
  unfolding cli_main command_of resource_command key_command run_command handle_key_add text_eq
  key_add_works route rest w c h = by_client w.connects h
    where
      by_client :
          (connects : Bool)
          → (if connects
              then typed_add sha256 align describe describe_options help timestamp cfg db route
                  w.real_key w.alias w c
              else (c, fails_with (connect_failed w))).1.status
            ≡ 0
          → IsAdded route w (
              if connects
              then typed_add sha256 align describe describe_options help timestamp cfg db route
                  w.real_key w.alias w c
              else (c, fails_with (connect_failed w)))
      by_client true h = typed_add-IsAdded route w.real_key w.alias w c refl refl h
      by_client false h = cc
