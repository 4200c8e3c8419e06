-- ===== src/Cli/Effects.antt =====
-- What a run of the command line does to the control plane.
use ai_local.Prelude.{
  Bool, Bool-cases, List, Option, Option-cases, Result, Text, [], ap, err, false, if◌then◌else◌,
  inl, inr, lookup, none, ok, ok-injective, refl, some, text_eq, trim_space, true, ℕ, ◌∷◌, ◌≡◌, ◌≢◌,
}
use ai_local.Apml.{ApmlConfig, RouteConfig}
use ai_local.Keystore.{
  Store, KeyRecord, AddError, add_key, register, find_duplicate, list_keys, delete_key,
}
use ai_local.Admin.{
  AddKeyRequest, AdminError, serve_add_key, add_to_route, add_answer, configure_debug,
  serve_delete_key,
}
use ai_local.Cli.Output.{Output}
use ai_local.Cli.Dispatch.{
  shown, handle_debug_action, handle_key_add, handle_key_del, handle_key_list, handle_quota_list,
  handle_route_list, handle_stats_command, run_command, show_stats, submit_key, deletion, typed_add,
  cli_main,
}
use ai_local.Cli.Command.{
  RpcError, Control, Wire, answered, call, reply, unanswered, unreachable, Command, Surroundings,
  debug_action, key_add, key_del, key_list, no_route, no_uuid, quota_list, route_list, stats,
  usage_error, command_of,
}
use ai_local.Cli.{CliError, StatsCliOptions, parse_stats_options}
use ai_local.Usage.Tables.{Time, Database}
use ai_local.Cli.Output.{Output}

module _ (sha256 : Text → List ℕ) where
  add_key-failed :
      (id : Option Text) (entropy : Option (List ℕ)) (route real_key alias : Text) (s : Store)
      (e : AddError)
      → (add_key sha256 id entropy route real_key alias s).1 ≡ err e
      → (add_key sha256 id entropy route real_key alias s).0 ≡ s
  unfolding add_key register
  add_key-failed id entropy route real_key alias s e h =
      elim (Option-cases (find_duplicate route real_key (list_keys s))) [
        | inl n ↦ rw (n, add_key) (by_draw id entropy (rw (n, add_key) at h))
        | inr (r, n) ↦ rw (n, add_key) refl
      ]
    where
      by_draw :
          (i : Option Text) (b : Option (List ℕ))
          → (register sha256 i b route real_key alias s).1 ≡ err e
          → (register sha256 i b route real_key alias s).0 ≡ s
      by_draw none b h = refl
      by_draw (some i) none h = refl
      by_draw (some i) (some b) h = cc

  add_answer-failed :
      (a : Store × Result AddError KeyRecord) (s : Store) (e : AdminError)
      → ((f : AddError) → a.1 ≡ err f → a.0 ≡ s)
      → (add_answer a).1 ≡ err e
      → (add_answer a).0 ≡ s
  unfolding add_answer
  add_answer-failed (t, ok r) s e h p = cc
  add_answer-failed (t, err f) s e h p = h f refl

  -- A call of AddKey that is refused has changed nothing.
  serve_add_key-failed :
      (cfg : ApmlConfig) (id : Option Text) (entropy : Option (List ℕ)) (req : AddKeyRequest)
      (s : Store) (e : AdminError)
      → (serve_add_key sha256 cfg id entropy req s).1 ≡ err e
      → (serve_add_key sha256 cfg id entropy req s).0 ≡ s
  unfolding serve_add_key add_to_route
  serve_add_key-failed cfg id entropy req s e h = by_route (lookup req.route cfg.routes) h
    where
      by_route :
          (o : Option RouteConfig)
          → (add_to_route sha256 o id entropy req s).1 ≡ err e
          → (add_to_route sha256 o id entropy req s).0 ≡ s
      by_route none h = refl
      by_route (some c) h = elim (Bool-cases (text_eq (trim_space req.real_key) [])) [
        | inl b ↦ rw b refl
        | inr b ↦ rw b (
            add_answer-failed (add_key sha256 id entropy req.route req.real_key req.alias s) s e
              (λ f p. add_key-failed id entropy req.route req.real_key req.alias s f p) (rw b at h))
      ]

delete_key-failed :
    (uid : Text) (s : Store) → (delete_key uid s).1 ≡ false → (delete_key uid s).0 ≡ s
unfolding delete_key
delete_key-failed uid s h = elim (Option-cases (lookup uid s.keys)) [
  | inl n ↦ rw (n, delete_key) refl
  | inr (r, n) ↦ absurd (cc (rw (n, delete_key) at h))
]

module _ (sha256 : Text → List ℕ) (align : Text → Text) (describe : RpcError → Text)
    (describe_options : CliError → Text) (help : Text) (timestamp : Time → Text) (cfg : ApmlConfig)
    (db : Database) where
  abbrev show_with : {A : Type 0} → (A → Output) → Control × Result RpcError A → Control × Output
  show_with = shown sha256 align describe describe_options help timestamp cfg db

  -- A call whose answer does not get lost, and which changes nothing where it is refused or where
  -- its answer counts as a failure.
  shown-failed :
      {A : Type 0} (wire : Wire) (f : Control → Control × Result AdminError A) (c : Control)
      (print : A → Output)
      → wire ≢ unanswered
      → ((e : AdminError) → (f c).1 ≡ err e → (f c).0 ≡ c)
      → ((a : A) → (f c).1 ≡ ok a → (print a).status ≢ 0 → (f c).0 ≡ c)
      → (show_with print (call wire f c)).1.status ≢ 0
      → (show_with print (call wire f c)).0 ≡ c
  shown-failed unreachable f c print w p q h = refl
  shown-failed unanswered f c print w p q h = absurd (w refl)
  shown-failed {A} answered f c print w p q h = by_answer (f c) p q h
    where
      by_answer :
          (m : Control × Result AdminError A)
          → ((e : AdminError) → m.1 ≡ err e → m.0 ≡ c)
          → ((a : A) → m.1 ≡ ok a → (print a).status ≢ 0 → m.0 ≡ c)
          → (show_with print (reply m)).1.status ≢ 0
          → (show_with print (reply m)).0 ≡ c
      by_answer (d, ok a) p q h = q a refl h
      by_answer (d, err e) p q h = p e refl

  call_same :
      {A : Type 0} (wire : Wire) (x : Control → Control × Result AdminError A) (c : Control)
      → (x c).0 ≡ c
      → (call wire x c).0 ≡ c
  call_same unreachable x c h = refl
  call_same unanswered x c h = h
  call_same {A} answered x c h = by_answer (x c) h
    where
      by_answer : (m : Control × Result AdminError A) → m.0 ≡ c → (reply m).0 ≡ c
      by_answer (d, ok a) h = h
      by_answer (d, err e) h = h

  -- A call that only reads leaves the control plane as it is.
  asked_same :
      {A : Type 0} (wire : Wire) (x : Control → Control × Result AdminError A) (c : Control)
      (print : A → Output)
      → (x c).0 ≡ c
      → (show_with print (call wire x c)).0 ≡ c
  asked_same unreachable x c print h = refl
  asked_same unanswered x c print h = h
  asked_same {A} answered x c print h = by_answer (x c) h
    where
      by_answer : (m : Control × Result AdminError A) → m.0 ≡ c → (show_with print (reply m)).0 ≡ c
      by_answer (d, ok a) h = h
      by_answer (d, err e) h = h

  abbrev run_with : Command → Surroundings → Control → Control × Output
  run_with = run_command sha256 align describe describe_options help timestamp cfg db

  typed_add_failed :
      (route : Text) (real_key alias : Result Text Text) (w : Surroundings) (c : Control)
      → w.wire ≢ unanswered
      → (typed_add sha256 align describe describe_options help timestamp cfg db route real_key alias
          w c).1.status
        ≢ 0
      → (typed_add sha256 align describe describe_options help timestamp cfg db route real_key alias
          w c).0
        ≡ c
  unfolding typed_add submit_key
  typed_add_failed route (err e) alias w c v h = refl
  typed_add_failed route (ok k) (err e) w c v h = refl
  typed_add_failed route (ok k) (ok a) w c v h =
      let req : AddKeyRequest = record { route = route; real_key = k; alias = a } in
      shown-failed w.wire _ c _ v
        (λ e p.
          ap (λ (s : Store). record c { store = s })
            (serve_add_key-failed sha256 cfg w.id w.entropy req c.store e p))
        (λ key p q. absurd (q refl)) h

  command_failed :
      (k : Command) (w : Surroundings) (c : Control)
      → w.wire ≢ unanswered
      → (run_with k w c).1.status ≢ 0
      → (run_with k w c).0 ≡ c
  unfolding run_command handle_route_list handle_quota_list handle_key_list handle_key_add
      handle_key_del handle_debug_action handle_stats_command show_stats serve_delete_key
      configure_debug
  command_failed route_list w c v h = asked_same w.wire _ c _ refl
  command_failed quota_list w c v h = asked_same w.wire _ c _ refl
  command_failed key_list w c v h = asked_same w.wire _ c _ refl
  command_failed usage_error w c v h = refl
  command_failed no_route w c v h = refl
  command_failed no_uuid w c v h = refl
  command_failed (stats args) w c v h = by_options (parse_stats_options (w.read_flags args))
    where
      by_options :
          (o : Result CliError StatsCliOptions)
          → (show_stats sha256 align describe describe_options help timestamp cfg db o w c).0 ≡ c
      by_options (err e) = refl
      by_options (ok o) = call_same w.wire _ c refl
  command_failed (key_del uuid) w c v h =
      shown-failed w.wire _ c _ v (λ e p. cc)
        (λ a p q.
          ap (λ (s : Store). record c { store = s })
            (delete_key-failed uuid c.store (not_deleted (delete_key uuid c.store).1 a p q)))
        h
    where
      not_deleted :
          (found a : Bool)
          → ◌≡◌ {A = Result AdminError Bool} (ok found) (ok a)
          → (deletion sha256 align describe describe_options help timestamp cfg db uuid a).status
            ≢ 0
          → found ≡ false
      not_deleted found true p q = absurd (q refl)
      not_deleted found false p q = ok-injective p
  command_failed (debug_action action) w c v h =
      shown-failed w.wire _ c _ v (λ e p. cc) (λ a p q. absurd (q refl)) h
  command_failed (key_add route) w c v h = typed_add_failed route w.real_key w.alias w c v h

  -- A command that exits with a status other than 0 has changed nothing, neither the keys nor the
  -- debug switch, unless the answer to its call was lost on the way.
  pub cli_main_failed :
      (args : List Text) (w : Surroundings) (c : Control)
      → w.wire ≢ unanswered
      → (cli_main sha256 align describe describe_options help timestamp cfg db args w c).1.status
        ≢ 0
      → (cli_main sha256 align describe describe_options help timestamp cfg db args w c).0 ≡ c
  unfolding cli_main
  cli_main_failed [] w c v h = refl
  cli_main_failed (resource ∷ rest) w c v h =
      by_client w.connects (run_with (command_of (resource ∷ rest)) w c) _
        (command_failed (command_of (resource ∷ rest)) w c v) refl h
    where
      by_client :
          (connects : Bool) (m n : Control × Output)
          → (m.1.status ≢ 0 → m.0 ≡ c)
          → n.0 ≡ c
          → (if connects then m else n).1.status ≢ 0
          → (if connects then m else n).0 ≡ c
      by_client true m n p q h = p h
      by_client false m n p q h = q
