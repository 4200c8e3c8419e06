-- ===== src/Gateway/Sound.antt =====
-- The accounts over any course of events.
use ai_local.Prelude.{
  Bool, List, Memᴰ, Option, Option-cases, Result, Text, [], ap, arith, err, false, if◌then◌else◌,
  inl, inr, lookup, none, ok, refl, some, sym, true, values-of_lookup, ℕ, ◌==◌, ◌∙◌, ◌∷◌, ◌≡◌,
}
use ai_local.Apml.{ProviderConfig, ApmlConfig, RouteConfig}
use ai_local.Json.{JsonGet}
use ai_local.Usage.Tables.{Record, Time, Database}
use ai_local.Usage.Stream.{Counts, parse_standard_json, parse_stream_reader}
use ai_local.Proxy.Auth.{Session, Refusal}
use ai_local.Proxy.Headers.{header_values}
use ai_local.Proxy.Upstream.{IsApart, rewrite_key}
use ai_local.Proxy.Rewrite.{key_header, key_value, Body, no_body, broken_body, bytes, JsonSet, Url}
use ai_local.Proxy.Respond.{
  Response, bytes_of, billed, passed, modify_response, usage_record, bill, respond_whole,
  respond_stream,
}
use ai_local.Proxy.Serve.{
  body_behind, serve, Arrival, Flight, forwarded, handle_reverse_proxy, request_of, serve_route,
  forward,
}
use ai_local.Keystore.{Store, KeyRecord, list_keys}
use ai_local.Proxy.Gate.{RestsOn, auth_sound}
use ai_local.Keystore.Invariant.{IsConsistent}
use ai_local.Gateway.Accounts.{IsCleared}
use ai_local.Keystore.Lookup.{get_sound}

-- Whom a record names.
abbrev pub IsFor : Session → Text → Record → Type 0
IsFor s path rec = (rec.local_key ≡ s.local_key) × (rec.route_path ≡ path)

module _ (get : JsonGet) (s : Session) (path : Text) (now : Time) where
  bill-IsFor :
      (c : Option Counts) (rec : Record) → bill get s path now c ≡ billed rec → IsFor s path rec
  unfolding usage_record
  bill-IsFor none rec e = cc
  bill-IsFor (some c) rec e =
      let same : usage_record s path now c ≡ rec = cc in rw (← same) (refl, refl)

  pub modify_response-IsFor :
      (provider : ProviderConfig) (streaming : Bool) (res : Response) (rec : Record)
      → modify_response get provider s path now streaming res ≡ billed rec
      → IsFor s path rec
  unfolding modify_response respond_stream respond_whole
  modify_response-IsFor provider streaming res rec e =
      by_parts (res.status == 200) streaming res.body e
    where
      by_parts :
          (success stream : Bool) (body : Body)
          → (if success
              then if stream
                then respond_stream get provider s path now (bytes_of body)
                else respond_whole get provider s path now body
              else passed)
            ≡ billed rec
          → IsFor s path rec
      by_parts false stream body e = cc
      by_parts true true body e =
          bill-IsFor (some (parse_stream_reader get (bytes_of body) provider)) rec e
      by_parts true false no_body e = bill-IsFor (parse_standard_json get [] provider) rec e
      by_parts true false (broken_body read) e = cc
      by_parts true false (bytes b) e = bill-IsFor (parse_standard_json get b provider) rec e

-- No provider takes its key in one of the four headers that go with the body.
abbrev pub KeysApart : ApmlConfig → Type 0
KeysApart cfg =
    (name : Text) (p : ProviderConfig)
    → lookup name cfg.providers ≡ some p
    → IsApart (key_header p.api_key_prefix)

abbrev CarriesKey : Text → Flight → Type 0
CarriesKey key f =
    header_values (key_header f.provider.api_key_prefix) f.sent.headers
    ≡ key_value f.provider.api_key_prefix key ∷ []

module _ (sha256 : Text → List ℕ) (get : JsonGet) (set : JsonSet) (set_url : Url → Url → Url)
    (cfg : ApmlConfig) where
  handle-forwarded :
      (provider : Option ProviderConfig) (route : RouteConfig) (path : Text) (target : Url)
      (a : Arrival) (m : Result Refusal Session) (f : Flight)
      → handle_reverse_proxy get set set_url provider route path target a m ≡ forwarded f
      → (m ≡ ok f.session) × (f.path ≡ path) × (provider ≡ some f.provider)
  unfolding handle_reverse_proxy forward
  handle-forwarded provider route path target a (err r) f e = cc
  handle-forwarded none route path target a (ok s) f e = cc
  handle-forwarded (some p) route path target a (ok s) f e =
      let same : forward get set set_url p route path target a s ≡ f = cc in
      rw (← same) (refl, refl, refl)

  -- The key that it carries.
  handle_sends :
      (provider : Option ProviderConfig) (route : RouteConfig) (path : Text) (target : Url)
      (a : Arrival) (m : Result Refusal Session) (f : Flight)
      → ((p : ProviderConfig) → provider ≡ some p → IsApart (key_header p.api_key_prefix))
      → handle_reverse_proxy get set set_url provider route path target a m ≡ forwarded f
      → CarriesKey f.session.real_key f
  unfolding handle_reverse_proxy forward
  handle_sends provider route path target a (err r) f apart e = cc
  handle_sends none route path target a (ok s) f apart e = cc
  handle_sends (some p) route path target a (ok s) f apart e =
      let same : forward get set set_url p route path target a s ≡ f = cc in
      rw (← same) (
        rewrite_key get set set_url p s.real_key target a.any a.headers (body_behind route a.body)
          a.prepared (apart p refl))

  serve_sends :
      (daily_fails monthly_fails : Bool) (now : Time) (store : Store) (db : Database) (path : Text)
      (target : Url) (a : Arrival) (f : Flight)
      → KeysApart cfg
      → serve get set set_url sha256 daily_fails monthly_fails now cfg store db path target a
        ≡ forwarded f
      → CarriesKey f.session.real_key f
  unfolding serve serve_route
  serve_sends daily_fails monthly_fails now store db path target a f apart e =
      elim (Option-cases (lookup path cfg.routes)) [
        | inl n ↦ ground arith
        | inr (route, n) ↦
            handle_sends (lookup route.provider cfg.providers) route path target a _ f
              (apart route.provider) (rw (n, serve_route) at e)
      ]

  -- What a request that is sent upstream rests on.
  pub serve_rests :
      (daily_fails monthly_fails : Bool) (now : Time) (store : Store) (db : Database) (path : Text)
      (target : Url) (a : Arrival) (f : Flight)
      → serve get set set_url sha256 daily_fails monthly_fails now cfg store db path target a
        ≡ forwarded f
      → (f.path ≡ path)
        × RestsOn sha256 get daily_fails monthly_fails now cfg store db path
            (request_of a)
            f.session
  unfolding serve serve_route
  serve_rests daily_fails monthly_fails now store db path target a f e =
      elim (Option-cases (lookup path cfg.routes)) [
        | inl n ↦ ground arith
        | inr (route, n) ↦
            let (passes, here, there) =
              handle-forwarded (lookup route.provider cfg.providers) route path target a _ f
                (rw (n, serve_route) at e) in
            (
              here,
              auth_sound sha256 get daily_fails monthly_fails now cfg store db path (request_of a)
                  f.session passes,
            )
      ]

  module _ (seen : List KeyRecord) where
    pub serve-IsCleared :
        (daily_fails monthly_fails : Bool) (now : Time) (store : Store) (db : Database)
        (path : Text) (target : Url) (a : Arrival) (f : Flight)
        → KeysApart cfg
        → IsConsistent sha256 store
        → ((r : KeyRecord) → Memᴰ r (list_keys store) → Memᴰ r seen)
        → serve get set set_url sha256 daily_fails monthly_fails now cfg store db path target a
          ≡ forwarded f
        → IsCleared sha256 seen f
    unfolding list_keys
    serve-IsCleared daily_fails monthly_fails now store db path target a f apart v known e =
        let (here, (r, read, found, route, real, alias, ip, allowed)) =
          serve_rests daily_fails monthly_fails now store db path target a f e in
        let (same, there) = get_sound sha256 f.session.local_key store r v found in
        (
          r,
          known r (values-of_lookup r.uuid r store.keys there),
          ((v.keyed r.uuid r there).1 ∙ same, route ∙ sym here),
          serve_sends daily_fails monthly_fails now store db path target a f apart e
              ∙ ap (λ (key : Text). key_value f.provider.api_key_prefix key ∷ []) real,
        )
