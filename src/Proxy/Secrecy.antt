-- ===== src/Proxy/Secrecy.antt =====
-- What depends on the upstream keys in internal/proxy/proxy.go.
use ai_local.Prelude.{
  Bool, List, Option, Option-cases, Result, Text, ap, arith, err, false, if◌then◌else◌, inl, inr,
  lookup, none, ok, refl, some, text_eq, true, ℕ, ◌>>=◌, ◌>>◌, ◌≡◌,
}
use ai_local.Apml.{ApmlConfig, ProviderConfig, RouteConfig}
use ai_local.Json.{JsonGet}
use ai_local.Keystore.{KeyRecord, Store, get_key_by_internal, hash_internal_key}
use ai_local.Proxy.Auth.{
  Refusal, Session, Request, auth_interceptor, credential, invalid_key, local_key_of, or_zero,
  zero_provider, zero_route, quota_step,
}
use ai_local.Proxy.Rewrite.{JsonSet, Url, copy_headers, key_header, rewrite, rewrite_headers}
use ai_local.Proxy.Serve.{
  Arrival, body_behind, forward, handle_reverse_proxy, request_of, serve, serve_route,
}
use ai_local.Usage.Tables.{Database, Time}
use ai_local.Proxy.Alike.{
  AlikeFlight, AlikeFound, AlikeServed, AlikeSession, AlikeVerdict, SameButRealKeys,
  rewrite_body-AlikeSent, set_key-SameBut,
}

module _ (get : JsonGet) (set : JsonSet) (set_url : Url → Url → Url) where
  forward-AlikeFlight :
      (provider : ProviderConfig) (route : RouteConfig) (path : Text) (target : Url) (a : Arrival)
      (s s' : Session)
      → AlikeSession s s'
      → AlikeFlight
          (forward get set set_url provider route path target a s)
          (forward get set set_url provider route path target a s')
  unfolding forward rewrite rewrite_headers
  forward-AlikeFlight provider route path target a s s' h =
      let prefix = provider.api_key_prefix in
      let incoming = copy_headers prefix a.headers a.prepared.headers in
      let sent =
        rewrite_body-AlikeSent get set (key_header prefix) target.host provider
          (body_behind route a.body) _ _
          (record {
            headers = set_key-SameBut prefix s.real_key s'.real_key incoming;
            url = refl;
            host = refl;
            body = refl;
            content_length = refl;
          }) in
      record { session = h; path = refl; provider = refl; streaming = sent.1; sent = sent.0 }

  module _ (sha256 : Text → List ℕ) (daily_fails monthly_fails : Bool) (now : Time)
      (cfg : ApmlConfig) (db : Database) where
    -- What stands behind the local key in the interceptor, from the record that is found.
    abbrev verdict :
        Text → Result Refusal (Unit {0}) → Text → Text → Option KeyRecord → Result Refusal Session
    verdict path within local_key client_ip found = credential path found >>= λ r.
        within
        >> ok (record {
          real_key = r.real_key;
          local_key = local_key;
          client_ip = client_ip;
          alias = r.alias;
        })

    abbrev session_for : Text → Text → KeyRecord → Session
    session_for local_key client_ip r = record {
      real_key = r.real_key;
      local_key = local_key;
      client_ip = client_ip;
      alias = r.alias;
    }

    verdict-AlikeVerdict :
        (path : Text) (within : Result Refusal (Unit {0})) (local_key client_ip : Text)
        (o o' : Option KeyRecord)
        → AlikeFound o o'
        → AlikeVerdict
            (verdict path within local_key client_ip o)
            (verdict path within local_key client_ip o')
    unfolding credential
    verdict-AlikeVerdict path within local_key client_ip none none h = refl
    verdict-AlikeVerdict path within local_key client_ip none (some r') h = absurd h
    verdict-AlikeVerdict path within local_key client_ip (some r) none h = absurd h
    verdict-AlikeVerdict path within local_key client_ip (some r) (some r') (p, q) =
        by_test (text_eq r.route path) (text_eq r'.route path) within (ap (λ t. text_eq t path) p)
      where
        by_test :
            (b b' : Bool) (w : Result Refusal (Unit {0}))
            → b ≡ b'
            → AlikeVerdict
                ((if b then ok r else err invalid_key) >>= λ x.
                  w >> ok (session_for local_key client_ip x))
                ((if b' then ok r' else err invalid_key) >>= λ x.
                  w >> ok (session_for local_key client_ip x))
        by_test true true (ok u) e = (refl, refl, q)
        by_test true true (err x) e = refl
        by_test false false w e = refl
        by_test true false w e = absurd (ground arith)
        by_test false true w e = absurd (ground arith)

    verdict_behind :
        (s s' : Store) (path : Text) (req : Request) (within : Text → Result Refusal (Unit {0}))
        (read : Result Refusal Text)
        → SameButRealKeys s s'
        → AlikeVerdict
            (read >>= λ k. verdict path (within k) k req.client_ip (get_key_by_internal sha256 k s))
            (read >>= λ k.
              verdict path (within k) k req.client_ip (get_key_by_internal sha256 k s'))
    unfolding get_key_by_internal
    verdict_behind s s' path req within (err e) h = refl
    verdict_behind s s' path req within (ok k) h =
        verdict-AlikeVerdict path (within k) k req.client_ip _ _ (h (hash_internal_key sha256 k))

    auth_interceptor-AlikeVerdict :
        (s s' : Store) (path : Text) (req : Request)
        → SameButRealKeys s s'
        → AlikeVerdict
            (auth_interceptor sha256 get daily_fails monthly_fails now cfg s db path req)
            (auth_interceptor sha256 get daily_fails monthly_fails now cfg s' db path req)
    unfolding auth_interceptor
    auth_interceptor-AlikeVerdict s s' path req h =
        let route = or_zero zero_route (lookup path cfg.routes) in
        let provider = or_zero zero_provider (lookup route.provider cfg.providers) in
        verdict_behind s s' path req
          (λ k.
            quota_step sha256 get daily_fails monthly_fails now cfg db route k path req.body
              provider)
          (local_key_of provider req) h

    handled-AlikeServed :
        (provider : Option ProviderConfig) (route : RouteConfig) (path : Text) (target : Url)
        (a : Arrival) (v v' : Result Refusal Session)
        → AlikeVerdict v v'
        → AlikeServed
            (handle_reverse_proxy get set set_url provider route path target a v)
            (handle_reverse_proxy get set set_url provider route path target a v')
    unfolding handle_reverse_proxy
    handled-AlikeServed provider route path target a (err e) (err e') h = h
    handled-AlikeServed none route path target a (ok s) (ok s') h = tt
    handled-AlikeServed (some provider) route path target a (ok s) (ok s') h =
        forward-AlikeFlight provider route path target a s s' h
    handled-AlikeServed provider route path target a (err e) (ok s) h = absurd h
    handled-AlikeServed provider route path target a (ok s) (err e) h = absurd h

    -- The upstream keys go nowhere but into the header that is made for them. Of two key stores
    -- that know the same local keys, each with the same route and alias, but have other upstream
    -- keys for them, one lets a request through exactly if the other does: a refusal is the same
    -- refusal, and what goes upstream is the same in its URL, its host, its body, its length and
    -- each header but that of the key, and of what is kept for the response only the
    -- upstream key may differ.
    pub serve_blind :
        (s s' : Store) (path : Text) (target : Url) (a : Arrival)
        → SameButRealKeys s s'
        → AlikeServed
            (serve get set set_url sha256 daily_fails monthly_fails now cfg s db path target a)
            (serve get set set_url sha256 daily_fails monthly_fails now cfg s' db path target a)
    unfolding serve serve_route
    serve_blind s s' path target a h = elim (Option-cases (lookup path cfg.routes)) [
      | inl e ↦ rw e tt
      | inr (route, e) ↦ rw e (
          handled-AlikeServed (lookup route.provider cfg.providers) route path target a _ _
            (auth_interceptor-AlikeVerdict s s' path (request_of a) h))
    ]
