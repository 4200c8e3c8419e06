-- ===== src/Proxy/Alike.antt =====
-- Keys, headers, requests and verdicts of internal/proxy/proxy.go that differ in upstream keys only.
use ai_local.Prelude.{
  Bool-cases, Option, Result, Text, [], err, inl, inr, lookup, lookup-delete, lookup-insert, none,
  ok, refl, some, sym, text_eq, ℕ, ◌∙◌, ◌∷◌, ◌≡◌, ◌≢◌,
}
use ai_local.Apml.{ProviderConfig}
use ai_local.Json.{JsonGet}
use ai_local.Keystore.{KeyRecord, Store}
use ai_local.Proxy.Auth.{Refusal, Session}
use ai_local.Proxy.Headers.{Header, canonical, header_del, header_set, header_values}
use ai_local.Proxy.Rewrite.{
  Body, JsonSet, Outgoing, broken_body, bytes, key_header, no_body, rewrite_body, set_body_headers,
  set_key,
}
use ai_local.Proxy.Serve.{Flight, Served, forwarded, integrity_violation, not_found, refused}
use ai_local.Proxy.Upstream.{header_values-set_other}

-- Two finds of records for the same route and alias, or none in both.
abbrev pub AlikeFound : Option KeyRecord → Option KeyRecord → Type 0
AlikeFound none none = Unit {0}
AlikeFound (some r) (some r') = (r.route ≡ r'.route) × (r.alias ≡ r'.alias)
AlikeFound _ _ = ⊥

-- Two stores that let the same local keys through, to upstream keys that may differ.
abbrev pub SameButRealKeys : Store → Store → Type 0
SameButRealKeys s s' = (hash : Text) → AlikeFound (lookup hash s.by_hash) (lookup hash s'.by_hash)

abbrev pub AlikeSession : Session → Session → Type 0
AlikeSession s s' =
    (s.local_key ≡ s'.local_key) × (s.client_ip ≡ s'.client_ip) × (s.alias ≡ s'.alias)

abbrev pub AlikeVerdict : Result Refusal Session → Result Refusal Session → Type 0
AlikeVerdict (err e) (err e') = e ≡ e'
AlikeVerdict (ok s) (ok s') = AlikeSession s s'
AlikeVerdict _ _ = ⊥

-- Headers that agree but for one name.
abbrev pub SameBut : Text → Header → Header → Type 0
SameBut name h h' =
    (n : Text) → canonical name ≢ canonical n → header_values n h ≡ header_values n h'

pub record AlikeSent (name : Text) (out out' : Outgoing) : Type 0 where
  pub headers : SameBut name out.headers out'.headers
  pub url : out.url ≡ out'.url
  pub host : out.host ≡ out'.host
  pub body : out.body ≡ out'.body
  pub content_length : out.content_length ≡ out'.content_length

pub record AlikeFlight (f f' : Flight) : Type 0 where
  pub session : AlikeSession f.session f'.session
  pub path : f.path ≡ f'.path
  pub provider : f.provider ≡ f'.provider
  pub streaming : f.streaming ≡ f'.streaming
  pub sent : AlikeSent (key_header f.provider.api_key_prefix) f.sent f'.sent

abbrev pub AlikeServed : Served → Served → Type 0
AlikeServed not_found not_found = Unit {0}
AlikeServed integrity_violation integrity_violation = Unit {0}
AlikeServed (refused e) (refused e') = e ≡ e'
AlikeServed (forwarded f) (forwarded f') = AlikeFlight f f'
AlikeServed _ _ = ⊥

same_set :
    (n m value : Text) (h h' : Header)
    → header_values n h ≡ header_values n h'
    → header_values n (header_set m value h) ≡ header_values n (header_set m value h')
unfolding header_values header_set
same_set n m value h h' e = elim (Bool-cases (text_eq (canonical m) (canonical n))) [
  | inl b ↦
      rw
        (
          lookup-insert (canonical m) (canonical n) (value ∷ []) h,
          lookup-insert (canonical m) (canonical n) (value ∷ []) h',
          b,
        )
        refl
  | inr b ↦
      rw
        (
          lookup-insert (canonical m) (canonical n) (value ∷ []) h,
          lookup-insert (canonical m) (canonical n) (value ∷ []) h',
          b,
        )
        e
]

same_del :
    (n m : Text) (h h' : Header)
    → header_values n h ≡ header_values n h'
    → header_values n (header_del m h) ≡ header_values n (header_del m h')
unfolding header_values header_del
same_del n m h h' e = elim (Bool-cases (text_eq (canonical m) (canonical n))) [
  | inl b ↦
      rw
        (
          lookup-delete (canonical m) (canonical n) h,
          lookup-delete (canonical m) (canonical n) h',
          b,
        )
        refl
  | inr b ↦
      rw
        (
          lookup-delete (canonical m) (canonical n) h,
          lookup-delete (canonical m) (canonical n) h',
          b,
        )
        e
]

-- The header of the key is the only one in which its value matters.
pub set_key-SameBut :
    (prefix real_key real_key' : Text) (h : Header)
    → SameBut (key_header prefix) (set_key prefix real_key h) (set_key prefix real_key' h)
unfolding set_key
set_key-SameBut prefix real_key real_key' h n d =
    header_values-set_other n (key_header prefix) _ h d
    ∙ sym (header_values-set_other n (key_header prefix) _ h d)

module _ (get : JsonGet) (set : JsonSet) where
  set_body_headers-SameBut :
      (name host : Text) (k : ℕ) (h h' : Header)
      → SameBut name h h'
      → SameBut name (set_body_headers get set host k h) (set_body_headers get set host k h')
  unfolding set_body_headers
  set_body_headers-SameBut name host k h h' e n d =
      same_del n _ _ _ (same_set n _ _ _ _ (same_set n _ _ _ _ (same_set n _ _ h h' (e n d))))

  pub rewrite_body-AlikeSent :
      (name host : Text) (provider : ProviderConfig) (body : Body) (out out' : Outgoing)
      → AlikeSent name out out'
      → AlikeSent name
          (rewrite_body get set host provider body out).0
          (rewrite_body get set host provider body out').0
        × ((rewrite_body get set host provider body out).1
            ≡ (rewrite_body get set host provider body out').1)
  unfolding rewrite_body
  rewrite_body-AlikeSent name host provider no_body out out' a = (a, refl)
  rewrite_body-AlikeSent name host provider (broken_body read) out out' a = (a, refl)
  rewrite_body-AlikeSent name host provider (bytes b) out out' a = (
    record {
      headers = set_body_headers-SameBut name host _ out.headers out'.headers a.headers;
      url = a.url;
      host = a.host;
      body = refl;
      content_length = refl;
    },
    refl,
  )
