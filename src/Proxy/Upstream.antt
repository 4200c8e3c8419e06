-- ===== src/Proxy/Upstream.antt =====
-- The headers of the request that goes upstream.
use ai_local.Prelude.{
  Bool-cases, List, Text, [], arith, codes, false, inl, inr, lookup-delete, lookup-insert, refl,
  text_eq, text_eq_iff, text_eq_refl, true, values, ℕ, ◌∙◌, ◌∷◌, ◌≡◌, ◌≢◌, ◌⊎◌,
}
use ai_local.Apml.{ProviderConfig}
use ai_local.Json.{JsonGet}
use ai_local.Proxy.Headers.{Header, header_set, header_del, header_values, canonical, header_add}
use ai_local.Proxy.Rewrite.{
  Url, Body, no_body, broken_body, bytes, Outgoing, JsonSet, rewrite, rewrite_body, rewrite_headers,
  set_body_headers, set_key, key_header, key_value, add_values, copy_headers, is_skipped,
}

header_values-set :
    (n value : Text) (h : Header) → header_values n (header_set n value h) ≡ value ∷ []
unfolding header_values header_set
header_values-set n value h =
    rw (lookup-insert (canonical n) (canonical n) (value ∷ []) h, text_eq_refl) refl

pub header_values-set_other :
    (n m value : Text) (h : Header)
    → (canonical m ≢ canonical n)
    → header_values n (header_set m value h) ≡ header_values n h
unfolding header_values header_set
header_values-set_other n m value h d =
    let other : text_eq (canonical m) (canonical n) ≡ false =
      ground (arith, text_eq_iff (canonical m) (canonical n)) in
    rw (lookup-insert (canonical m) (canonical n) (value ∷ []) h, other) refl

header_values-add_other :
    (n m value : Text) (h : Header)
    → canonical m ≢ canonical n
    → header_values n (header_add m value h) ≡ header_values n h
unfolding header_values header_add
header_values-add_other n m value h d =
    let other : text_eq (canonical m) (canonical n) ≡ false =
      ground (arith, text_eq_iff (canonical m) (canonical n)) in
    rw (lookup-insert (canonical m) (canonical n) _ h, other) refl

header_values-del_other :
    (n m : Text) (h : Header)
    → (canonical m ≢ canonical n)
    → header_values n (header_del m h) ≡ header_values n h
unfolding header_values header_del
header_values-del_other n m h d =
    let other : text_eq (canonical m) (canonical n) ≡ false =
      ground (arith, text_eq_iff (canonical m) (canonical n)) in
    rw (lookup-delete (canonical m) (canonical n) h, other) refl

-- A header that the part of Rewrite on the body leaves alone.
pub record IsApart (n : Text) : Type 0 where
  pub host : canonical (codes "Host") ≢ canonical n
  pub content_length : canonical (codes "Content-Length") ≢ canonical n
  pub content_type : canonical (codes "Content-Type") ≢ canonical n
  pub accept_encoding : canonical (codes "Accept-Encoding") ≢ canonical n

module _ (get : JsonGet) (set : JsonSet) where
  set_body_headers_other :
      (n host : Text) (k : ℕ) (h : Header)
      → IsApart n
      → header_values n (set_body_headers get set host k h) ≡ header_values n h
  unfolding set_body_headers
  set_body_headers_other n host k h a =
      header_values-del_other n (codes "Accept-Encoding") _ a.accept_encoding
      ∙ header_values-set_other n (codes "Content-Type") _ _ a.content_type
      ∙ header_values-set_other n (codes "Content-Length") _ _ a.content_length
      ∙ header_values-set_other n (codes "Host") host h a.host

  rewrite_body_other :
      (n host : Text) (provider : ProviderConfig) (body : Body) (out : Outgoing)
      → IsApart n
      → header_values n (rewrite_body get set host provider body out).0.headers
        ≡ header_values n out.headers
  unfolding rewrite_body
  rewrite_body_other n host provider no_body out a = refl
  rewrite_body_other n host provider (broken_body read) out a = refl
  rewrite_body_other n host provider (bytes b) out a = set_body_headers_other n host _ out.headers a

  -- The request that goes upstream carries the upstream key in the header that the provider asks
  -- for, and nothing else in it, whatever the client sent: if the provider's header is not one of
  -- the four that go with the body.
  pub rewrite_key :
      (set_url : Url → Url → Url) (provider : ProviderConfig) (real_key : Text) (target : Url)
      (any : Text) (incoming : Header) (body : Body) (out : Outgoing)
      → IsApart (key_header provider.api_key_prefix)
      → header_values
          (key_header provider.api_key_prefix)
          (rewrite get set set_url provider real_key target any incoming body out).0.headers
        ≡ key_value provider.api_key_prefix real_key ∷ []
  unfolding rewrite rewrite_headers set_key
  rewrite_key set_url provider real_key target any incoming body out a =
      rewrite_body_other (key_header provider.api_key_prefix) target.host provider body _ a
      ∙ header_values-set (key_header provider.api_key_prefix)
          (key_value provider.api_key_prefix real_key) _

add_values-other :
    (n key : Text) (values : List Text) (out : Header)
    → canonical key ≢ canonical n
    → header_values n (add_values key values out) ≡ header_values n out
unfolding add_values
add_values-other n key [] out d = refl
add_values-other n key (v ∷ values) out d =
    add_values-other n key values (header_add key v out) d ∙ header_values-add_other n key v out d

-- Every name of the incoming headers that is a name of `n` is passed over by the loop.
abbrev pub IsPassedOver : Text → Text → Header → Type 0
IsPassedOver n prefix [] = Unit
IsPassedOver n prefix ((key, values) ∷ rest) =
    ((is_skipped prefix key ≡ true) ⊎ (canonical key ≢ canonical n)) × IsPassedOver n prefix rest

copy_headers-other :
    (n prefix : Text) (incoming out : Header)
    → IsPassedOver n prefix incoming
    → header_values n (copy_headers prefix incoming out) ≡ header_values n out
unfolding copy_headers
copy_headers-other n prefix [] out h = refl
copy_headers-other n prefix ((key, values) ∷ rest) out (inl skipped, h) =
    rw skipped (copy_headers-other n prefix rest out h)
copy_headers-other n prefix ((key, values) ∷ rest) out (inr other, h) =
    elim (Bool-cases (is_skipped prefix key)) [
      | inl b ↦ rw b (copy_headers-other n prefix rest out h)
      | inr b ↦ rw b (
          copy_headers-other n prefix rest (add_values key values out) h
          ∙ add_values-other n key values out other)
    ]

-- A header that the loop over the incoming headers passes over, as Authorization, goes upstream all
-- the same, with the values that it has in the request that ReverseProxy prepared: if it is neither
-- the provider's own header nor one of the four that go with the body.
pub rewrite_keeps :
    (get : JsonGet) (set : JsonSet) (set_url : Url → Url → Url) (provider : ProviderConfig)
    (real_key : Text) (target : Url) (any n : Text) (incoming : Header) (body : Body)
    (out : Outgoing)
    → IsApart n
    → canonical (key_header provider.api_key_prefix) ≢ canonical n
    → IsPassedOver n provider.api_key_prefix incoming
    → header_values n
        (rewrite get set set_url provider real_key target any incoming body out).0.headers
      ≡ header_values n out.headers
unfolding rewrite rewrite_headers set_key
rewrite_keeps get set set_url provider real_key target any n incoming body out a d h =
    rewrite_body_other get set n target.host provider body _ a
    ∙ header_values-set_other n (key_header provider.api_key_prefix) _ _ d
    ∙ copy_headers-other n provider.api_key_prefix incoming out.headers h
