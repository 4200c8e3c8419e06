-- ===== src/Admin/Console.antt =====
-- What the administrative calls show.
use ai_local.Prelude.{
  Bool, Bool-cases, List, Map, Memᴰ, Text, [], ap, arith, codes, false, inl, inr, insert, lookup,
  lookup-insert, map, refl, some, sym, text_eq, text_eq_iff, true, ℕ, ◌↔◌, ◌∙◌, ◌∷◌, ◌≡◌, ◌≢◌, ◌⊎◌,
}
use ai_local.Apml.{ApmlConfig, RouteConfig, QuotaDetail}
use ai_local.Keystore.{Store, KeyRecord, get_key_by_internal, list_keys}
use ai_local.Keystore.Invariant.{IsConsistent}
use ai_local.Keystore.Listing.{list_keys_exact}
use ai_local.Admin.{
  KeyInfo, QuotaInfo, key_info, serve_list_keys, list_quotas, quota_info, apply_quotas, is_applied,
}

module _ {A B : Type 0} (f : A → B) where
  map-Memᴰ : (b : B) (xs : List A) → Memᴰ b (map f xs) → (a : A) × Memᴰ a xs × (b ≡ f a)
  map-Memᴰ b [] m = elim m [ ]
  map-Memᴰ b (x ∷ xs) (Memᴰ.head h) = (x, Memᴰ.head refl, h)
  map-Memᴰ b (x ∷ xs) (Memᴰ.tail m) = let (a, n, e) = map-Memᴰ b xs m in (a, Memᴰ.tail n, e)

  Memᴰ-map : (a : A) (xs : List A) → Memᴰ a xs → Memᴰ (f a) (map f xs)
  Memᴰ-map a [] m = elim m [ ]
  Memᴰ-map a (x ∷ xs) (Memᴰ.head h) = Memᴰ.head (ap f h)
  Memᴰ-map a (x ∷ xs) (Memᴰ.tail m) = Memᴰ.tail (Memᴰ-map a xs m)

-- ListKeys shows exactly the live records, the ones that their internal key still finds, and of
-- each its upstream key only in the masked form.
pub serve_list_keys_exact :
    (sha256 : Text → List ℕ) (s : Store) (info : KeyInfo)
    → IsConsistent sha256 s
    → Memᴰ info (serve_list_keys s) ↔ (
        (r : KeyRecord) × (get_key_by_internal sha256 r.internal_key s ≡ some r)
        × (info ≡ key_info r))
unfolding serve_list_keys
serve_list_keys_exact sha256 s info v = (
  (λ m.
      let (r, n, e) = map-Memᴰ key_info info (list_keys s) m in
      (r, (list_keys_exact sha256 s r v).0 n, e)),
  (λ t. rw t.2 (Memᴰ-map key_info t.0 (list_keys s) ((list_keys_exact sha256 s t.0 v).1 t.1))),
)

-- A route names this quota.
abbrev pub Names : Text → Map RouteConfig → Type 0
Names name routes = (uri : Text) × (c : RouteConfig) × Memᴰ (uri, c) routes × (c.quota ≡ name)

apply_quotas-kept :
    (name : Text) (routes : Map RouteConfig) (applied : Map Bool)
    → lookup name applied ≡ some true
    → lookup name (apply_quotas routes applied) ≡ some true
unfolding apply_quotas
apply_quotas-kept name [] applied e = e
apply_quotas-kept name ((uri, c) ∷ routes) applied e = elim (Bool-cases (text_eq c.quota [])) [
  | inl b ↦ rw b (apply_quotas-kept name routes applied e)
  | inr b ↦ rw b (
      apply_quotas-kept name routes (insert c.quota true applied)
        (ground (arith, lookup-insert c.quota name true applied)))
]

apply_quotas-Names :
    (name : Text) (routes : Map RouteConfig) (applied : Map Bool)
    → name ≢ []
    → Names name routes
    → lookup name (apply_quotas routes applied) ≡ some true
unfolding apply_quotas
apply_quotas-Names name [] applied q (uri, c, m, e) = elim m [ ]
apply_quotas-Names name ((u, d) ∷ routes) applied q (uri, c, Memᴰ.head h, e) =
    let same : d.quota ≡ name = ap (λ (p : Text × RouteConfig). p.1.quota) (sym h) ∙ e in
    let named : text_eq d.quota [] ≡ false = ground (arith, text_eq_iff d.quota []) in
    rw named (
      apply_quotas-kept name routes (insert d.quota true applied)
        (ground (arith, lookup-insert d.quota name true applied, text_eq_iff d.quota name)))
apply_quotas-Names name ((u, d) ∷ routes) applied q (uri, c, Memᴰ.tail m, e) =
    apply_quotas-Names name routes _ q (uri, c, m, e)

apply_quotas_only :
    (name : Text) (routes : Map RouteConfig) (applied : Map Bool)
    → is_applied (lookup name (apply_quotas routes applied)) ≡ true
    → (is_applied (lookup name applied) ≡ true) ⊎ (Names name routes × (name ≢ []))
unfolding apply_quotas
apply_quotas_only name [] applied e = inl e
apply_quotas_only name ((u, d) ∷ routes) applied e = elim (apply_quotas_only name routes _ e) [
  | inr ((uri, c, m, s), q) ↦ inr ((uri, c, Memᴰ.tail m, s), q)
  | inl k ↦ elim (Bool-cases (text_eq d.quota [])) [
    | inl b ↦ inl (ground arith)
    | inr b ↦ elim (Bool-cases (text_eq d.quota name)) [
      | inl t ↦
          let same = (text_eq_iff d.quota name).0 t in
          inr ((u, d, Memᴰ.head refl, same), λ z. ground (arith, text_eq_iff d.quota []))
      | inr t ↦ inl (ground (arith, lookup-insert d.quota name true applied))
    ]
  ]
]

-- ListQuotas shows a quota of the configuration as applied exactly if some route names it; no
-- quota has the empty name in a valid configuration.
pub list_quotas_status :
    (cfg : ApmlConfig) (info : QuotaInfo)
    → Memᴰ info (list_quotas cfg)
    → info.name ≢ []
    → (info.status ≡ codes "APPLIED") ↔ Names info.name cfg.routes
unfolding list_quotas quota_info lookup
list_quotas_status cfg info m q =
    let (entry, n, e) = map-Memᴰ (quota_info (apply_quotas cfg.routes [])) info cfg.quotas m in
    rw e (status_of entry.0 entry.1 (rw e at q))
  where
    status_of :
        (name : Text) (d : QuotaDetail)
        → name ≢ []
        → ((quota_info (apply_quotas cfg.routes []) (name, d)).status ≡ codes "APPLIED")
          ↔ Names name cfg.routes
    status_of name d q = elim (Bool-cases (is_applied (lookup name (apply_quotas cfg.routes [])))) [
      | inl b ↦ elim (apply_quotas_only name cfg.routes [] b) [
        | inl z ↦ cc
        | inr (w, x) ↦ rw b (λ z. w, λ z. refl)
      ]
      | inr b ↦ rw b (λ z. cc, λ w. let y = apply_quotas-Names name cfg.routes [] q w in cc)
    ]
