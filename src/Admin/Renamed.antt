-- ===== src/Admin/Renamed.antt =====
-- AddKey of grpc/handler.go under a renaming of the upstream keys.
use ai_local.Prelude.{
  Bool, List, Option, Result, Text, [], ap, arith, err, false, if◌then◌else◌, lookup, none, ok,
  refl, some, text_eq, trim_space, true, ℕ, ◌∙◌, ◌≡◌,
}
use ai_local.Apml.{ApmlConfig, RouteConfig}
use ai_local.Keystore.{KeyRecord, Store, AddError, add_key}
use ai_local.Keystore.Renamed.{renamed_store, IsRenaming, renamed_result, add_key-renamed}
use ai_local.Admin.{add_answer, serve_add_key, AddKeyRequest, add_to_route, AdminError, token_empty}

module _ (sha256 : Text → List ℕ) (cfg : ApmlConfig) (rename : Text → Text)
    (h : IsRenaming rename) where
  add_answer-renamed :
      (s : Store) (r : Result AddError KeyRecord)
      → add_answer (renamed_store rename s, renamed_result rename r)
        ≡ (renamed_store rename (add_answer (s, r)).0, (add_answer (s, r)).1)
  unfolding add_answer
  add_answer-renamed s (ok r) = refl
  add_answer-renamed s (err e) = refl

  abbrev renamed_answer {ℓ} :
      {E : Type ℓ} → Store × Result AdminError E → Store × Result AdminError E
  renamed_answer x = (renamed_store rename x.0, x.1)

  answer_or_blank :
      (id : Option Text) (entropy : Option (List ℕ)) (req : AddKeyRequest) (s : Store) (b b' : Bool)
      → b ≡ b'
      → (if b
          then (renamed_store rename s, err token_empty)
          else add_answer (
              add_key sha256 id entropy req.route
                (rename req.real_key)
                req.alias
                (renamed_store rename s)))
        ≡ renamed_answer (
            if b'
            then (s, err token_empty)
            else add_answer (add_key sha256 id entropy req.route req.real_key req.alias s))
  answer_or_blank id entropy req s true true e = refl
  answer_or_blank id entropy req s false false e =
      ap add_answer (add_key-renamed rename h sha256 id entropy req.route req.real_key req.alias s)
      ∙ add_answer-renamed _ _
  answer_or_blank id entropy req s true false e = absurd (ground arith)
  answer_or_blank id entropy req s false true e = absurd (ground arith)

  pub serve_add_key-renamed :
      (id : Option Text) (entropy : Option (List ℕ)) (req : AddKeyRequest) (s : Store)
      → serve_add_key sha256 cfg id entropy
          (record req { real_key = rename req.real_key })
          (renamed_store rename s)
        ≡ renamed_answer (serve_add_key sha256 cfg id entropy req s)
  unfolding serve_add_key
  serve_add_key-renamed id entropy req s = by_route (lookup req.route cfg.routes)
    where
      by_route :
          (route : Option RouteConfig)
          → add_to_route sha256 route id entropy
              (record req { real_key = rename req.real_key })
              (renamed_store rename s)
            ≡ renamed_answer (add_to_route sha256 route id entropy req s)
      by_route none = unfold add_to_route in refl
      by_route (some route) =
          unfold add_to_route in
          answer_or_blank id entropy req s (text_eq (trim_space (rename req.real_key)) [])
            (text_eq (trim_space req.real_key) []) (h.blank req.real_key)
