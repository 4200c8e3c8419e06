-- ===== src/Apml/Parsed.antt =====
-- What holds of every configuration that Parse returns.
use ai_local.Prelude.{
  Bool, Distinct, List, Option, Result, Text, [], arith, codes, entry-insert, err, false,
  has_prefix, inl, inr, insert, insert-Distinct, none, ok, refl, some, true, ◌∷◌, ◌≡◌,
}
use mathlib.Core.Path.{subst}
use ai_local.Apml.{ApmlConfig, RouteConfig}
use ai_local.Apml.Valid.{Each, IsValid}
use ai_local.Apml.Yaml.{
  Yaml, apply_entries, apply_entry, parse, set_field, ParseError, accept_valid, unmarshal_yaml,
  zero_config,
}
use ai_local.Apml.Validate.{ConfigError, validate}
use ai_local.Apml.Sound.{validate_iff}

-- Every route path begins with a slash, and no path stands twice.
pub record HasRoutes (c : ApmlConfig) : Type 0 where
  pub slashed : Each (λ path r. has_prefix path (codes "/") ≡ true) c.routes
  pub distinct : Distinct c.routes

insert-HasRoutes :
    (key : Text) (r : RouteConfig) (c : ApmlConfig)
    → has_prefix key (codes "/") ≡ true
    → HasRoutes c
    → HasRoutes (record c { routes = insert key r c.routes })
insert-HasRoutes key r c slash h = record {
  slashed = λ path x m. elim (entry-insert key path r x c.routes m) [
    | inl same ↦ rw same slash
    | inr old ↦ h.slashed path x old
  ];
  distinct = insert-Distinct key r c.routes h.distinct;
}

module _ {Node : Type 0} (y : Yaml Node) where
  set_field-routes :
      (key : Text) (node : Node) (c d : ApmlConfig)
      → set_field y key node c ≡ ok d
      → d.routes ≡ c.routes
  unfolding set_field
  set_field-routes key node c d e = ground arith

  apply_entry-HasRoutes :
      (key : Text) (node : Node) (c d : ApmlConfig)
      → apply_entry y key node c ≡ ok d
      → HasRoutes c
      → HasRoutes d
  unfolding apply_entry
  apply_entry-HasRoutes key node c d e h =
      go (has_prefix key (codes "/")) refl (y.decode_route node) refl
    where
      go :
          (b : Bool)
          → has_prefix key (codes "/") ≡ b
          → (r : Result Text RouteConfig) → y.decode_route node ≡ r
          → HasRoutes d
      go true p (ok r) q =
          let same : record c { routes = insert key r c.routes } ≡ d = ground arith in
          rw (← same) (insert-HasRoutes key r c p h)
      go true p (err x) q = absurd (ground arith)
      go false p r q =
          let same : d.routes ≡ c.routes = set_field-routes key node c d (ground arith) in
          record { slashed = rw same h.slashed; distinct = rw same h.distinct }

  apply_entries-HasRoutes :
      (content : List (Text × Node)) (c d : ApmlConfig)
      → apply_entries y content c ≡ ok d
      → HasRoutes c
      → HasRoutes d
  unfolding apply_entries
  apply_entries-HasRoutes [] c d e h = let same : c ≡ d = ground arith in subst HasRoutes same h
  apply_entries-HasRoutes ((key, node) ∷ content) c d e h =
      go (apply_entry y key node c) refl (apply_entries-HasRoutes content)
    where
      go :
          (r : Result ParseError ApmlConfig)
          → apply_entry y key node c ≡ r
          → ((b x : ApmlConfig) → apply_entries y content b ≡ ok x → HasRoutes b → HasRoutes x)
          → HasRoutes d
      go (ok b) q ih = ih b d (ground arith) (apply_entry-HasRoutes key node c b q h)
      go (err x) q ih = absurd (ground arith)

  accepted :
      (c d : ApmlConfig) (e : Option ConfigError) → accept_valid y c e ≡ ok d → (e ≡ none) × (c ≡ d)
  accepted c d none h = (refl, ground arith)
  accepted c d (some x) h = cc

  accepted-IsValid :
      (c d : ApmlConfig)
      → accept_valid y c (validate c) ≡ ok d
      → HasRoutes c
      → IsValid d × HasRoutes d
  accepted-IsValid c d e h =
      let (valid, same) = accepted c d (validate c) e in
      (subst IsValid same ((validate_iff c).0 valid), subst HasRoutes same h)

  zero_HasRoutes : HasRoutes zero_config
  zero_HasRoutes = record { slashed = λ k r m. elim m [ ]; distinct = tt }

  -- What Parse returns is valid; every route path begins with a slash, and no path stands twice.
  pub parse_sound :
      (load : Text → Result Text (Option (Option (List (Text × Node))))) (file : Option Text)
      (c : ApmlConfig)
      → parse y load file ≡ ok c
      → IsValid c × HasRoutes c
  unfolding parse unmarshal_yaml
  parse_sound load none c e = cc
  parse_sound load (some file) c e = loaded (load file) refl
    where
      unmarshalled :
          (content : List (Text × Node)) (r : Result ParseError ApmlConfig)
          → apply_entries y content zero_config ≡ r
          → load file ≡ ok (some (some content))
          → IsValid c × HasRoutes c
      unmarshalled content (ok b) q p =
          accepted-IsValid b c (ground arith)
            (apply_entries-HasRoutes content zero_config b q zero_HasRoutes)
      unmarshalled content (err x) q p = absurd (ground arith)

      loaded :
          (r : Result Text (Option (Option (List (Text × Node)))))
          → load file ≡ r
          → IsValid c × HasRoutes c
      loaded (err x) p = absurd (ground arith)
      loaded (ok none) p = accepted-IsValid zero_config c (ground arith) zero_HasRoutes
      loaded (ok (some none)) p = absurd (ground arith)
      loaded (ok (some (some content))) p =
          unmarshalled content (apply_entries y content zero_config) refl p
