-- ===== src/Admin/Managed.antt =====
-- The key store under any history of administrative calls.
use ai_local.Prelude.{
  Bool-cases, List, Option, Option-cases, Result, Text, [], arith, err, inl, inr, lookup,
  lookup-insert, none, ok, refl, some, text_eq, text_eq_iff, trim_space, ℕ, ◌≡◌, ◌≢◌, ◌⊎◌,
}
use ai_local.Apml.{ApmlConfig, RouteConfig}
use ai_local.Keystore.{
  AddError, Store, KeyRecord, new_store, add_key, register, make_record, store_record,
  find_duplicate, list_keys,
}
use ai_local.Keystore.Invariant.{IsConsistent, IsFresh}
use ai_local.Keystore.History.{Reach, NoTwins, Reach-IsConsistent, lookup-delete_key, Step}
use ai_local.Admin.{AddKeyRequest, serve_add_key, serve_delete_key, add_to_route, add_answer}

-- Every stored record is for a configured route and carries an upstream key that is not blank.
pub record IsServed (cfg : ApmlConfig) (s : Store) : Type 0 where
  pub routed :
      (u : Text) (r : KeyRecord)
      → lookup u s.keys ≡ some r
      → (c : RouteConfig) × (lookup r.route cfg.routes ≡ some c)
  pub keyed : (u : Text) (r : KeyRecord) → lookup u s.keys ≡ some r → trim_space r.real_key ≢ []

module _ (sha256 : Text → List ℕ) (cfg : ApmlConfig) where
  add_answer-store : (a : Store × Result AddError KeyRecord) → (add_answer a).0 ≡ a.0
  unfolding add_answer
  add_answer-store (s, ok r) = refl
  add_answer-store (s, err e) = refl

  store_record-IsServed :
      (x : KeyRecord) (c : RouteConfig) (s : Store)
      → lookup x.route cfg.routes ≡ some c
      → trim_space x.real_key ≢ []
      → IsServed cfg s
      → IsServed cfg (store_record x s)
  unfolding store_record
  store_record-IsServed x c s p q h = record {
    routed = λ u r e. elim (Bool-cases (text_eq x.uuid u)) [
      | inl d ↦
          let same : x ≡ r = ground (arith, lookup-insert x.uuid u x s.keys) in rw (← same) (c, p)
      | inr d ↦ h.routed u r (ground (arith, lookup-insert x.uuid u x s.keys))
    ];
    keyed = λ u r e. elim (Bool-cases (text_eq x.uuid u)) [
      | inl d ↦ let same : x ≡ r = ground (arith, lookup-insert x.uuid u x s.keys) in rw (← same) q
      | inr d ↦ h.keyed u r (ground (arith, lookup-insert x.uuid u x s.keys))
    ];
  }

  register-IsServed :
      (id : Option Text) (entropy : Option (List ℕ)) (route real_key alias : Text) (c : RouteConfig)
      (s : Store)
      → lookup route cfg.routes ≡ some c
      → trim_space real_key ≢ []
      → IsServed cfg s
      → IsServed cfg (register sha256 id entropy route real_key alias s).0
  unfolding register make_record
  register-IsServed none entropy route real_key alias c s p q h = h
  register-IsServed (some i) none route real_key alias c s p q h = h
  register-IsServed (some i) (some b) route real_key alias c s p q h =
      store_record-IsServed (make_record sha256 i b route real_key alias) c s p q h

  add_key-IsServed :
      (id : Option Text) (entropy : Option (List ℕ)) (route real_key alias : Text) (c : RouteConfig)
      (s : Store)
      → lookup route cfg.routes ≡ some c
      → trim_space real_key ≢ []
      → IsServed cfg s
      → IsServed cfg (add_key sha256 id entropy route real_key alias s).0
  unfolding add_key
  add_key-IsServed id entropy route real_key alias c s p q h =
      elim (Option-cases (find_duplicate route real_key (list_keys s))) [
        | inl e ↦ rw (e, add_key) (register-IsServed id entropy route real_key alias c s p q h)
        | inr (r, e) ↦ rw (e, add_key) h
      ]

  -- The call of AddKey changes the store as AddKey of the key store does, or not at all.
  pub serve_add_key_cases :
      (id : Option Text) (entropy : Option (List ℕ)) (req : AddKeyRequest) (s : Store)
      → ((serve_add_key sha256 cfg id entropy req s).0 ≡ s)
        ⊎ ((c : RouteConfig) × (lookup req.route cfg.routes ≡ some c)
            × (trim_space req.real_key ≢ [])
            × ((serve_add_key sha256 cfg id entropy req s).0
                ≡ (add_key sha256 id entropy req.route req.real_key req.alias s).0))
  unfolding serve_add_key add_to_route
  serve_add_key_cases id entropy req s = elim (Option-cases (lookup req.route cfg.routes)) [
    | inl e ↦ inl (rw (e, add_to_route) refl)
    | inr (c, e) ↦ elim (Bool-cases (text_eq (trim_space req.real_key) [])) [
      | inl b ↦ inl (rw (e, add_to_route) (rw b refl))
      | inr b ↦ inr (
        c,
        e,
        (λ blank. ground (arith, text_eq_iff (trim_space req.real_key) [])),
        rw (e, add_to_route)
            (rw b
              (add_answer-store (add_key sha256 id entropy req.route req.real_key req.alias s))),
      )
    ]
  ]

  -- The administrative calls that change the store; what the sources of randomness give is new.
  pub data Managed : Store → Type 0 where
    opened : Managed new_store
    key_added :
        {s : Store} (id : Option Text) (entropy : Option (List ℕ)) (req : AddKeyRequest)
        → ((i : Text) (b : List ℕ) → id ≡ some i → entropy ≡ some b → IsFresh sha256 i b s)
        → Managed s
        → Managed (serve_add_key sha256 cfg id entropy req s).0
    key_deleted : {s : Store} (uid : Text) → Managed s → Managed (serve_delete_key uid s).0

  Managed-Reach : {s : Store} → Managed s → Reach sha256 s
  unfolding serve_delete_key
  Managed-Reach opened = Reach.start
  Managed-Reach (key_added {s} id entropy req fresh m) =
      elim (serve_add_key_cases id entropy req s) [
        | inl e ↦ rw e (Managed-Reach m)
        | inr (c, p, q, e) ↦ rw e (
            Reach.next (Managed-Reach m)
              (Step.added id entropy req.route req.real_key req.alias fresh))
      ]
  Managed-Reach (key_deleted uid m) = Reach.next (Managed-Reach m) (Step.deleted uid)

  Managed-IsServed : {s : Store} → Managed s → IsServed cfg s
  unfolding serve_delete_key new_store lookup
  Managed-IsServed opened = record { routed = λ u r e. cc; keyed = λ u r e. cc }
  Managed-IsServed (key_added {s} id entropy req fresh m) =
      elim (serve_add_key_cases id entropy req s) [
        | inl e ↦ rw e (Managed-IsServed m)
        | inr (c, p, q, e) ↦ rw e (
            add_key-IsServed id entropy req.route req.real_key req.alias c s p q
              (Managed-IsServed m))
      ]
  Managed-IsServed (key_deleted {s} uid m) =
      let h = Managed-IsServed m in
      record {
        routed = λ u r e. h.routed u r (lookup-delete_key uid u s r e);
        keyed = λ u r e. h.keyed u r (lookup-delete_key uid u s r e);
      }

  -- After any history of administrative calls, refused ones included, the two indexes of the key
  -- store hold the same records, no two records carry the same upstream key on the same route, and
  -- every record is for a configured route and carries an upstream key that is not blank.
  pub Managed-sound : {s : Store} → Managed s → IsConsistent sha256 s × NoTwins s × IsServed cfg s
  Managed-sound m =
      let (v, n) = Reach-IsConsistent sha256 (Managed-Reach m) in (v, n, Managed-IsServed m)
