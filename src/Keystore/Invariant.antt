-- ===== src/Keystore/Invariant.antt =====
-- The two indexes of the store hold the same records.
use ai_local.Prelude.{
  Distinct, List, Option, Option-cases, Text, arith, delete, delete-Distinct, inl, inr,
  insert-Distinct, lookup, lookup-delete, lookup-insert, none, refl, some, text_eq_iff, ℕ, ◌≡◌,
}
use ai_local.Keystore.{
  KeyRecord, Store, new_store, store_record, delete_key, hash_internal_key, add_key, find_duplicate,
  list_keys, make_internal_key, make_record, register,
}

module _ (sha256 : Text → List ℕ) where
  pub record IsConsistent (s : Store) : Type 0 where
    pub keyed :
        (u : Text) (r : KeyRecord)
        → lookup u s.keys ≡ some r
        → (r.uuid ≡ u)
          × (r.key_hash ≡ hash_internal_key sha256 r.internal_key)
          × (lookup r.key_hash s.by_hash ≡ some r)
    pub hashed :
        (h : Text) (r : KeyRecord)
        → lookup h s.by_hash ≡ some r
        → (r.key_hash ≡ h) × (lookup r.uuid s.keys ≡ some r)
    pub distinct : Distinct s.keys

  pub new_store-IsConsistent : IsConsistent new_store
  unfolding new_store lookup
  new_store-IsConsistent = record { keyed = λ u r e. cc; hashed = λ h r e. cc; distinct = tt }

  -- A record under a new UUID and a new hash.
  pub store_record-IsConsistent :
      (s : Store) (x : KeyRecord)
      → x.key_hash ≡ hash_internal_key sha256 x.internal_key
      → lookup x.uuid s.keys ≡ none
      → lookup x.key_hash s.by_hash ≡ none
      → IsConsistent s
      → IsConsistent (store_record x s)
  unfolding store_record
  store_record-IsConsistent s x hx fresh_id fresh_hash v = record {
    keyed = λ u r e. ground (
      arith,
      v.keyed u r,
      lookup-insert x.uuid u x s.keys,
      lookup-insert x.key_hash r.key_hash x s.by_hash,
      text_eq_iff x.uuid u,
      text_eq_iff x.key_hash r.key_hash,
    );
    hashed = λ h r e. ground (
      arith,
      v.hashed h r,
      lookup-insert x.key_hash h x s.by_hash,
      lookup-insert x.uuid r.uuid x s.keys,
      text_eq_iff x.key_hash h,
      text_eq_iff x.uuid r.uuid,
    );
    distinct = insert-Distinct x.uuid x s.keys v.distinct;
  }

  -- Taking a stored record out of both indexes.
  remove-IsConsistent :
      (uid : Text) (s : Store) (x : KeyRecord)
      → lookup uid s.keys ≡ some x
      → IsConsistent s
      → IsConsistent (record { keys = delete uid s.keys; by_hash = delete x.key_hash s.by_hash })
  remove-IsConsistent uid s x hx v = record {
    keyed = λ u r e. ground (
      arith,
      v.keyed u r,
      v.keyed uid x hx,
      lookup-delete uid u s.keys,
      lookup-delete x.key_hash r.key_hash s.by_hash,
      text_eq_iff uid u,
      text_eq_iff x.key_hash r.key_hash,
    );
    hashed = λ h r e. ground (
      arith,
      v.hashed h r,
      v.keyed uid x hx,
      lookup-delete x.key_hash h s.by_hash,
      lookup-delete uid r.uuid s.keys,
      text_eq_iff x.key_hash h,
      text_eq_iff uid r.uuid,
    );
    distinct = delete-Distinct uid s.keys v.distinct;
  }

  -- DeleteKey keeps the two indexes in step, whatever the identifier.
  pub delete_key-IsConsistent :
      (uid : Text) (s : Store) → IsConsistent s → IsConsistent (delete_key uid s).0
  unfolding delete_key
  delete_key-IsConsistent uid s v = elim (Option-cases (lookup uid s.keys)) [
    | inl e ↦ rw (e, delete_key) v
    | inr (r, e) ↦ rw (e, delete_key) (remove-IsConsistent uid s r e v)
  ]

  -- A UUID and an internal key that no record has.
  pub record IsFresh (id : Text) (bytes : List ℕ) (s : Store) : Type 0 where
    pub new_id : lookup id s.keys ≡ none
    pub new_hash : lookup (hash_internal_key sha256 (make_internal_key bytes)) s.by_hash ≡ none

  -- AddKey keeps the two indexes in step, on every branch: a duplicate, a failed source of
  -- randomness, or a registration under a UUID and an internal key that no record has yet.
  pub add_key-IsConsistent :
      (id : Option Text) (entropy : Option (List ℕ)) (route real_key alias : Text) (s : Store)
      → ((i : Text) (b : List ℕ) → id ≡ some i → entropy ≡ some b → IsFresh i b s)
      → IsConsistent s
      → IsConsistent (add_key sha256 id entropy route real_key alias s).0
  unfolding add_key register
  add_key-IsConsistent id entropy route real_key alias s fresh v =
      elim (Option-cases (find_duplicate route real_key (list_keys s))) [
        | inl e ↦ rw (e, add_key) (go id entropy fresh)
        | inr (r, e) ↦ rw (e, add_key) v
      ]
    where
      go :
          (i : Option Text) (b : Option (List ℕ))
          → ((j : Text) (c : List ℕ) → i ≡ some j → b ≡ some c → IsFresh j c s)
          → IsConsistent (register sha256 i b route real_key alias s).0
      go none b f = v
      go (some i) none f = v
      go (some i) (some b) f =
          store_record-IsConsistent s (make_record sha256 i b route real_key alias)
            (unfold make_record in refl) (unfold make_record in (f i b refl refl).new_id)
            (unfold make_record in (f i b refl refl).new_hash) v
