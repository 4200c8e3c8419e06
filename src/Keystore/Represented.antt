-- ===== src/Keystore/Represented.antt =====
-- The records that the two indexes of the credential store hold, as a set.
use mathlib.Core.Path.{subst}
use mathlib.Core.Quot
use ai_local.Prelude.{
  Bool-cases, List, Memᴰ, Option, Option-cases, Text, [], arith, false, inl, inr, lookup,
  lookup-delete, lookup-insert, lookup-of_values, none, refl, some, sym, text_eq, text_eq_iff,
  text_eq_refl, true, values-of_lookup, ℕ, ◌↔◌, ◌∷◌, ◌≡◌, ◌⊎◌,
}
use ai_local.Keystore.{
  KeyRecord, Store, delete_key, list_keys, make_record, store_record, find_duplicate, register,
}
use ai_local.Keystore.Directory.{has, put, remove, others_iff, some_passes}
use ai_local.Keystore.Invariant.{IsConsistent, delete_key-IsConsistent, store_record-IsConsistent}
use ai_local.Keystore.Calls.{FreshFor, abstraction, add, is_twin, put_drawn}

module _ (sha256 : Text → List ℕ) where
  pub member_iff :
      (s : Store) (r : KeyRecord)
      → IsConsistent sha256 s
      → Memᴰ r (list_keys s) ↔ (lookup r.uuid s.keys ≡ some r)
  unfolding list_keys
  member_iff s r v = (
    λ m.
        let (k, p) = lookup-of_values r s.keys v.distinct m in
        subst (λ u. lookup u s.keys ≡ some r) (sym (v.keyed k r p).0) p,
    λ e. values-of_lookup r.uuid r s.keys e,
  )

  -- Found in the store with a new record: the new one, or one that was there.
  lookup-stored :
      (x : KeyRecord) (s : Store) (r : KeyRecord)
      → lookup r.uuid (store_record x s).keys ≡ some r
      → (r ≡ x) ⊎ (lookup r.uuid s.keys ≡ some r)
  unfolding store_record
  lookup-stored x s r e = elim (Bool-cases (text_eq x.uuid r.uuid)) [
    | inl h ↦ inl (ground (arith, lookup-insert x.uuid r.uuid x s.keys))
    | inr h ↦ inr (ground (arith, lookup-insert x.uuid r.uuid x s.keys))
  ]

  lookup_kept :
      (x : KeyRecord) (s : Store) (r : KeyRecord)
      → lookup x.uuid s.keys ≡ none
      → lookup r.uuid s.keys ≡ some r
      → lookup r.uuid (store_record x s).keys ≡ some r
  unfolding store_record
  lookup_kept x s r new e =
      ground (arith, lookup-insert x.uuid r.uuid x s.keys, text_eq_iff x.uuid r.uuid)

  lookup_new : (x : KeyRecord) (s : Store) → lookup x.uuid (store_record x s).keys ≡ some x
  unfolding store_record
  lookup_new x s = ground (arith, lookup-insert x.uuid x.uuid x s.keys, text_eq_refl x.uuid)

  abstraction-store_record :
      (x : KeyRecord) (s : Store)
      → IsConsistent sha256 s
      → IsConsistent sha256 (store_record x s)
      → lookup x.uuid s.keys ≡ none
      → abstraction (store_record x s) ≡ put x (abstraction s)
  unfolding put
  abstraction-store_record x s v w new = Quot.sound λ r. (
    λ m. elim (lookup-stored x s r ((member_iff (store_record x s) r w).0 m)) [
      | inl e ↦ Memᴰ.head e
      | inr e ↦ Memᴰ.tail ((member_iff s r v).1 e)
    ],
    back r,
  )
    where
      back : (r : KeyRecord) → Memᴰ r (x ∷ list_keys s) → Memᴰ r (list_keys (store_record x s))
      back r (Memᴰ.head e) = (member_iff (store_record x s) r w).1 (
          subst (λ (y : KeyRecord). lookup y.uuid (store_record x s).keys ≡ some y) (sym e)
            (lookup_new x s))
      back r (Memᴰ.tail m) =
          (member_iff (store_record x s) r w).1 (lookup_kept x s r new ((member_iff s r v).0 m))

  lookup_left :
      (uid : Text) (s : Store) (r : KeyRecord)
      → lookup r.uuid (delete_key uid s).0.keys ≡ some r
      → (lookup r.uuid s.keys ≡ some r) × (text_eq r.uuid uid ≡ false)
  unfolding delete_key
  lookup_left uid s r e = elim (Option-cases (lookup uid s.keys)) [
    | inl h ↦ (ground arith, ground (arith, text_eq_iff r.uuid uid))
    | inr (x, h) ↦ (
      ground (arith, lookup-delete uid r.uuid s.keys),
      ground
          (arith, lookup-delete uid r.uuid s.keys, text_eq_iff r.uuid uid, text_eq_iff uid r.uuid),
    )
  ]

  lookup_other :
      (uid : Text) (s : Store) (r : KeyRecord)
      → lookup r.uuid s.keys ≡ some r
      → text_eq r.uuid uid ≡ false
      → lookup r.uuid (delete_key uid s).0.keys ≡ some r
  unfolding delete_key
  lookup_other uid s r e h =
      ground
        (arith, lookup-delete uid r.uuid s.keys, text_eq_iff r.uuid uid, text_eq_iff uid r.uuid)

  pub abstraction-delete_key :
      (uid : Text) (s : Store)
      → IsConsistent sha256 s
      → abstraction (delete_key uid s).0 ≡ remove uid (abstraction s)
  unfolding remove
  abstraction-delete_key uid s v =
      let w = delete_key-IsConsistent sha256 uid s v in
      Quot.sound λ r. (
        λ m.
            let (e, h) = lookup_left uid s r ((member_iff (delete_key uid s).0 r w).0 m) in
            (others_iff uid r (list_keys s)).1 ((member_iff s r v).1 e, h),
        λ m.
            let (n, h) = (others_iff uid r (list_keys s)).0 m in
            (member_iff (delete_key uid s).0 r w).1
              (lookup_other uid s r ((member_iff s r v).0 n) h),
      )

  -- The scan of AddKey asks the set whether it has a twin.
  scan_twin :
      (route real_key : Text) (rs : List KeyRecord)
      → some_passes (is_twin route real_key) rs
        ≡ elim (find_duplicate route real_key rs) [ none ↦ false | some r ↦ true ]
  unfolding find_duplicate
  scan_twin route real_key [] = refl
  scan_twin route real_key (r ∷ rs) = ground (arith, scan_twin route real_key rs)

  pub has-twin :
      (route real_key : Text) (s : Store) (o : Option KeyRecord)
      → find_duplicate route real_key (list_keys s) ≡ o
      → has (is_twin route real_key) (abstraction s) ≡ elim o [ none ↦ false | some r ↦ true ]
  unfolding has
  has-twin route real_key s o e = ground (arith, scan_twin route real_key (list_keys s))

  pub abstraction-register :
      (id : Option Text) (entropy : Option (List ℕ)) (route real_key alias : Text) (s : Store)
      → FreshFor sha256 (add id entropy route real_key alias) s
      → IsConsistent sha256 s
      → abstraction (register sha256 id entropy route real_key alias s).0
        ≡ put_drawn sha256 id entropy route real_key alias (abstraction s)
  unfolding register put_drawn make_record
  abstraction-register none entropy route real_key alias s f v = refl
  abstraction-register (some id) none route real_key alias s f v = refl
  abstraction-register (some id) (some bytes) route real_key alias s f v =
      let new = f id bytes refl refl in
      let x = make_record sha256 id bytes route real_key alias in
      abstraction-store_record x s v
        (store_record-IsConsistent sha256 s x refl new.new_id new.new_hash v) new.new_id
