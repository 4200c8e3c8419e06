-- ===== src/Keystore/Listing.antt =====
-- The records that ListKeys returns, and the scan for duplicates over them.
use ai_local.Prelude.{
  Bool-cases, List, Memᴰ, Option, Option-cases, Text, [], arith, err, inl, inr, lookup,
  lookup-of_values, none, refl, some, text_eq, text_eq_iff, values-of_lookup, ℕ, ◌&&◌, ◌↔◌, ◌∷◌,
  ◌≡◌, ◌≢◌, ◌⊎◌,
}
use mathlib.Core.Path.{subst}
use ai_local.Keystore.{
  KeyRecord, Store, find_duplicate, get_key_by_internal, list_keys, add_key, duplicate_key,
  hash_internal_key, register,
}
use ai_local.Keystore.Invariant.{IsConsistent}

-- The scan finds a record exactly if one has both the route and the upstream key.
pub find_duplicate_found :
    (route real_key : Text) (rs : List KeyRecord) (r : KeyRecord)
    → find_duplicate route real_key rs ≡ some r
    → (r.route ≡ route) × (r.real_key ≡ real_key) × Memᴰ r rs
unfolding find_duplicate
find_duplicate_found route real_key [] r e = cc
find_duplicate_found route real_key (x ∷ rs) r e =
    elim (Bool-cases (text_eq x.route route && text_eq x.real_key real_key)) [
      | inl p ↦
          let same : x ≡ r = ground arith in
          rw (← same) (
            ground (arith, text_eq_iff x.route route),
            ground (arith, text_eq_iff x.real_key real_key, text_eq_iff x.route route),
            Memᴰ.head refl,
          )
      | inr p ↦
          let (a, b, m) = find_duplicate_found route real_key rs r (ground arith) in
          (a, b, Memᴰ.tail m)
    ]

pub find_duplicate_missed :
    (route real_key : Text) (rs : List KeyRecord) (r : KeyRecord)
    → find_duplicate route real_key rs ≡ none
    → Memᴰ r rs
    → r.route ≡ route
    → r.real_key ≢ real_key
unfolding find_duplicate
find_duplicate_missed route real_key [] r e m p q = elim m [ ]
find_duplicate_missed route real_key (x ∷ rs) r e (Memᴰ.head h) p q =
    ground (arith, text_eq_iff x.route route, text_eq_iff x.real_key real_key)
find_duplicate_missed route real_key (x ∷ rs) r e (Memᴰ.tail m) p q =
    find_duplicate_missed route real_key rs r (ground arith) m p q

module _ (sha256 : Text → List ℕ) where
  -- AddKey refuses a registration as a duplicate exactly if a listed record has the same route
  -- and the same upstream key; it then names that record's alias and leaves the store as it was.
  pub add_key_duplicate :
      (id : Option Text) (entropy : Option (List ℕ)) (route real_key alias : Text) (s : Store)
      → ((r : KeyRecord) × (Memᴰ r (list_keys s))
          × (r.route ≡ route)
          × (r.real_key ≡ real_key)
          × (add_key sha256 id entropy route real_key alias s ≡ (s, err (duplicate_key r.alias))))
        ⊎ (((r : KeyRecord) → Memᴰ r (list_keys s) → r.route ≡ route → r.real_key ≢ real_key)
            × (add_key sha256 id entropy route real_key alias s
                ≡ register sha256 id entropy route real_key alias s))
  unfolding add_key
  add_key_duplicate id entropy route real_key alias s =
      elim (Option-cases (find_duplicate route real_key (list_keys s))) [
        | inl e ↦ inr (λ r. find_duplicate_missed route real_key (list_keys s) r e, rw (e, add_key))
        | inr (r, e) ↦
            let (a, b, m) = find_duplicate_found route real_key (list_keys s) r e in
            inl (r, m, a, b, rw (e, add_key))
      ]

  -- ListKeys lists exactly the live records: the ones that their internal key still finds.
  pub list_keys_exact :
      (s : Store) (r : KeyRecord)
      → IsConsistent sha256 s
      → Memᴰ r (list_keys s) ↔ (get_key_by_internal sha256 r.internal_key s ≡ some r)
  unfolding list_keys get_key_by_internal
  list_keys_exact s r v = (
    λ m.
        let (u, e) = lookup-of_values r s.keys v.distinct m in
        let k = v.keyed u r e in subst (λ h. lookup h s.by_hash ≡ some r) k.1 k.2,
    λ e.
        values-of_lookup r.uuid r s.keys (v.hashed (hash_internal_key sha256 r.internal_key) r e).1,
  )
