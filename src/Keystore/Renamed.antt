-- ===== src/Keystore/Renamed.antt =====
-- The credential store of internal/keystore/store.go under a renaming of the upstream keys.
use ai_local.Prelude.{
  Bool, Bool-cases, List, Map, Option, Option-cases, Result, Text, [], ap, arith, delete, err, inl,
  inr, insert, lookup, map, none, ok, refl, some, sym, text_eq, text_eq_iff, trim_space, true,
  values, ℕ, ◌∙◌, ◌∷◌, ◌≡◌,
}
use ai_local.Keystore.{
  KeyRecord, Store, add_key, delete_key, find_duplicate, list_keys, AddError, make_record, register,
  store_record,
}
use mathlib.Core.Option
use mathlib.Core.Path.{ap₂}

module _ {V W : Type 0} (f : V → W) where
  abbrev pub map_values : Map V → Map W
  map_values [] = []
  map_values ((k, v) ∷ m) = (k, f v) ∷ map_values m

  pub lookup-map_values :
      (k : Text) (m : Map V) → lookup k (map_values m) ≡ Option.map f (lookup k m)
  unfolding lookup
  lookup-map_values k [] = refl
  lookup-map_values k ((j, v) ∷ m) = ground (arith, lookup-map_values k m)

  insert-map_values :
      (k : Text) (v : V) (m : Map V) → insert k (f v) (map_values m) ≡ map_values (insert k v m)
  unfolding insert
  insert-map_values k v [] = refl
  insert-map_values k v ((j, w) ∷ m) = elim (Bool-cases (text_eq j k)) [
    | inl e ↦ rw (e, insert) refl
    | inr e ↦ rw (e, insert) (ap (λ rest. (j, f w) ∷ rest) (insert-map_values k v m))
  ]

  delete-map_values : (k : Text) (m : Map V) → delete k (map_values m) ≡ map_values (delete k m)
  unfolding delete
  delete-map_values k [] = refl
  delete-map_values k ((j, w) ∷ m) = elim (Bool-cases (text_eq j k)) [
    | inl e ↦ rw (e, delete) (delete-map_values k m)
    | inr e ↦ rw (e, delete) (ap (λ rest. (j, f w) ∷ rest) (delete-map_values k m))
  ]

  values-map_values : (m : Map V) → values (map_values m) ≡ map f (values m)
  unfolding values
  values-map_values [] = refl
  values-map_values ((k, v) ∷ m) = ap (λ rest. f v ∷ rest) (values-map_values m)

-- Another name for each upstream key: no two keys get one name, and what is blank stays blank.
pub record IsRenaming (rename : Text → Text) : Type 0 where
  pub injective : (k j : Text) → rename k ≡ rename j → k ≡ j
  pub blank : (k : Text) → text_eq (trim_space (rename k)) [] ≡ text_eq (trim_space k) []

module _ (rename : Text → Text) where
  abbrev pub renamed : KeyRecord → KeyRecord
  renamed r = record r { real_key = rename r.real_key }

  abbrev pub renamed_store : Store → Store
  renamed_store s = record {
    keys = map_values renamed s.keys;
    by_hash = map_values renamed s.by_hash;
  }

  abbrev pub renamed_result {ℓ} : {E : Type ℓ} → Result E KeyRecord → Result E KeyRecord
  renamed_result (ok r) = ok (renamed r)
  renamed_result (err e) = err e

  module _ (h : IsRenaming rename) where
    same_test : (k j : Text) → text_eq (rename k) (rename j) ≡ text_eq k j
    same_test k j = elim (Bool-cases (text_eq k j)) [
      | inl e ↦
          let same = (text_eq_iff k j).0 e in
          (text_eq_iff (rename k) (rename j)).1 (ap rename same) ∙ sym e
      | inr e ↦ elim (Bool-cases (text_eq (rename k) (rename j))) [
        | inl q ↦
            let same = h.injective k j ((text_eq_iff (rename k) (rename j)).0 q) in
            absurd (ground (arith, text_eq_iff k j))
        | inr q ↦ q ∙ sym e
      ]
    ]

    find_duplicate-renamed :
        (route k : Text) (rs : List KeyRecord)
        → find_duplicate route (rename k) (map renamed rs)
          ≡ Option.map renamed (find_duplicate route k rs)
    unfolding find_duplicate
    find_duplicate-renamed route k [] = refl
    find_duplicate-renamed route k (r ∷ rs) =
        ground (arith, find_duplicate-renamed route k rs, same_test r.real_key k)

    module _ (sha256 : Text → List ℕ) where
      register-renamed :
          (id : Option Text) (entropy : Option (List ℕ)) (route k alias : Text) (s : Store)
          → register sha256 id entropy route (rename k) alias (renamed_store s) ≡ (
            renamed_store (register sha256 id entropy route k alias s).0,
            renamed_result (register sha256 id entropy route k alias s).1,
          )
      unfolding register store_record make_record
      register-renamed none entropy route k alias s = refl
      register-renamed (some id) none route k alias s = refl
      register-renamed (some id) (some bytes) route k alias s =
          let r = make_record sha256 id bytes route k alias in
          ap₂ (given r) (insert-map_values renamed r.uuid r s.keys)
            (insert-map_values renamed r.key_hash r s.by_hash)
        where
          given : KeyRecord → Map KeyRecord → Map KeyRecord → Store × Result AddError KeyRecord
          given r keys by_hash = (record { keys = keys; by_hash = by_hash }, ok (renamed r))

      pub add_key-renamed :
          (id : Option Text) (entropy : Option (List ℕ)) (route k alias : Text) (s : Store)
          → add_key sha256 id entropy route (rename k) alias (renamed_store s) ≡ (
            renamed_store (add_key sha256 id entropy route k alias s).0,
            renamed_result (add_key sha256 id entropy route k alias s).1,
          )
      unfolding list_keys add_key
      add_key-renamed id entropy route k alias s =
          elim (Option-cases (find_duplicate route k (list_keys s))) [
            | inl e ↦
                rw (scan s none e, add_key)
                  (rw (e, add_key) (register-renamed id entropy route k alias s))
            | inr (r, e) ↦ rw (scan s (some r) e, add_key) (rw (e, add_key) refl)
          ]
        where
          scan :
              (s : Store) (o : Option KeyRecord)
              → find_duplicate route k (list_keys s) ≡ o
              → find_duplicate route (rename k) (list_keys (renamed_store s)) ≡ Option.map renamed o
          scan s o e =
              ap (find_duplicate route (rename k)) (values-map_values renamed s.keys)
              ∙ find_duplicate-renamed route k (values s.keys)
              ∙ ap (Option.map renamed) e

  abbrev taken : Map KeyRecord → Map KeyRecord → Store × Bool
  taken keys by_hash = (record { keys = keys; by_hash = by_hash }, true)

  pub delete_key-renamed :
      (uid : Text) (s : Store)
      → delete_key uid (renamed_store s)
        ≡ (renamed_store (delete_key uid s).0, (delete_key uid s).1)
  unfolding delete_key
  delete_key-renamed uid s = elim (Option-cases (lookup uid s.keys)) [
    | inl e ↦ rw (found none e, delete_key) (rw (e, delete_key) refl)
    | inr (r, e) ↦
        rw (found (some r) e, delete_key)
          (rw (e, delete_key)
            (ap₂ taken (delete-map_values renamed uid s.keys)
              (delete-map_values renamed r.key_hash s.by_hash)))
  ]
    where
      found :
          (o : Option KeyRecord)
          → lookup uid s.keys ≡ o
          → lookup uid (map_values renamed s.keys) ≡ Option.map renamed o
      found o e = lookup-map_values renamed uid s.keys ∙ ap (Option.map renamed) e
