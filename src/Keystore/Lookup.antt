-- ===== src/Keystore/Lookup.antt =====
-- What the proxy finds: GetKeyByInternal after AddKey and DeleteKey.
use ai_local.Prelude.{
  List, Text, arith, delete, if◌then◌else◌, lookup, lookup-delete, lookup-insert, none, ok, refl,
  some, sym, text_eq, text_eq_iff, text_eq_refl, true, ℕ, ◌∙◌, ◌≡◌,
}
use ai_local.Keystore.{
  KeyRecord, Store, find_duplicate, store_record, list_keys, delete_key, hash_internal_key,
  make_record, make_internal_key, register, add_key, get_key_by_internal,
}
use ai_local.Keystore.Invariant.{IsConsistent, IsFresh}

module _ (sha256 : Text → List ℕ) where
  -- Registered: no duplicate was found, both sources of randomness answered, and the new record
  -- is in the store.
  pub add_key_registers :
      (id : Text) (bytes : List ℕ) (route real_key alias : Text) (s : Store)
      → find_duplicate route real_key (list_keys s) ≡ none
      → add_key sha256 (some id) (some bytes) route real_key alias s ≡ (
        store_record (make_record sha256 id bytes route real_key alias) s,
        ok (make_record sha256 id bytes route real_key alias),
      )
  unfolding add_key register
  add_key_registers id bytes route real_key alias s h = rw (h, add_key)

  -- After a registration the new internal key finds the new record, which carries the route, the
  -- upstream key and the alias that were given; every key with another hash finds what it found.
  pub get-add_key :
      (id : Text) (bytes : List ℕ) (route real_key alias k : Text) (s : Store)
      → find_duplicate route real_key (list_keys s) ≡ none
      → let s' = (add_key sha256 (some id) (some bytes) route real_key alias s).0 in
        let new_key = make_internal_key bytes in
        get_key_by_internal sha256 k s' ≡ (
          if text_eq (hash_internal_key sha256 new_key) (hash_internal_key sha256 k)
          then some (record {
            uuid = id;
            alias = alias;
            route = route;
            real_key = real_key;
            internal_key = new_key;
            key_hash = hash_internal_key sha256 new_key;
          })
          else get_key_by_internal sha256 k s)
  unfolding get_key_by_internal make_record store_record
  get-add_key id bytes route real_key alias k s h =
      rw (add_key_registers id bytes route real_key alias s h, lookup-insert)

  delete_key_stored :
      (uid : Text) (r : KeyRecord) (s : Store)
      → lookup uid s.keys ≡ some r
      → delete_key uid s
        ≡ (record { keys = delete uid s.keys; by_hash = delete r.key_hash s.by_hash }, true)
  unfolding delete_key
  delete_key_stored uid r s h = rw (h, delete_key)

  -- After DeleteKey the deleted record's internal key finds nothing, and every key with another
  -- hash finds what it found before.
  pub get-delete_key :
      (uid k : Text) (s : Store) (r : KeyRecord)
      → IsConsistent sha256 s
      → lookup uid s.keys ≡ some r
      → get_key_by_internal sha256 k (delete_key uid s).0 ≡ (
          if text_eq (hash_internal_key sha256 r.internal_key) (hash_internal_key sha256 k)
          then none
          else get_key_by_internal sha256 k s)
  unfolding get_key_by_internal delete_key
  get-delete_key uid k s r v h = rw (h, delete_key) (rw lookup-delete (rw ((v.keyed uid r h).1)))

  -- Only keys that are registered are accepted: a key that finds a record has the hash of the
  -- record's internal key, and the record is the one under its UUID, which DeleteKey can reach.
  pub get_sound :
      (k : Text) (s : Store) (r : KeyRecord)
      → IsConsistent sha256 s
      → get_key_by_internal sha256 k s ≡ some r
      → (hash_internal_key sha256 r.internal_key ≡ hash_internal_key sha256 k)
        × (lookup r.uuid s.keys ≡ some r)
  unfolding get_key_by_internal
  get_sound k s r v e =
      let (same, there) = v.hashed (hash_internal_key sha256 k) r e in
      (sym (v.keyed r.uuid r there).1 ∙ same, there)

  lookup-stored_deleted :
      (r : KeyRecord) (s : Store) (h : Text)
      → lookup r.key_hash s.by_hash ≡ none
      → lookup h (delete r.key_hash (store_record r s).by_hash) ≡ lookup h s.by_hash
  unfolding store_record
  lookup-stored_deleted r s h e = ground (
    arith,
    lookup-delete r.key_hash h (store_record r s).by_hash,
    lookup-insert r.key_hash h r s.by_hash,
    text_eq_iff r.key_hash h,
  )

  lookup-stored : (r : KeyRecord) (s : Store) → lookup r.uuid (store_record r s).keys ≡ some r
  unfolding store_record
  lookup-stored r s = simp (lookup-insert, text_eq_refl)

  -- Registering a key and deleting it again by its UUID leaves every key finding what it found.
  pub add-delete :
      (id : Text) (bytes : List ℕ) (route real_key alias k : Text) (s : Store)
      → find_duplicate route real_key (list_keys s) ≡ none
      → IsFresh sha256 id bytes s
      → let s' = (add_key sha256 (some id) (some bytes) route real_key alias s).0 in
        ((delete_key id s').1 ≡ true)
        × (get_key_by_internal sha256 k (delete_key id s').0 ≡ get_key_by_internal sha256 k s)
  unfolding get_key_by_internal make_record
  add-delete id bytes route real_key alias k s h f =
      let r = make_record sha256 id bytes route real_key alias in
      rw (add_key_registers id bytes route real_key alias s h) (
        rw (delete_key_stored id r (store_record r s) (lookup-stored r s))
          (refl, lookup-stored_deleted r s (hash_internal_key sha256 k) f.new_hash))
