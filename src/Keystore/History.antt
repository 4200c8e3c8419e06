-- ===== src/Keystore/History.antt =====
-- The store over any history of administrative calls, from the empty store of NewStore.
use ai_local.Prelude.{
  List, Option, Option-cases, Text, arith, inl, inr, lookup, lookup-delete, lookup-insert, none,
  some, text_eq_iff, values-of_lookup, ℕ, ◌≡◌, ◌≢◌,
}
use ai_local.Keystore.{
  KeyRecord, Store, delete_key, list_keys, store_record, add_key, find_duplicate, make_record,
  new_store, register,
}
use ai_local.Keystore.Listing.{find_duplicate_missed}
use ai_local.Keystore.Invariant.{
  IsFresh, IsConsistent, add_key-IsConsistent, delete_key-IsConsistent, new_store-IsConsistent,
}

-- No two records carry the same upstream key on the same route.
pub record NoTwins (s : Store) : Type 0 where
  pub apart :
      (u v : Text) (a b : KeyRecord)
      → lookup u s.keys ≡ some a
      → lookup v s.keys ≡ some b
      → a.route ≡ b.route
      → a.real_key ≡ b.real_key
      → u ≡ v

-- DeleteKey brings no record in.
pub lookup-delete_key :
    (uid w : Text) (s : Store) (r : KeyRecord)
    → lookup w (delete_key uid s).0.keys ≡ some r
    → lookup w s.keys ≡ some r
unfolding delete_key
lookup-delete_key uid w s r e = ground (arith, lookup-delete uid w s.keys)

delete_key-NoTwins : (uid : Text) (s : Store) → NoTwins s → NoTwins (delete_key uid s).0
delete_key-NoTwins uid s n = record {
  apart = λ u v a b p q.
      n.apart u v a b (lookup-delete_key uid u s a p) (lookup-delete_key uid v s b q);
}

store_record-NoTwins :
    (x : KeyRecord) (s : Store)
    → ((u : Text) (r : KeyRecord)
        → lookup u s.keys ≡ some r
        → r.route ≡ x.route
        → r.real_key ≢ x.real_key)
    → NoTwins s
    → NoTwins (store_record x s)
unfolding store_record
store_record-NoTwins x s new n = record {
  apart = λ u v a b p q e f. ground (
    arith,
    n.apart u v a b,
    lookup-insert x.uuid u x s.keys,
    lookup-insert x.uuid v x s.keys,
    text_eq_iff x.uuid u,
    text_eq_iff x.uuid v,
    new u a,
    new v b,
  );
}

module _ (sha256 : Text → List ℕ) where
  add_key-NoTwins :
      (id : Option Text) (entropy : Option (List ℕ)) (route real_key alias : Text) (s : Store)
      → NoTwins s
      → NoTwins (add_key sha256 id entropy route real_key alias s).0
  unfolding add_key register list_keys make_record
  add_key-NoTwins id entropy route real_key alias s n =
      elim (Option-cases (find_duplicate route real_key (list_keys s))) [
        | inl e ↦ rw (e, add_key) (go id entropy e)
        | inr (r, e) ↦ rw (e, add_key) n
      ]
    where
      go :
          (i : Option Text) (b : Option (List ℕ))
          → find_duplicate route real_key (list_keys s) ≡ none
          → NoTwins (register sha256 i b route real_key alias s).0
      go none b e = n
      go (some i) none e = n
      go (some i) (some b) e =
          store_record-NoTwins (make_record sha256 i b route real_key alias) s
            (λ u r p.
              find_duplicate_missed route real_key (list_keys s) r e
                (values-of_lookup u r s.keys p))
            n

  -- The calls that change the store. The sources of randomness may fail; what they give is new.
  pub data Step (s : Store) : Store → Type 0 where
    added :
        (id : Option Text) (entropy : Option (List ℕ)) (route real_key alias : Text)
        → ((i : Text) (b : List ℕ) → id ≡ some i → entropy ≡ some b → IsFresh sha256 i b s)
        → Step s (add_key sha256 id entropy route real_key alias s).0
    deleted : (uid : Text) → Step s (delete_key uid s).0

  pub data Reach : Store → Type 0 where
    start : Reach new_store
    next : {s t : Store} → Reach s → Step s t → Reach t

  -- After any history of AddKey and DeleteKey calls, failed ones included, the two indexes hold
  -- the same records, and no two records carry the same upstream key on the same route.
  pub Reach-IsConsistent : {s : Store} → Reach s → IsConsistent sha256 s × NoTwins s
  unfolding new_store lookup
  Reach-IsConsistent start =
      (new_store-IsConsistent sha256, record { apart = λ u v a b p q e f. cc })
  Reach-IsConsistent (next r (added id entropy route real_key alias fresh)) =
      let (v, n) = Reach-IsConsistent r in
      (
        add_key-IsConsistent sha256 id entropy route real_key alias _ fresh v,
        add_key-NoTwins id entropy route real_key alias _ n,
      )
  Reach-IsConsistent (next r (deleted uid)) =
      let (v, n) = Reach-IsConsistent r in
      (delete_key-IsConsistent sha256 uid _ v, delete_key-NoTwins uid _ n)
