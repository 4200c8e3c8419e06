-- ===== src/Keystore/Abstract.antt =====
-- The store with its two indexes, under any sequence of calls, is the set of its records.
use mathlib.Core.Path.{subst}
use ai_local.Prelude.{
  Bool, List, Option, Option-cases, Result, Text, [], ap, arith, if◌then◌else◌, inl, inr, lookup,
  none, refl, some, sym, text_eq_iff, true, values, ℕ, ◌↔◌, ◌∙◌, ◌∷◌, ◌≡◌,
}
use ai_local.Keystore.{
  AddError, KeyRecord, Store, add_key, list_keys, find_duplicate, get_key_by_internal,
  hash_internal_key, new_store, register,
}
use ai_local.Keystore.Directory.{Directory, directory, has, some_passes_iff}
use ai_local.Keystore.Invariant.{
  IsConsistent, delete_key-IsConsistent, add_key-IsConsistent, new_store-IsConsistent,
}
use ai_local.Keystore.Calls.{
  AllFresh, Call, FreshFor, abstraction, add, after_call, del, promised, put_drawn, replay,
  run_calls, vouches,
}
use ai_local.Keystore.Represented.{
  abstraction-delete_key, abstraction-register, has-twin, member_iff,
}

module _ (sha256 : Text → List ℕ) where
  add_key_new :
      (id : Option Text) (entropy : Option (List ℕ)) (route real_key alias : Text) (s : Store)
      → find_duplicate route real_key (list_keys s) ≡ none
      → add_key sha256 id entropy route real_key alias s
        ≡ register sha256 id entropy route real_key alias s
  unfolding add_key
  add_key_new id entropy route real_key alias s e = rw (e, add_key) refl

  add_key_known :
      (id : Option Text) (entropy : Option (List ℕ)) (route real_key alias : Text) (s : Store)
      (r : KeyRecord)
      → find_duplicate route real_key (list_keys s) ≡ some r
      → (add_key sha256 id entropy route real_key alias s).0 ≡ s
  unfolding add_key
  add_key_known id entropy route real_key alias s r e = rw (e, add_key) refl

  abstraction-after_call :
      (c : Call) (s : Store)
      → FreshFor sha256 c s
      → IsConsistent sha256 s
      → abstraction (after_call sha256 c s) ≡ promised sha256 c (abstraction s)
  unfolding after_call promised
  abstraction-after_call (del uid) s f v = abstraction-delete_key sha256 uid s v
  abstraction-after_call (add id entropy route real_key alias) s f v =
      let d = abstraction s in
      let put_it = put_drawn sha256 id entropy route real_key alias d in
      elim (Option-cases (find_duplicate route real_key (list_keys s))) [
        | inl e ↦
            ap (λ (t : Store × Result AddError KeyRecord). abstraction t.0)
              (add_key_new id entropy route real_key alias s e)
            ∙ abstraction-register sha256 id entropy route real_key alias s f v
            ∙ ap (λ (b : Bool). if b then d else put_it)
                (sym (has-twin sha256 route real_key s none e))
        | inr (r, e) ↦
            ap abstraction (add_key_known id entropy route real_key alias s r e)
            ∙ ap (λ (b : Bool). if b then d else put_it)
                (sym (has-twin sha256 route real_key s (some r) e))
      ]

  after_call-IsConsistent :
      (c : Call) (s : Store)
      → FreshFor sha256 c s
      → IsConsistent sha256 s
      → IsConsistent sha256 (after_call sha256 c s)
  unfolding after_call
  after_call-IsConsistent (del uid) s f v = delete_key-IsConsistent sha256 uid s v
  after_call-IsConsistent (add id entropy route real_key alias) s f v =
      add_key-IsConsistent sha256 id entropy route real_key alias s f v

  run_abstract :
      (calls : List Call) (s : Store)
      → AllFresh sha256 calls s
      → IsConsistent sha256 s
      → IsConsistent sha256 (run_calls sha256 calls s)
        × (abstraction (run_calls sha256 calls s) ≡ replay sha256 calls (abstraction s))
  unfolding run_calls replay
  run_abstract [] s f v = (v, refl)
  run_abstract (c ∷ calls) s f v =
      let (w, e) =
        run_abstract calls (after_call sha256 c s) f.1 (after_call-IsConsistent c s f.0 v) in
      (w, e ∙ ap (replay sha256 calls) (abstraction-after_call c s f.0 v))

  -- The local key k is let through to this upstream key on this route.
  abbrev pub Opens : Text → Text → Text → Store → Type 0
  Opens k route real_key s =
      (r : KeyRecord) × (get_key_by_internal sha256 k s ≡ some r)
      × (r.route ≡ route)
      × (r.real_key ≡ real_key)

  Opens-iff :
      (k route real_key : Text) (s : Store)
      → IsConsistent sha256 s
      → Opens k route real_key s
        ↔ (has (vouches (hash_internal_key sha256 k) route real_key) (abstraction s) ≡ true)
  unfolding has get_key_by_internal
  Opens-iff k route real_key s v = (
    λ (r, e, p, q).
        let (h, there) = v.hashed (hash_internal_key sha256 k) r e in
        (some_passes_iff (vouches (hash_internal_key sha256 k) route real_key) (list_keys s)).1
          (r, (member_iff sha256 s r v).1 there, passes r h p q),
    λ e.
        let (r, m, t) =
          (some_passes_iff (vouches (hash_internal_key sha256 k) route real_key) (list_keys s)).0
            e in
        let (a, b, c) = v.keyed r.uuid r ((member_iff sha256 s r v).0 m) in
        let (h, p, q) = passed r t in (r, subst (λ x. lookup x s.by_hash ≡ some r) h c, p, q),
  )
    where
      passes :
          (r : KeyRecord)
          → r.key_hash ≡ hash_internal_key sha256 k
          → r.route ≡ route
          → r.real_key ≡ real_key
          → vouches (hash_internal_key sha256 k) route real_key r ≡ true
      passes r h p q = ground (
        arith,
        text_eq_iff r.key_hash (hash_internal_key sha256 k),
        text_eq_iff r.route route,
        text_eq_iff r.real_key real_key,
      )

      passed :
          (r : KeyRecord)
          → vouches (hash_internal_key sha256 k) route real_key r ≡ true
          → (r.key_hash ≡ hash_internal_key sha256 k) × (r.route ≡ route) × (r.real_key ≡ real_key)
      passed r t = (
        ground (arith, text_eq_iff r.key_hash (hash_internal_key sha256 k)),
        ground
            (arith, text_eq_iff r.key_hash (hash_internal_key sha256 k), text_eq_iff r.route route),
        ground (
          arith,
          text_eq_iff r.key_hash (hash_internal_key sha256 k),
          text_eq_iff r.route route,
          text_eq_iff r.real_key real_key,
        ),
      )

  -- The store refines a set of records. After any sequence of AddKey and DeleteKey calls from the
  -- start, whose random draws are new or fail, the records that ListKeys gives are, up to their
  -- order, the set that the same calls make of the empty set; and a local key finds a record of a
  -- route and an upstream key exactly if a record of that set with its hash has both.
  pub run_refines :
      (calls : List Call) (k route real_key : Text)
      → AllFresh sha256 calls new_store
      → (abstraction (run_calls sha256 calls new_store) ≡ replay sha256 calls (directory []))
        × (Opens k route real_key (run_calls sha256 calls new_store) ↔ (
            has
              (vouches (hash_internal_key sha256 k) route real_key)
              (replay sha256 calls (directory []))
            ≡ true))
  unfolding new_store list_keys values
  run_refines calls k route real_key f =
      let (v, e) = run_abstract calls new_store f (new_store-IsConsistent sha256) in
      (
        e,
        subst
            (λ (d : Directory).
              Opens k route real_key (run_calls sha256 calls new_store)
              ↔ (has (vouches (hash_internal_key sha256 k) route real_key) d ≡ true))
            e (Opens-iff k route real_key (run_calls sha256 calls new_store) v),
      )
