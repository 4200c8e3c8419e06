-- ===== src/Tests/Keys.antt =====
-- Runs of the credential store. The digest here keeps the text, which no two keys share.
use ai_local.Prelude.{
  List, Text, [], codes, err, hex_encode, insert, lookup, none, refl, some, text_eq, true, values,
  ℕ, ◌↔◌, ◌∷◌, ◌≡◌,
}
use ai_local.Keystore.{
  KeyRecord, Store, add_key, find_duplicate, get_key_by_internal, hash_internal_key, list_keys,
  make_internal_key, make_record, new_store, register, store_record, delete_key, duplicate_key,
}
use ai_local.Keystore.Invariant.{IsConsistent, IsFresh}
use ai_local.Keystore.Lookup.{get-add_key, add-delete}
use ai_local.Keystore.Abstract.{Opens, run_refines}
use ai_local.Keystore.Calls.{Call, add, del, abstraction, replay, run_calls, vouches}
use ai_local.Keystore.Directory.{directory, has}
use ai_local.Keystore.History.{Reach-IsConsistent, Reach, added, next, start}

abbrev digest : Text → List ℕ
digest k = k

abbrev bytes : List ℕ
bytes = 1 ∷ 2 ∷ []

abbrev claude : Text
claude = codes "/claude"

-- The store after one registration.
abbrev one_key : Store
one_key =
    (add_key digest (some (codes "id-1")) (some bytes) claude (codes "sk-ant") (codes "team")
      new_store).0

abbrev first_record : KeyRecord
first_record = make_record digest (codes "id-1") bytes claude (codes "sk-ant") (codes "team")

IsFresh-in_empty : (i : Text) (b : List ℕ) → IsFresh digest i b new_store
unfolding new_store lookup
IsFresh-in_empty i b = record { new_id = refl; new_hash = refl }

one_key-Reach : Reach digest one_key
one_key-Reach = next start (
    added (some (codes "id-1")) (some bytes) claude (codes "sk-ant") (codes "team")
      (λ i b p q. IsFresh-in_empty i b))

one_key-IsConsistent : IsConsistent digest one_key
one_key-IsConsistent = (Reach-IsConsistent digest one_key-Reach).0

stored : lookup (codes "id-1") one_key.keys ≡ some first_record
unfolding add_key register new_store list_keys find_duplicate values store_record make_record insert
    lookup text_eq hash_internal_key make_internal_key hex_encode
stored = refl

no_duplicate : find_duplicate claude (codes "sk-ant") (list_keys new_store) ≡ none
unfolding find_duplicate list_keys new_store values
no_duplicate = refl

found : get_key_by_internal digest (make_internal_key bytes) one_key ≡ some first_record
unfolding text_eq hash_internal_key make_internal_key hex_encode make_record
found =
    get-add_key digest (codes "id-1") bytes claude (codes "sk-ant") (codes "team")
      (make_internal_key bytes) new_store no_duplicate

add-delete_example :
    ((delete_key (codes "id-1") one_key).1 ≡ true)
    × (get_key_by_internal digest (codes "sk-local-0102") (delete_key (codes "id-1") one_key).0
        ≡ get_key_by_internal digest (codes "sk-local-0102") new_store)
add-delete_example =
    add-delete digest (codes "id-1") bytes claude (codes "sk-ant") (codes "team")
      (codes "sk-local-0102") new_store no_duplicate (IsFresh-in_empty (codes "id-1") bytes)

-- The second registration of one upstream key on one route is refused.
refused_twice :
    add_key digest none none claude (codes "sk-ant") [] one_key
    ≡ (one_key, err (duplicate_key (codes "team")))
unfolding add_key register new_store list_keys find_duplicate values store_record make_record insert
    text_eq hash_internal_key make_internal_key hex_encode
refused_twice = refl

abbrev two_calls : List Call
two_calls =
    add (some (codes "id-1")) (some bytes) claude (codes "sk-ant") (codes "team")
    ∷ del (codes "id-0")
    ∷ []

run_refines_example :
    (abstraction (run_calls digest two_calls new_store) ≡ replay digest two_calls (directory []))
    × (Opens digest
          (make_internal_key bytes)
          claude
          (codes "sk-ant")
          (run_calls digest two_calls new_store)
        ↔ (has
              (vouches (hash_internal_key digest (make_internal_key bytes)) claude (codes "sk-ant"))
              (replay digest two_calls (directory []))
            ≡ true))
run_refines_example =
    run_refines digest two_calls (make_internal_key bytes) claude (codes "sk-ant")
      (λ i b p q. IsFresh-in_empty i b, (tt, tt))
