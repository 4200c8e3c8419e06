-- ===== src/Keystore.antt =====
-- internal/keystore/store.go: the in-memory credential store.
-- A record is written once and never changed, so that the pointers of the two indexes are modelled
-- by equal values. A method that locks runs alone, so that each is one function on the store.
-- The digest of SHA-256 is the parameter `sha256`; the random UUID and the random bytes are
-- arguments, `none` where their source fails.
use ai_local.Prelude.{
  Bool, List, Map, Option, Result, Text, [], codes, delete, err, false, hex_encode, if◌then◌else◌,
  insert, leb, length, lookup, ltb, none, ok, some, take, text_eq, true, values, ℕ, ◌&&◌, ◌++◌, ◌∷◌,
}
pub mod Invariant
pub mod Lookup
pub mod Listing
pub mod Masking
pub mod History
pub mod Directory
pub mod Calls
pub mod Represented
pub mod Abstract
pub mod Renamed

pub record KeyRecord : Type 0 where
  pub uuid : Text
  pub alias : Text
  pub route : Text
  pub real_key : Text
  pub internal_key : Text
  pub key_hash : Text

-- `keys` is indexed by UUID, `by_hash` by the hash of the internal key.
pub record Store : Type 0 where
  pub keys : Map KeyRecord
  pub by_hash : Map KeyRecord

pub data AddError : Type 0 where
  duplicate_key : Text → AddError
  no_identity : AddError
  no_entropy : AddError

unfoldable pub new_store : Store
new_store = record { keys = []; by_hash = [] }

-- The scan of AddKey over the records, which stops at the first duplicate.
unfoldable pub find_duplicate : Text → Text → List KeyRecord → Option KeyRecord
find_duplicate route real_key [] = none
find_duplicate route real_key (r ∷ rs) =
    if text_eq r.route route && text_eq r.real_key real_key
    then some r
    else find_duplicate route real_key rs

-- The two writes at the end of AddKey.
unfoldable pub store_record : KeyRecord → Store → Store
store_record r s = record { keys = insert r.uuid r s.keys; by_hash = insert r.key_hash r s.by_hash }

unfoldable pub list_keys : Store → List KeyRecord
list_keys s = values s.keys

unfoldable pub delete_key : Text → Store → Store × Bool
delete_key uid s = elim (lookup uid s.keys) [
  | none ↦ (s, false)
  | some r ↦ (record { keys = delete uid s.keys; by_hash = delete r.key_hash s.by_hash }, true)
]

-- `key[:n] + "******"`
unfoldable pub redact : ℕ → Text → Text
redact n key = take n key ++ codes "******"

unfoldable pub mask_key : Text → Text
unfolding redact
mask_key key =
    if ltb (length key) 4
    then codes "******"
    else if leb (length key) 12
    then redact 4 key
    else if ltb 30 (length key)
    then redact 12 key
    else redact 8 key

unfoldable pub make_internal_key : List ℕ → Text
make_internal_key bytes = codes "sk-local-" ++ hex_encode bytes

module _ (sha256 : Text → List ℕ) where
  unfoldable pub hash_internal_key : Text → Text
  hash_internal_key internal_key = hex_encode (sha256 internal_key)

  -- The record that AddKey builds from what it has drawn.
  unfoldable pub make_record : Text → List ℕ → Text → Text → Text → KeyRecord
  make_record id bytes route real_key alias =
      let internal_key = make_internal_key bytes in
      record {
        uuid = id;
        alias = alias;
        route = route;
        real_key = real_key;
        internal_key = internal_key;
        key_hash = hash_internal_key internal_key;
      }

  -- AddKey after its scan: the UUID is drawn first, the random bytes second.
  unfoldable pub register :
      Option Text → Option (List ℕ) → Text → Text → Text → Store → Store × Result AddError KeyRecord
  register none entropy route real_key alias s = (s, err no_identity)
  register (some id) none route real_key alias s = (s, err no_entropy)
  register (some id) (some bytes) route real_key alias s =
      let r = make_record id bytes route real_key alias in (store_record r s, ok r)

  unfoldable pub add_key :
      Option Text → Option (List ℕ) → Text → Text → Text → Store → Store × Result AddError KeyRecord
  add_key id entropy route real_key alias s = elim (find_duplicate route real_key (list_keys s)) [
    | none ↦ register id entropy route real_key alias s
    | some existing ↦ (s, err (duplicate_key existing.alias))
  ]

  unfoldable pub get_key_by_internal : Text → Store → Option KeyRecord
  get_key_by_internal internal_key s = lookup (hash_internal_key internal_key) s.by_hash
