-- ===== src/Keystore/Calls.antt =====
-- The calls that change the credential store of internal/keystore/store.go, and what they make of a
-- set of records.
use ai_local.Prelude.{
  Bool, List, Option, Text, [], if◌then◌else◌, none, some, text_eq, ℕ, ◌&&◌, ◌∷◌, ◌≡◌,
}
use ai_local.Keystore.{KeyRecord, Store, add_key, delete_key, list_keys, make_record}
use ai_local.Keystore.Directory.{Directory, directory, has, put, remove}
use ai_local.Keystore.Invariant.{IsFresh}

-- The calls that change the store, with what the sources of randomness give them.
pub data Call : Type 0 where
  add : Option Text → Option (List ℕ) → Text → Text → Text → Call
  del : Text → Call

-- A record for this upstream key on this route.
abbrev pub is_twin : Text → Text → KeyRecord → Bool
is_twin route real_key r = text_eq r.route route && text_eq r.real_key real_key

-- A record that lets keys of this hash through to this upstream key on this route.
abbrev pub vouches : Text → Text → Text → KeyRecord → Bool
vouches hash route real_key r = text_eq r.key_hash hash && is_twin route real_key r

abbrev pub abstraction : Store → Directory
abstraction s = directory (list_keys s)

module _ (sha256 : Text → List ℕ) where
  unfoldable pub after_call : Call → Store → Store
  after_call (add id entropy route real_key alias) s =
      (add_key sha256 id entropy route real_key alias s).0
  after_call (del uid) s = (delete_key uid s).0

  unfoldable pub run_calls : List Call → Store → Store
  run_calls [] s = s
  run_calls (c ∷ calls) s = run_calls calls (after_call c s)

  -- The same calls on a set of records.
  unfoldable pub put_drawn :
      Option Text → Option (List ℕ) → Text → Text → Text → Directory → Directory
  put_drawn none entropy route real_key alias d = d
  put_drawn (some id) none route real_key alias d = d
  put_drawn (some id) (some bytes) route real_key alias d =
      put (make_record sha256 id bytes route real_key alias) d

  unfoldable pub promised : Call → Directory → Directory
  promised (add id entropy route real_key alias) d =
      if has (is_twin route real_key) d then d else put_drawn id entropy route real_key alias d
  promised (del uid) d = remove uid d

  unfoldable pub replay : List Call → Directory → Directory
  replay [] d = d
  replay (c ∷ calls) d = replay calls (promised c d)

  -- What a call draws is new.
  abbrev pub FreshFor : Call → Store → Type 0
  FreshFor (add id entropy route real_key alias) s =
      (i : Text) (b : List ℕ) → id ≡ some i → entropy ≡ some b → IsFresh sha256 i b s
  FreshFor (del uid) s = Unit {0}

  abbrev pub AllFresh : List Call → Store → Type 0
  AllFresh [] s = Unit {0}
  AllFresh (c ∷ calls) s = FreshFor c s × AllFresh calls (after_call c s)
