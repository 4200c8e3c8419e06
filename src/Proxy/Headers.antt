-- ===== src/Proxy/Headers.antt =====
-- net/http's Header as a map from canonical names to the list of values.
use ai_local.Prelude.{
  Bool, List, Map, Option, Text, [], codes, delete, if◌then◌else◌, insert, leb, lookup, none, refl,
  some, true, ℕ, ◌&&◌, ◌++◌, ◌+◌, ◌-◌, ◌==◌, ◌||◌, ◌∷◌, ◌≡◌,
}

-- The bytes of a token of RFC 7230.
pub is_token_byte : ℕ → Bool
is_token_byte c =
    (leb b'a' c && leb c b'z')
    || ((leb b'A' c && leb c b'Z')
        || ((leb b'0' c && leb c b'9')
            || (c == 33
                || (c == 35
                    || (c == 36
                        || (c == 37
                            || (c == 38
                                || (c == 39
                                    || (c == 42
                                        || (c == 43
                                            || (c == 45
                                                || (c == 46
                                                    || (c == 94
                                                        || (c == 95
                                                            || (c == 96
                                                            || (c == 124 || c == 126))))))))))))))))

pub all_tokens : Text → Bool
all_tokens [] = true
all_tokens (c ∷ s) = is_token_byte c && all_tokens s

-- Upper case at the start and after a dash, lower case elsewhere.
pub canonical_from : Bool → Text → Text
canonical_from up [] = []
canonical_from up (c ∷ s) =
    (if up
      then (if leb b'a' c && leb c b'z' then c - 32 else c)
      else if leb b'A' c && leb c b'Z'
      then c + 32
      else c)
    ∷ canonical_from (c == b'-') s

-- textproto.CanonicalMIMEHeaderKey: a name that is no token stays as it is.
unfoldable pub canonical : Text → Text
unfolding is_token_byte all_tokens canonical_from
canonical name = if all_tokens name then canonical_from true name else name

abbrev pub Header : Type 0
Header = Map (List Text)

abbrev pub first_of_values : Option (List Text) → Text
first_of_values none = []
first_of_values (some []) = []
first_of_values (some (v ∷ vs)) = v

abbrev pub all_of_values : Option (List Text) → List Text
all_of_values none = []
all_of_values (some vs) = vs

-- h.Get(name)
unfoldable pub header_get : Text → Header → Text
header_get name h = first_of_values (lookup (canonical name) h)

-- h.Values(name)
unfoldable pub header_values : Text → Header → List Text
header_values name h = all_of_values (lookup (canonical name) h)

-- h.Set(name, value)
unfoldable pub header_set : Text → Text → Header → Header
header_set name value h = insert (canonical name) (value ∷ []) h

-- h.Add(name, value)
unfoldable pub header_add : Text → Text → Header → Header
header_add name value h =
    insert (canonical name) (all_of_values (lookup (canonical name) h) ++ value ∷ []) h

-- h.Del(name)
unfoldable pub header_del : Text → Header → Header
header_del name h = delete (canonical name) h

canonical_name : canonical (codes "x-api-KEY") ≡ codes "X-Api-Key"
unfolding canonical
canonical_name = refl

not_a_token : canonical (codes "authorization: bearer") ≡ codes "authorization: bearer"
unfolding canonical
not_a_token = refl
