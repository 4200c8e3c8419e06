-- ===== src/Apml/Names.antt =====
-- The two regular expressions of internal/apml/parser.go, anchored at both ends.
use ai_local.Prelude.{Bool, Text, [], codes, false, leb, refl, true, ℕ, ◌&&◌, ◌==◌, ◌||◌, ◌∷◌, ◌≡◌}

unfoldable pub is_letter : ℕ → Bool
is_letter c = (leb b'a' c && leb c b'z') || (leb b'A' c && leb c b'Z')

unfoldable pub is_digit : ℕ → Bool
is_digit c = leb b'0' c && leb c b'9'

pub is_name_byte : ℕ → Bool
unfolding is_letter is_digit
is_name_byte c = is_letter c || (is_digit c || (c == b'_' || c == b'-'))

unfoldable pub is_plan_byte : ℕ → Bool
unfolding is_letter is_digit
is_plan_byte c = is_letter c || (is_digit c || c == b'-')

unfoldable pub all_bytes : (ℕ → Bool) → Text → Bool
all_bytes p [] = true
all_bytes p (c ∷ s) = p c && all_bytes p s

-- alphaNameRegex, ^[a-zA-Z][a-zA-Z0-9_-]*$
unfoldable pub is_alpha_name : Text → Bool
unfolding is_name_byte all_bytes
is_alpha_name [] = false
is_alpha_name (c ∷ s) = is_letter c && all_bytes is_name_byte s

-- planVersionRegex, ^[a-zA-Z0-9][a-zA-Z0-9-]*$
unfoldable pub is_plan_name : Text → Bool
unfolding is_plan_byte all_bytes
is_plan_name [] = false
is_plan_name (c ∷ s) = (is_letter c || is_digit c) && all_bytes is_plan_byte s

digits_are_names : is_alpha_name (codes "vip_pool-2") ≡ true
unfolding is_alpha_name
digits_are_names = refl
