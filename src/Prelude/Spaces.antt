-- ===== src/Prelude/Spaces.antt =====
-- strings.TrimSpace and strings.Fields over UTF-8 bytes. White space is `unicode.IsSpace`.
-- A pattern of white space starts with a byte that never continues another rune, so that a scan
-- by bytes finds the runes that Go's scan by runes finds, in malformed text too.
use Prim.Native.Nat.{ℕ, zero, suc}
use mathlib.Core.Path.{◌≡◌, refl}
use mathlib.Core.Bool.{Bool, ◌&&◌, ◌||◌}
use mathlib.Core.List.{List, [], ◌∷◌, ◌++◌, reverse}
use ai_local.Prelude.Tests.{leb, ◌==◌, if◌then◌else◌}
use ai_local.Prelude.Texts.{Text, codes}

-- '\t' to '\r', and ' '
pub ascii_space : ℕ → Bool
ascii_space a = (leb 9 a && leb a 13) || a == 32

-- U+0085 and U+00A0
pub space2 : ℕ → ℕ → Bool
space2 a b = a == 0xC2 && (b == 0x85 || b == 0xA0)

-- U+1680, U+2000 to U+200A, U+2028, U+2029, U+202F, U+205F and U+3000
pub space3 : ℕ → ℕ → ℕ → Bool
space3 a b c =
    (a == 0xE1 && (b == 0x9A && c == 0x80))
    || (a == 0xE2
        && ((b == 0x80 && ((leb 0x80 c && leb c 0x8A) || (c == 0xA8 || (c == 0xA9 || c == 0xAF))))
            || (b == 0x81 && c == 0x9F)))
    || (a == 0xE3 && (b == 0x80 && c == 0x80))

-- The number of bytes of the white-space rune that a text starts with, or 0.
unfoldable pub space_len : Text → ℕ
unfolding ascii_space space2 space3
space_len [] = 0
space_len (a ∷ []) = if ascii_space a then 1 else 0
space_len (a ∷ b ∷ []) = if ascii_space a then 1 else if space2 a b then 2 else 0
space_len (a ∷ b ∷ c ∷ s) =
    if ascii_space a then 1 else if space2 a b then 2 else if space3 a b c then 3 else 0

-- The same for the end of a text, which is handed over back to front.
unfoldable pub space_len_back : Text → ℕ
unfolding ascii_space space2 space3
space_len_back [] = 0
space_len_back (a ∷ []) = if ascii_space a then 1 else 0
space_len_back (b ∷ a ∷ []) = if ascii_space b then 1 else if space2 a b then 2 else 0
space_len_back (c ∷ b ∷ a ∷ s) =
    if ascii_space c then 1 else if space2 b c then 2 else if space3 a b c then 3 else 0

-- Drops runes while `len` finds one; the number counts the bytes of a rune still to drop.
pub trim_by : (Text → ℕ) → ℕ → Text → Text
trim_by len k [] = []
trim_by len (suc k) (x ∷ s) = trim_by len k s
trim_by len zero (x ∷ s) = elim (len (x ∷ s)) [ zero ↦ x ∷ s | suc k ↦ trim_by len k s ]

-- strings.TrimSpace(s)
unfoldable pub trim_space : Text → Text
unfolding trim_by space_len space_len_back
trim_space s = reverse (trim_by space_len_back zero (reverse (trim_by space_len zero s)))

pub flush : Text → List Text → List Text
flush [] rest = rest
flush (c ∷ cs) rest = (c ∷ cs) ∷ rest

-- The word read so far, the bytes of white space still to skip, and the text that is left.
unfoldable pub fields_from : Text → ℕ → Text → List Text
unfolding flush space_len
fields_from word k [] = flush word []
fields_from word (suc k) (x ∷ s) = fields_from word k s
fields_from word zero (x ∷ s) = elim (space_len (x ∷ s)) [
  | zero ↦ fields_from (word ++ x ∷ []) zero s
  | suc k ↦ flush word (fields_from [] k s)
]

-- strings.Fields(s)
unfoldable pub fields : Text → List Text
unfolding fields_from
fields s = fields_from [] zero s

trims_both_ends : trim_space (0xC2 ∷ 0xA0 ∷ codes " a b " ++ 0xE3 ∷ 0x80 ∷ 0x80 ∷ []) ≡ codes "a b"
unfolding trim_space
trims_both_ends = refl

splits_words : fields (codes "  Bearer   sk-1 ") ≡ codes "Bearer" ∷ codes "sk-1" ∷ []
unfolding fields
splits_words = refl
