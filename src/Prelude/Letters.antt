-- ===== src/Prelude/Letters.antt =====
-- Case folding and hexadecimal digits.
-- `to_lower` has every ASCII byte that `strings.ToLower` puts out: besides A to Z only U+0130 and
-- U+212A have an ASCII lower case. `equal_fold` is `strings.EqualFold` where one side is ASCII:
-- besides letters of the other case only U+017F folds to `s` and U+212A to `k`.
use Prim.Native.Nat.{ℕ, ◌+◌, ◌-◌, ◌/◌, ◌%◌}
use mathlib.Core.Path.{◌≡◌, refl}
use mathlib.Core.Bool.{Bool, true, ◌&&◌}
use mathlib.Core.List.{List, [], ◌∷◌}
use ai_local.Prelude.Tests.{ltb, leb, ◌==◌, if◌then◌else◌}
use ai_local.Prelude.Texts.{Text, codes, text_eq}

pub lower_byte : ℕ → ℕ
lower_byte c = if leb b'A' c && leb c b'Z' then c + 32 else c

-- strings.ToLower(s), as far as ASCII results go
unfoldable pub to_lower : Text → Text
unfolding lower_byte
to_lower [] = []
to_lower (a ∷ []) = lower_byte a ∷ []
to_lower (a ∷ b ∷ []) =
    if a == 0xC4 && b == 0xB0 then b'i' ∷ [] else lower_byte a ∷ lower_byte b ∷ []
to_lower (a ∷ b ∷ c ∷ s) =
    let rest = to_lower (b ∷ c ∷ s) in
    let dotted = to_lower (c ∷ s) in
    let kelvin = to_lower s in
    if a == 0xC4 && b == 0xB0
    then b'i' ∷ dotted
    else if a == 0xE2 && (b == 0x84 && c == 0xAA)
    then b'k' ∷ kelvin
    else lower_byte a ∷ rest

-- The folded form of a text.
unfoldable pub fold_case : Text → Text
unfolding lower_byte
fold_case [] = []
fold_case (a ∷ []) = lower_byte a ∷ []
fold_case (a ∷ b ∷ []) =
    if a == 0xC5 && b == 0xBF then b's' ∷ [] else lower_byte a ∷ lower_byte b ∷ []
fold_case (a ∷ b ∷ c ∷ s) =
    let rest = fold_case (b ∷ c ∷ s) in
    let long_s = fold_case (c ∷ s) in
    let kelvin = fold_case s in
    if a == 0xC5 && b == 0xBF
    then b's' ∷ long_s
    else if a == 0xE2 && (b == 0x84 && c == 0xAA)
    then b'k' ∷ kelvin
    else lower_byte a ∷ rest

-- strings.EqualFold(s, t)
unfoldable pub equal_fold : Text → Text → Bool
unfolding fold_case text_eq
equal_fold s t = text_eq (fold_case s) (fold_case t)

pub hex_digit : ℕ → ℕ
hex_digit d = if ltb d 10 then b'0' + d else b'a' + (d - 10)

-- hex.EncodeToString(bytes)
unfoldable pub hex_encode : List ℕ → Text
unfolding hex_digit
hex_encode [] = []
hex_encode (b ∷ bs) = hex_digit (b / 16) ∷ hex_digit (b % 16) ∷ hex_encode bs

folds : equal_fold (codes "BEARER") (codes "bearer") ≡ true
unfolding equal_fold
folds = refl

encodes : hex_encode (0 ∷ 255 ∷ 26 ∷ []) ≡ codes "00ff1a"
unfolding hex_encode
encodes = refl
