-- ===== src/Prelude/Sorting.antt =====
-- SQL's WHERE and ORDER BY on lists of rows; rows that ORDER BY leaves level keep their order.
use mathlib.Core.Path.{◌≡◌, refl}
use mathlib.Core.Bool.{Bool, true, false, ◌&&◌, ◌||◌}
use mathlib.Core.Logic.{inl, inr}
use mathlib.Core.List.{List, [], ◌∷◌, Permᴰ}
use native.Mathlib.Omega.{arith}
use ai_local.Prelude.Tests.{ltb, ◌==◌, if◌then◌else◌, Bool-cases}
use ai_local.Prelude.Texts.{Text}

-- s <= t, byte by byte
unfoldable pub text_leb : Text → Text → Bool
text_leb [] t = true
text_leb (x ∷ s) [] = false
text_leb (x ∷ s) (y ∷ t) = ltb x y || (x == y && text_leb s t)

pub text_leb_total : (s t : Text) → text_leb s t ≡ false → text_leb t s ≡ true
unfolding text_leb
text_leb_total [] t e = ground arith
text_leb_total (x ∷ s) [] e = refl
text_leb_total (x ∷ s) (y ∷ t) e = ground (arith, text_leb_total s t)

module _ {A : Type 0} where
  unfoldable pub select : (A → Bool) → List A → List A
  select keep [] = []
  select keep (x ∷ xs) = if keep x then x ∷ select keep xs else select keep xs

  same-Permᴰ : (xs : List A) → Permᴰ xs xs
  same-Permᴰ [] = Permᴰ.nil
  same-Permᴰ (x ∷ xs) = Permᴰ.cons refl (same-Permᴰ xs)

  module _ (before : A → A → Bool) where
    unfoldable pub place : A → List A → List A
    place x [] = x ∷ []
    place x (y ∷ ys) = if before x y then x ∷ y ∷ ys else y ∷ place x ys

    unfoldable pub order_by : List A → List A
    order_by [] = []
    order_by (x ∷ xs) = place x (order_by xs)

    abbrev pub Leads : A → List A → Type 0
    Leads x [] = Unit
    Leads x (y ∷ ys) = before x y ≡ true

    -- No row stands before one that has to precede it.
    abbrev pub Ordered : List A → Type 0
    Ordered [] = Unit
    Ordered (x ∷ xs) = Leads x xs × Ordered xs

    place-Permᴰ : (x : A) (ys : List A) → Permᴰ (place x ys) (x ∷ ys)
    unfolding place
    place-Permᴰ x [] = same-Permᴰ (x ∷ [])
    place-Permᴰ x (y ∷ ys) = elim (Bool-cases (before x y)) [
      | inl p ↦ rw p (same-Permᴰ (x ∷ y ∷ ys))
      | inr p ↦ rw p (Permᴰ.trans (Permᴰ.cons refl (place-Permᴰ x ys)) (Permᴰ.swap refl refl))
    ]

    pub order_by-Permᴰ : (xs : List A) → Permᴰ (order_by xs) xs
    unfolding order_by
    order_by-Permᴰ [] = Permᴰ.nil
    order_by-Permᴰ (x ∷ xs) =
        Permᴰ.trans (place-Permᴰ x (order_by xs)) (Permᴰ.cons refl (order_by-Permᴰ xs))

    module _ (total : (a b : A) → before a b ≡ false → before b a ≡ true) where
      place-Leads : (x y : A) (ys : List A) → before y x ≡ true → Leads y ys → Leads y (place x ys)
      unfolding place
      place-Leads x y [] p h = p
      place-Leads x y (z ∷ ys) p h = elim (Bool-cases (before x z)) [
        | inl q ↦ rw q p
        | inr q ↦ rw q h
      ]

      place-Ordered : (x : A) (ys : List A) → Ordered ys → Ordered (place x ys)
      unfolding place
      place-Ordered x [] h = (tt, tt)
      place-Ordered x (y ∷ ys) h = elim (Bool-cases (before x y)) [
        | inl p ↦ rw p (p, h)
        | inr p ↦ rw p (place-Leads x y ys (total x y p) h.0, place-Ordered x ys h.1)
      ]

      pub order_by-Ordered : (xs : List A) → Ordered (order_by xs)
      unfolding order_by
      order_by-Ordered [] = tt
      order_by-Ordered (x ∷ xs) = place-Ordered x (order_by xs) (order_by-Ordered xs)
