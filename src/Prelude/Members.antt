-- ===== src/Prelude/Members.antt =====
-- The members of the lists that SQL's WHERE and ORDER BY and a map over rows give.
use mathlib.Core.Path.{subst, ◌≡◌, refl, sym}
use mathlib.Core.Bool.{Bool, true, false}
use mathlib.Core.Logic.{◌↔◌}
use mathlib.Core.List.{List, [], ◌∷◌, Memᴰ, map}
use ai_local.Prelude.Tests.{if◌then◌else◌}
use ai_local.Prelude.Sorting.{select, place, order_by}

module _ {A : Type 0} where
  pub Memᴰ-select :
      (keep : A → Bool) (x : A) (xs : List A)
      → Memᴰ x (select keep xs)
      → Memᴰ x xs × (keep x ≡ true)
  unfolding select
  Memᴰ-select keep x [] m = elim m [ ]
  Memᴰ-select keep x (y ∷ ys) m = by_test (keep y) refl (Memᴰ-select keep x ys) m
    where
      by_test :
          (b : Bool)
          → keep y ≡ b
          → (Memᴰ x (select keep ys) → Memᴰ x ys × (keep x ≡ true))
          → Memᴰ x (if b then y ∷ select keep ys else select keep ys)
          → Memᴰ x (y ∷ ys) × (keep x ≡ true)
      by_test true e ih (Memᴰ.head p) = (Memᴰ.head p, subst (λ z. keep z ≡ true) (sym p) e)
      by_test true e ih (Memᴰ.tail n) = let (a, h) = ih n in (Memᴰ.tail a, h)
      by_test false e ih n = let (a, h) = ih n in (Memᴰ.tail a, h)

  pub Memᴰ-selected :
      (keep : A → Bool) (x : A) (xs : List A) → Memᴰ x xs → keep x ≡ true → Memᴰ x (select keep xs)
  unfolding select
  Memᴰ-selected keep x [] m e = elim m [ ]
  Memᴰ-selected keep x (y ∷ ys) (Memᴰ.head p) e =
      let kept : keep y ≡ true = subst (λ z. keep z ≡ true) p e in rw kept (Memᴰ.head p)
  Memᴰ-selected keep x (y ∷ ys) (Memᴰ.tail m) e = by_test (keep y) (Memᴰ-selected keep x ys m e)
    where
      by_test :
          (b : Bool)
          → Memᴰ x (select keep ys)
          → Memᴰ x (if b then y ∷ select keep ys else select keep ys)
      by_test true n = Memᴰ.tail n
      by_test false n = n

  one_more :
      (x y : A) (us vs : List A) → (Memᴰ x us → Memᴰ x vs) → Memᴰ x (y ∷ us) → Memᴰ x (y ∷ vs)
  one_more x y us vs f (Memᴰ.head p) = Memᴰ.head p
  one_more x y us vs f (Memᴰ.tail m) = Memᴰ.tail (f m)

  swapped : (x y z : A) (zs : List A) → Memᴰ x (y ∷ z ∷ zs) → Memᴰ x (z ∷ y ∷ zs)
  swapped x y z zs (Memᴰ.head p) = Memᴰ.tail (Memᴰ.head p)
  swapped x y z zs (Memᴰ.tail (Memᴰ.head p)) = Memᴰ.head p
  swapped x y z zs (Memᴰ.tail (Memᴰ.tail m)) = Memᴰ.tail (Memᴰ.tail m)

  module _ (before : A → A → Bool) where
    Memᴰ-place : (x y : A) (ys : List A) → Memᴰ x (place before y ys) ↔ Memᴰ x (y ∷ ys)
    unfolding place
    Memᴰ-place x y [] = (λ m. m, λ m. m)
    Memᴰ-place x y (z ∷ zs) = by_test (before y z) (Memᴰ-place x y zs)
      where
        by_test :
            (b : Bool)
            → (Memᴰ x (place before y zs) ↔ Memᴰ x (y ∷ zs))
            → Memᴰ x (if b then y ∷ z ∷ zs else z ∷ place before y zs) ↔ Memᴰ x (y ∷ z ∷ zs)
        by_test true ih = (λ m. m, λ m. m)
        by_test false ih = (
          λ m. swapped x z y zs (one_more x z (place before y zs) (y ∷ zs) ih.0 m),
          λ m. one_more x z (y ∷ zs) (place before y zs) ih.1 (swapped x y z zs m),
        )

    pub Memᴰ-order_by : (x : A) (xs : List A) → Memᴰ x (order_by before xs) ↔ Memᴰ x xs
    unfolding order_by
    Memᴰ-order_by x [] = (λ m. m, λ m. m)
    Memᴰ-order_by x (y ∷ ys) =
        let ih = Memᴰ-order_by x ys in
        let here = Memᴰ-place x y (order_by before ys) in
        (
          λ m. one_more x y (order_by before ys) ys ih.0 (here.0 m),
          λ m. here.1 (one_more x y ys (order_by before ys) ih.1 m),
        )

  module _ {B : Type 0} (f : A → B) where
    pub Memᴰ-map : (y : B) (xs : List A) → Memᴰ y (map f xs) → (x : A) × Memᴰ x xs × (y ≡ f x)
    Memᴰ-map y [] m = elim m [ ]
    Memᴰ-map y (x ∷ xs) (Memᴰ.head e) = (x, Memᴰ.head refl, e)
    Memᴰ-map y (x ∷ xs) (Memᴰ.tail m) = let (z, n, e) = Memᴰ-map y xs m in (z, Memᴰ.tail n, e)

    pub Memᴰ-mapped : (x : A) (xs : List A) → Memᴰ x xs → Memᴰ (f x) (map f xs)
    Memᴰ-mapped x [] m = elim m [ ]
    Memᴰ-mapped x (y ∷ ys) (Memᴰ.head e) = rw e (Memᴰ.head refl)
    Memᴰ-mapped x (y ∷ ys) (Memᴰ.tail m) = Memᴰ.tail (Memᴰ-mapped x ys m)
