-- ===== src/Prelude/Maps.antt =====
-- Go's maps with string keys: association lists, whose order stands for an iteration order.
-- `insert` keeps one entry for each key; `delete` takes every entry of its key away.
use mathlib.Core.Path.{◌≡◌, refl, ap, ap₂, sym}
use mathlib.Core.Option.{Option, none, some}
use mathlib.Core.Bool.{true, false}
use mathlib.Core.List.{[], List, ◌∷◌, Memᴰ}
use native.Mathlib.Omega.{arith}
use ai_local.Prelude.Tests.{if◌then◌else◌, Bool-cases}
use mathlib.Core.Logic.{◌⊎◌, inl, inr}
use ai_local.Prelude.Texts.{Text, text_eq, text_eq_iff, text_eq_refl}

abbrev pub Map {ℓ} : Type ℓ → Type ℓ
Map V = List (Text × V)

module _ {ℓ} {V : Type ℓ} where
  -- v, ok := m[k]
  unfoldable pub lookup : Text → Map V → Option V
  lookup k [] = none
  lookup k ((j, v) ∷ m) = if text_eq j k then some v else lookup k m

  -- m[k] = v
  unfoldable pub insert : Text → V → Map V → Map V
  insert k v [] = (k, v) ∷ []
  insert k v ((j, w) ∷ m) = if text_eq j k then (k, v) ∷ m else (j, w) ∷ insert k v m

  -- delete(m, k)
  unfoldable pub delete : Text → Map V → Map V
  delete k [] = []
  delete k ((j, w) ∷ m) = let rest = delete k m in if text_eq j k then rest else (j, w) ∷ rest

  -- for _, v := range m
  unfoldable pub values : Map V → List V
  values [] = []
  values ((j, v) ∷ m) = v ∷ values m

  pub lookup-insert :
      (k j : Text) (v : V) (m : Map V)
      → lookup j (insert k v m) ≡ (if text_eq k j then some v else lookup j m)
  unfolding lookup insert
  lookup-insert k j v [] = refl
  lookup-insert k j v ((i, w) ∷ m) =
      ground (arith, text_eq_iff k j, text_eq_iff i k, text_eq_iff i j, lookup-insert k j v m)

  pub lookup-delete :
      (k j : Text) (m : Map V) → lookup j (delete k m) ≡ (if text_eq k j then none else lookup j m)
  unfolding lookup delete
  lookup-delete k j [] = ground arith
  lookup-delete k j ((i, w) ∷ m) =
      ground (arith, text_eq_iff k j, text_eq_iff i k, text_eq_iff i j, lookup-delete k j m)

  -- No key stands twice, so that the values are what the keys find.
  abbrev pub Distinct : Map V → Type ℓ
  Distinct [] = Unit
  Distinct ((k, v) ∷ m) = (lookup k m ≡ none) × Distinct m

  pub insert-Distinct : (k : Text) (v : V) (m : Map V) → Distinct m → Distinct (insert k v m)
  unfolding insert lookup
  insert-Distinct k v [] h = (refl, tt)
  insert-Distinct k v ((j, w) ∷ m) h = elim (Bool-cases (text_eq j k)) [
    | inl e ↦ rw (e, insert) (rw ((text_eq_iff j k).0 e) at h)
    | inr e ↦
        rw (e, insert)
          (
            ground (arith, lookup-insert k j v m, text_eq_iff k j, text_eq_iff j k),
            insert-Distinct k v m h.1,
          )
  ]

  pub delete-Distinct : (k : Text) (m : Map V) → Distinct m → Distinct (delete k m)
  unfolding delete lookup
  delete-Distinct k [] h = h
  delete-Distinct k ((j, w) ∷ m) h = elim (Bool-cases (text_eq j k)) [
    | inl e ↦ rw (e, delete) (delete-Distinct k m h.1)
    | inr e ↦ rw (e, delete) (ground (arith, lookup-delete k j m), delete-Distinct k m h.1)
  ]

  -- What a key finds stands among the values.
  pub values-of_lookup : (k : Text) (v : V) (m : Map V) → lookup k m ≡ some v → Memᴰ v (values m)
  unfolding lookup values
  values-of_lookup k v [] e = cc
  values-of_lookup k v ((j, w) ∷ m) e = elim (Bool-cases (text_eq j k)) [
    | inl p ↦ Memᴰ.head (ground arith)
    | inr p ↦ Memᴰ.tail (values-of_lookup k v m (ground arith))
  ]

  -- What stands among the values is found under some key.
  pub lookup-of_values :
      (v : V) (m : Map V) → Distinct m → Memᴰ v (values m) → (k : Text) × (lookup k m ≡ some v)
  unfolding lookup values
  lookup-of_values v [] h x = elim x [ ]
  lookup-of_values v ((j, w) ∷ m) h (Memᴰ.head e) = (j, rw text_eq_refl (ap some (sym e)))
  lookup-of_values v ((j, w) ∷ m) h (Memᴰ.tail x) =
      let (k, p) = lookup-of_values v m h.1 x in (k, under k p (Bool-cases (text_eq j k)))
    where
      under :
          (k : Text)
          → lookup k m ≡ some v
          → (text_eq j k ≡ true) ⊎ (text_eq j k ≡ false)
          → lookup k ((j, w) ∷ m) ≡ some v
      under k p (inl q) = ground (arith, h.0, text_eq_iff j k)
      under k p (inr q) = ground arith

  -- What a key finds is an entry under that key.
  pub entry-of_lookup : (k : Text) (v : V) (m : Map V) → lookup k m ≡ some v → Memᴰ (k, v) m
  unfolding lookup
  entry-of_lookup k v [] e = cc
  entry-of_lookup k v ((j, w) ∷ m) e = elim (Bool-cases (text_eq j k)) [
    | inl p ↦
        Memᴰ.head (ap₂ (λ (a : Text) (b : V). (a, b)) (sym ((text_eq_iff j k).0 p)) (ground arith))
    | inr p ↦ Memᴰ.tail (entry-of_lookup k v m (ground arith))
  ]

  pub entry-insert :
      (k j : Text) (v w : V) (m : Map V) → Memᴰ (j, w) (insert k v m) → (j ≡ k) ⊎ Memᴰ (j, w) m
  unfolding insert
  entry-insert k j v w [] (Memᴰ.head h) = inl (ap (λ (a : Text × V). a.0) h)
  entry-insert k j v w [] (Memᴰ.tail t) = elim t [ ]
  entry-insert k j v w ((i, x) ∷ m) t = under (Bool-cases (text_eq i k)) (entry-insert k j v w m) t
    where
      under :
          (text_eq i k ≡ true) ⊎ (text_eq i k ≡ false)
          → (Memᴰ (j, w) (insert k v m) → (j ≡ k) ⊎ Memᴰ (j, w) m)
          → Memᴰ (j, w) (insert k v ((i, x) ∷ m))
          → (j ≡ k) ⊎ Memᴰ (j, w) ((i, x) ∷ m)
      under (inl e) ih u = replaced (rw (e, insert) at u)
        where
          replaced : Memᴰ (j, w) ((k, v) ∷ m) → (j ≡ k) ⊎ Memᴰ (j, w) ((i, x) ∷ m)
          replaced (Memᴰ.head h) = inl (ap (λ (a : Text × V). a.0) h)
          replaced (Memᴰ.tail q) = inr (Memᴰ.tail q)
      under (inr e) ih u = kept (rw (e, insert) at u)
        where
          kept : Memᴰ (j, w) ((i, x) ∷ insert k v m) → (j ≡ k) ⊎ Memᴰ (j, w) ((i, x) ∷ m)
          kept (Memᴰ.head h) = inr (Memᴰ.head h)
          kept (Memᴰ.tail q) = elim (ih q) [ inl a ↦ inl a | inr b ↦ inr (Memᴰ.tail b) ]
