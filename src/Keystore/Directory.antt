-- ===== src/Keystore/Directory.antt =====
-- What internal/keystore/store.go promises, without its indexes and without an order: a set of
-- records, as lists up to their members. A call adds a record, takes those of a UUID away, or asks
-- whether some record passes a test.
use mathlib.Core.Quot
use mathlib.Core.Quot.{Quot, Quot-set}
use ai_local.Prelude.{
  Bool, Bool-cases, List, Memᴰ, Text, [], arith, false, if◌then◌else◌, inl, inr, refl, sym, text_eq,
  true, ◌||◌, ◌↔◌, ◌∷◌, ◌≡◌,
}
use ai_local.Keystore.{KeyRecord}
use mathlib.Core.Path.{subst}

abbrev pub SameMembers : List KeyRecord → List KeyRecord → Type 0
SameMembers xs ys = (r : KeyRecord) → Memᴰ r xs ↔ Memᴰ r ys

abbrev pub Directory : Type 0
Directory = Quot SameMembers

abbrev pub directory : List KeyRecord → Directory
directory = Quot.mk

abbrev pub some_passes : (KeyRecord → Bool) → List KeyRecord → Bool
some_passes test [] = false
some_passes test (r ∷ rs) = test r || some_passes test rs

-- The records of other UUIDs.
abbrev pub others : Text → List KeyRecord → List KeyRecord
others uid [] = []
others uid (r ∷ rs) = if text_eq r.uuid uid then others uid rs else r ∷ others uid rs

some_found :
    (test : KeyRecord → Bool) (rs : List KeyRecord)
    → some_passes test rs ≡ true
    → (r : KeyRecord) × Memᴰ r rs × (test r ≡ true)
some_found test [] e = cc
some_found test (x ∷ rs) e = elim (Bool-cases (test x)) [
  | inl h ↦ (x, Memᴰ.head refl, h)
  | inr h ↦ let (r, m, p) = some_found test rs (ground arith) in (r, Memᴰ.tail m, p)
]

some_kept :
    (test : KeyRecord → Bool) (rs : List KeyRecord) (r : KeyRecord)
    → Memᴰ r rs
    → test r ≡ true
    → some_passes test rs ≡ true
some_kept test [] r m h = elim m [ ]
some_kept test (x ∷ rs) r (Memᴰ.head e) h =
    let here : test x ≡ true = subst (λ (y : KeyRecord). test y ≡ true) e h in ground arith
some_kept test (x ∷ rs) r (Memᴰ.tail m) h = ground (arith, some_kept test rs r m h)

pub some_passes_iff :
    (test : KeyRecord → Bool) (rs : List KeyRecord)
    → (some_passes test rs ≡ true) ↔ ((r : KeyRecord) × Memᴰ r rs × (test r ≡ true))
some_passes_iff test rs = (some_found test rs, λ (r, m, h). some_kept test rs r m h)

others_sound :
    (uid : Text) (r : KeyRecord) (rs : List KeyRecord)
    → Memᴰ r (others uid rs)
    → Memᴰ r rs × (text_eq r.uuid uid ≡ false)
others_sound uid r [] m = elim m [ ]
others_sound uid r (x ∷ rs) m = by_test (text_eq x.uuid uid) refl (others_sound uid r rs) m
  where
    by_test :
        (b : Bool)
        → text_eq x.uuid uid ≡ b
        → (Memᴰ r (others uid rs) → Memᴰ r rs × (text_eq r.uuid uid ≡ false))
        → Memᴰ r (if b then others uid rs else x ∷ others uid rs)
        → Memᴰ r (x ∷ rs) × (text_eq r.uuid uid ≡ false)
    by_test true e ih n = let (a, h) = ih n in (Memᴰ.tail a, h)
    by_test false e ih (Memᴰ.head p) =
        (Memᴰ.head p, subst (λ (y : KeyRecord). text_eq y.uuid uid ≡ false) (sym p) e)
    by_test false e ih (Memᴰ.tail n) = let (a, h) = ih n in (Memᴰ.tail a, h)

others_complete :
    (uid : Text) (r : KeyRecord) (rs : List KeyRecord)
    → Memᴰ r rs
    → text_eq r.uuid uid ≡ false
    → Memᴰ r (others uid rs)
others_complete uid r [] m h = elim m [ ]
others_complete uid r (x ∷ rs) (Memᴰ.head e) h =
    let kept : text_eq x.uuid uid ≡ false =
      subst (λ (y : KeyRecord). text_eq y.uuid uid ≡ false) e h in
    rw kept (Memᴰ.head e)
others_complete uid r (x ∷ rs) (Memᴰ.tail m) h =
    by_test (text_eq x.uuid uid) (others_complete uid r rs m h)
  where
    by_test :
        (b : Bool)
        → Memᴰ r (others uid rs)
        → Memᴰ r (if b then others uid rs else x ∷ others uid rs)
    by_test true n = n
    by_test false n = Memᴰ.tail n

pub others_iff :
    (uid : Text) (r : KeyRecord) (rs : List KeyRecord)
    → Memᴰ r (others uid rs) ↔ (Memᴰ r rs × (text_eq r.uuid uid ≡ false))
others_iff uid r rs = (others_sound uid r rs, λ (m, h). others_complete uid r rs m h)

-- Tests that pass on the same grounds agree.
same_answer : (a b : Bool) → (a ≡ true) ↔ (b ≡ true) → a ≡ b
same_answer true b h = sym (h.0 refl)
same_answer false true h = h.1 refl
same_answer false false h = refl

pub SameMembers-some_passes :
    (test : KeyRecord → Bool) (xs ys : List KeyRecord)
    → SameMembers xs ys
    → some_passes test xs ≡ some_passes test ys
SameMembers-some_passes test xs ys h = same_answer (some_passes test xs) (some_passes test ys) (
  λ e. let (r, m, p) = some_found test xs e in some_kept test ys r ((h r).0 m) p,
  λ e. let (r, m, p) = some_found test ys e in some_kept test xs r ((h r).1 m) p,
)

pub SameMembers-cons :
    (x : KeyRecord) (xs ys : List KeyRecord) → SameMembers xs ys → SameMembers (x ∷ xs) (x ∷ ys)
SameMembers-cons x xs ys h r = (keeps xs ys (h r).0, keeps ys xs (h r).1)
  where
    keeps : (us vs : List KeyRecord) → (Memᴰ r us → Memᴰ r vs) → Memᴰ r (x ∷ us) → Memᴰ r (x ∷ vs)
    keeps us vs f (Memᴰ.head e) = Memᴰ.head e
    keeps us vs f (Memᴰ.tail m) = Memᴰ.tail (f m)

pub SameMembers-others :
    (uid : Text) (xs ys : List KeyRecord)
    → SameMembers xs ys
    → SameMembers (others uid xs) (others uid ys)
SameMembers-others uid xs ys h r = (
  λ m. let (a, e) = others_sound uid r xs m in others_complete uid r ys ((h r).0 a) e,
  λ m. let (a, e) = others_sound uid r ys m in others_complete uid r xs ((h r).1 a) e,
)

-- Whether some record passes a test.
unfoldable pub has : (KeyRecord → Bool) → Directory → Bool
has test = Quot.lift (hlevel) (some_passes test) (SameMembers-some_passes test)

unfoldable pub put : KeyRecord → Directory → Directory
put x =
    Quot.lift Quot-set (λ xs. directory (x ∷ xs)) λ xs ys h. Quot.sound (SameMembers-cons x xs ys h)

unfoldable pub remove : Text → Directory → Directory
remove uid =
    Quot.lift Quot-set (λ xs. directory (others uid xs))
      λ xs ys h. Quot.sound (SameMembers-others uid xs ys h)
