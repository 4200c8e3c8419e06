-- ===== src/Keystore/Masking.antt =====
-- MaskKey: what of an upstream key the console shows.
use ai_local.Prelude.{
  Text, [], ap, arith, codes, if◌then◌else◌, inl, inr, leb, length, length-append, length-take, ltb,
  refl, suc, take, zero, ℕ, ◌++◌, ◌+◌, ◌↔◌, ◌∷◌, ◌≡◌, ◌≤◌, ◌⊎◌,
}
use ai_local.Keystore.{mask_key}

abbrev pub stars : Text
stars = codes "******"

-- The number of bytes of a key that its masked form shows.
pub shown : ℕ → ℕ
shown n = if ltb n 4 then 0 else if leb n 12 then 4 else if ltb 30 n then 12 else 8

-- The masked form is a prefix of the key and six stars.
mask_key_lem : (key : Text) → mask_key key ≡ take (shown (length key)) key ++ stars
unfolding mask_key shown
mask_key_lem key = ground arith

shown_bounds : (n : ℕ) → (shown n ≤ 12) × (shown n ≤ n) × (shown n ≡ n → (n ≡ 0) ⊎ (n ≡ 4))
unfolding shown
shown_bounds n = (ground arith, ground arith, λ e. ground arith)

-- The masked form is a prefix of the key, of at most 12 bytes and with no more bytes than the key,
-- and six stars.
pub mask_key_prefix :
    (key : Text)
    → (n : ℕ) × (n ≤ 12) × (n ≤ length key) × (mask_key key ≡ take n key ++ codes "******")
mask_key_prefix key =
    let b = shown_bounds (length key) in (shown (length key), b.0, b.1, mask_key_lem key)

take_all : (n : ℕ) (s : Text) → length s ≡ n → take n s ≡ s
take_all zero [] e = refl
take_all zero (x ∷ s) e = absurd (omega (arith, e))
take_all (suc n) [] e = refl
take_all (suc n) (x ∷ s) e = ap (λ (t : Text). x ∷ t) (take_all n s (omega arith))

length-mask_key : (key : Text) → length (mask_key key) ≡ shown (length key) + 6
length-mask_key key = rw mask_key_lem (
    omega (
      arith,
      length-append (take (shown (length key)) key) stars,
      length-take (shown (length key)) key,
      (shown_bounds (length key)).1,
    ))

-- The masked form gives the whole key away, six stars aside, exactly for a key of four bytes (and
-- for the empty key).
pub mask_key_whole :
    (key : Text) → (mask_key key ≡ key ++ codes "******") ↔ ((length key ≡ 0) ⊎ (length key ≡ 4))
mask_key_whole key = (λ e. leaks (ap length e), whole)
  where
    leaks : length (mask_key key) ≡ length (key ++ stars) → (length key ≡ 0) ⊎ (length key ≡ 4)
    leaks e =
        (shown_bounds (length key)).2
          (omega (arith, e, length-mask_key key, length-append key stars))

    all_of : shown (length key) ≡ length key → mask_key key ≡ key ++ stars
    all_of e = rw (mask_key_lem, e) (ap (λ (t : Text). t ++ stars) (take_all (length key) key refl))

    whole : (length key ≡ 0) ⊎ (length key ≡ 4) → mask_key key ≡ key ++ stars
    whole (inl e) = all_of (rw e (unfold shown in refl))
    whole (inr e) = all_of (rw e (unfold shown in refl))
