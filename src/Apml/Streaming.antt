-- ===== src/Apml/Streaming.antt =====
-- The validation of a streaming block accepts exactly the valid ones.
use ai_local.Prelude.{
  Bool-cases, Option, Text, arith, inl, inr, none, refl, some, sym, text_eq, text_eq_iff, ◌↔◌, ◌∙◌,
  ◌≡◌, ◌≢◌, ◌⊎◌,
}
use ai_local.Apml.{StreamingConfig, last, split, EventConfig}
use ai_local.Apml.Validate.{
  check_blocks, check_last, check_split, check_streaming, check_split_parts, unknown_streaming_mode,
}
use ai_local.Apml.Valid.{ValidLast, ValidSplit, ValidStreaming}

check_last_iff :
    (name : Text) (s : StreamingConfig) → s.mode ≡ last → (check_last name s ≡ none) ↔ ValidLast s
unfolding check_last
check_last_iff name s m =
    (λ e. (m, ground arith, ground arith, ground arith, ground arith), λ h. ground arith)

split_parts-ValidSplit :
    (name : Text) (s : StreamingConfig) (i o : Option EventConfig)
    → s.mode ≡ split
    → s.input ≡ i
    → s.output ≡ o
    → check_split_parts name s i o ≡ none
    → ValidSplit s
unfolding check_split_parts check_blocks
split_parts-ValidSplit name s none o m p q e = cc
split_parts-ValidSplit name s (some i) none m p q e = cc
split_parts-ValidSplit name s (some i) (some o) m p q e = (
  i,
  o,
  m,
  p,
  q,
  ground arith,
  ground arith,
  ground arith,
  ground arith,
  ground arith,
  ground arith,
)

check_split_iff :
    (name : Text) (s : StreamingConfig)
    → s.mode ≡ split
    → (check_split name s ≡ none) ↔ ValidSplit s
unfolding check_split check_blocks
check_split_iff name s m =
    (split_parts-ValidSplit name s s.input s.output m refl refl, λ h. ground arith)

mode_cases :
    (name : Text) (s : StreamingConfig)
    → (s.mode ≡ last) ⊎ ((s.mode ≡ split) ⊎ ((s.mode ≢ last) × (s.mode ≢ split)))
mode_cases name s = elim (Bool-cases (text_eq s.mode last)) [
  | inl e ↦ inl ((text_eq_iff s.mode last).0 e)
  | inr e ↦ elim (Bool-cases (text_eq s.mode split)) [
    | inl f ↦ inr (inl ((text_eq_iff s.mode split).0 f))
    | inr f ↦
        inr
          (inr (ground (arith, text_eq_iff s.mode last), ground (arith, text_eq_iff s.mode split)))
  ]
]

streaming_last :
    (name : Text) (s : StreamingConfig) → s.mode ≡ last → check_streaming name s ≡ check_last name s
unfolding check_streaming text_eq
streaming_last name s m = rw m (ground arith)

streaming_split :
    (name : Text) (s : StreamingConfig)
    → s.mode ≡ split
    → check_streaming name s ≡ check_split name s
unfolding check_streaming text_eq
streaming_split name s m = rw m (ground arith)

streaming_other :
    (name : Text) (s : StreamingConfig)
    → s.mode ≢ last
    → s.mode ≢ split
    → check_streaming name s ≡ some (unknown_streaming_mode name s.mode)
unfolding check_streaming
streaming_other name s l p = ground (arith, text_eq_iff s.mode last, text_eq_iff s.mode split)

last≢split : last ≢ split
last≢split e = ground arith

pub check_streaming_iff :
    (name : Text) (s : StreamingConfig) → (check_streaming name s ≡ none) ↔ ValidStreaming s
check_streaming_iff name s = elim (mode_cases name s) [
  | inl m ↦ rw (streaming_last name s m) (
    λ e. inl ((check_last_iff name s m).0 e),
    λ h. elim h [
      | inl v ↦ (check_last_iff name s m).1 v
      | inr v ↦ absurd (last≢split (sym m ∙ v.2))
    ],
  )
  | inr (inl m) ↦ rw (streaming_split name s m) (
    λ e. inr ((check_split_iff name s m).0 e),
    λ h. elim h [
      | inl v ↦ absurd (last≢split (sym v.0 ∙ m))
      | inr v ↦ (check_split_iff name s m).1 v
    ],
  )
  | inr (inr (l, p)) ↦ (
    λ e. cc (streaming_other name s l p),
    λ h. elim h [ inl v ↦ absurd (l v.0) | inr v ↦ absurd (p v.2) ],
  )
]
