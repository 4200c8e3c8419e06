-- ===== src/Server/Files.antt =====
-- The files stay in the data directory.
use ai_local.Prelude.{
  All, All-append, Bool-cases, Text, [], arith, codes, has_prefix, inl, inr, suc, true, zero, ℕ,
  ◌∷◌, ◌≡◌, ◌≢◌,
}
use ai_local.Apml.{ApmlConfig}
use ai_local.Apml.Names.{is_plan_name, all_bytes, is_digit, is_letter, is_plan_byte}
use ai_local.Apml.Valid.{IsValid}
use ai_local.Server.{clean, clean_byte, build_db_name, build_plan_name}

-- A text without a slash is the name of a file in the directory that it is joined to.
abbrev pub IsFileName : Text → Type 0
IsFileName = All (λ (c : ℕ). c ≢ b'/')

clean-IsFileName : (n : ℕ) (s : Text) → IsFileName (clean n s)
unfolding clean
clean-IsFileName zero [] = tt
clean-IsFileName (suc n) [] = tt
clean-IsFileName (suc n) (c ∷ s) = clean-IsFileName n s
clean-IsFileName zero (c ∷ s) = elim (Bool-cases (has_prefix (c ∷ s) (codes "https://"))) [
  | inl a ↦ rw a (clean-IsFileName 7 s)
  | inr a ↦ elim (Bool-cases (has_prefix (c ∷ s) (codes "http://"))) [
    | inl b ↦ rw (a, b) (clean-IsFileName 6 s)
    | inr b ↦ rw (a, b) (not_slash c, clean-IsFileName 0 s)
  ]
]
  where
    not_slash : (c : ℕ) → clean_byte c ≢ b'/'
    not_slash c = ground arith

all_plan_bytes : (s : Text) → all_bytes is_plan_byte s ≡ true → IsFileName s
unfolding all_bytes is_plan_byte is_letter is_digit
all_plan_bytes [] e = tt
all_plan_bytes (c ∷ s) e = (ground arith, all_plan_bytes s (ground arith))

plan_name-IsFileName : (s : Text) → is_plan_name s ≡ true → IsFileName s
unfolding is_plan_name all_bytes is_plan_byte is_letter is_digit
plan_name-IsFileName [] e = tt
plan_name-IsFileName (c ∷ s) e = (ground arith, all_plan_bytes s (ground arith))

-- In a valid configuration the names of the database and of the plan hold no slash, whatever the
-- base URI is, so that the files stay in the data directory.
pub names-IsFileName :
    (cfg : ApmlConfig)
    → IsValid cfg
    → IsFileName (build_db_name cfg) × IsFileName (build_plan_name cfg)
unfolding build_db_name build_plan_name
names-IsFileName cfg v =
    let dash : b'-' ≢ b'/' = ground arith in
    let base = clean-IsFileName 0 cfg.base_uri in
    let plan = plan_name-IsFileName cfg.plan_version v.plan_version in
    (
      All-append (λ c. c ≢ b'/') (clean 0 cfg.base_uri) _ base
          (dash, All-append (λ c. c ≢ b'/') cfg.plan_version (codes "-usage.db") plan ending),
      All-append (λ c. c ≢ b'/') (clean 0 cfg.base_uri) _ base (dash, plan),
    )
  where
    ending : IsFileName (codes "-usage.db")
    ending = ground arith
