-- ===== src/Server.antt =====
-- cmd/server/main.go: the names of the files that the gateway keeps in its data directory.
use ai_local.Prelude.{
  Text, [], codes, has_prefix, if◌then◌else◌, suc, zero, ℕ, ◌++◌, ◌==◌, ◌||◌, ◌∷◌,
}
use ai_local.Apml.{ApmlConfig}
pub mod Files
pub mod Control
pub mod Main
pub mod Backup
pub mod Lifecycle
pub mod Ending

-- The replacement of one byte.
abbrev pub clean_byte : ℕ → ℕ
clean_byte c = if c == b'.' || (c == b':' || c == b'/') then b'-' else c

-- The Replacer of buildDBName and buildPlanName; the number counts the bytes still to be skipped
-- of a scheme that was found.
unfoldable pub clean : ℕ → Text → Text
clean n [] = []
clean (suc n) (c ∷ s) = clean n s
clean zero (c ∷ s) =
    let behind_https = clean 7 s in
    let behind_http = clean 6 s in
    let rest = clean 0 s in
    if has_prefix (c ∷ s) (codes "https://")
    then behind_https
    else if has_prefix (c ∷ s) (codes "http://")
    then behind_http
    else clean_byte c ∷ rest

unfoldable pub build_plan_name : ApmlConfig → Text
build_plan_name cfg = clean 0 cfg.base_uri ++ b'-' ∷ cfg.plan_version

unfoldable pub build_db_name : ApmlConfig → Text
build_db_name cfg = clean 0 cfg.base_uri ++ b'-' ∷ (cfg.plan_version ++ codes "-usage.db")
