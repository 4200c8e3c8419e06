-- ===== src/Tests/Files.antt =====
-- The files of a gateway whose base URI has a port and a path.
use ai_local.Prelude.{codes, has_prefix, refl, ◌≡◌}
use ai_local.Server.{clean}

cleaned : clean 0 (codes "https://ai.local:8443/v1") ≡ codes "ai-local-8443-v1"
unfolding clean has_prefix
cleaned = refl
