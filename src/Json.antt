-- ===== src/Json.antt =====
-- What the gateway asks of gjson: the result of a lookup, as the fields that the program reads.
-- The lookup itself, from a body and a path, is a parameter of whatever uses it.
use ai_local.Prelude.{Bool, Text, ℤ}

pub record JsonResult : Type 0 where
  pub exists : Bool  -- Exists()
  pub raw : Text  -- Raw
  pub int : ℤ  -- Int()
  pub string : Text  -- String()
  pub bool : Bool  -- Bool()

-- gjson.Get and gjson.GetBytes
abbrev pub JsonGet : Type 0
JsonGet = Text → Text → JsonResult
