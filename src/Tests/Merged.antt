-- ===== src/Tests/Merged.antt =====
-- A streaming request on the smallest JSON: a body is a row of keys of one letter, each with a value
-- of one letter, of which the first counts; a path means its first letter.
use ai_local.Prelude.{
  Memᴰ, Text, [], arith, codes, false, if◌then◌else◌, length, none, pos, refl, some, true, ℕ, ◌==◌,
  ◌∷◌, ◌≡◌,
}
use ai_local.Apml.{OptionValue, ProviderConfig, StreamingConfig}
use ai_local.Json.{JsonGet, JsonResult}
use ai_local.Proxy.Merged.{IsJson, rewrite_body_merges}
use ai_local.Proxy.Rewrite.{JsonSet, Outgoing, bytes, is_streaming, rewrite_body}
use ai_local.Tests.Upstream.{claude_of_gateway}

abbrev letter : Text → ℕ
letter [] = 0
letter (c ∷ s) = c

abbrev result : ℕ → JsonResult
result v = record { exists = true; raw = v ∷ []; int = pos 0; string = v ∷ []; bool = v == b't' }

abbrev absent : JsonResult
absent = record { exists = false; raw = []; int = pos 0; string = []; bool = false }

unfoldable find : ℕ → Text → JsonResult
find c [] = absent
find c (k ∷ []) = absent
find c (k ∷ v ∷ rest) = if k == c then result v else find c rest

abbrev get_letter : JsonGet
get_letter body path = find (letter path) body

abbrev set_letter : JsonSet
set_letter body path val = letter path ∷ letter val ∷ body

abbrev IsApartLetter : Text → Text → Type 0
IsApartLetter path other = (letter path == letter other) ≡ false

letters-IsJson :
    IsJson get_letter set_letter (λ body path. Unit {0}) (λ val. result (letter val)) IsApartLetter
unfolding find
letters-IsJson = record {
  reads = λ body path val o. ground arith;
  keeps = λ body path val other o h. ground arith;
  stays = λ body path val other o h p. tt;
  symmetric = λ path other h. ground arith;
}

abbrev options : StreamingConfig
options = record {
  mode = codes "last";
  input_tokens = codes "in";
  output_tokens = codes "out";
  input = none;
  output = none;
  request_option =
      (codes "options", OptionValue.block ((codes "include_usage", codes "true") ∷ []))
      ∷ (codes "max", OptionValue.plain (codes "9"))
      ∷ [];
}

abbrev streaming_provider : ProviderConfig
streaming_provider = record claude_of_gateway { streaming = some options }

abbrev out : Outgoing
out = record {
  headers = [];
  url = record { host = []; path = []; others = [] };
  host = [];
  body = bytes (codes "st");
  content_length = 2;
}

asks : is_streaming get_letter set_letter (codes "st") ≡ true
unfolding is_streaming find
asks = refl

abbrev sent : Outgoing
sent =
    (rewrite_body get_letter set_letter (codes "h") streaming_provider (bytes (codes "st")) out).0

rewrite_body_merges_example :
    (merged : Text) × ((sent.body ≡ bytes merged)
      × (sent.content_length ≡ length merged)
      × (get_letter merged (codes "options.include_usage") ≡ result (letter (codes "true")))
      × (get_letter merged (codes "stream") ≡ get_letter (codes "st") (codes "stream")))
rewrite_body_merges_example =
    rewrite_body_merges get_letter set_letter (λ body path. Unit {0}) (λ val. result (letter val))
      IsApartLetter letters-IsJson (codes "h") (codes "options.include_usage") (codes "true")
      (codes "stream") (codes "st") streaming_provider options out refl asks (tt, (tt, tt))
      ((refl, tt), (tt, tt)) (Memᴰ.head refl) (refl, (refl, tt))
