-- ===== src/Usage/Audit.antt =====
-- What the audit log says, independently of the cached rows.
use ai_local.Prelude.{
  +ℤ_zero_left, Bool, IsInt64, List, Option, Text, [], arith, if◌then◌else◌, none, pos, refl, some,
  text_eq, ℤ, ◌&&◌, ◌+ℤ◌, ◌∷◌, ◌≡◌,
}
use ai_local.Usage.Tables.{LogRow, Time, Totals, same_key}
use ai_local.Usage.Write.{add_totals}

abbrev pub of_log : LogRow → Totals
of_log l = record {
  requests = pos 1;
  prompt = l.prompt_tokens;
  completion = l.completion_tokens;
  tokens = l.total_tokens;
}

abbrev pub merge : Option Totals → Totals → Totals
merge none t = t
merge (some s) t = add_totals s t

-- Whether a log row counts for a key, a route and a period, `period` being the date or the month.
abbrev pub counts_for : (Time → Text) → Text → Text → Text → LogRow → Bool
counts_for period key route p l =
    same_key l.local_key l.route_path (period l.created_at) key route p

-- What the log says of a key, a route and a period: nothing, or the sums over its rows.
unfoldable pub summary : (Time → Text) → Text → Text → Text → List LogRow → Option Totals
summary period key route p [] = none
summary period key route p (l ∷ ls) =
    let rest = summary period key route p ls in
    if counts_for period key route p l then some (merge rest (of_log l)) else rest

-- The counters are integers of the database engine.
abbrev pub IsInteger : Totals → Type 0
IsInteger t = IsInt64 t.requests × IsInt64 t.prompt × IsInt64 t.completion × IsInt64 t.tokens

-- So have been the sums of a log ever since its first row.
abbrev pub StaysInteger : (Time → Text) → Text → Text → Text → List LogRow → Type 0
StaysInteger period key route p [] = Unit {0}
StaysInteger period key route p (l ∷ ls) =
    ((t : Totals) → summary period key route p (l ∷ ls) ≡ some t → IsInteger t)
    × StaysInteger period key route p ls

-- The tokens that the log counts for a key, a route and a period, `period` the date or the month.
unfoldable pub logged : (Time → Text) → Text → Text → Text → List LogRow → ℤ
logged period key route p [] = pos 0
logged period key route p (l ∷ ls) =
    let rest = logged period key route p ls in
    if same_key l.local_key l.route_path (period l.created_at) key route p
    then rest +ℤ l.total_tokens
    else rest

-- The same for all keys of a route.
unfoldable pub logged_on_route : (Time → Text) → Text → Text → List LogRow → ℤ
logged_on_route period route p [] = pos 0
logged_on_route period route p (l ∷ ls) =
    let rest = logged_on_route period route p ls in
    if text_eq l.route_path route && text_eq (period l.created_at) p
    then rest +ℤ l.total_tokens
    else rest

pub summary_tokens :
    (period : Time → Text) (k r p : Text) (ls : List LogRow)
    → (elim (summary period k r p ls) [ none ↦ pos 0 | some t ↦ t.tokens ]) ≡ logged period k r p ls
unfolding summary logged add_totals
summary_tokens period k r p [] = refl
summary_tokens period k r p (l ∷ ls) =
    ground (arith, summary_tokens period k r p ls, +ℤ_zero_left l.total_tokens)
