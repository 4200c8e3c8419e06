-- ===== src/Usage/Pool.antt =====
-- The sum over all keys of a route, which the shared mode of a quota reads.
use ai_local.Prelude.{
  +ℤ_assoc, +ℤ_parts, List, Text, [], arith, eq_of_parts, if◌then◌else◌, inl, inr, refl, text_eq,
  text_eq_iff, ℤ, ◌&&◌, ◌+ℤ◌, ◌∷◌, ◌≡◌,
}
use ai_local.Usage.Tables.{
  Database, Totals, UsageRow, format_date, format_month, same_key_iff, Record, Time, empty_database,
}
use ai_local.Usage.Write.{
  upsert, add_totals, Faults, created, one_request, write_daily, write_log, write_monthly,
  write_record,
}
use ai_local.Usage.Ledger.{execute_triple_write_atomic}
use ai_local.Usage.Audit.{logged_on_route}
use ai_local.Usage.Quota.{sum_tokens}

-- The cached rows of a route add up to what the log counts for the route.
pub record IsPooled (db : Database) : Type 0 where
  pub daily :
      (route p : Text) → sum_tokens route p db.daily ≡ logged_on_route format_date route p db.logs
  pub monthly :
      (route p : Text)
      → sum_tokens route p db.monthly ≡ logged_on_route format_month route p db.logs

swap_last : (a b c : ℤ) → a +ℤ b +ℤ c ≡ a +ℤ c +ℤ b
swap_last a b c = omega (arith, +ℤ_parts, eq_of_parts)

sum_tokens-upsert :
    (key route p r q stamp : Text) (t : Totals) (rows : List UsageRow)
    → sum_tokens r q (upsert key route p t stamp rows) ≡ (
        if text_eq route r && text_eq p q
        then sum_tokens r q rows +ℤ t.tokens
        else sum_tokens r q rows)
unfolding sum_tokens upsert add_totals
sum_tokens-upsert key route p r q stamp t [] = refl
sum_tokens-upsert key route p r q stamp t (row ∷ rows) = ground (
  arith,
  sum_tokens-upsert key route p r q stamp t rows,
  same_key_iff row.local_key row.route_path row.period key route p,
  text_eq_iff route r,
  text_eq_iff p q,
  text_eq_iff row.route_path r,
  text_eq_iff row.period q,
  swap_last (sum_tokens r q rows) row.totals.tokens t.tokens,
  +ℤ_assoc (sum_tokens r q rows) row.totals.tokens t.tokens,
)

write-IsPooled :
    (t : Time) (stamp : Text) (rec : Record) (db : Database)
    → IsPooled db
    → IsPooled (write_monthly t stamp rec (write_daily t stamp rec (write_log t rec db)))
unfolding write_log write_daily write_monthly logged_on_route one_request
write-IsPooled t stamp rec db b = record {
  daily = λ r q. ground (
    arith,
    b.daily r q,
    sum_tokens-upsert rec.local_key rec.route_path (format_date t) r q stamp (one_request rec)
        db.daily,
  );
  monthly = λ r q. ground (
    arith,
    b.monthly r q,
    sum_tokens-upsert rec.local_key rec.route_path (format_month t) r q stamp (one_request rec)
        db.monthly,
  );
}

pub write_record-IsPooled :
    (fault : Faults) (now : Time) (stamp : Text) (rec : Record) (db : Database)
    → IsPooled db
    → IsPooled (write_record fault now stamp rec db)
unfolding write_record
write_record-IsPooled fault now stamp rec db b =
    elim (execute_triple_write_atomic fault now stamp rec db) [
      | inl (s, p, e) ↦ rw (e, write_record) b
      | inr (p, e) ↦ rw (e, write_record) (write-IsPooled (created now rec) stamp rec db b)
    ]

pub empty-IsPooled : IsPooled empty_database
unfolding sum_tokens logged_on_route
empty-IsPooled = record { daily = λ r p. refl; monthly = λ r p. refl }
