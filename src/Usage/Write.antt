-- ===== src/Usage/Write.antt =====
-- executeTripleWrite and writeRecord of internal/usage/worker.go.
-- `fault` says which call of the database fails; a failed transaction is rolled back. `now` is the
-- clock, read for a record that has no time; `stamp` is the engine's CURRENT_TIMESTAMP.
use ai_local.Prelude.{Bool, List, Option, Text, [], if◌then◌else◌, none, pos, some, ◌+ℤ◌, ◌+◌, ◌∷◌}
use ai_local.Usage.Tables.{
  Database, Record, Time, Totals, UsageRow, format_date, format_month, row_matches,
}

pub data Statement : Type 0 where
  begin insert_log upsert_daily upsert_monthly commit : Statement

abbrev pub Faults : Type 0
Faults = Statement → Bool

-- `col + excluded.col`. The sums are exact here; the engine's are while they stay in int64, past
-- which it goes on in floating point. What is stated of cached rows says where that matters.
unfoldable pub add_totals : Totals → Totals → Totals
add_totals a b = record {
  requests = a.requests +ℤ b.requests;
  prompt = a.prompt +ℤ b.prompt;
  completion = a.completion +ℤ b.completion;
  tokens = a.tokens +ℤ b.tokens;
}

-- INSERT … ON CONFLICT(local_key, route_path, period) DO UPDATE SET …
unfoldable pub upsert : Text → Text → Text → Totals → Text → List UsageRow → List UsageRow
upsert key route period t stamp [] =
    record { local_key = key; route_path = route; period = period; totals = t; updated_at = stamp }
    ∷ []
upsert key route period t stamp (row ∷ rows) =
    if row_matches key route period row
    then record row { totals = add_totals row.totals t; updated_at = stamp } ∷ rows
    else row ∷ upsert key route period t stamp rows

unfoldable pub created : Time → Record → Time
created now rec = elim rec.created_at [ none ↦ now | some t ↦ t ]

-- 1. Immutable audit log entry
unfoldable pub write_log : Time → Record → Database → Database
write_log t rec db = record db {
  logs =
      record {
        id = db.next_id;
        local_key = rec.local_key;
        route_path = rec.route_path;
        client_ip = rec.client_ip;
        prompt_tokens = rec.prompt_tokens;
        completion_tokens = rec.completion_tokens;
        total_tokens = rec.total_tokens;
        created_at = t;
      }
      ∷ db.logs;
  next_id = db.next_id + 1;
}

-- The values that both UPSERT statements add.
unfoldable pub one_request : Record → Totals
one_request rec = record {
  requests = pos 1;
  prompt = rec.prompt_tokens;
  completion = rec.completion_tokens;
  tokens = rec.total_tokens;
}

-- 2. Daily cache UPSERT
unfoldable pub write_daily : Time → Text → Record → Database → Database
write_daily t stamp rec db = record db {
  daily = upsert rec.local_key rec.route_path (format_date t) (one_request rec) stamp db.daily;
}

-- 3. Monthly cache UPSERT
unfoldable pub write_monthly : Time → Text → Record → Database → Database
write_monthly t stamp rec db = record db {
  monthly = upsert rec.local_key rec.route_path (format_month t) (one_request rec) stamp db.monthly;
}

-- The first failed call ends the transaction, and `db` is what the roll-back leaves.
unfoldable pub execute_triple_write :
    Faults → Time → Text → Record → Database → Database × Option Statement
execute_triple_write fault now stamp rec db =
    let t = created now rec in
    let logged = write_log t rec db in
    let dated = write_daily t stamp rec logged in
    let counted = write_monthly t stamp rec dated in
    if fault begin
    then (db, some begin)
    else if fault insert_log
    then (db, some insert_log)
    else if fault upsert_daily
    then (db, some upsert_daily)
    else if fault upsert_monthly
    then (db, some upsert_monthly)
    else if fault commit
    then (db, some commit)
    else (counted, none)

-- The error is logged and not returned.
unfoldable pub write_record : Faults → Time → Text → Record → Database → Database
write_record fault now stamp rec db = (execute_triple_write fault now stamp rec db).0
