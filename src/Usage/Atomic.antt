-- ===== src/Usage/Atomic.antt =====
-- executeTripleWrite of internal/usage/worker.go, against what the three tables hold.
use ai_local.Prelude.{
  List, Option, Text, arith, false, inl, inr, none, pos, refl, some, true, ◌+ℤ◌, ◌+◌, ◌∷◌, ◌≡◌, ◌⊎◌,
}
use ai_local.Usage.Audit.{IsInteger}
use ai_local.Usage.Ledger.{cached, cached-upsert, committed, execute_triple_write_atomic}
use ai_local.Usage.Tables.{
  Database, Record, Time, Totals, UsageRow, format_date, format_month, same_key_iff,
}
use ai_local.Usage.Write.{
  Faults, Statement, created, execute_triple_write, write_daily, write_log, write_monthly,
  one_request, add_totals, upsert,
}

-- The counters of a cached row, or of none, with one request more.
abbrev pub with_request : Record → Option Totals → Totals
with_request rec none = record {
  requests = pos 1;
  prompt = rec.prompt_tokens;
  completion = rec.completion_tokens;
  tokens = rec.total_tokens;
}
with_request rec (some t) = record {
  requests = t.requests +ℤ pos 1;
  prompt = t.prompt +ℤ rec.prompt_tokens;
  completion = t.completion +ℤ rec.completion_tokens;
  tokens = t.tokens +ℤ rec.total_tokens;
}

-- The rows of a record's key and route in this period have one request more, and the others are
-- what they were.
pub record IsCounted (rec : Record) (p : Text) (rows rows' : List UsageRow) : Type 0 where
  pub own :
      cached rec.local_key rec.route_path p rows'
      ≡ some (with_request rec (cached rec.local_key rec.route_path p rows))
  pub others :
      (k r q : Text)
      → ¬ ((rec.local_key ≡ k) × (rec.route_path ≡ r) × (p ≡ q))
      → cached k r q rows' ≡ cached k r q rows

pub record IsRecorded (t : Time) (rec : Record) (db db' : Database) : Type 0 where
  pub logs :
      db'.logs
      ≡ record {
        id = db.next_id;
        local_key = rec.local_key;
        route_path = rec.route_path;
        client_ip = rec.client_ip;
        prompt_tokens = rec.prompt_tokens;
        completion_tokens = rec.completion_tokens;
        total_tokens = rec.total_tokens;
        created_at = t;
      }
        ∷ db.logs
  pub next_id : db'.next_id ≡ db.next_id + 1
  pub daily : IsCounted rec (format_date t) db.daily db'.daily
  pub monthly : IsCounted rec (format_month t) db.monthly db'.monthly

upsert-IsCounted :
    (rec : Record) (p stamp : Text) (rows : List UsageRow)
    → IsCounted rec p rows (upsert rec.local_key rec.route_path p (one_request rec) stamp rows)
unfolding one_request add_totals
upsert-IsCounted rec p stamp rows =
    let changes = λ (k r q : Text).
      cached-upsert rec.local_key rec.route_path p k r q stamp (one_request rec) rows in
    let same = λ (k r q : Text). same_key_iff rec.local_key rec.route_path p k r q in
    record {
      own =
          ground
            (arith, changes rec.local_key rec.route_path p, same rec.local_key rec.route_path p);
      others = λ k r q d. ground (arith, changes k r q, same k r q, d);
    }

committed-IsRecorded :
    (now : Time) (stamp : Text) (rec : Record) (db : Database)
    → IsRecorded (created now rec) rec db (committed now stamp rec db)
unfolding write_log write_daily write_monthly
committed-IsRecorded now stamp rec db = record {
  logs = refl;
  next_id = refl;
  daily = upsert-IsCounted rec (format_date (created now rec)) stamp db.daily;
  monthly = upsert-IsCounted rec (format_month (created now rec)) stamp db.monthly;
}

-- A record is written whole or not at all. If the counters of its day and of its month, with the
-- record counted, are integers of the engine, then either some call failed, the error names one
-- that did, and the database is what it was; or no call failed, there is no error, the audit log
-- has one row more, which carries the record under the next number, and in each of the two caches
-- the record's key and route have one request and its tokens more for the day, or the month, and
-- the counters of every other key, route and period are what they were.
pub execute_triple_write_exact :
    (fault : Faults) (now : Time) (stamp : Text) (rec : Record) (db : Database)
    → IsInteger (
        with_request rec
          (cached rec.local_key rec.route_path (format_date (created now rec)) db.daily))
    → IsInteger (
        with_request rec
          (cached rec.local_key rec.route_path (format_month (created now rec)) db.monthly))
    → ((s : Statement) × (fault s ≡ true)
        × (execute_triple_write fault now stamp rec db ≡ (db, some s)))
      ⊎ (((s : Statement) → fault s ≡ false)
          × ((execute_triple_write fault now stamp rec db).1 ≡ none)
          × IsRecorded (created now rec) rec db (execute_triple_write fault now stamp rec db).0)
execute_triple_write_exact fault now stamp rec db _ _ =
    elim (execute_triple_write_atomic fault now stamp rec db) [
      | inl failed ↦ inl failed
      | inr (q, g) ↦ inr (q, rw g refl, rw g (committed-IsRecorded now stamp rec db))
    ]
