-- ===== src/Usage/Ledger.antt =====
-- The cached rows are the sums of the audit log.
use ai_local.Prelude.{
  Bool-cases, List, Option, Text, [], arith, false, if◌then◌else◌, inl, inr, none, refl, some, true,
  ◌∷◌, ◌≡◌, ◌⊎◌,
}
use ai_local.Usage.Tables.{
  Database, Time, Totals, UsageRow, find_row, format_date, format_month, Record, same_key,
  same_key_iff, empty_database,
}
use ai_local.Usage.Audit.{summary, merge}
use ai_local.Usage.Write.{
  upsert, Faults, execute_triple_write, one_request, write_daily, write_log, write_monthly,
  Statement, begin, commit, created, insert_log, upsert_daily, upsert_monthly, write_record,
}

abbrev pub cached : Text → Text → Text → List UsageRow → Option Totals
cached key route p rows = elim (find_row key route p rows) [
  | none ↦ none
  | some row ↦ some row.totals
]

-- Both caches say of every key, route and period what the log says.
pub record IsBalanced (db : Database) : Type 0 where
  pub daily :
      (key route p : Text) → cached key route p db.daily ≡ summary format_date key route p db.logs
  pub monthly :
      (key route p : Text)
      → cached key route p db.monthly ≡ summary format_month key route p db.logs

-- An UPSERT adds to its own row and leaves the others alone.
pub cached-upsert :
    (key route p k r q stamp : Text) (t : Totals) (rows : List UsageRow)
    → cached k r q (upsert key route p t stamp rows) ≡ (
        if same_key key route p k r q
        then some (merge (cached k r q rows) t)
        else cached k r q rows)
unfolding upsert find_row
cached-upsert key route p k r q stamp t [] = ground arith
cached-upsert key route p k r q stamp t (row ∷ rows) = ground (
  arith,
  cached-upsert key route p k r q stamp t rows,
  same_key_iff key route p k r q,
  same_key_iff row.local_key row.route_path row.period key route p,
  same_key_iff row.local_key row.route_path row.period k r q,
)

-- One committed transaction.
write-IsBalanced :
    (t : Time) (stamp : Text) (rec : Record) (db : Database)
    → IsBalanced db
    → IsBalanced (write_monthly t stamp rec (write_daily t stamp rec (write_log t rec db)))
unfolding write_log write_daily write_monthly summary one_request
write-IsBalanced t stamp rec db b = record {
  daily = λ k r p. ground (
    arith,
    b.daily k r p,
    cached-upsert rec.local_key rec.route_path (format_date t) k r p stamp (one_request rec)
        db.daily,
  );
  monthly = λ k r p. ground (
    arith,
    b.monthly k r p,
    cached-upsert rec.local_key rec.route_path (format_month t) k r p stamp (one_request rec)
        db.monthly,
  );
}

-- What a transaction that commits leaves.
abbrev pub committed : Time → Text → Record → Database → Database
committed now stamp rec db =
    let t = created now rec in
    write_monthly t stamp rec (write_daily t stamp rec (write_log t rec db))

-- A transaction is all or nothing. Either some call failed, the error names one that did, and the
-- database is what it was; or no call failed, there is no error, and all three tables are written.
pub execute_triple_write_atomic :
    (fault : Faults) (now : Time) (stamp : Text) (rec : Record) (db : Database)
    → ((s : Statement) × (fault s ≡ true)
        × (execute_triple_write fault now stamp rec db ≡ (db, some s)))
      ⊎ (((s : Statement) → fault s ≡ false)
          × (execute_triple_write fault now stamp rec db ≡ (committed now stamp rec db, none)))
unfolding execute_triple_write
execute_triple_write_atomic fault now stamp rec db = elim (Bool-cases (fault begin)) [
  | inl p ↦ inl (begin, p, rw p)
  | inr p ↦ elim (Bool-cases (fault insert_log)) [
    | inl q ↦ inl (insert_log, q, rw (p, q))
    | inr q ↦ elim (Bool-cases (fault upsert_daily)) [
      | inl r ↦ inl (upsert_daily, r, rw (p, q, r))
      | inr r ↦ elim (Bool-cases (fault upsert_monthly)) [
        | inl u ↦ inl (upsert_monthly, u, rw (p, q, r, u))
        | inr u ↦ elim (Bool-cases (fault commit)) [
          | inl v ↦ inl (commit, v, rw (p, q, r, u, v))
          | inr v ↦ inr (
            elim [
              | begin ↦ p
              | insert_log ↦ q
              | upsert_daily ↦ r
              | upsert_monthly ↦ u
              | commit ↦ v
            ],
            rw (p, q, r, u, v),
          )
        ]
      ]
    ]
  ]
]

-- Whatever calls fail, a write leaves the caches and the log in balance.
pub write_record-IsBalanced :
    (fault : Faults) (now : Time) (stamp : Text) (rec : Record) (db : Database)
    → IsBalanced db
    → IsBalanced (write_record fault now stamp rec db)
unfolding write_record
write_record-IsBalanced fault now stamp rec db b =
    elim (execute_triple_write_atomic fault now stamp rec db) [
      | inl (s, p, e) ↦ rw (e, write_record) b
      | inr (p, e) ↦ rw (e, write_record) (write-IsBalanced (created now rec) stamp rec db b)
    ]

pub empty-IsBalanced : IsBalanced empty_database
unfolding find_row summary
empty-IsBalanced = record { daily = λ k r p. refl; monthly = λ k r p. refl }
