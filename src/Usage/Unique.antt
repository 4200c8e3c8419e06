-- ===== src/Usage/Unique.antt =====
-- The primary keys of the cached rows: no two rows of a table have one key.
use mathlib.Core.Path.{subst}
use ai_local.Prelude.{
  Bool-cases, List, Memᴰ, Option, Text, [], arith, false, inl, inr, none, refl, some, sym, true,
  ◌∷◌, ◌≡◌,
}
use ai_local.Usage.Tables.{
  Totals, UsageRow, find_row, row_matches, same_key, same_key_iff, Totals, Database, Record, Time,
}
use ai_local.Usage.Write.{upsert, Faults, write_daily, write_log, write_monthly, write_record}
use ai_local.Usage.Worker.{
  round, run, Event, Pick, UsageBackend, WorkerState, draining, emit, emit_non_blocking, exited,
  not_started, running, see_done, start, start_worker, step, stop, take_record, work,
}
use ai_local.Usage.Ledger.{execute_triple_write_atomic}

abbrev pub row_of : UsageRow → List UsageRow → Option UsageRow
row_of row rows = find_row row.local_key row.route_path row.period rows

abbrev pub IsUnique : List UsageRow → Type 0
IsUnique [] = Unit {0}
IsUnique (row ∷ rows) = (row_of row rows ≡ none) × IsUnique rows

-- A row of a table is the one that its key finds.
pub row_of-found :
    (row : UsageRow) (rows : List UsageRow)
    → IsUnique rows
    → Memᴰ row rows
    → row_of row rows ≡ some row
unfolding find_row
row_of-found row [] h m = elim m [ ]
row_of-found row (x ∷ rows) h (Memᴰ.head e) =
    subst (λ (y : UsageRow). row_of y (x ∷ rows) ≡ some y) (sym e) here
  where
    here : row_of x (x ∷ rows) ≡ some x
    here =
        rw
          ((same_key_iff x.local_key x.route_path x.period x.local_key x.route_path x.period).1
            (refl, refl, refl))
          refl
row_of-found row (x ∷ rows) h (Memᴰ.tail m) =
    let behind = row_of-found row rows h.1 m in
    elim (Bool-cases (row_matches row.local_key row.route_path row.period x)) [
      | inl e ↦ absurd (twice e behind)
      | inr e ↦ rw e behind
    ]
  where
    twice :
        row_matches row.local_key row.route_path row.period x ≡ true
        → row_of row rows ≡ some row
        → ⊥
    twice e behind = ground (
      arith,
      h.0,
      same_key_iff x.local_key x.route_path x.period row.local_key row.route_path row.period,
    )

find_row-upsert :
    (key route period k r p stamp : Text) (t : Totals) (rows : List UsageRow)
    → same_key key route period k r p ≡ false
    → find_row k r p rows ≡ none
    → find_row k r p (upsert key route period t stamp rows) ≡ none
unfolding find_row upsert
find_row-upsert key route period k r p stamp t [] d e = ground arith
find_row-upsert key route period k r p stamp t (row ∷ rows) d e = ground (
  arith,
  find_row-upsert key route period k r p stamp t rows d,
  same_key_iff row.local_key row.route_path row.period key route period,
  same_key_iff row.local_key row.route_path row.period k r p,
  same_key_iff key route period k r p,
)

-- A key that a row does not match is another key.
apart :
    (key route period : Text) (row : UsageRow)
    → row_matches key route period row ≡ false
    → same_key key route period row.local_key row.route_path row.period ≡ false
apart key route period row e = ground (
  arith,
  same_key_iff row.local_key row.route_path row.period key route period,
  same_key_iff key route period row.local_key row.route_path row.period,
)

upsert-IsUnique :
    (key route period stamp : Text) (t : Totals) (rows : List UsageRow)
    → IsUnique rows
    → IsUnique (upsert key route period t stamp rows)
unfolding upsert find_row
upsert-IsUnique key route period stamp t [] h = (refl, tt)
upsert-IsUnique key route period stamp t (row ∷ rows) h =
    elim (Bool-cases (row_matches key route period row)) [
      | inl e ↦ rw e h
      | inr e ↦ rw e (
        find_row-upsert key route period row.local_key row.route_path row.period stamp t rows
            (apart key route period row e) h.0,
        upsert-IsUnique key route period stamp t rows h.1,
      )
    ]

-- What every write keeps, every schedule keeps.
module _ (P : Database → Type 0)
    (kept : (fault : Faults) (now : Time) (stamp : Text) (rec : Record) (db : Database)
      → P db
      → P (write_record fault now stamp rec db)) where
  round_keeps :
      (w : WorkerState) (pick : Pick) (queue : List Record) (b : UsageBackend)
      → P b.db
      → P (round w pick queue b).db
  unfolding round
  round_keeps running (take_record fault now stamp) (rec ∷ queue) b h =
      kept fault now stamp rec b.db h
  round_keeps draining (take_record fault now stamp) (rec ∷ queue) b h =
      kept fault now stamp rec b.db h
  round_keeps running (take_record fault now stamp) [] b h = h
  round_keeps running see_done queue b h = ground arith
  round_keeps draining (take_record fault now stamp) [] b h = h
  round_keeps draining see_done queue b h = h
  round_keeps not_started pick queue b h = h
  round_keeps exited pick queue b h = h

  pub run_keeps : (es : List Event) (b : UsageBackend) → P b.db → P (run es b).db
  unfolding run step emit_non_blocking start_worker
  run_keeps [] b h = h
  run_keeps (emit rec ∷ es) b h = run_keeps es (emit_non_blocking rec b) (ground arith)
  run_keeps (start ∷ es) b h = run_keeps es (start_worker b) (ground arith)
  run_keeps (stop ∷ es) b h = run_keeps es (step stop b) h
  run_keeps (work pick ∷ es) b h =
      run_keeps es (step (work pick) b) (round_keeps b.worker pick b.queue b h)

write_record-IsUnique :
    (fault : Faults) (now : Time) (stamp : Text) (rec : Record) (db : Database)
    → IsUnique db.daily
    → IsUnique (write_record fault now stamp rec db).daily
unfolding write_record write_log write_daily write_monthly
write_record-IsUnique fault now stamp rec db h =
    elim (execute_triple_write_atomic fault now stamp rec db) [
      | inl (s, p, e) ↦ rw (e, write_record) h
      | inr (p, e) ↦ rw (e, write_record) (upsert-IsUnique _ _ _ _ _ db.daily h)
    ]

pub run-IsUnique :
    (es : List Event) (b : UsageBackend) → IsUnique b.db.daily → IsUnique (run es b).db.daily
run-IsUnique = run_keeps (λ db. IsUnique db.daily) write_record-IsUnique
