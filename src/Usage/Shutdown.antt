-- ===== src/Usage/Shutdown.antt =====
-- The bounded queue, the ledger and the graceful shutdown, over any schedule of the goroutines.
use ai_local.Prelude.{
  All, Bool, List, Text, [], ap, arith, length, length-append, refl, sym, ℤ, ◌++◌, ◌+◌, ◌∙◌, ◌∷◌,
  ◌≡◌, ◌≤◌,
}
use mathlib.Core.Path.{subst}
use ai_local.Usage.Tables.{Database, Record, Time}
use ai_local.Usage.Write.{write_record, Faults}
use ai_local.Usage.Admission.{IsExact}
use ai_local.Usage.Worker.{
  step, run, Event, Pick, UsageBackend, WorkerState, default_queue_size, draining, emit,
  emit_non_blocking, exited, not_started, round, running, see_done, start, stop, take_record, work,
  start_worker,
}
use ai_local.Usage.Ledger.{write_record-IsBalanced}
use ai_local.Usage.Pool.{write_record-IsPooled}
use ai_local.Usage.Delivery.{accepted, delivered_in_order, front, put_by, taken, taken_by}
use ai_local.Usage.Written.{entries, waiting, written_in_order}
use ai_local.Usage.Charged.{Faultless}
use mathlib.Core.List.{append-nil}

pub record IsSound (b : UsageBackend) : Type 0 where
  pub bounded : length b.queue ≤ default_queue_size
  pub exact : IsExact b.db

write_record-IsExact :
    (fault : Faults) (now : Time) (stamp : Text) (rec : Record) (db : Database)
    → IsExact db
    → IsExact (write_record fault now stamp rec db)
write_record-IsExact fault now stamp rec db x = record {
  balanced = write_record-IsBalanced fault now stamp rec db x.balanced;
  pooled = write_record-IsPooled fault now stamp rec db x.pooled;
}

emit-bounded :
    (rec : Record) (b : UsageBackend)
    → length b.queue ≤ default_queue_size
    → length (emit_non_blocking rec b).queue ≤ default_queue_size
unfolding emit_non_blocking
emit-bounded rec b h = ground (arith, length-append b.queue (rec ∷ []))

emit-db : (rec : Record) (b : UsageBackend) → (emit_non_blocking rec b).db ≡ b.db
unfolding emit_non_blocking
emit-db rec b = ground arith

IsSound-same : (b c : UsageBackend) → c.queue ≡ b.queue → c.db ≡ b.db → IsSound b → IsSound c
IsSound-same b c p q s = record {
  bounded = omega (arith, ap length p, s.bounded);
  exact = subst IsExact (sym q) s.exact;
}

round-IsSound :
    (w : WorkerState) (p : Pick) (q : List Record) (b : UsageBackend)
    → b.queue ≡ q
    → IsSound b
    → IsSound (round w p q b)
unfolding round
round-IsSound running (take_record fault now stamp) (rec ∷ queue) b e s = record {
  bounded = omega (arith, ap length e, s.bounded);
  exact = write_record-IsExact fault now stamp rec b.db s.exact;
}
round-IsSound draining (take_record fault now stamp) (rec ∷ queue) b e s = record {
  bounded = omega (arith, ap length e, s.bounded);
  exact = write_record-IsExact fault now stamp rec b.db s.exact;
}
round-IsSound running (take_record fault now stamp) [] b e s = s
round-IsSound running see_done q b e s =
    IsSound-same b (round running see_done q b) (unfold round in ground arith)
      (unfold round in ground arith) s
round-IsSound draining (take_record fault now stamp) [] b e s = record {
  bounded = s.bounded;
  exact = s.exact;
}
round-IsSound draining see_done q b e s = s
round-IsSound not_started p q b e s = s
round-IsSound exited p q b e s = s

pub step-IsSound : (e : Event) (b : UsageBackend) → IsSound b → IsSound (step e b)
unfolding step
step-IsSound (emit rec) b s = record {
  bounded = emit-bounded rec b s.bounded;
  exact = rw (emit-db rec b) s.exact;
}
step-IsSound start b s =
    IsSound-same b (start_worker b) (unfold start_worker in ground arith)
      (unfold start_worker in ground arith) s
step-IsSound stop b s = record { bounded = s.bounded; exact = s.exact }
step-IsSound (work p) b s = round-IsSound b.worker p b.queue b refl s

-- Exact sums stay exact, and the queue stays in its bound, in any schedule. (The engine's sums are
-- exact while they stay in int64: `add_totals`.)
pub schedule-IsSound : (es : List Event) (b : UsageBackend) → IsSound b → IsSound (run es b)
unfolding run
schedule-IsSound [] b s = s
schedule-IsSound (e ∷ es) b s = schedule-IsSound es (step e b) (step-IsSound e b s)

-- The rounds of a worker that drains, one for each failure pattern, clock and stamp.
abbrev pub rounds : List (Faults × Time × Text) → List Event
rounds [] = []
rounds ((fault, now, stamp) ∷ ps) = work (take_record fault now stamp) ∷ rounds ps

abbrev draining_with : Database → List Record → Bool → ℤ → UsageBackend
draining_with db queue stopping dropped = record {
  db = db;
  queue = queue;
  stopping = stopping;
  worker = draining;
  dropped = dropped;
}

drains_explicit :
    (ps : List (Faults × Time × Text)) (q : List Record) (db : Database) (stopping : Bool)
    (dropped : ℤ)
    → length ps ≡ length q + 1
    → ((run (rounds ps) (draining_with db q stopping dropped)).worker ≡ exited)
      × ((run (rounds ps) (draining_with db q stopping dropped)).queue ≡ [])
unfolding run round
drains_explicit [] q db stopping dropped h = absurd (omega (arith, h))
drains_explicit (p ∷ []) [] db stopping dropped h = (refl, refl)
drains_explicit (p ∷ r ∷ ps) [] db stopping dropped h = absurd (omega (arith, h))
drains_explicit ((fault, now, stamp) ∷ ps) (rec ∷ q) db stopping dropped h =
    drains_explicit ps q (write_record fault now stamp rec db) stopping dropped (omega arith)

drains_all :
    (ps : List (Faults × Time × Text)) (b : UsageBackend)
    → b.worker ≡ draining
    → length ps ≡ length b.queue + 1
    → ((run (rounds ps) b).worker ≡ exited) × ((run (rounds ps) b).queue ≡ [])
drains_all ps b w h =
    subst
      (λ (s : WorkerState).
        let c : UsageBackend = record b { worker = s } in
        ((run (rounds ps) c).worker ≡ exited) × ((run (rounds ps) c).queue ≡ []))
      (sym w) (drains_explicit ps b.queue b.db b.stopping b.dropped h)

rounds-accept_none :
    (ps : List (Faults × Time × Text)) (b : UsageBackend) → accepted (rounds ps) b ≡ []
unfolding accepted put_by
rounds-accept_none [] b = refl
rounds-accept_none ((fault, now, stamp) ∷ ps) b =
    rounds-accept_none ps (step (work (take_record fault now stamp)) b)

-- The graceful shutdown ends and loses nothing that is queued: a worker that drains a queue of n
-- records is through in n rounds and exits in one more, if no call of the database fails in them.
-- Then the queue is empty, and the audit log has the rows that it had and behind them, in order,
-- a row for each record of the queue, with its key, route, address and three counts.
pub drains :
    (ps : List (Faults × Time × Text)) (b : UsageBackend)
    → b.worker ≡ draining
    → length ps ≡ length b.queue + 1
    → All Faultless (rounds ps)
    → ((run (rounds ps) b).worker ≡ exited)
      × ((run (rounds ps) b).queue ≡ [])
      × (entries (run (rounds ps) b).db.logs ≡ entries b.db.logs ++ waiting b.queue)
unfolding waiting
drains ps b w h f =
    let (ended, empty) = drains_all ps b w h in
    let last = entries (run (rounds ps) b).db.logs in
    (
      ended,
      empty,
      sym (append-nil last)
          ∙ ap (λ (q : List Record). last ++ waiting q) (sym empty)
          ∙ written_in_order (rounds ps) b f
          ∙ ap (λ (q : List Record). (entries b.db.logs ++ waiting b.queue) ++ waiting q)
              (rounds-accept_none ps b)
          ∙ append-nil (entries b.db.logs ++ waiting b.queue),
    )

round_exited :
    (s : WorkerState) (p : Pick) (q : List Record) (b : UsageBackend)
    → s ≡ exited
    → (round s p q b ≡ b) × (front s p q ≡ [])
unfolding round front
round_exited exited p q b e = (refl, refl)
round_exited not_started p q b e = cc
round_exited running p q b e = cc
round_exited draining p q b e = cc

step_exited :
    (e : Event) (b : UsageBackend)
    → b.worker ≡ exited
    → ((step e b).worker ≡ exited) × ((step e b).db ≡ b.db) × (taken_by e b ≡ [])
unfolding step taken_by
step_exited (emit rec) b w = unfold emit_non_blocking in (ground arith, emit-db rec b, refl)
step_exited start b w = unfold start_worker in (ground arith, ground arith, refl)
step_exited stop b w = (w, refl, refl)
step_exited (work p) b w =
    let (same, none_taken) = round_exited b.worker p b.queue b w in
    (ap (λ (c : UsageBackend). c.worker) same ∙ w, ap (λ (c : UsageBackend). c.db) same, none_taken)

taken-exited :
    (es : List Event) (b : UsageBackend)
    → b.worker ≡ exited
    → ((run es b).db ≡ b.db) × (taken es b ≡ [])
unfolding run taken
taken-exited [] b w = (refl, refl)
taken-exited (e ∷ es) b w =
    let (w', d, t) = step_exited e b w in
    let (ds, ts) = taken-exited es (step e b) w' in (ds ∙ d, rw t ts)

-- Once the worker has exited, the schedule that follows writes nothing, and a record that a request
-- still in flight emits stays where it is put: the database is what it was, and the queue is what
-- it was with every record behind it that it has accepted since, in the order of arrival.
pub exited_writes_nothing :
    (es : List Event) (b : UsageBackend)
    → b.worker ≡ exited
    → ((run es b).db ≡ b.db) × ((run es b).queue ≡ b.queue ++ accepted es b)
exited_writes_nothing es b w =
    let (same, none_taken) = taken-exited es b w in
    (
      same,
      sym (delivered_in_order es b ∙ ap (λ (l : List Record). l ++ (run es b).queue) none_taken),
    )
