-- ===== src/Usage/Written.antt =====
-- What the worker of internal/usage/worker.go writes, over any schedule of the goroutines.
use ai_local.Prelude.{
  All, Bool-cases, List, Option, Text, [], ap, arith, false, inl, inr, length, length-append, ltb,
  refl, suc, sym, ℤ, ◌++◌, ◌∙◌, ◌∷◌, ◌≡◌,
}
use mathlib.Core.List.{append-nil, append_assoc}
use ai_local.Usage.Charged.{Faultless}
use ai_local.Usage.Delivery.{accepted, put_by}
use ai_local.Usage.Ledger.{execute_triple_write_atomic}
use ai_local.Usage.Tables.{Database, LogRow, Record, Time}
use ai_local.Usage.Worker.{
  Event, Pick, UsageBackend, WorkerState, draining, emit, emit_non_blocking, exited, not_started,
  round, run, running, see_done, start, start_worker, step, stop, take_record, work,
  default_queue_size,
}
use ai_local.Usage.Write.{Faults, Statement, write_daily, write_log, write_monthly, write_record}

-- What a record and a row of the audit log have in common: all but the row's number and the time,
-- which the worker reads for a record that has none.
pub record Entry : Type 0 where
  pub local_key : Text
  pub route_path : Text
  pub client_ip : Text
  pub prompt : ℤ
  pub completion : ℤ
  pub total : ℤ

abbrev pub entry_of : Record → Entry
entry_of rec = record {
  local_key = rec.local_key;
  route_path = rec.route_path;
  client_ip = rec.client_ip;
  prompt = rec.prompt_tokens;
  completion = rec.completion_tokens;
  total = rec.total_tokens;
}

abbrev pub entry_of_log : LogRow → Entry
entry_of_log l = record {
  local_key = l.local_key;
  route_path = l.route_path;
  client_ip = l.client_ip;
  prompt = l.prompt_tokens;
  completion = l.completion_tokens;
  total = l.total_tokens;
}

-- The entries of the audit log, the oldest first.
unfoldable pub entries : List LogRow → List Entry
entries [] = []
entries (l ∷ ls) = entries ls ++ entry_of_log l ∷ []

-- The entries of what waits in the queue, the oldest first.
unfoldable pub waiting : List Record → List Entry
waiting [] = []
waiting (rec ∷ recs) = entry_of rec ∷ waiting recs

pub length-entries : (ls : List LogRow) → length (entries ls) ≡ length ls
unfolding entries
length-entries [] = refl
length-entries (l ∷ ls) =
    omega (arith, length-entries ls, length-append (entries ls) (entry_of_log l ∷ []))

pub length-waiting : (recs : List Record) → length (waiting recs) ≡ length recs
unfolding waiting
length-waiting [] = refl
length-waiting (rec ∷ recs) = ap suc (length-waiting recs)

waiting-append : (xs ys : List Record) → waiting (xs ++ ys) ≡ waiting xs ++ waiting ys
unfolding waiting
waiting-append [] ys = refl
waiting-append (x ∷ xs) ys = ap (λ (l : List Entry). entry_of x ∷ l) (waiting-append xs ys)

-- What is written and what waits, in order.
abbrev in_order : UsageBackend → List Entry
in_order b = entries b.db.logs ++ waiting b.queue

entries-write_record :
    (fault : Faults) (now : Time) (stamp : Text) (rec : Record) (db : Database)
    → ((s : Statement) → fault s ≡ false)
    → entries (write_record fault now stamp rec db).logs ≡ entries db.logs ++ entry_of rec ∷ []
unfolding write_record write_log write_daily write_monthly entries
entries-write_record fault now stamp rec db f =
    elim (execute_triple_write_atomic fault now stamp rec db) [
      | inl (s, q, g) ↦ absurd (ground (arith, f s))
      | inr (q, g) ↦ ap (λ (r : Database × Option Statement). entries r.0.logs) g
    ]

in_order-taken :
    (fault : Faults) (now : Time) (stamp : Text) (rec : Record) (queue : List Record)
    (db : Database)
    → ((s : Statement) → fault s ≡ false)
    → entries (write_record fault now stamp rec db).logs ++ waiting queue
      ≡ entries db.logs ++ waiting (rec ∷ queue)
unfolding waiting
in_order-taken fault now stamp rec queue db f =
    ap (λ (l : List Entry). l ++ waiting queue) (entries-write_record fault now stamp rec db f)
    ∙ append_assoc (entries db.logs) (entry_of rec ∷ []) (waiting queue)

in_order-round :
    (w : WorkerState) (pick : Pick) (queue : List Record) (b : UsageBackend)
    → b.queue ≡ queue
    → Faultless (work pick)
    → in_order (round w pick queue b) ≡ in_order b
unfolding round
in_order-round running (take_record fault now stamp) (rec ∷ queue) b e f =
    in_order-taken fault now stamp rec queue b.db f
    ∙ ap (λ q. entries b.db.logs ++ waiting q) (sym e)
in_order-round draining (take_record fault now stamp) (rec ∷ queue) b e f =
    in_order-taken fault now stamp rec queue b.db f
    ∙ ap (λ q. entries b.db.logs ++ waiting q) (sym e)
in_order-round running (take_record fault now stamp) [] b e f = refl
in_order-round running see_done queue b e f = ground arith
in_order-round draining (take_record fault now stamp) [] b e f = refl
in_order-round draining see_done queue b e f = refl
in_order-round not_started pick queue b e f = refl
in_order-round exited pick queue b e f = refl

in_order_emit :
    (rec : Record) (b : UsageBackend)
    → in_order (emit_non_blocking rec b) ≡ in_order b ++ waiting (put_by (emit rec) b)
unfolding emit_non_blocking put_by
in_order_emit rec b = elim (Bool-cases (ltb (length b.queue) default_queue_size)) [
  | inl e ↦ rw e (
      ap (λ (l : List Entry). entries b.db.logs ++ l) (waiting-append b.queue (rec ∷ []))
      ∙ sym (append_assoc (entries b.db.logs) (waiting b.queue) (waiting (rec ∷ []))))
  | inr e ↦ rw e (unfold waiting in sym (append-nil (in_order b)))
]

in_order_start : (b : UsageBackend) → in_order (start_worker b) ≡ in_order b
unfolding start_worker
in_order_start b = ground arith

in_order-step :
    (e : Event) (b : UsageBackend)
    → Faultless e
    → in_order (step e b) ≡ in_order b ++ waiting (put_by e b)
unfolding step put_by waiting
in_order-step (emit rec) b f = in_order_emit rec b
in_order-step start b f = in_order_start b ∙ sym (append-nil (in_order b))
in_order-step stop b f = sym (append-nil (in_order b))
in_order-step (work pick) b f =
    in_order-round b.worker pick b.queue b refl f ∙ sym (append-nil (in_order b))

-- None of the records that the queue accepts is lost, doubled or changed. In any schedule in which
-- no call of the database fails, the rows of the audit log, the oldest first, and behind them the
-- records that wait in the queue are what they were at the start, and behind it the records that
-- the queue accepted, in the order of arrival: each with its key, route, address and three counts.
pub written_in_order :
    (es : List Event) (b : UsageBackend)
    → All Faultless es
    → entries (run es b).db.logs ++ waiting (run es b).queue
      ≡ (entries b.db.logs ++ waiting b.queue) ++ waiting (accepted es b)
unfolding run accepted
written_in_order [] b f = unfold waiting in sym (append-nil (in_order b))
written_in_order (e ∷ es) b f =
    let puts = put_by e b in
    let more = accepted es (step e b) in
    written_in_order es (step e b) f.1
    ∙ ap (λ (l : List Entry). l ++ waiting more) (in_order-step e b f.0)
    ∙ append_assoc (in_order b) (waiting puts) (waiting more)
    ∙ ap (λ (l : List Entry). in_order b ++ l) (sym (waiting-append puts more))
