-- ===== src/Usage/Delivery.antt =====
-- What becomes of the records that are emitted, over any schedule of the goroutines.
use ai_local.Prelude.{
  Bool-cases, List, [], ap, arith, if◌then◌else◌, inl, inr, length, ltb, refl, sym, ◌++◌, ◌∙◌, ◌∷◌,
  ◌≡◌,
}
use mathlib.Core.List.{append-nil, append_assoc}
use ai_local.Usage.Tables.{Record}
use ai_local.Usage.Worker.{
  step, run, Event, Pick, UsageBackend, WorkerState, default_queue_size, draining, emit, exited,
  not_started, round, running, see_done, start, stop, take_record, work, emit_non_blocking,
  start_worker,
}

-- The record that a step puts into the queue, and the one that it takes out.
unfoldable pub put_by : Event → UsageBackend → List Record
put_by (emit rec) b = if ltb (length b.queue) default_queue_size then rec ∷ [] else []
put_by _ b = []

unfoldable pub front : WorkerState → Pick → List Record → List Record
front running (take_record fault now stamp) (rec ∷ queue) = rec ∷ []
front draining (take_record fault now stamp) (rec ∷ queue) = rec ∷ []
front _ _ _ = []

unfoldable pub taken_by : Event → UsageBackend → List Record
taken_by (work pick) b = front b.worker pick b.queue
taken_by _ b = []

-- The records that went into the queue, and those that the worker took out.
unfoldable pub accepted : List Event → UsageBackend → List Record
accepted [] b = []
accepted (e ∷ es) b = put_by e b ++ accepted es (step e b)

unfoldable pub taken : List Event → UsageBackend → List Record
taken [] b = []
taken (e ∷ es) b = taken_by e b ++ taken es (step e b)

round_queue :
    (w : WorkerState) (p : Pick) (q : List Record) (b : UsageBackend)
    → b.queue ≡ q
    → q ≡ front w p q ++ (round w p q b).queue
unfolding round front
round_queue running (take_record fault now stamp) (rec ∷ queue) b e = refl
round_queue draining (take_record fault now stamp) (rec ∷ queue) b e = refl
round_queue running (take_record fault now stamp) [] b e = sym e
round_queue running see_done q b e = ground arith
round_queue draining (take_record fault now stamp) [] b e = sym e
round_queue draining see_done q b e = sym e
round_queue not_started p q b e = sym e
round_queue exited p q b e = sym e

emit_queue :
    (rec : Record) (b : UsageBackend)
    → b.queue ++ put_by (emit rec) b ≡ (emit_non_blocking rec b).queue
unfolding put_by emit_non_blocking
emit_queue rec b = elim (Bool-cases (ltb (length b.queue) default_queue_size)) [
  | inl e ↦ rw e
  | inr e ↦ rw e (append-nil _)
]

start_queue : (b : UsageBackend) → b.queue ≡ (start_worker b).queue
unfolding start_worker
start_queue b = ground arith

pub step_queue :
    (e : Event) (b : UsageBackend) → b.queue ++ put_by e b ≡ taken_by e b ++ (step e b).queue
unfolding step put_by taken_by
step_queue (emit rec) b = emit_queue rec b
step_queue start b = append-nil _ ∙ start_queue b
step_queue stop b = append-nil _
step_queue (work pick) b = append-nil _ ∙ round_queue b.worker pick b.queue b refl

-- The records that leave the queue, and those that still wait, are those that stood in it and those
-- that it accepted, in the order of arrival, whatever the schedule.
pub delivered_in_order :
    (es : List Event) (b : UsageBackend) → b.queue ++ accepted es b ≡ taken es b ++ (run es b).queue
unfolding run accepted taken
delivered_in_order [] b = append-nil _
delivered_in_order (e ∷ es) b =
    sym (append_assoc b.queue (put_by e b) (accepted es (step e b)))
    ∙ ap (λ (q : List Record). q ++ accepted es (step e b)) (step_queue e b)
    ∙ append_assoc (taken_by e b) (step e b).queue (accepted es (step e b))
    ∙ ap (λ (q : List Record). taken_by e b ++ q) (delivered_in_order es (step e b))
    ∙ sym (append_assoc (taken_by e b) (taken es (step e b)) (run es (step e b)).queue)
