-- ===== src/Usage/Charged.antt =====
-- The tokens of the records that are emitted, from the queue of internal/usage/worker.go to the audit
-- log.
use mathlib.Core.Path.{subst}
use ai_local.Prelude.{
  +ℤ_assoc, +ℤ_zero, +ℤ_zero_left, All, All-append, All-left, All-right, Bool, Bool-cases, List,
  Option, Text, [], ap, arith, false, if◌then◌else◌, inl, inr, length, ltb, none, pos, refl, some,
  sym, text_eq, ℤ, ◌&&◌, ◌++◌, ◌+ℤ◌, ◌∙◌, ◌∷◌, ◌≡◌,
}
use ai_local.Usage.Tables.{Database, Record, Time, same_key}
use ai_local.Usage.Write.{
  Faults, Statement, created, write_daily, write_log, write_monthly, write_record,
}
use ai_local.Usage.Ledger.{committed, execute_triple_write_atomic}
use ai_local.Usage.Admission.{used}
use ai_local.Usage.Worker.{
  Event, take_record, work, Pick, UsageBackend, WorkerState, draining, exited, not_started, round,
  running, see_done, default_queue_size, emit, emit_non_blocking, run, start, start_worker, step,
  stop,
}
use ai_local.Apml.{shared}
use ai_local.Usage.Audit.{logged, logged_on_route}
use ai_local.Usage.Delivery.{put_by, accepted, step_queue, taken_by}

-- No call of the database fails.
abbrev pub Faultless : Event → Type 0
Faultless (work (take_record fault now stamp)) = (s : Statement) → fault s ≡ false
Faultless _ = Unit {0}

-- The record says when it was made, as those of the proxy do.
abbrev pub IsTimed : Record → Type 0
IsTimed rec = (t : Time) × (rec.created_at ≡ some t)

module _ (period : Time → Text) (mode key route p : Text) where
  -- Whether a record counts against a quota of this mode for this key, route and period.
  abbrev pub pays : Text → Text → Time → Bool
  pays k r t =
      if text_eq mode shared
      then text_eq r route && text_eq (period t) p
      else same_key k r (period t) key route p

  abbrev pub charge : Record → ℤ
  charge rec = elim rec.created_at [
    | none ↦ pos 0
    | some t ↦ if pays rec.local_key rec.route_path t then rec.total_tokens else pos 0
  ]

  unfoldable pub charged : List Record → ℤ
  charged [] = pos 0
  charged (rec ∷ recs) = charge rec +ℤ charged recs

  charged-append : (xs ys : List Record) → charged (xs ++ ys) ≡ charged xs +ℤ charged ys
  unfolding charged
  charged-append [] ys = sym (+ℤ_zero_left (charged ys))
  charged-append (x ∷ xs) ys =
      ap (λ n. charge x +ℤ n) (charged-append xs ys)
      ∙ sym (+ℤ_assoc (charge x) (charged xs) (charged ys))

  -- One transaction that commits.
  used-committed :
      (now : Time) (stamp : Text) (rec : Record) (db : Database) (t : Time)
      → rec.created_at ≡ some t
      → used period mode key route p (committed now stamp rec db)
        ≡ used period mode key route p db +ℤ charge rec
  unfolding used write_log write_daily write_monthly created logged logged_on_route
  used-committed now stamp rec db t e = ground (
    arith,
    e,
    +ℤ_zero (logged period key route p db.logs),
    +ℤ_zero (logged_on_route period route p db.logs),
  )

  used-write_record :
      (fault : Faults) (now : Time) (stamp : Text) (rec : Record) (db : Database)
      → ((s : Statement) → fault s ≡ false)
      → IsTimed rec
      → used period mode key route p (write_record fault now stamp rec db)
        ≡ used period mode key route p db +ℤ charge rec
  unfolding write_record
  used-write_record fault now stamp rec db f (t, e) =
      elim (execute_triple_write_atomic fault now stamp rec db) [
        | inl (s, q, g) ↦ absurd (ground (arith, f s))
        | inr (q, g) ↦
            ap (λ (r : Database × Option Statement). used period mode key route p r.0) g
            ∙ used-committed now stamp rec db t e
      ]

  -- What is counted and what waits, together.
  abbrev due : UsageBackend → ℤ
  due b = used period mode key route p b.db +ℤ charged b.queue

  due-taken :
      (fault : Faults) (now : Time) (stamp : Text) (rec : Record) (queue : List Record)
      (db : Database)
      → ((s : Statement) → fault s ≡ false)
      → IsTimed rec
      → used period mode key route p (write_record fault now stamp rec db) +ℤ charged queue
        ≡ used period mode key route p db +ℤ charged (rec ∷ queue)
  unfolding charged
  due-taken fault now stamp rec queue db f h =
      ap (λ n. n +ℤ charged queue) (used-write_record fault now stamp rec db f h)
      ∙ +ℤ_assoc (used period mode key route p db) (charge rec) (charged queue)

  due-round :
      (w : WorkerState) (pick : Pick) (queue : List Record) (b : UsageBackend)
      → b.queue ≡ queue
      → Faultless (work pick)
      → All IsTimed queue
      → due (round w pick queue b) ≡ due b
  unfolding round
  due-round running (take_record fault now stamp) (rec ∷ queue) b e f h =
      due-taken fault now stamp rec queue b.db f h.0
      ∙ ap (λ q. used period mode key route p b.db +ℤ charged q) (sym e)
  due-round draining (take_record fault now stamp) (rec ∷ queue) b e f h =
      due-taken fault now stamp rec queue b.db f h.0
      ∙ ap (λ q. used period mode key route p b.db +ℤ charged q) (sym e)
  due-round running (take_record fault now stamp) [] b e f h = refl
  due-round running see_done queue b e f h = ground arith
  due-round draining (take_record fault now stamp) [] b e f h = refl
  due-round draining see_done queue b e f h = refl
  due-round not_started pick queue b e f h = refl
  due-round exited pick queue b e f h = refl

  due_emit :
      (rec : Record) (b : UsageBackend)
      → due (emit_non_blocking rec b) ≡ due b +ℤ charged (put_by (emit rec) b)
  unfolding emit_non_blocking put_by
  due_emit rec b = elim (Bool-cases (ltb (length b.queue) default_queue_size)) [
    | inl e ↦ rw e (
        ap (λ n. used period mode key route p b.db +ℤ n) (charged-append b.queue (rec ∷ []))
        ∙ sym (+ℤ_assoc (used period mode key route p b.db) (charged b.queue) (charged (rec ∷ []))))
    | inr e ↦ rw e (unfold charged in sym (+ℤ_zero (due b)))
  ]

  due_start : (b : UsageBackend) → due (start_worker b) ≡ due b
  unfolding start_worker
  due_start b = ground arith

  due-step :
      (e : Event) (b : UsageBackend)
      → Faultless e
      → All IsTimed b.queue
      → due (step e b) ≡ due b +ℤ charged (put_by e b)
  unfolding step put_by charged
  due-step (emit rec) b f h = due_emit rec b
  due-step start b f h = due_start b ∙ sym (+ℤ_zero (due b))
  due-step stop b f h = sym (+ℤ_zero (due b))
  due-step (work pick) b f h = due-round b.worker pick b.queue b refl f h ∙ sym (+ℤ_zero (due b))

  step-IsTimed :
      (e : Event) (b : UsageBackend)
      → All IsTimed b.queue
      → All IsTimed (put_by e b)
      → All IsTimed (step e b).queue
  step-IsTimed e b h k =
      All-right IsTimed (taken_by e b) (step e b).queue
        (subst (All IsTimed) (step_queue e b) (All-append IsTimed b.queue (put_by e b) h k))

  -- Every record that the queue accepts is charged once. In any schedule in which no call of the
  -- database fails, the tokens that the audit log counts in the end for a key, a route and a
  -- period, or for the route and the period alone where the mode is shared, and those that wait in
  -- the queue, are together what they were at the start and the tokens of the accepted records that
  -- count there, if the records say when they were made.
  pub charged_once :
      (es : List Event) (b : UsageBackend)
      → All Faultless es
      → All IsTimed b.queue
      → All IsTimed (accepted es b)
      → used period mode key route p (run es b).db +ℤ charged (run es b).queue
        ≡ used period mode key route p b.db +ℤ charged b.queue +ℤ charged (accepted es b)
  unfolding run accepted
  charged_once [] b f h k = unfold charged in sym (+ℤ_zero (due b))
  charged_once (e ∷ es) b f h k =
      let puts = put_by e b in
      let more = accepted es (step e b) in
      charged_once es (step e b) f.1 (step-IsTimed e b h (All-left IsTimed puts more k))
        (All-right IsTimed puts more k)
      ∙ ap (λ n. n +ℤ charged more) (due-step e b f.0 h)
      ∙ +ℤ_assoc (due b) (charged puts) (charged more)
      ∙ ap (λ n. due b +ℤ n) (sym (charged-append puts more))
