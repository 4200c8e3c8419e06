-- ===== src/Usage/Dropped.antt =====
-- EmitNonBlocking of internal/usage/worker.go: what it does not accept, it counts.
use mathlib.Core.Path.{subst}
use ai_local.Prelude.{
  +64_exact, +ℤ_parts, All, Bool-cases, IsInt64, List, [], ap, arith, eq_of_parts, inl, inr, length,
  length-append, ltb, pos, refl, suc, sym, ℕ, ◌++◌, ◌+64◌, ◌+ℤ◌, ◌+◌, ◌<◌, ◌^◌, ◌∙◌, ◌∷◌, ◌≡◌, ◌⊎◌,
}
use ai_local.Usage.Delivery.{accepted, put_by}
use ai_local.Usage.Tables.{Record}
use ai_local.Usage.Charged.{Faultless}
use ai_local.Usage.Written.{entries, waiting, length-entries, length-waiting, written_in_order}
use ai_local.Usage.Worker.{
  Event, Pick, UsageBackend, WorkerState, default_queue_size, draining, emit, emit_non_blocking,
  exited, not_started, round, run, running, see_done, start, start_worker, step, stop, take_record,
  work,
}

-- How many records are emitted.
abbrev pub emits : List Event → ℕ
emits [] = 0
emits (emit rec ∷ es) = suc (emits es)
emits (start ∷ es) = emits es
emits (stop ∷ es) = emits es
emits (work pick ∷ es) = emits es

round_dropped :
    (w : WorkerState) (pick : Pick) (queue : List Record) (b : UsageBackend)
    → (round w pick queue b).dropped ≡ b.dropped
unfolding round
round_dropped running (take_record fault now stamp) (rec ∷ queue) b = refl
round_dropped draining (take_record fault now stamp) (rec ∷ queue) b = refl
round_dropped running (take_record fault now stamp) [] b = refl
round_dropped running see_done queue b = ground arith
round_dropped draining (take_record fault now stamp) [] b = refl
round_dropped draining see_done queue b = refl
round_dropped not_started pick queue b = refl
round_dropped exited pick queue b = refl

start_dropped : (b : UsageBackend) → (start_worker b).dropped ≡ b.dropped
unfolding start_worker
start_dropped b = ground arith

-- One record more, while the counter has room.
count_up : (d : ℕ) → d + 1 < 2 ^ 63 → pos d +64 pos 1 ≡ pos (d + 1)
count_up d h =
    let sum : pos d +ℤ pos 1 ≡ pos (d + 1) =
      eq_of_parts (pos d +ℤ pos 1) (pos (d + 1)) (omega (arith, +ℤ_parts (pos d) (pos 1))) in
    +64_exact (pos d) (pos 1) (subst IsInt64 (sym sum) (omega (arith, h), omega arith)) ∙ sum

-- What an emission does to the counter and to the queue.
emitted_or_dropped :
    (rec : Record) (b : UsageBackend) (d : ℕ)
    → b.dropped ≡ pos d
    → d + 1 < 2 ^ 63
    → ((put_by (emit rec) b ≡ rec ∷ []) × ((emit_non_blocking rec b).dropped ≡ pos d))
      ⊎ ((put_by (emit rec) b ≡ []) × ((emit_non_blocking rec b).dropped ≡ pos (d + 1)))
unfolding put_by emit_non_blocking
emitted_or_dropped rec b d e h = elim (Bool-cases (ltb (length b.queue) default_queue_size)) [
  | inl q ↦ inl (rw q refl, rw q e)
  | inr q ↦ inr (rw q refl, rw (q, e) (count_up d h))
]

-- The counter grows by the number of the records that are emitted less those that are accepted.
accepted_or_dropped :
    (es : List Event) (b : UsageBackend) (d : ℕ)
    → b.dropped ≡ pos d
    → d + emits es < 2 ^ 63
    → (n : ℕ) × ((run es b).dropped ≡ pos n) × (n + length (accepted es b) ≡ d + emits es)
unfolding run accepted step put_by
accepted_or_dropped [] b d e h = (d, e, refl)
accepted_or_dropped (start ∷ es) b d e h =
    accepted_or_dropped es (start_worker b) d (start_dropped b ∙ e) h
accepted_or_dropped (stop ∷ es) b d e h = accepted_or_dropped es (step stop b) d e h
accepted_or_dropped (work pick ∷ es) b d e h =
    accepted_or_dropped es (step (work pick) b) d (round_dropped b.worker pick b.queue b ∙ e) h
accepted_or_dropped (emit rec ∷ es) b d e h =
    elim (emitted_or_dropped rec b d e (omega (arith, h))) [
      | inl (p, q) ↦
          let (n, total, sum) =
            accepted_or_dropped es (emit_non_blocking rec b) d q (omega (arith, h)) in
          (n, total, rw p (omega (arith, sum)))
      | inr (p, q) ↦
          let (n, total, sum) =
            accepted_or_dropped es (emit_non_blocking rec b) (d + 1) q (omega (arith, h)) in
          (n, total, rw p (omega (arith, sum)))
    ]

-- No record goes missing without being counted. In any schedule in which no call of the database
-- fails and the counter of dropped records stays in int64, the records that are counted as dropped,
-- those that wait in the queue and the rows of the audit log are together as many as they were at
-- the start and as many more as records were emitted.
pub drops_counted :
    (es : List Event) (b : UsageBackend) (d : ℕ)
    → All Faultless es
    → b.dropped ≡ pos d
    → d + emits es < 2 ^ 63
    → (n : ℕ) × ((run es b).dropped ≡ pos n)
      × (n + (length (run es b).queue + length (run es b).db.logs)
          ≡ d + emits es + (length b.queue + length b.db.logs))
drops_counted es b d f e h =
    let (n, total, sum) = accepted_or_dropped es b d e h in
    let order = ap length (written_in_order es b f) in
    let logs = entries b.db.logs in
    let after = entries (run es b).db.logs in
    (
      n,
      total,
      omega (
        arith,
        sum,
        order,
        length-append after (waiting (run es b).queue),
        length-append (logs ++ waiting b.queue) (waiting (accepted es b)),
        length-append logs (waiting b.queue),
        length-entries b.db.logs,
        length-entries (run es b).db.logs,
        length-waiting b.queue,
        length-waiting (run es b).queue,
        length-waiting (accepted es b),
      ),
    )
