-- ===== src/Usage/Worker.antt =====
-- UsageBackend of internal/usage/worker.go: the queue and its one worker.
-- The state is what the goroutines share, and an event is one atomic step of one of them: a call
-- of EmitNonBlocking, StartWorker or Stop, or one round of the worker. Which events come in which
-- order is left open; which of two ready cases the worker's `select` takes is part of the event.
use ai_local.Prelude.{
  Bool, List, Text, [], false, if◌then◌else◌, length, ltb, pos, true, ℕ, ℤ, ◌++◌, ◌+64◌, ◌∷◌,
}
use ai_local.Usage.Tables.{Database, Record, Time}
use ai_local.Usage.Write.{Faults, write_record}

abbrev pub default_queue_size : ℕ
default_queue_size = 1024

pub data WorkerState : Type 0 where
  not_started running draining exited : WorkerState

-- `stopping` says that the channel `done` is closed.
pub record UsageBackend : Type 0 where
  pub db : Database
  pub queue : List Record
  pub stopping : Bool
  pub worker : WorkerState
  pub dropped : ℤ  -- int64

-- The case that the worker's `select` takes: a record, which it writes with these faults at this
-- time, or the closed channel `done`.
pub data Pick : Type 0 where
  take_record : Faults → Time → Text → Pick
  see_done : Pick

pub data Event : Type 0 where
  emit : Record → Event
  start stop : Event
  work : Pick → Event

unfoldable pub new_usage_backend : Database → UsageBackend
new_usage_backend db = record {
  db = db;
  queue = [];
  stopping = false;
  worker = not_started;
  dropped = pos 0;
}

unfoldable pub emit_non_blocking : Record → UsageBackend → UsageBackend
emit_non_blocking rec b =
    if ltb (length b.queue) default_queue_size
    then record b { queue = b.queue ++ rec ∷ [] }
    else record b { dropped = b.dropped +64 pos 1 }

unfoldable pub dropped_count : UsageBackend → ℤ
dropped_count b = b.dropped

-- Safe to call once, as its comment asks and the server does.
unfoldable pub start_worker : UsageBackend → UsageBackend
start_worker b = elim b.worker [ not_started ↦ record b { worker = running } | _ ↦ b ]

-- The part of Stop before it waits.
unfoldable pub close_done : UsageBackend → UsageBackend
close_done b = record b { stopping = true }

-- Whether the wait at the end of Stop is over.
unfoldable pub is_stopped : WorkerState → Bool
is_stopped not_started = true
is_stopped exited = true
is_stopped _ = false

-- One round of the worker: the next queue, state and database, from the queue. A case that is not
-- ready leaves the worker waiting.
unfoldable pub round : WorkerState → Pick → List Record → UsageBackend → UsageBackend
round running (take_record fault now stamp) (rec ∷ queue) b = record b {
  queue = queue;
  db = write_record fault now stamp rec b.db;
}
round running (take_record fault now stamp) [] b = b
round running see_done queue b = if b.stopping then record b { worker = draining } else b
round draining (take_record fault now stamp) (rec ∷ queue) b = record b {
  queue = queue;
  db = write_record fault now stamp rec b.db;
}
round draining (take_record fault now stamp) [] b = record b { worker = exited }
round draining see_done queue b = b
round not_started pick queue b = b
round exited pick queue b = b

unfoldable pub step : Event → UsageBackend → UsageBackend
unfolding emit_non_blocking start_worker close_done round
step (emit rec) b = emit_non_blocking rec b
step start b = start_worker b
step stop b = close_done b
step (work pick) b = round b.worker pick b.queue b

unfoldable pub run : List Event → UsageBackend → UsageBackend
unfolding step
run [] b = b
run (e ∷ es) b = run es (step e b)
