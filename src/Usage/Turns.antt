-- ===== src/Usage/Turns.antt =====
-- The worker comes to an end.
use mathlib.Core.WellFounded.{Acc}
use ai_local.Prelude.{
  Bool, List, [], arith, false, inl, inr, length, refl, suc, true, zero, ℕ, ◌+◌, ◌<◌, ◌∷◌, ◌≡◌, ◌≢◌,
  ◌⊎◌,
}
use ai_local.Usage.Tables.{Record}
use ai_local.Usage.Worker.{
  UsageBackend, WorkerState, Pick, not_started, running, draining, exited, take_record, see_done,
  round, close_done,
}

-- Whether the worker's `select` can take a case: in the loop of StartWorker a record that waits, or
-- the closed channel; in the drain a record, or `default`.
unfoldable pub is_ready : WorkerState → Pick → List Record → Bool → Bool
is_ready running (take_record fault now stamp) [] stopping = false
is_ready running (take_record fault now stamp) (rec ∷ queue) stopping = true
is_ready running see_done queue stopping = stopping
is_ready draining (take_record fault now stamp) queue stopping = true
is_ready draining see_done queue stopping = false
is_ready not_started pick queue stopping = false
is_ready exited pick queue stopping = false

-- `c` comes out of `b` by one round in which the worker takes a case that is ready.
abbrev pub Turns : UsageBackend → UsageBackend → Type 0
Turns c b =
    (pick : Pick) × (is_ready b.worker pick b.queue b.stopping ≡ true)
    × (c ≡ round b.worker pick b.queue b)

-- The rounds that are left: one for each record, one to see the closed channel, one to exit.
abbrev rounds_of : WorkerState → ℕ
rounds_of running = 2
rounds_of draining = 1
rounds_of _ = 0

abbrev rounds_left : UsageBackend → ℕ
rounds_left b = length b.queue + rounds_of b.worker

round_shortens :
    (w : WorkerState) (pick : Pick) (q : List Record) (b : UsageBackend)
    → b.worker ≡ w
    → b.queue ≡ q
    → is_ready w pick q b.stopping ≡ true
    → rounds_left (round w pick q b) < length q + rounds_of w
unfolding is_ready round
round_shortens running (take_record fault now stamp) [] b e f h = cc
round_shortens running (take_record fault now stamp) (rec ∷ queue) b e f h = rw e (omega arith)
round_shortens running see_done q b e f h = rw h (rw f (omega arith))
round_shortens draining (take_record fault now stamp) [] b e f h = rw f (omega arith)
round_shortens draining (take_record fault now stamp) (rec ∷ queue) b e f h = rw e (omega arith)
round_shortens draining see_done q b e f h = cc
round_shortens not_started pick q b e f h = cc
round_shortens exited pick q b e f h = cc

turn_shortens : (b c : UsageBackend) → Turns c b → rounds_left c < rounds_left b
turn_shortens b c (pick, h, e) = rw e (round_shortens b.worker pick b.queue b refl refl h)

Turns-Acc : (k : ℕ) (b : UsageBackend) → rounds_left b < k → Acc Turns b
Turns-Acc zero b h = elim h [ ]
Turns-Acc (suc k) b h = Acc.intro b (λ c t. Turns-Acc k c (omega (arith, turn_shortens b c t)))

-- Whatever cases the worker takes, it exits: it has, or it can go on and each way leads there.
pub data MustExit : UsageBackend → Type 0 where
  has_exited : {b : UsageBackend} → b.worker ≡ exited → MustExit b
  goes_on :
      {b : UsageBackend}
      → (c : UsageBackend) × Turns c b
      → ((c : UsageBackend) → Turns c b → MustExit c)
      → MustExit b

-- A worker that has been started and told to stop.
abbrev pub IsStopping : UsageBackend → Type 0
IsStopping b = (b.stopping ≡ true) × (b.worker ≢ not_started)

round-IsStopping :
    (w : WorkerState) (pick : Pick) (q : List Record) (b : UsageBackend)
    → b.worker ≡ w
    → IsStopping b
    → IsStopping (round w pick q b)
unfolding round
round-IsStopping running (take_record fault now stamp) [] b e h = h
round-IsStopping running (take_record fault now stamp) (rec ∷ queue) b e h = (h.0, h.1)
round-IsStopping running see_done q b e h = rw h.0 (refl, λ x. cc)
round-IsStopping draining (take_record fault now stamp) [] b e h = (h.0, λ x. cc)
round-IsStopping draining (take_record fault now stamp) (rec ∷ queue) b e h = (h.0, h.1)
round-IsStopping draining see_done q b e h = h
round-IsStopping not_started pick q b e h = h
round-IsStopping exited pick q b e h = h

abbrev a_round : Pick
a_round = take_record (λ s. false) (record { year = 0; month = 0; day = 0; nanos = 0 }) []

exited_or_Turns :
    (w : WorkerState) (b : UsageBackend)
    → b.worker ≡ w
    → IsStopping b
    → (b.worker ≡ exited) ⊎ ((c : UsageBackend) × Turns c b)
unfolding is_ready
exited_or_Turns not_started b e h = absurd (h.1 e)
exited_or_Turns running b e h =
    inr (round b.worker see_done b.queue b, (see_done, rw (e, is_ready) h.0, refl))
exited_or_Turns draining b e h =
    inr (round b.worker a_round b.queue b, (a_round, rw (e, is_ready) refl, refl))
exited_or_Turns exited b e h = inl e

Acc-MustExit : (b : UsageBackend) → Acc Turns b → IsStopping b → MustExit b
Acc-MustExit b (Acc.intro _ later) h = elim (exited_or_Turns b.worker b refl h) [
  | inl e ↦ has_exited e
  | inr t ↦ goes_on t (λ c u. Acc-MustExit c (later c u) (kept c u))
]
  where
    kept : (c : UsageBackend) → Turns c b → IsStopping c
    kept c (pick, ready, e) = rw e (round-IsStopping b.worker pick b.queue b refl h)

-- Stop does not wait for ever: once the channel `done` is closed and no record comes in any more,
-- a worker that was started exits, whichever ready cases its `select` takes and whatever writes
-- fail, and it never waits with no case ready.
pub stop_terminates : (b : UsageBackend) → b.worker ≢ not_started → MustExit (close_done b)
unfolding close_done
stop_terminates b h =
    let c : UsageBackend = record b { stopping = true } in
    Acc-MustExit c (Turns-Acc (suc (rounds_left c)) c (omega arith)) (refl, h)
