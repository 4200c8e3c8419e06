-- ===== src/Tests/Schedules.antt =====
-- Schedules of the usage backend.
use ai_local.Prelude.{
  All, Bool-cases, List, Memᴰ, Text, [], arith, codes, false, inl, inr, length, none, ok, pos, refl,
  some, text_eq, true, ℕ, ℤ, ◌++◌, ◌+ℤ◌, ◌+◌, ◌↔◌, ◌∷◌, ◌≡◌, ◌⊎◌,
}
use ai_local.Usage.Tables.{find_row, Record, Time, empty_database, format_date, Totals, same_key}
use ai_local.Usage.Write.{
  Faults, Statement, execute_triple_write, write_record, write_monthly, write_daily, write_log,
  created, add_totals,
}
use ai_local.Usage.Ledger.{empty-IsBalanced}
use ai_local.Usage.Atomic.{IsRecorded, execute_triple_write_exact}
use ai_local.Usage.Written.{entries, waiting, written_in_order}
use ai_local.Usage.Pool.{empty-IsPooled}
use ai_local.Usage.Worker.{
  step, run, emit, start, stop, work, Event, UsageBackend, draining, exited, not_started, see_done,
  take_record,
}
use ai_local.Usage.Delivery.{put_by, accepted}
use ai_local.Usage.Stats.{DailyStatRow, get_daily_stats}
use ai_local.Usage.Audit.{StaysInteger, summary, IsInteger}
use ai_local.Usage.Reported.{IsLineOf, IsWithin, daily_report_audits}
use ai_local.Usage.Dropped.{drops_counted, emits}
use ai_local.Usage.Charged.{Faultless, charged, charged_once}
use ai_local.Usage.Admission.{used}
use ai_local.Usage.Shutdown.{drains, exited_writes_nothing, rounds, IsSound}
use mathlib.Core.Path.{subst}

abbrev noon : Time
noon = record { year = 2026; month = 7; day = 1; nanos = 0 }

abbrev a_record : Record
a_record = record {
  local_key = codes "sk-local-1";
  route_path = codes "/claude";
  client_ip = codes "10.0.0.1";
  prompt_tokens = pos 10;
  completion_tokens = pos 5;
  total_tokens = pos 15;
  created_at = some noon;
}

abbrev no_faults : Faults
no_faults s = false

abbrev fresh : UsageBackend
fresh = record {
  db = empty_database;
  queue = [];
  stopping = false;
  worker = not_started;
  dropped = pos 0;
}

fresh-IsSound : IsSound fresh
fresh-IsSound = record {
  bounded = omega arith;
  exact = record { balanced = empty-IsBalanced; pooled = empty-IsPooled };
}

-- Two records, of which one is written before Stop and one by the drain.
abbrev schedule : List Event
schedule =
    start
    ∷ emit a_record
    ∷ emit a_record
    ∷ work (take_record no_faults noon [])
    ∷ stop
    ∷ work see_done
    ∷ work (take_record no_faults noon [])
    ∷ work (take_record no_faults noon [])
    ∷ []

abbrev after_exit : UsageBackend
after_exit = record fresh { stopping = true; worker = exited }

abbrev key_used : UsageBackend → ℤ
key_used b =
    used format_date (codes "per_key") (codes "sk-local-1") (codes "/claude") (codes "2026-07-01")
      b.db

abbrev key_charged : List Record → ℤ
key_charged =
    charged format_date (codes "per_key") (codes "sk-local-1") (codes "/claude")
      (codes "2026-07-01")

charged_once_example :
    key_used (run schedule fresh) +ℤ key_charged (run schedule fresh).queue
    ≡ key_used fresh +ℤ key_charged fresh.queue +ℤ key_charged (a_record ∷ a_record ∷ [])
unfolding accepted put_by step
charged_once_example =
    charged_once format_date (codes "per_key") (codes "sk-local-1") (codes "/claude")
      (codes "2026-07-01") schedule fresh
      (tt, (tt, (tt, (λ s. refl, (tt, (tt, (λ s. refl, (λ s. refl, tt)))))))) tt
      ((noon, refl), ((noon, refl), tt))

abbrev two_requests : Totals
two_requests = record { requests = pos 2; prompt = pos 20; completion = pos 10; tokens = pos 30 }

abbrev first_of_july : Text
first_of_july = codes "2026-07-01"

of_some : (u t : Totals) → some u ≡ some t → IsInteger u → IsInteger t
of_some u t e h = let same : u ≡ t = cc in subst IsInteger same h

abbrev request : Totals
request = record { requests = pos 1; prompt = pos 10; completion = pos 5; tokens = pos 15 }

sums_stay : (k r p : Text) → StaysInteger format_date k r p (run schedule fresh).db.logs
unfolding run step write_record execute_triple_write write_monthly write_daily write_log created
    summary add_totals ◌+ℤ◌ format_date
sums_stay k r p =
    elim (Bool-cases (same_key (codes "sk-local-1") (codes "/claude") (codes "2026-07-01") k r p)) [
      | inl c ↦ (
        λ t e.
            of_some two_requests t (rw c at e) (omega arith, omega arith, omega arith, omega arith),
        (
          λ t e. of_some request t (rw c at e) (omega arith, omega arith, omega arith, omega arith),
          tt,
        ),
      )
      | inr c ↦ (λ t e. absurd (ground (arith, e, c)), (λ t e. absurd (ground (arith, e, c)), tt))
    ]

daily_report_audits_example :
    (report : List DailyStatRow) × (get_daily_stats false
        (run schedule fresh).db
        first_of_july
        (codes "2026-07-31")
      ≡ ok report)
    × (((x : DailyStatRow) × Memᴰ x report
          × IsLineOf (codes "sk-local-1") (codes "/claude") first_of_july two_requests x)
        ↔ (IsWithin first_of_july (codes "2026-07-31") first_of_july
            × (summary format_date
                  (codes "sk-local-1")
                  (codes "/claude")
                  first_of_july
                  (run schedule fresh).db.logs
                ≡ some two_requests)))
daily_report_audits_example =
    daily_report_audits schedule fresh first_of_july (codes "2026-07-31") (codes "sk-local-1")
      (codes "/claude") first_of_july two_requests fresh-IsSound tt sums_stay

-- The log has the two requests.
two_logged :
    summary format_date
      (codes "sk-local-1")
      (codes "/claude")
      first_of_july
      (run schedule fresh).db.logs
    ≡ some two_requests
unfolding summary run write_record execute_triple_write write_monthly write_daily write_log same_key
    text_eq format_date created add_totals ◌+ℤ◌
two_logged = refl

schedule-Faultless : All Faultless schedule
schedule-Faultless = (tt, (tt, (tt, (λ s. refl, (tt, (tt, (λ s. refl, (λ s. refl, tt))))))))

written_in_order_example :
    entries (run schedule fresh).db.logs ++ waiting (run schedule fresh).queue
    ≡ (entries fresh.db.logs ++ waiting fresh.queue) ++ waiting (accepted schedule fresh)
written_in_order_example = written_in_order schedule fresh schedule-Faultless

drops_counted_example :
    (n : ℕ) × ((run schedule fresh).dropped ≡ pos n)
    × (n + (length (run schedule fresh).queue + length (run schedule fresh).db.logs)
        ≡ 0 + emits schedule + (length fresh.queue + length fresh.db.logs))
drops_counted_example = drops_counted schedule fresh 0 schedule-Faultless refl (omega arith)

abbrev draining_one : UsageBackend
draining_one = record fresh { queue = a_record ∷ []; stopping = true; worker = draining }

abbrev two_rounds : List (Faults × Time × Text)
two_rounds = (no_faults, noon, []) ∷ (no_faults, noon, []) ∷ []

drains_example :
    ((run (rounds two_rounds) draining_one).worker ≡ exited)
    × ((run (rounds two_rounds) draining_one).queue ≡ [])
    × (entries (run (rounds two_rounds) draining_one).db.logs
        ≡ entries draining_one.db.logs ++ waiting draining_one.queue)
drains_example = drains two_rounds draining_one refl (omega arith) (λ s. refl, (λ s. refl, tt))

exited_writes_nothing_example :
    ((run (emit a_record ∷ work see_done ∷ []) after_exit).db ≡ after_exit.db)
    × ((run (emit a_record ∷ work see_done ∷ []) after_exit).queue
        ≡ after_exit.queue ++ accepted (emit a_record ∷ work see_done ∷ []) after_exit)
exited_writes_nothing_example =
    exited_writes_nothing (emit a_record ∷ work see_done ∷ []) after_exit refl

execute_triple_write_exact_example :
    ((s : Statement) × (no_faults s ≡ true)
      × (execute_triple_write no_faults noon [] a_record empty_database ≡ (empty_database, some s)))
    ⊎ (((s : Statement) → no_faults s ≡ false)
        × ((execute_triple_write no_faults noon [] a_record empty_database).1 ≡ none)
        × IsRecorded noon a_record empty_database
            (execute_triple_write no_faults noon [] a_record empty_database).0)
unfolding created
execute_triple_write_exact_example =
    execute_triple_write_exact no_faults noon [] a_record empty_database
      (unfold find_row in (omega arith, omega arith, omega arith, omega arith))
      (unfold find_row in (omega arith, omega arith, omega arith, omega arith))
