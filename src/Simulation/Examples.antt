-- ===== src/Simulation/Examples.antt =====
-- The theorems on the driver at concrete inputs.
use dr_evt.Base.{
  ℕ, ◌+◌, ◌≤◌, ◌<◌, ◌≡◌, refl, ap, subst, sym, ◌∙◌, All, length, true, false, some, List, [], ◌∷◌,
  arith, get_elem?,
}
use dr_evt.Base.Results.{Result, Returns, ok}
use dr_evt.Trace.{set_job, JobRecord, Trace, job_at, found, unscheduled_sentinel}
use dr_evt.Trace.Step.{with_duration}
use dr_evt.Trace.Store.{Has-index}
use dr_evt.Events.{make_event, departure, arrival}
use dr_evt.Events.Compare.{Compares, event_lt_lem}
use dr_evt.Trace.Output.{flush_completed_jobs}
use dr_evt.Trace.Append.{append_job}
use dr_evt.Trace.Appended.{Appends, new_record, append_job-Appends}
use dr_evt.Trace.Flush.{Flushes, flush_completed_jobs-Flushes}
use dr_evt.Trace.Step.{run_until_inclusive}
use dr_evt.Trace.Start.{inserted, Starts}
use dr_evt.Trace.RunStart.{run_start}
use dr_evt.Trace.Ledger.{Sized, TraceInv}
use dr_evt.Deque.{empty, insert_job, pending, pending_job_ids, count_removed}
use dr_evt.EasyDeque.{EasyDeque}
use dr_evt.EasyDeque
use dr_evt.Simulation.{Simulation}
use dr_evt.Simulation.Submit.{accept, is_rejected, submit_job}
use dr_evt.Simulation.Advance.{advance_to, move_to}
use dr_evt.Simulation.Invariant.{noted, SimInv}
use dr_evt.Simulation.Capacity.{apply_changes}
use dr_evt.Simulation.Start.{start_next, schedule_loop}
use dr_evt.Simulation.StartAll.{start_next-IsStarter}
use dr_evt.Simulation.Scheduling.{Ready, Schedules, schedule_loop-Schedules}
use dr_evt.Simulation.Move.{Moves, Shows, move_to-Moves, move_to-Shows}
use dr_evt.Simulation.Change.{Changes, apply_changes-Changes}
use dr_evt.Scheduler.{CapacityChange}
use dr_evt.Simulation.Loop.{work}
use dr_evt.Simulation.Append
use dr_evt.Simulation.Append.{is_run_time_valid, first_idx}
use dr_evt.Simulation.Appending.{Numbered, append_job-Numbered}
use dr_evt.Simulation.Submission.{Submits, IsNew, submit_job-Submits}
use dr_evt.Simulation.Easy.{easy, easy_contract}
use dr_evt.Simulation.Entry.{Arrives, advance_to-Arrives}
use dr_evt.Simulation.Tests.{idle, three}

-- Job 0 comes at 2 and runs for five seconds on three of the four nodes.
abbrev first_job : JobRecord
first_job = record {
  begin_time = unscheduled_sentinel;
  end_time = unscheduled_sentinel;
  submit_time = 2;
  limit_time = 5;
  actual_run_time = 0;
  num_nodes = 3;
  is_simulated = false;
  busy_nodes = 0;
}

abbrev loaded : Simulation EasyDeque
loaded = record (idle true) {
  trace = record (idle true).trace {
    store = record (idle true).trace.store { records = first_job ∷ [] };
  };
}

abbrev size : ℕ → ℕ
size j = 3

abbrev submit_of : ℕ → ℕ
submit_of j = 2

only_job : (i : ℕ) (r : JobRecord) → get_elem? (first_job ∷ []) i ≡ some r → r ≡ first_job
only_job ℕ.zero r h = cc
only_job (ℕ.suc i) r h = cc

loaded-Sized : Sized size loaded.trace.store
loaded-Sized j job h =
    ap (λ (r : JobRecord). r.num_nodes) (only_job _ job (Has-index loaded.trace.store j job h).1)

loaded-SimInv : SimInv easy size submit_of (easy_contract size submit_of) [] loaded
unfolding EasyDeque.init empty pending_job_ids pending count_removed unscheduled_sentinel
loaded-SimInv = record {
  later = tt;
  accounts = record {
    trace = record {
      ordered = tt;
      due = tt;
      known = tt;
      once = λ j. omega arith;
      in_use = refl;
      releasing = refl;
      small = omega arith;
      sized = loaded-Sized;
      written = omega arith;
      prompt = λ h. refl;
    };
    scheduler = (record { split = tt; counted = refl; rising = tt }, tt);
    tracked = omega arith;
    apart = λ j. omega arith;
    waits = λ j some_j. absurd (omega (arith, some_j));
    running = λ j. refl;
    entries = omega arith;
    released = refl;
    started = refl;
    submitted = refl;
    noted_arrivals = λ t le. omega arith;
    area_time = omega arith;
    capacity = omega arith;
    changes = tt;
    clock = omega arith;
  };
}

loaded-IsNew : IsNew easy size submit_of (easy_contract size submit_of) loaded 0 first_job
unfolding EasyDeque.init empty pending_job_ids pending job_at found with_duration
    unscheduled_sentinel
loaded-IsNew = record {
  has = refl;
  startable = (refl, omega arith);
  unscheduled = refl;
  unknown = refl;
}

submit_job-Submits_example :
    Returns
      (submit_job easy loaded 0 2 2)
      (Submits easy size submit_of (easy_contract size submit_of) loaded 0 first_job)
submit_job-Submits_example =
    submit_job-Submits easy size submit_of (easy_contract size submit_of) loaded 0 first_job
      loaded-SimInv loaded-IsNew (omega arith) (omega arith)

-- The state with the job pending.
abbrev pending_one : Simulation EasyDeque
pending_one = accept easy loaded 0 first_job 2 2

submitted-pending_one : submit_job easy loaded 0 2 2 ≡ ok pending_one
unfolding submit_job is_rejected job_at found
submitted-pending_one = refl

pending_one-SimInv : SimInv easy size submit_of (easy_contract size submit_of) [] pending_one
pending_one-SimInv =
    (subst
      (λ r.
        Returns r (Submits easy size submit_of (easy_contract size submit_of) loaded 0 first_job))
      submitted-pending_one
      (submit_job-Submits easy size submit_of (easy_contract size submit_of) loaded 0 first_job
        loaded-SimInv loaded-IsNew (omega arith) (omega arith))).inv

pending_one-work : work easy size submit_of (easy_contract size submit_of) pending_one + 6 ≤ 30
unfolding accept insert_job EasyDeque.init empty pending_job_ids pending
pending_one-work = omega arith

-- The job departs at 7 and releases its nodes at 10.
advance_to-Arrives_example :
    Returns
      (advance_to easy three 30 pending_one 20)
      (Arrives easy size submit_of (easy_contract size submit_of) three 20 pending_one)
unfolding accept unscheduled_sentinel
advance_to-Arrives_example =
    advance_to-Arrives easy size submit_of (easy_contract size submit_of) three 30 pending_one 20
      pending_one-SimInv (omega arith) (omega arith) pending_one-work

move_to-Moves_example :
    Returns
      (move_to easy three pending_one 2)
      (Moves easy size submit_of (easy_contract size submit_of) 2 pending_one)
unfolding accept unscheduled_sentinel
move_to-Moves_example =
    move_to-Moves easy size submit_of (easy_contract size submit_of) three pending_one 2
      pending_one-SimInv.accounts (omega arith) tt (omega arith)

-- The state with the job waiting.
abbrev or_else : Result (Simulation EasyDeque) → Simulation EasyDeque
or_else (ok s) = s
or_else (Result.throw e) = pending_one

abbrev waiting_one : Simulation EasyDeque
waiting_one = or_else (move_to easy three pending_one 2)

or_else-Returns :
    (P : Simulation EasyDeque → Type 0) (r : Result (Simulation EasyDeque))
    → Returns r P
    → P (or_else r)
or_else-Returns P (ok s) h = h
or_else-Returns P (Result.throw e) h = absurd h

waiting_one-Shows :
    Shows easy size submit_of (easy_contract size submit_of) 2 pending_one waiting_one
unfolding accept unscheduled_sentinel
waiting_one-Shows =
    or_else-Returns (Shows easy size submit_of (easy_contract size submit_of) 2 pending_one) _ (
      move_to-Shows easy size submit_of (easy_contract size submit_of) three pending_one 2
        pending_one-SimInv.accounts (omega arith) tt (omega arith))

waiting_one-Ready : Ready easy size submit_of (easy_contract size submit_of) waiting_one
unfolding accept
waiting_one-Ready =
    let m = waiting_one-Shows in
    let queue : waiting_one.trace.ctx.evtq ≡ [] = ap (λ t. t.ctx.evtq) m.trace in
    record {
      inv = record {
        accounts = m.inv;
        later = subst (All (λ e. waiting_one.current_time < e.time)) (sym queue) tt;
      };
      synced = m.synced ∙ sym m.current_time;
      quiet = ap (λ t. noted t waiting_one.pending_queue_arrivals) m.current_time ∙ m.quiet;
    }

waiting_one_length : length (pending_job_ids waiting_one.scheduler.deque) + 4 ≤ 8
unfolding accept insert_job EasyDeque.init empty pending_job_ids pending
waiting_one_length = omega (arith, ap length waiting_one-Shows.pending)

schedule_loop-Schedules_example :
    Returns
      (schedule_loop easy three (start_next easy three) 8 waiting_one)
      (Schedules easy size submit_of (easy_contract size submit_of) waiting_one)
schedule_loop-Schedules_example =
    schedule_loop-Schedules easy size submit_of (easy_contract size submit_of) three
      (start_next easy three) 8 waiting_one
      (start_next-IsStarter easy three size submit_of (easy_contract size submit_of))
      waiting_one_length waiting_one-Ready

-- Two nodes are left from 3 on; the change at 30 has still to come.
abbrev changes : List CapacityChange
changes =
    record { time = 0; total_nodes = 8 }
    ∷ record { time = 3; total_nodes = 2 }
    ∷ record { time = 30; total_nodes = 4 }
    ∷ []

apply_changes-Changes_example :
    Changes easy size submit_of
      (easy_contract size submit_of)
      5
      changes
      loaded
      (apply_changes easy loaded 5 changes)
apply_changes-Changes_example =
    apply_changes-Changes easy size submit_of (easy_contract size submit_of) 5 changes loaded
      (omega arith, (omega arith, (omega arith, tt))) loaded-SimInv.accounts

-- The trace with the job, when the clock shows 2.
loaded-TraceInv : TraceInv size 2 loaded.trace
loaded-TraceInv = record {
  ordered = tt;
  due = tt;
  known = tt;
  once = λ j. omega arith;
  in_use = refl;
  releasing = refl;
  small = omega arith;
  sized = loaded-Sized;
  written = omega arith;
  prompt = λ h. refl;
}

run_start_example :
    Returns
      (run_until_inclusive three 5 (inserted size loaded.trace 0 2 first_job) 2)
      (Starts size 2 0 loaded.trace)
unfolding job_at found with_duration unscheduled_sentinel
run_start_example =
    run_start three size loaded.trace 0 2 first_job loaded-TraceInv refl (refl, omega arith) tt refl
      (omega arith) 2

-- The job has ended at 7 when another is appended at 9.
abbrev ended : Trace
ended = record loaded.trace {
  store = record loaded.trace.store {
    records =
        record first_job { begin_time = 2; end_time = 7; is_simulated = true; actual_run_time = 5 }
        ∷ [];
    capacity = 1;
  };
}

append_job-Appends_example :
    Returns (append_job ended 9 10 2 4 (some 3)) (Appends 9 ended (new_record 10 2 4 (some 3)))
append_job-Appends_example =
    append_job-Appends ended 9 10 2 4 (some 3) (omega arith) refl (λ h. omega arith)

flush_completed_jobs-Flushes_example : Returns (flush_completed_jobs ended 9) (Flushes 9 ended)
flush_completed_jobs-Flushes_example = flush_completed_jobs-Flushes ended 9 (omega arith)

-- A departure comes before an arrival at the same time.
event_lt_lem_example : Compares (make_event 2 5 departure) (make_event 1 5 arrival)
event_lt_lem_example = event_lt_lem (make_event 2 5 departure) (make_event 1 5 arrival)

-- A second job, appended at the same submit time while the first is pending.
append_job-Numbered_example : Returns (Append.append_job easy pending_one 2 3 8 (some 4)) (
    Numbered easy size submit_of
      (easy_contract size submit_of)
      pending_one
      1
      (new_record 2 3 8 (some 4))
      8)
unfolding accept insert_job EasyDeque.init empty pending_job_ids pending set_job is_run_time_valid
    unscheduled_sentinel first_idx
append_job-Numbered_example =
    append_job-Numbered easy size submit_of (easy_contract size submit_of) pending_one 8 (some 4)
      pending_one-SimInv refl (λ h. omega arith) refl (omega arith) (omega arith) (omega arith)
      (omega arith) (omega arith) (omega arith) refl
