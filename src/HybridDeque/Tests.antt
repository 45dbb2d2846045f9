-- ===== src/HybridDeque/Tests.antt =====
-- Scheduling passes of the hybrid deque scheduler on a small system.
use dr_evt.Base.{ℕ, ◌≤◌, ◌≡◌, refl, false, none, List, [], ◌∷◌, arith}
use dr_evt.Base.Int.{◌+ℤ◌}
use dr_evt.Timeline
use dr_evt.Scheduler
use dr_evt.Scheduler.Policy.{BackfillPolicy}
use dr_evt.Scheduler.{
  SchedulerBase, RunningJob, RunningJobs, reservation_within_horizon, release_estimate, max_time,
  value_or_max, reservation_timeline, calculate_fcfs_reservation,
}
use dr_evt.Deque.{
  JobEntry, Heads, sync_to, arrivals, collect, mark, consume, started_now, active_job_count,
  prepare, take_heads, after_heads, after_scan_behind, count_removed,
}
use dr_evt.Deque.Invariant.{Inv}
use dr_evt.Deque.Pass.{PassSelects}
use dr_evt.HybridDeque.{
  HybridDeque, schedule, schedule_entries, select, backfill, backfill_disabled, scan_behind,
  protected_depth, begin_timestamp, account_head, context, first_state, head_protected,
}
use dr_evt.HybridDeque.Window.{calculate_hybrid_window, window_loop, window_job}
use dr_evt.HybridDeque.Backfill.{
  scan, follow, round, examine, protect_job, place, given_or, protected_start, duration_now,
  takes_no_slot, slots_used, start_job, is_now,
}
use dr_evt.HybridDeque.Correct.{schedule-PassSelects}
use dr_evt.HybridDeque.Guarantee.{reservations_hold, Guarantees}
use dr_evt.HybridDeque.Walk.{Books}
use dr_evt.HybridDeque.Depth.{IsBudgeted}
use dr_evt.HybridDeque.Budget.{backfill_budget, passes_at}

abbrev entry : ℕ → ℕ → ℕ → ℕ → JobEntry
entry id submit run nodes = record {
  job_id = id;
  submit_time = submit;
  run_time_estimate = run;
  nodes_requested = nodes;
  removed = false;
}

-- Four of ten nodes are free until job 9 ends at 10. Job 1 wants eight then, and job 2 five after
-- it; job 3 would delay job 2, but not job 1.
abbrev running : RunningJobs
running = (9, record { start_time = 0; run_time = 10; nodes = 6 }) ∷ []

abbrev head : JobEntry
head = entry 1 0 10 8

abbrev behind : List JobEntry
behind = entry 2 0 10 9 ∷ entry 3 0 25 2 ∷ entry 4 0 5 2 ∷ []

abbrev waiting : BackfillPolicy → ℕ → ℕ → HybridDeque
waiting policy reservation_depth depth = record {
  base = record {
    total_nodes = 10;
    backfill_policy = policy;
    fcfs_reservation_time = 0;
    planning_time_resolution = 0;
    outlook_capacity = 10;
    outlook_occupied = 6;
    outlook_changes = [];
    planning_horizon = 1000;
  };
  deque = record {
    wait_queue = head ∷ behind;
    eligible_end_idx = 4;
    current_tracked_time = 0;
    removed_count = 0;
  };
  reservation_depth = reservation_depth;
  backfill_queue_depth = depth;
  backfill_depth_time = none;
  backfill_depth_examined = 0;
  backfill_depth_head_accounted = false;
}

waiting-Inv :
    (policy : BackfillPolicy) (reservation_depth depth : ℕ)
    → Inv (waiting policy reservation_depth depth).deque
unfolding count_removed
waiting-Inv policy reservation_depth depth = record {
  split = (omega arith, (omega arith, (omega arith, (omega arith, tt))));
  counted = refl;
  rising = omega arith;
}

program : Unit {0}
unfolding schedule schedule_entries prepare take_heads after_scan_behind select after_heads backfill
    backfill_disabled scan_behind begin_timestamp account_head context first_state head_protected
    scan follow round examine protect_job place given_or protected_start duration_now takes_no_slot
    slots_used start_job is_now sync_to arrivals collect mark consume started_now active_job_count
    reservation_within_horizon release_estimate value_or_max calculate_fcfs_reservation
    reservation_timeline Timeline.earliest_fit Timeline.reserve Timeline.split_at
    Timeline.subtract_range Timeline.coalesce Timeline.sub_nodes ◌+ℤ◌ max_time Scheduler.clamp
    Scheduler.all_deltas Scheduler.sort_deltas Scheduler.profile_from Scheduler.initial_balance
    window_loop window_job calculate_hybrid_window protected_depth
program = tt

-- Job 3 runs beyond the start of job 2, which conservative backfilling protects.
schedule_conservative : (schedule (waiting BackfillPolicy.conservative 0 0) 4 running 2).1 ≡ 4 ∷ []
unfolding program
schedule_conservative = refl

schedule_hybrid : (schedule (waiting BackfillPolicy.hybrid 1 0) 4 running 2).1 ≡ 3 ∷ 4 ∷ []
unfolding program
schedule_hybrid = refl

-- Three slots: the head, job 2 and job 3.
schedule_depth : (schedule (waiting BackfillPolicy.hybrid 1 3) 4 running 2).1 ≡ 3 ∷ []
unfolding program
schedule_depth = refl

window : calculate_hybrid_window (waiting BackfillPolicy.conservative 0 0) 2 4 running 2 [] ≡ 10
unfolding program
window = refl

schedule-PassSelects_example :
    let e = waiting BackfillPolicy.conservative 0 0 in
    let r = schedule_entries e 4 running 2 in PassSelects 2 4 e.deque r.0.deque r.1
schedule-PassSelects_example =
    schedule-PassSelects (waiting BackfillPolicy.conservative 0 0) 4 running 2
      (waiting-Inv BackfillPolicy.conservative 0 0) (omega arith)

abbrev blocked : Heads
blocked = record {
  queue = head ∷ behind;
  eligible = 4;
  removed_count = 0;
  available = 4;
  started = [];
  projected = [];
}

reservations_hold_example :
    (books : Books) × Guarantees
      (waiting BackfillPolicy.conservative 0 0)
      blocked
      running
      2
      head
      behind
      0
      books
reservations_hold_example =
    reservations_hold (waiting BackfillPolicy.conservative 0 0) blocked running 2 head behind refl
      refl

fresh-IsBudgeted : IsBudgeted (waiting BackfillPolicy.hybrid 1 2)
fresh-IsBudgeted = record { counted = omega arith; within = λ pos. omega arith }

backfill_budget_example :
    let e = waiting BackfillPolicy.hybrid 1 2 in
    let r = passes_at 2 e ((4, running) ∷ (2, running) ∷ []) in (r.1 ≤ 2) × IsBudgeted r.0
backfill_budget_example =
    backfill_budget 2 (waiting BackfillPolicy.hybrid 1 2) ((4, running) ∷ (2, running) ∷ [])
      fresh-IsBudgeted (omega arith)
