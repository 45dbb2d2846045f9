-- ===== src/EasyDeque/Tests.antt =====
-- Scheduling passes of the deque scheduler on a small system.
use dr_evt.Base.{ℕ, ◌≡◌, refl, false, List, [], ◌∷◌, arith}
use dr_evt.Base.Int.{◌+ℤ◌}
use dr_evt.Timeline
use dr_evt.Timeline.Free.{free_at}
use dr_evt.Timeline.Spec.{Fits}
use dr_evt.Scheduler
use dr_evt.Scheduler.Policy.{BackfillPolicy, easy, no_backfill}
use dr_evt.Scheduler.{
  SchedulerBase, RunningJob, RunningJobs, reservation_within_horizon, release_estimate, max_time,
  value_or_max, reservation_timeline,
}
use dr_evt.Deque.Pass.{PassSelects}
use dr_evt.Deque.{
  prepare, take_heads, after_heads, after_scan_behind, JobEntry, Heads, sync_to, arrivals, collect,
  mark, consume, started_now, active_job_count, queue_depth_scan_end, scan_length, count_removed,
}
use dr_evt.Deque.Invariant.{Inv}
use dr_evt.EasyDeque.{
  EasyDeque, schedule, schedule_entries, select, backfill, backfill_disabled, scan_behind, context,
  scan, admits, preserves_reservations, plan_after, protected_plan, head_reservation,
}
use dr_evt.EasyDeque.Correct.{schedule-Selects}
use dr_evt.EasyDeque.Steady.{steady_guarantee}
use dr_evt.Scheduler.Project.Rise.{running_nodes, projected_nodes}
use dr_evt.EasyDeque.Guarantee.{backfill_guarantee, Guarantees}

abbrev entry : ℕ → ℕ → ℕ → ℕ → JobEntry
entry id submit run nodes = record {
  job_id = id;
  submit_time = submit;
  run_time_estimate = run;
  nodes_requested = nodes;
  removed = false;
}

-- Four of ten nodes are free until job 9 ends at 10; job 1 wants eight, job 3 can run before that.
abbrev running : RunningJobs
running = (9, record { start_time = 0; run_time = 10; nodes = 6 }) ∷ []

abbrev head : JobEntry
head = entry 1 0 10 8

abbrev behind : List JobEntry
behind = entry 2 0 20 3 ∷ entry 3 1 4 2 ∷ entry 4 7 1 1 ∷ []

abbrev base : BackfillPolicy → SchedulerBase
base policy = record {
  total_nodes = 10;
  backfill_policy = policy;
  fcfs_reservation_time = 0;
  planning_time_resolution = 0;
  outlook_capacity = 10;
  outlook_occupied = 6;
  outlook_changes = [];
  planning_horizon = 1000;
}

abbrev waiting : BackfillPolicy → EasyDeque
waiting policy = record {
  base = base policy;
  deque = record {
    wait_queue = head ∷ behind;
    eligible_end_idx = 2;
    current_tracked_time = 0;
    removed_count = 0;
  };
  backfill_queue_depth = 0;
}

waiting-Inv : Inv (waiting easy).deque
unfolding count_removed
waiting-Inv = record {
  split = (omega arith, (omega arith, ((omega arith, refl), ((omega arith, refl), tt))));
  counted = refl;
  rising = omega arith;
}

program : Unit {0}
unfolding schedule schedule_entries prepare take_heads after_scan_behind select after_heads backfill
    backfill_disabled scan_behind context scan admits preserves_reservations plan_after
    protected_plan head_reservation sync_to arrivals collect mark consume started_now
    active_job_count queue_depth_scan_end scan_length reservation_within_horizon release_estimate
    value_or_max reservation_timeline Timeline.earliest_fit Timeline.can_fit Timeline.reserve
    Timeline.split_at Timeline.subtract_range Timeline.coalesce Timeline.sub_nodes ◌+ℤ◌ max_time
    Scheduler.clamp Scheduler.all_deltas Scheduler.sort_deltas Scheduler.profile_from
    Scheduler.initial_balance
program = tt

schedule_easy : (schedule (waiting easy) 4 running 2).1 ≡ 3 ∷ []
unfolding program
schedule_easy = refl

schedule_none : (schedule (waiting no_backfill) 4 running 2).1 ≡ []
unfolding program
schedule_none = refl

schedule_head : (schedule (waiting easy) 10 [] 2).1 ≡ 1 ∷ 3 ∷ []
unfolding program
schedule_head = refl

schedule-Selects_example :
    let r = schedule_entries (waiting easy) 4 running 2 in
    PassSelects 2 4 (waiting easy).deque r.0.deque r.1
schedule-Selects_example = schedule-Selects (waiting easy) 4 running 2 waiting-Inv (omega arith)

-- The queue is synchronised, and no job starts from its front.
abbrev blocked : Heads
blocked = record {
  queue = head ∷ behind;
  eligible = 3;
  removed_count = 0;
  available = 4;
  started = [];
  projected = [];
}

abbrev synced : EasyDeque
synced = record (waiting easy) {
  deque = record {
    wait_queue = head ∷ behind;
    eligible_end_idx = 3;
    current_tracked_time = 2;
    removed_count = 0;
  };
}

head-Fits : Fits (reservation_timeline (base easy) 4 running 2 []) 8 10 10
unfolding program free_at
head-Fits t at within = ground arith

backfill_guarantee_example :
    (backfilled : List JobEntry) × ((backfill synced blocked running 2 (head ∷ behind)).1
      ≡ backfilled)
    × Guarantees synced blocked running 2 head behind backfilled
unfolding program
backfill_guarantee_example = backfill_guarantee synced blocked running 2 head behind refl head-Fits

steady_guarantee_example :
    (backfilled : List JobEntry) × ((backfill synced blocked running 2 (head ∷ behind)).1
      ≡ backfilled)
    × Guarantees synced blocked running 2 head behind backfilled
unfolding program running_nodes projected_nodes
steady_guarantee_example =
    steady_guarantee synced blocked running 2 head behind refl (omega arith) refl
