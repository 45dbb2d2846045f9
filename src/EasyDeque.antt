-- ===== src/EasyDeque.antt =====
-- FCFSEasyDequeScheduler (src/sim/scheduler_fcfs_easy_deque.hpp and .cpp), compiled without
-- DR_EVT_LEGACY_RESERVATION_BARRIER. The jobs to run are kept as queue entries until the return.
pub mod Scanning
pub mod Correct
pub mod Guarantee
pub mod Steady
mod Tests
use dr_evt.Base.{
  ℕ, zero, suc, ◌+◌, ◌-◌, Bool, true, false, not, ◌&&◌, ◌||◌, List, [], ◌∷◌, ◌++◌, map, leb, ◌==◌,
  if◌then◌else◌, length,
}
use dr_evt.Timeline.{Timeline}
use dr_evt.Timeline
use dr_evt.Scheduler.Policy.{BackfillPolicy, no_backfill}
use dr_evt.Scheduler.{
  SchedulerBase, RunningJob, RunningJobs, reservation_timeline, reservation_within_horizon,
  release_estimate, value_or_max, max_time,
}
use dr_evt.Deque.{
  JobEntry, Deque, empty, prepare, mark, Heads, take_heads, after_heads, after_scan_behind,
  active_job_count, queue_depth_scan_end,
}
use dr_evt.Scheduler

pub record EasyDeque : Type 0 where
  pub base : SchedulerBase
  pub deque : Deque
  pub backfill_queue_depth : ℕ

unfoldable pub init : ℕ → BackfillPolicy → ℕ → EasyDeque
init total_nodes policy depth = record {
  base = Scheduler.init total_nodes policy;
  deque = empty;
  backfill_queue_depth = depth;
}

-- The locals that the backfill scan reads: the base, the current time, `head_within_horizon` and
-- `head_has_projection`.
pub record ScanContext : Type 0 where
  pub base : SchedulerBase
  pub now : ℕ
  pub within : Bool
  pub has_projection : Bool

-- `preserves_reservations`.
unfoldable pub preserves_reservations : ScanContext → Timeline → JobEntry → Bool
preserves_reservations c plan j =
    c.has_projection
    && (not c.within
        || Timeline.can_fit plan c.now j.nodes_requested
            (release_estimate c.base c.now j.run_time_estimate))

-- The three `continue`s and the last test of the scan's body.
unfoldable pub admits : ScanContext → Timeline → ℕ → JobEntry → Bool
admits c plan available j =
    not j.removed && (leb j.nodes_requested available && preserves_reservations c plan j)

unfoldable pub plan_after : ScanContext → Timeline → JobEntry → Timeline
plan_after c plan j =
    if c.within
    then Timeline.reserve plan c.now j.nodes_requested
        (release_estimate c.base c.now j.run_time_estimate)
    else plan

-- What the scan leaves: the entries behind the head, the plan, the free nodes and the jobs started.
pub record Scan : Type 0 where
  pub queue : List JobEntry
  pub plan : Timeline
  pub available : ℕ
  pub started : List JobEntry

pub stop_scan : List JobEntry → Timeline → ℕ → Scan
stop_scan queue plan available = record {
  queue = queue;
  plan = plan;
  available = available;
  started = [];
}

abbrev pub pass_entry : JobEntry → Scan → Scan
pass_entry j s = record s { queue = j ∷ s.queue }

abbrev pub start_entry : JobEntry → Scan → Scan
start_entry j s = record s { queue = mark j ∷ s.queue; started = j ∷ s.started }

-- The `for` loop over the entries behind the head; the first number is how many are left to visit.
unfoldable pub scan : ScanContext → ℕ → Timeline → ℕ → List JobEntry → Scan
unfolding stop_scan
scan c zero plan available q = stop_scan q plan available
scan c (suc n) plan available [] = stop_scan [] plan available
scan c (suc n) plan available (j ∷ q) =
    let rest = available - j.nodes_requested in
    let plan' = plan_after c plan j in
    let on = start_entry j (scan c n plan' rest q) in
    let passed = pass_entry j (scan c n plan available q) in
    if admits c plan available j
    then if rest == 0 then start_entry j (stop_scan q plan' rest) else on
    else passed

-- The head's reservation, the context of the scan and the plan with the head in it.
unfoldable pub head_reservation : Timeline → ℕ → JobEntry → ℕ
head_reservation plan now head =
    value_or_max (Timeline.earliest_fit plan head.nodes_requested 0 now)

unfoldable pub context : SchedulerBase → ℕ → ℕ → ScanContext
context b now reservation = record {
  base = b;
  now = now;
  within = reservation_within_horizon b reservation now;
  has_projection = not (reservation == max_time);
}

unfoldable pub protected_plan : ScanContext → Timeline → ℕ → JobEntry → Timeline
protected_plan c plan reservation head =
    if c.within
    then Timeline.reserve plan reservation head.nodes_requested
        (release_estimate c.base reservation head.run_time_estimate)
    else plan

abbrev pub with_reservation : EasyDeque → ℕ → EasyDeque
with_reservation e reservation = record e {
  base = record e.base { fcfs_reservation_time = reservation };
}

-- The part of `schedule` behind the check of `available_nodes`, with the entries behind the head.
unfoldable pub scan_behind :
    EasyDeque
    → Heads
    → ScanContext
    → Timeline
    → JobEntry
    → List JobEntry
    → EasyDeque × List JobEntry
scan_behind e h c plan head rest =
    let queue = head ∷ rest in
    let scan_end =
      queue_depth_scan_end queue 1 e.deque.eligible_end_idx e.backfill_queue_depth c.within in
    let s = scan c (scan_end - 1) plan h.available rest in
    (record e { deque = after_scan_behind e.deque head s.queue s.started }, h.started ++ s.started)

-- The part of `schedule` from the reservation of the blocked head on.
unfoldable pub backfill :
    EasyDeque → Heads → RunningJobs → ℕ → List JobEntry → EasyDeque × List JobEntry
backfill e h running now [] = (e, h.started)
backfill e h running now (head ∷ rest) =
    let plan = reservation_timeline e.base h.available running now h.projected in
    let reservation = head_reservation plan now head in
    let c = context e.base now reservation in
    let e' = with_reservation e reservation in
    if h.available == 0
    then (e', h.started)
    else scan_behind e' h c (protected_plan c plan reservation head) head rest

unfoldable pub backfill_disabled : BackfillPolicy → Bool
backfill_disabled no_backfill = true
backfill_disabled BackfillPolicy.easy = false
backfill_disabled BackfillPolicy.conservative = false
backfill_disabled BackfillPolicy.hybrid = false

abbrev pub with_heads : EasyDeque → Heads → EasyDeque
with_heads e h = record e { deque = after_heads e.deque h }

-- `schedule` behind the synchronisation and the garbage collection.
unfoldable pub select : EasyDeque → ℕ → RunningJobs → ℕ → EasyDeque × List JobEntry
select e free running now =
    let h = take_heads e.base now e.deque free in
    let e' = with_heads e h in
    if e.deque.eligible_end_idx == 0
    then (e, [])
    else if active_job_count e'.deque == 0 || backfill_disabled e.base.backfill_policy
    then (e', h.started)
    else backfill e' h running now h.queue

unfoldable pub schedule_entries : EasyDeque → ℕ → RunningJobs → ℕ → EasyDeque × List JobEntry
schedule_entries e free running now =
    select (record e { deque = prepare e.deque now }) free running now

unfoldable pub schedule : EasyDeque → ℕ → RunningJobs → ℕ → EasyDeque × List ℕ
schedule e free running now =
    let (e', jobs) = schedule_entries e free running now in (e', map (λ j. j.job_id) jobs)
