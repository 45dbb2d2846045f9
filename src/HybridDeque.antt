-- ===== src/HybridDeque.antt =====
-- FCFSHybridDequeScheduler (src/sim/scheduler_fcfs_hybrid_deque.hpp and .cpp), compiled without
-- DR_EVT_LEGACY_RESERVATION_BARRIER. The queue and its methods are those of module Deque, which the
-- two deque-backed schedulers write out alike.
pub mod Backfill
pub mod Window
pub mod Queue
pub mod Rounds
pub mod Correct
pub mod Ledger
pub mod Walk
pub mod Agrees
pub mod Follow
pub mod Guarantee
pub mod Depth
pub mod Accounting
pub mod Budget
mod Tests
use dr_evt.Base.{
  ℕ, zero, suc, ◌+◌, ◌-◌, Bool, true, false, not, ◌&&◌, ◌||◌, Option, none, some, List, [], ◌∷◌,
  ◌++◌, map, leb, ltb, ◌==◌, if◌then◌else◌,
}
use dr_evt.Timeline.{Timeline}
use dr_evt.Timeline
use dr_evt.Scheduler.Policy.{BackfillPolicy, no_backfill}
use dr_evt.Scheduler.{
  SchedulerBase, RunningJobs, RunningJob, reservation_timeline, calculate_fcfs_reservation,
  reservation_within_horizon, release_estimate, value_or_max, max_time,
}
use dr_evt.Deque.{
  JobEntry, Deque, empty, prepare, mark, Heads, take_heads, after_heads, after_scan_behind,
  active_job_count,
}
use dr_evt.Scheduler
use dr_evt.HybridDeque.Backfill.{ScanContext, ScanState, scan, protect_job, is_now}

-- The members. `lowest()`, the first value of `m_backfill_depth_time`, is `none`.
pub record HybridDeque : Type 0 where
  pub base : SchedulerBase
  pub deque : Deque
  pub reservation_depth : ℕ
  pub backfill_queue_depth : ℕ
  pub backfill_depth_time : Option ℕ
  pub backfill_depth_examined : ℕ
  pub backfill_depth_head_accounted : Bool

pub start_empty : ℕ → BackfillPolicy → ℕ → ℕ → HybridDeque
start_empty total_nodes policy reservation_depth depth = record {
  base = Scheduler.init total_nodes policy;
  deque = empty;
  reservation_depth = reservation_depth;
  backfill_queue_depth = depth;
  backfill_depth_time = none;
  backfill_depth_examined = 0;
  backfill_depth_head_accounted = false;
}

-- The constructor; `none` is the exception.
pub init : ℕ → BackfillPolicy → ℕ → ℕ → Option HybridDeque
init total_nodes BackfillPolicy.easy reservation_depth depth = none
init total_nodes BackfillPolicy.conservative reservation_depth depth =
    some (start_empty total_nodes BackfillPolicy.conservative reservation_depth depth)
init total_nodes BackfillPolicy.no_backfill reservation_depth depth =
    some (start_empty total_nodes BackfillPolicy.no_backfill reservation_depth depth)
init total_nodes BackfillPolicy.hybrid reservation_depth depth =
    some (start_empty total_nodes BackfillPolicy.hybrid reservation_depth depth)

-- `protected_depth`; 0 protects every job.
unfoldable pub protected_depth : BackfillPolicy → ℕ → ℕ
protected_depth BackfillPolicy.easy depth = 0
protected_depth BackfillPolicy.conservative depth = 0
protected_depth BackfillPolicy.no_backfill depth = 0
protected_depth BackfillPolicy.hybrid depth = depth

-- `m_backfill_depth_time != current_time`: a new timestamp begins a new budget.
unfoldable pub begin_timestamp : HybridDeque → ℕ → HybridDeque
begin_timestamp e now = if is_now now e.backfill_depth_time then e else record e {
  backfill_depth_time = some now;
  backfill_depth_examined = 0;
  backfill_depth_head_accounted = false;
}

unfoldable pub account_head : HybridDeque → ℕ → ℕ → HybridDeque
account_head e reservation now =
    if reservation_within_horizon e.base reservation now && not e.backfill_depth_head_accounted
    then record e {
      backfill_depth_examined = suc e.backfill_depth_examined;
      backfill_depth_head_accounted = true;
    }
    else e

unfoldable pub context : HybridDeque → ℕ → ScanContext
context e now = record {
  base = e.base;
  now = now;
  protected_depth = protected_depth e.base.backfill_policy e.reservation_depth;
  queue_depth = e.backfill_queue_depth;
}

-- The two plans, copies of the projection, and the counters before the scan.
unfoldable pub first_state : HybridDeque → ℕ → Timeline → ScanState
first_state e available plan = record {
  available = available;
  availability_plan = plan;
  protected_plan = plan;
  protected_count = 0;
  examined = e.backfill_depth_examined;
}

abbrev pub with_reservation : HybridDeque → ℕ → HybridDeque
with_reservation e reservation = record e {
  base = record e.base { fcfs_reservation_time = reservation };
}

abbrev pub with_heads : HybridDeque → Heads → HybridDeque
with_heads e h = record e { deque = after_heads e.deque h }

-- The state in which the scan begins: the head is protected.
unfoldable pub head_protected : ScanContext → HybridDeque → ℕ → Timeline → JobEntry → ScanState
head_protected c e available plan head = protect_job c (first_state e available plan) head none

unfoldable pub scan_behind :
    HybridDeque
    → Heads
    → ScanContext
    → Timeline
    → JobEntry
    → List JobEntry
    → HybridDeque × List JobEntry
scan_behind e h c plan head rest =
    let k = scan c (e.deque.eligible_end_idx - 1) rest (head_protected c e h.available plan head) in
    (
      record e {
        deque = after_scan_behind e.deque head k.queue k.started;
        backfill_depth_examined = k.state.examined;
      },
      h.started ++ k.started,
    )

-- The part of `schedule` from the reservation of the blocked head on.
unfoldable pub backfill :
    HybridDeque → Heads → RunningJobs → ℕ → List JobEntry → HybridDeque × List JobEntry
backfill e h running now [] = (e, h.started)
backfill e h running now (head ∷ rest) =
    let reservation =
      calculate_fcfs_reservation e.base head.nodes_requested h.available running now h.projected in
    let e' = with_reservation e reservation in
    if h.available == 0
    then (e', h.started)
    else scan_behind (account_head (begin_timestamp e' now) reservation now) h (context e now)
        (reservation_timeline e.base h.available running now h.projected) head rest

unfoldable pub backfill_disabled : BackfillPolicy → Bool
backfill_disabled no_backfill = true
backfill_disabled BackfillPolicy.easy = false
backfill_disabled BackfillPolicy.conservative = false
backfill_disabled BackfillPolicy.hybrid = false

-- `schedule` behind the synchronisation and the garbage collection.
unfoldable pub select : HybridDeque → ℕ → RunningJobs → ℕ → HybridDeque × List JobEntry
select e free running now =
    let h = take_heads e.base now e.deque free in
    let e' = with_heads e h in
    if e.deque.eligible_end_idx == 0
    then (e, [])
    else if active_job_count e'.deque == 0 || backfill_disabled e.base.backfill_policy
    then (e', h.started)
    else backfill e' h running now h.queue

unfoldable pub schedule_entries : HybridDeque → ℕ → RunningJobs → ℕ → HybridDeque × List JobEntry
schedule_entries e free running now =
    select (record e { deque = prepare e.deque now }) free running now

unfoldable pub schedule : HybridDeque → ℕ → RunningJobs → ℕ → HybridDeque × List ℕ
schedule e free running now =
    let (e', jobs) = schedule_entries e free running now in (e', map (λ j. j.job_id) jobs)
