-- ===== src/Factory.antt =====
-- create_scheduler (src/sim/scheduler_base.cpp): which scheduler the configured policies select,
-- and which configurations are refused. The warnings that it prints are not modelled.
pub mod Choices
pub mod Block
pub mod Sound
pub mod Accepts
mod Tests
use dr_evt.Base.{
  ℕ, zero, suc, ◌+◌, ◌-◌, ◌*◌, ◌/◌, ◌%◌, ◌^◌, Bool, true, false, not, ◌&&◌, ◌||◌, ltb, ◌==◌,
  if◌then◌else◌,
}
use dr_evt.Scheduler.Policy.{
  BackfillPolicy, PriorityPolicy, fcfs, fcfs_alt, fcfs_conservative, sjf, ljf,
}
use dr_evt.Factory.Choices.{
  QueueImplementation, circular, deque, multimap, block, Config, Created, fcfs_hybrid_deque,
  fcfs_hybrid_circular, periodic_fcfs_hybrid_circular, fcfs_periodic_easy_circular,
  fcfs_periodic_hybrid_circular, fcfs_easy_multimap, fcfs_easy_deque, fcfs_easy_circular, sjf_easy,
  ljf_easy, Refusal, Creation, created, refused, is_easy, is_no_backfill, is_hybrid, is_fcfs_order,
  is_circular, is_positive, is_at_most_zero, is_invalid, is_nonzero,
}
use dr_evt.Factory.Block.{create_block_scheduler}

-- `if (bad) throw std::invalid_argument(...)`, and what comes after it.
unfoldable pub unless : Bool → Refusal → Creation → Creation
unless bad refusal rest = if bad then refused refusal else rest

unfoldable pub lacks_depth : Config → Bool
lacks_depth c = is_hybrid c.backfill_policy && c.reservation_depth == 0

abbrev pub hybrid_circular : Config → Created
hybrid_circular c =
    fcfs_hybrid_circular c.total_nodes c.initial_job_count c.backfill_policy c.wait_queue_capacity
      c.wait_queue_overflow c.reservation_depth c.backfill_queue_depth

-- `create_hybrid_scheduler`.
unfoldable pub create_hybrid_scheduler : Config → QueueImplementation → Created
create_hybrid_scheduler c deque =
    fcfs_hybrid_deque c.total_nodes c.backfill_policy c.reservation_depth c.backfill_queue_depth
create_hybrid_scheduler c circular = hybrid_circular c
create_hybrid_scheduler c multimap = hybrid_circular c
create_hybrid_scheduler c block = hybrid_circular c

-- The branch of a positive `dispatch_interval`.
unfoldable pub fixed_dispatch : Config → Creation
fixed_dispatch c = unless (is_nonzero c.backfill_interval) Refusal.intervals_exclusive (
    unless (not (is_fcfs_order c.priority_policy)) Refusal.dispatch_requires_fcfs (
      unless (not (is_circular c.queue_impl)) Refusal.dispatch_requires_circular (
        unless (not (c.backfill_queue_depth == 0)) Refusal.use_dispatch_queue_depth (
          unless (lacks_depth c) Refusal.hybrid_requires_depth (
            created (
              periodic_fcfs_hybrid_circular c.total_nodes c.initial_job_count c.backfill_policy
                c.wait_queue_capacity c.wait_queue_overflow c.reservation_depth
                c.dispatch_queue_depth))))))

-- The scheduler of the branch of a positive `backfill_interval`.
unfoldable pub periodic_scheduler : Config → Created
periodic_scheduler c =
    if is_easy c.backfill_policy
    then fcfs_periodic_easy_circular c.total_nodes c.initial_job_count c.wait_queue_capacity
        c.wait_queue_overflow c.backfill_queue_depth
    else fcfs_periodic_hybrid_circular c.total_nodes c.initial_job_count c.wait_queue_capacity
        c.wait_queue_overflow c.backfill_policy c.reservation_depth c.backfill_queue_depth

unfoldable pub periodic_backfill : Config → Creation
periodic_backfill c = unless (is_no_backfill c.backfill_policy) Refusal.periodic_requires_policy (
    unless (not (is_fcfs_order c.priority_policy)) Refusal.periodic_requires_fcfs (
      unless (not (is_circular c.queue_impl)) Refusal.periodic_requires_circular
        (unless (lacks_depth c) Refusal.hybrid_requires_depth (created (periodic_scheduler c)))))

-- The branch of HYBRID.
unfoldable pub hybrid_backfill : Config → Creation
hybrid_backfill c = unless (c.reservation_depth == 0) Refusal.hybrid_requires_depth (
    unless (not (is_fcfs_order c.priority_policy)) Refusal.hybrid_requires_fcfs
      (created (create_hybrid_scheduler c c.queue_impl)))

-- FCFS_CONSERVATIVE with EASY is served as FCFS.
unfoldable pub served_order : BackfillPolicy → PriorityPolicy → PriorityPolicy
served_order policy fcfs = fcfs
served_order policy fcfs_alt = fcfs_alt
served_order policy fcfs_conservative = if is_easy policy then fcfs else fcfs_conservative
served_order policy sjf = sjf
served_order policy ljf = ljf

-- The case FCFS.
unfoldable pub create_fcfs : Config → QueueImplementation → Creation
create_fcfs c block = create_block_scheduler c
create_fcfs c multimap =
    created (fcfs_easy_multimap c.total_nodes c.backfill_policy c.backfill_queue_depth)
create_fcfs c deque =
    created (fcfs_easy_deque c.total_nodes c.backfill_policy c.backfill_queue_depth)
create_fcfs c circular = created (
    fcfs_easy_circular c.total_nodes c.initial_job_count c.backfill_policy c.wait_queue_capacity
      c.wait_queue_overflow c.backfill_queue_depth)

-- `switch (priority_policy)`.
unfoldable pub by_priority : Config → PriorityPolicy → Creation
by_priority c fcfs = create_fcfs c c.queue_impl
by_priority c fcfs_alt =
    created (fcfs_easy_multimap c.total_nodes c.backfill_policy c.backfill_queue_depth)
by_priority c fcfs_conservative = created (create_hybrid_scheduler c c.queue_impl)
by_priority c sjf = created (sjf_easy c.total_nodes c.backfill_policy c.backfill_queue_depth)
by_priority c ljf = created (ljf_easy c.total_nodes c.backfill_policy c.backfill_queue_depth)

-- The part behind the branches of the two intervals.
unfoldable pub event_driven : Config → Creation
event_driven c =
    if is_hybrid c.backfill_policy
    then hybrid_backfill c
    else by_priority c (served_order c.backfill_policy c.priority_policy)

unfoldable pub behind_dispatch : Config → Creation
behind_dispatch c =
    unless (not (c.dispatch_queue_depth == 0)) Refusal.queue_depth_requires_dispatch (
      unless (is_invalid c.backfill_interval) Refusal.backfill_interval_invalid
        (if is_positive c.backfill_interval then periodic_backfill c else event_driven c))

unfoldable pub create_scheduler : Config → Creation
create_scheduler c =
    unless (c.dispatch_on_events && is_at_most_zero c.dispatch_interval)
      Refusal.events_require_dispatch
      (unless (is_invalid c.dispatch_interval) Refusal.dispatch_interval_invalid
        (if is_positive c.dispatch_interval then fixed_dispatch c else behind_dispatch c))
