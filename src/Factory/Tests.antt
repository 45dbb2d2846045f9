-- ===== src/Factory/Tests.antt =====
-- Configurations and the schedulers that they select.
use dr_evt.Base.{ℕ, ◌≡◌, refl, false, arith}
use dr_evt.Scheduler.Policy.{BackfillPolicy, PriorityPolicy, fcfs, fcfs_conservative, sjf}
use dr_evt.Factory.{
  unless, lacks_depth, create_hybrid_scheduler, fixed_dispatch, periodic_scheduler,
  periodic_backfill, hybrid_backfill, served_order, create_fcfs, by_priority, event_driven,
  behind_dispatch, create_scheduler,
}
use dr_evt.Factory.Choices.{
  QueueImplementation, circular, deque, block, CircularOverflowPolicy, Interval, ticks,
  not_a_number, Config, fcfs_hybrid_deque, fcfs_easy_block, fcfs_easy_deque, Refusal, created,
  refused, exited, is_easy, is_no_backfill, is_hybrid, is_fcfs_order, is_circular, is_positive,
  is_at_most_zero, is_invalid, is_nonzero,
}
use dr_evt.Factory.Block.{
  bit_and, is_no_power, log2_of, block_scheduler, by_log2, create_block_scheduler,
}
use dr_evt.Factory.Accepts.{IsCreated, create_scheduler-IsCreated}
use dr_evt.Factory.Sound.{Promises, create_scheduler-Promises}

abbrev config : BackfillPolicy → PriorityPolicy → QueueImplementation → ℕ → ℕ → Interval → Config
config policy order queue block_size depth dispatch = record {
  total_nodes = 100;
  initial_job_count = 10;
  backfill_policy = policy;
  priority_policy = order;
  queue_impl = queue;
  block_size = block_size;
  wait_queue_capacity = 0;
  wait_queue_overflow = CircularOverflowPolicy.grow;
  reservation_depth = depth;
  backfill_queue_depth = 0;
  backfill_interval = ticks 0;
  dispatch_interval = dispatch;
  dispatch_queue_depth = 0;
  dispatch_on_events = false;
}

program : Unit {0}
unfolding unless lacks_depth create_hybrid_scheduler fixed_dispatch periodic_scheduler
    periodic_backfill hybrid_backfill served_order create_fcfs by_priority event_driven
    behind_dispatch create_scheduler is_easy is_no_backfill is_hybrid is_fcfs_order is_circular
    is_positive is_at_most_zero is_invalid is_nonzero bit_and is_no_power log2_of block_scheduler
    by_log2 create_block_scheduler
program = tt

abbrev block_config : Config
block_config = config BackfillPolicy.easy fcfs block 32 0 (ticks 0)

create_block :
    create_scheduler block_config ≡ created (fcfs_easy_block 32 100 BackfillPolicy.easy 0)
unfolding program
create_block = refl

create_block_48 : create_scheduler (config BackfillPolicy.easy fcfs block 48 0 (ticks 0)) ≡ exited
unfolding program
create_block_48 = refl

create_block_512 : create_scheduler (config BackfillPolicy.easy fcfs block 512 0 (ticks 0)) ≡ exited
unfolding program
create_block_512 = refl

create_hybrid :
    create_scheduler (config BackfillPolicy.hybrid fcfs deque 0 3 (ticks 0))
    ≡ created (fcfs_hybrid_deque 100 BackfillPolicy.hybrid 3 0)
unfolding program
create_hybrid = refl

create_hybrid_sjf :
    create_scheduler (config BackfillPolicy.hybrid sjf deque 0 3 (ticks 0))
    ≡ refused Refusal.hybrid_requires_fcfs
unfolding program
create_hybrid_sjf = refl

create_nan :
    create_scheduler (config BackfillPolicy.easy fcfs circular 0 0 not_a_number)
    ≡ refused Refusal.dispatch_interval_invalid
unfolding program
create_nan = refl

-- With FCFS ordering, conservative backfilling gets the class that protects the head alone.
create_conservative :
    create_scheduler (config BackfillPolicy.conservative fcfs deque 0 0 (ticks 0))
    ≡ created (fcfs_easy_deque 100 BackfillPolicy.conservative 0)
unfolding program
create_conservative = refl

create_scheduler-Promises_example : Promises block_config (create_scheduler block_config)
create_scheduler-Promises_example = create_scheduler-Promises block_config

abbrev hybrid_config : Config
hybrid_config = config BackfillPolicy.hybrid fcfs_conservative deque 0 3 (ticks 0)

create_scheduler-IsCreated_example : IsCreated (create_scheduler hybrid_config)
create_scheduler-IsCreated_example =
    create_scheduler-IsCreated hybrid_config
      (record {
        no_dispatch = refl;
        no_backfill_interval = refl;
        no_dispatch_depth = refl;
        no_events = refl;
      })
      tt (λ hybrid. (omega arith, unfold is_fcfs_order in refl))
