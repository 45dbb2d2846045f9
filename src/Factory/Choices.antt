-- ===== src/Factory/Choices.antt =====
-- The arguments and results of create_scheduler (src/sim/scheduler_base.hpp and .cpp), and the
-- tests on them; the queue enumerations are those of src/params/sim_params.hpp.
use dr_evt.Base.{ℕ, Bool, true, false, not, ltb, ◌==◌}
use dr_evt.Scheduler.Policy.{
  BackfillPolicy, PriorityPolicy, fcfs, fcfs_alt, fcfs_conservative, sjf, ljf,
}

pub data QueueImplementation : Type 0 where
  circular deque multimap block : QueueImplementation

pub data CircularOverflowPolicy : Type 0 where
  abort grow : CircularOverflowPolicy

-- A `double` in seconds, as far as the checks tell values apart: a number of ticks, one below zero,
-- an infinity of either sign, or no number.
pub data Interval : Type 0 where
  ticks : ℕ → Interval
  below : ℕ → Interval
  infinity minus_infinity not_a_number : Interval

-- The arguments.
pub record Config : Type 0 where
  pub total_nodes : ℕ
  pub initial_job_count : ℕ
  pub backfill_policy : BackfillPolicy
  pub priority_policy : PriorityPolicy
  pub queue_impl : QueueImplementation
  pub block_size : ℕ
  pub wait_queue_capacity : ℕ
  pub wait_queue_overflow : CircularOverflowPolicy
  pub reservation_depth : ℕ
  pub backfill_queue_depth : ℕ
  pub backfill_interval : Interval
  pub dispatch_interval : Interval
  pub dispatch_queue_depth : ℕ
  pub dispatch_on_events : Bool

-- The class constructed, with the arguments of its constructor.
pub data Created : Type 0 where
  fcfs_hybrid_deque : ℕ → BackfillPolicy → ℕ → ℕ → Created
  fcfs_hybrid_circular : ℕ → ℕ → BackfillPolicy → ℕ → CircularOverflowPolicy → ℕ → ℕ → Created
  periodic_fcfs_hybrid_circular :
      ℕ → ℕ → BackfillPolicy → ℕ → CircularOverflowPolicy → ℕ → ℕ → Created
  fcfs_periodic_easy_circular : ℕ → ℕ → ℕ → CircularOverflowPolicy → ℕ → Created
  fcfs_periodic_hybrid_circular :
      ℕ → ℕ → ℕ → CircularOverflowPolicy → BackfillPolicy → ℕ → ℕ → Created
  fcfs_easy_block : ℕ → ℕ → BackfillPolicy → ℕ → Created
  fcfs_easy_multimap : ℕ → BackfillPolicy → ℕ → Created
  fcfs_easy_deque : ℕ → BackfillPolicy → ℕ → Created
  fcfs_easy_circular : ℕ → ℕ → BackfillPolicy → ℕ → CircularOverflowPolicy → ℕ → Created
  sjf_easy : ℕ → BackfillPolicy → ℕ → Created
  ljf_easy : ℕ → BackfillPolicy → ℕ → Created

-- The exceptions, one for each message.
pub data Refusal : Type 0 where
  events_require_dispatch dispatch_interval_invalid intervals_exclusive dispatch_requires_fcfs
        dispatch_requires_circular use_dispatch_queue_depth hybrid_requires_depth
        queue_depth_requires_dispatch backfill_interval_invalid periodic_requires_policy
        periodic_requires_fcfs periodic_requires_circular hybrid_requires_fcfs :
      Refusal

-- A scheduler, an exception, or `std::exit(1)`.
pub data Creation : Type 0 where
  created : Created → Creation
  refused : Refusal → Creation
  exited : Creation

unfoldable pub is_easy : BackfillPolicy → Bool
is_easy BackfillPolicy.easy = true
is_easy BackfillPolicy.conservative = false
is_easy BackfillPolicy.no_backfill = false
is_easy BackfillPolicy.hybrid = false

unfoldable pub is_no_backfill : BackfillPolicy → Bool
is_no_backfill BackfillPolicy.easy = false
is_no_backfill BackfillPolicy.conservative = false
is_no_backfill BackfillPolicy.no_backfill = true
is_no_backfill BackfillPolicy.hybrid = false

unfoldable pub is_hybrid : BackfillPolicy → Bool
is_hybrid BackfillPolicy.easy = false
is_hybrid BackfillPolicy.conservative = false
is_hybrid BackfillPolicy.no_backfill = false
is_hybrid BackfillPolicy.hybrid = true

-- FCFS or FCFS_CONSERVATIVE.
unfoldable pub is_fcfs_order : PriorityPolicy → Bool
is_fcfs_order fcfs = true
is_fcfs_order fcfs_alt = false
is_fcfs_order fcfs_conservative = true
is_fcfs_order sjf = false
is_fcfs_order ljf = false

unfoldable pub is_circular : QueueImplementation → Bool
is_circular circular = true
is_circular deque = false
is_circular multimap = false
is_circular block = false

-- `x > 0.0`.
unfoldable pub is_positive : Interval → Bool
is_positive (ticks n) = ltb 0 n
is_positive (below n) = false
is_positive infinity = true
is_positive minus_infinity = false
is_positive not_a_number = false

-- `x <= 0.0`.
unfoldable pub is_at_most_zero : Interval → Bool
is_at_most_zero (ticks n) = n == 0
is_at_most_zero (below n) = true
is_at_most_zero infinity = false
is_at_most_zero minus_infinity = true
is_at_most_zero not_a_number = false

-- `!std::isfinite(x) || x < 0.0`.
unfoldable pub is_invalid : Interval → Bool
is_invalid (ticks n) = false
is_invalid (below n) = true
is_invalid infinity = true
is_invalid minus_infinity = true
is_invalid not_a_number = true

-- `x != 0.0`.
unfoldable pub is_nonzero : Interval → Bool
is_nonzero (ticks n) = not (n == 0)
is_nonzero (below n) = true
is_nonzero infinity = true
is_nonzero minus_infinity = true
is_nonzero not_a_number = true
