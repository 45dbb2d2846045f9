-- ===== src/Scheduler/Policy.antt =====
-- The policy enumerations (src/sim/scheduler_policies.hpp).

pub data BackfillPolicy : Type 0 where
  easy conservative no_backfill hybrid : BackfillPolicy

pub data PriorityPolicy : Type 0 where
  fcfs fcfs_alt fcfs_conservative sjf ljf : PriorityPolicy
