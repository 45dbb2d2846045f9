-- ===== src/Simulation.antt =====
-- The simulation driver (src/sim/sim.hpp, src/sim/sim.cpp): its state, and the scheduler's methods
-- that it calls (src/sim/scheduler_base.hpp).
pub mod Running
pub mod Capacity
pub mod Submit
pub mod Append
pub mod Start
pub mod Advance
pub mod Contract
pub mod Invariant
pub mod Launch
pub mod Started
pub mod StartOne
pub mod StartAll
pub mod Scheduling
pub mod Handle
pub mod Drain
pub mod Arrivals
pub mod Move
pub mod Sampled
pub mod Change
pub mod Loop
pub mod Select
pub mod Total
pub mod Entry
pub mod Submission
pub mod WithRecord
pub mod Queries
pub mod Appending
pub mod Queue
pub mod Easy
mod Tests
mod Examples
use dr_evt.Base.{ℕ, Bool, List}
use dr_evt.Scheduler.{RunningJobs, CapacityChange}
use dr_evt.Trace.{Trace}

-- The virtual methods of `SchedulerBase` that the driver calls.
pub record SchedulerMethods : Type 1 where
  pub State : Type 0
  pub insert_job : State → ℕ → ℕ → ℕ → ℕ → State
  pub sync_to : State → ℕ → State
  pub set_capacity_outlook : State → ℕ → ℕ → List CapacityChange → State
  pub schedule : State → ℕ → RunningJobs → ℕ → State × List ℕ
  pub has_eligible_jobs : State → Bool
  pub active_job_count : State → ℕ
  pub get_next_arrival_time : State → ℕ
  pub can_ever_run : State → ℕ → Bool

-- `Appended_Job_Query_Record`.
pub record QueryRecord : Type 0 where
  pub submit_time : ℕ
  pub limit_time : ℕ
  pub num_nodes : ℕ
  pub start_time : ℕ
  pub end_time : ℕ
  pub tracked : Bool
  pub scheduled : Bool
  pub rejected : Bool

-- The members of `BasicSimulation`. `capacity_changes` are those from the cursor on, and
-- `pending_queue_arrivals` is a `std::map` in the order of its keys.
pub record Simulation (State : Type 0) : Type 0 where
  pub trace : Trace
  pub scheduler : State
  pub current_time : ℕ
  pub job_rejection_capacity : ℕ
  pub capacity_changes : List CapacityChange
  pub current_capacity : ℕ
  pub capacity_area : ℕ
  pub capacity_area_time : ℕ
  pub jobs_completed : ℕ
  pub jobs_submitted : ℕ
  pub jobs_started : ℕ
  pub jobs_releasing : ℕ
  pub latest_submit_time : ℕ
  pub running_jobs : RunningJobs
  pub queue_length_sum : ℕ
  pub queue_length_samples : ℕ
  pub queue_length_peak : ℕ
  pub pending_queue_arrivals : List (ℕ × ℕ)
  pub first_appended_job_idx : ℕ
  pub query_records : List QueryRecord
  pub planning_time_resolution : ℕ
