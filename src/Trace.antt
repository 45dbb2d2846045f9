-- ===== src/Trace.antt =====
-- The trace (src/trace/trace.hpp, src/trace/trace.cpp) with the standard policy, compiled without
-- MARK_DAT_PERIOD and Redis: its state, and its job records (src/trace/job_record.hpp).
pub mod Output
pub mod Append
pub mod Step
pub mod Store
pub mod Flush
pub mod Ledger
pub mod Settle
pub mod Process
pub mod Depart
pub mod Release
pub mod Edit
pub mod Appended
pub mod Start
pub mod RunStart
use dr_evt.Base.{
  ℕ, ◌+◌, ◌-◌, ◌%◌, ◌^◌, Bool, true, false, not, ◌&&◌, ◌||◌, Option, none, some, List, [], ◌∷◌, ltb,
  leb, ◌==◌, if◌then◌else◌, get_elem?, set,
}
use dr_evt.Base.Int.{ℤ, sub_ℕ}
use dr_evt.Base.Results.{Result, ok, throw, runtime_error}
use dr_evt.Events.{EventQueue}

-- `Job_Record::unscheduled_sentinel()`, the maximal `time_t`.
unfoldable pub unscheduled_sentinel : ℕ
unscheduled_sentinel = 2 ^ 63 - 1

-- `Job_Record` without the queue, which scheduling does not read. Times are whole seconds.
pub record JobRecord : Type 0 where
  pub begin_time : ℕ
  pub end_time : ℕ
  pub submit_time : ℕ
  pub limit_time : ℕ
  pub actual_run_time : ℕ
  pub num_nodes : ℕ
  pub is_simulated : Bool
  pub busy_nodes : ℕ

-- The constructor for a job that arrives through the API.
unfoldable pub make_record : ℕ → ℕ → ℕ → JobRecord
make_record submit_time num_nodes limit_time = record {
  begin_time = unscheduled_sentinel;
  end_time = unscheduled_sentinel;
  submit_time = submit_time;
  limit_time = limit_time;
  actual_run_time = 0;
  num_nodes = num_nodes;
  is_simulated = false;
  busy_nodes = 0;
}

unfoldable pub get_wait_time : JobRecord → ℤ
get_wait_time job = sub_ℕ job.begin_time job.submit_time

unfoldable pub is_scheduled : JobRecord → Bool
is_scheduled job = job.is_simulated || not (job.end_time == unscheduled_sentinel)

unfoldable pub set_begin_time : JobRecord → ℕ → JobRecord
set_begin_time job t = record job { begin_time = t; is_simulated = true }

unfoldable pub compute_end_time : JobRecord → JobRecord
compute_end_time job = record job { end_time = job.begin_time + job.actual_run_time }

-- `Standard_Resource_Sample`.
pub record ResourceSample : Type 0 where
  pub time : ℕ
  pub allocated : ℕ
  pub capacity : ℕ
  pub releasing : ℕ

-- `BasicTrace::Context`.
pub record Context : Type 0 where
  pub nodes_in_use : ℕ
  pub nodes_releasing : ℕ
  pub evtq : EventQueue
  pub resource_history : List ResourceSample

-- The job records in memory, those written, and the statistics of those written. `buffer` and
-- `written` hold the records whose lines are buffered and in the file.
pub record JobStore : Type 0 where
  pub records : List JobRecord
  pub num_reclaimed : ℕ
  pub capacity : ℕ
  pub capacity_resolved : Bool
  pub grows : Bool
  pub next_job_to_write : ℕ
  pub output_open : Bool
  pub buffer : List JobRecord
  pub written : List JobRecord
  pub completed_count : ℕ
  pub wait_time_sum : ℤ
  pub turnaround_time_sum : ℤ
  pub makespan : ℕ
  pub departures_since_job_flush : ℕ
  pub job_flush_interval : ℕ

-- `Node_Release_Delay` as the trace uses it, with the number of delays drawn so far.
pub record ReleaseDelay : Type 0 where
  pub active : Bool
  pub from_time : ℕ
  pub drawn : ℕ
  pub last_departure_delayed : Bool
  pub last_release_time : ℕ

pub record Trace : Type 0 where
  pub ctx : Context
  pub store : JobStore
  pub delay : ReleaseDelay
  pub replay_mode : Bool
  pub replay_jobs_enqueued : ℕ
  pub resource_history_capacity : ℕ
  pub resource_history_resolved : Bool
  pub resource_output_open : Bool
  pub resource_rows : List ResourceSample
  pub current_capacity : ℕ

-- `num_nodes_t` is a 32-bit unsigned integer.
unfoldable pub add_nodes : ℕ → ℕ → ℕ
add_nodes a b = (a + b) % 2 ^ 32

unfoldable pub sub_nodes : ℕ → ℕ → ℕ
sub_nodes a b = (a + (2 ^ 32 - b)) % 2 ^ 32

unfoldable pub get_nodes_occupied : Trace → ℕ
get_nodes_occupied t = add_nodes t.ctx.nodes_in_use t.ctx.nodes_releasing

-- The record of the store, or the error of the lookup.
unfoldable pub found : Option JobRecord → Result JobRecord
found none = throw runtime_error
found (some job) = ok job

unfoldable pub job_at : JobStore → ℕ → Result JobRecord
job_at s job_no =
    if ltb job_no s.num_reclaimed
    then throw runtime_error
    else found (get_elem? s.records (job_no - s.num_reclaimed))

-- A write through the reference that `job_at` returned.
unfoldable pub set_job : JobStore → ℕ → JobRecord → JobStore
set_job s job_no job = record s { records = set s.records (job_no - s.num_reclaimed) job }
