-- ===== src/Simulation/Tests.antt =====
-- An idle simulation with the EASY scheduler (src/sim/sim.hpp), and fixed release delays.
use dr_evt.Base.{ℕ, Bool, true, false, []}
use dr_evt.Base.Int.{pos}
use dr_evt.Scheduler.Policy.{BackfillPolicy}
use dr_evt.EasyDeque.{EasyDeque}
use dr_evt.EasyDeque
use dr_evt.Trace.{Trace, JobStore}
use dr_evt.Simulation.{Simulation}

abbrev empty_store : JobStore
empty_store = record {
  records = [];
  num_reclaimed = 0;
  capacity = 8;
  capacity_resolved = true;
  grows = true;
  next_job_to_write = 0;
  output_open = true;
  buffer = [];
  written = [];
  completed_count = 0;
  wait_time_sum = pos 0;
  turnaround_time_sum = pos 0;
  makespan = 0;
  departures_since_job_flush = 0;
  job_flush_interval = 1;
}

abbrev empty_trace : Bool → Trace
empty_trace delayed = record {
  ctx = record { nodes_in_use = 0; nodes_releasing = 0; evtq = []; resource_history = [] };
  store = empty_store;
  delay = record {
    active = delayed;
    from_time = 0;
    drawn = 0;
    last_departure_delayed = false;
    last_release_time = 0;
  };
  replay_mode = false;
  replay_jobs_enqueued = 0;
  resource_history_capacity = 16;
  resource_history_resolved = true;
  resource_output_open = false;
  resource_rows = [];
  current_capacity = 4;
}

abbrev pub idle : Bool → Simulation EasyDeque
idle delayed = record {
  trace = empty_trace delayed;
  scheduler = EasyDeque.init 4 BackfillPolicy.easy 0;
  current_time = 0;
  job_rejection_capacity = 4;
  capacity_changes = [];
  current_capacity = 4;
  capacity_area = 0;
  capacity_area_time = 0;
  jobs_completed = 0;
  jobs_submitted = 0;
  jobs_started = 0;
  jobs_releasing = 0;
  latest_submit_time = 0;
  running_jobs = [];
  queue_length_sum = 0;
  queue_length_samples = 0;
  queue_length_peak = 0;
  pending_queue_arrivals = [];
  first_appended_job_idx = 0;
  query_records = [];
  planning_time_resolution = 0;
}

-- Each release takes three seconds.
abbrev pub three : ℕ → ℕ → ℕ
three drawn nodes = 3
