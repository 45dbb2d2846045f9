-- ===== src/Simulation/Submit.antt =====
-- The submission of a job (src/sim/sim.cpp), and the statistics of the arrivals. Without periodic
-- scheduling.
use dr_evt.Base.{
  ℕ, zero, suc, ◌+◌, ◌-◌, max, Bool, true, false, not, ◌||◌, Option, none, some, ltb, if◌then◌else◌,
}
use dr_evt.Base.Results.{Result, ok, throw, runtime_error, logic_error, ◌>>=◌}
use dr_evt.Trace.{JobRecord, job_at, set_job, unscheduled_sentinel}
use dr_evt.Simulation.{SchedulerMethods, Simulation}
use dr_evt.Simulation.Running.{count_arrival, find_arrivals, erase_arrivals}

module _ (S : SchedulerMethods) where
  -- The job can never start: it is marked as rejected.
  unfoldable pub reject : Simulation S.State → ℕ → JobRecord → Simulation S.State
  reject s job_idx job = record s {
    trace = record s.trace {
      store = set_job s.trace.store job_idx (record job { submit_time = unscheduled_sentinel });
    };
  }

  unfoldable pub accept : Simulation S.State → ℕ → JobRecord → ℕ → ℕ → Simulation S.State
  accept s job_idx job submit_time arrival_time = record s {
    trace = record s.trace {
      store = set_job s.trace.store job_idx (record job { busy_nodes = s.trace.ctx.nodes_in_use });
    };
    scheduler = S.insert_job s.scheduler job_idx submit_time job.limit_time job.num_nodes;
    pending_queue_arrivals = count_arrival arrival_time s.pending_queue_arrivals;
    latest_submit_time = max s.latest_submit_time submit_time;
    jobs_submitted = s.jobs_submitted + 1;
  }

  unfoldable pub is_rejected : Simulation S.State → JobRecord → Bool
  is_rejected s job =
      ltb s.job_rejection_capacity job.num_nodes || not (S.can_ever_run s.scheduler job.num_nodes)

  unfoldable pub submit_job : Simulation S.State → ℕ → ℕ → ℕ → Result (Simulation S.State)
  submit_job s job_idx submit_time arrival_time =
      if ltb arrival_time s.current_time then throw runtime_error else do
        let job = (← job_at s.trace.store job_idx)
        if is_rejected s job
            then ok (reject s job_idx job)
            else ok (accept s job_idx job submit_time arrival_time)

  -- `count` arrivals see the jobs ahead of them: waiting, waiting + 1, …
  unfoldable pub sum_from : ℕ → ℕ → ℕ
  sum_from waiting zero = 0
  sum_from waiting (suc count) = waiting + sum_from (waiting + 1) count

  unfoldable pub count_arrivals :
      Simulation S.State → ℕ → Option ℕ → Result (Simulation S.State × Bool)
  count_arrivals s current_time none = ok (s, false)
  count_arrivals s current_time (some count) =
      let active = S.active_job_count s.scheduler in
      if ltb active count
      then throw logic_error
      else ok (
        record s {
          queue_length_sum = s.queue_length_sum + sum_from (active - count) count;
          queue_length_samples = s.queue_length_samples + count;
          pending_queue_arrivals = erase_arrivals current_time s.pending_queue_arrivals;
        },
        true,
      )

  unfoldable pub record_queue_arrivals : Simulation S.State → ℕ → Result (Simulation S.State × Bool)
  record_queue_arrivals s current_time =
      count_arrivals s current_time (find_arrivals current_time s.pending_queue_arrivals)
