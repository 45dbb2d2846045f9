-- ===== src/Simulation/Start.antt =====
-- How the driver starts the jobs that the scheduler returns (src/sim/sim.cpp): the loops of
-- `advance_to_impl` without resource accounting, warm start or periodic backfill.
use dr_evt.Base.{
  ℕ, zero, suc, ◌+◌, ◌-◌, true, not, Option, none, some, List, [], ◌∷◌, ltb, ◌==◌, if◌then◌else◌,
  length, get_elem?, set,
}
use dr_evt.Base.Results.{Result, ok, throw, out_of_fuel, ◌>>=◌}
use dr_evt.Events.{EventQueue, is_arrival}
use dr_evt.Scheduler.{RunningJob}
use dr_evt.Trace.{JobRecord, job_at}
use dr_evt.Trace.Step.{insert_job, process_event, run_until_inclusive}
use dr_evt.Simulation.{SchedulerMethods, QueryRecord, Simulation}
use dr_evt.Simulation.Running.{assign}
use dr_evt.Simulation.Capacity.{get_available_nodes, publish_capacity_outlook, planning_run_time}

module _ (S : SchedulerMethods) (sample : ℕ → ℕ → ℕ) where
  unfoldable pub set_start :
      Simulation S.State → ℕ → JobRecord → Option QueryRecord → Simulation S.State
  set_start s offset job none = s
  set_start s offset job (some query) =
      if query.tracked
      then record s {
        query_records = set s.query_records offset (record query {
          start_time = job.begin_time;
          end_time = job.end_time;
          scheduled = true;
        });
      }
      else s

  -- A job whose number is before the first appended one, or that is not tracked, has no record.
  unfoldable pub record_appended_job_start : Simulation S.State → ℕ → JobRecord → Simulation S.State
  record_appended_job_start s job_idx job =
      let offset = job_idx - s.first_appended_job_idx in
      if ltb job_idx s.first_appended_job_idx
      then s
      else set_start s offset job (get_elem? s.query_records offset)

  unfoldable pub running_entry : Simulation S.State → JobRecord → RunningJob
  running_entry s job = record {
    start_time = s.current_time;
    run_time = planning_run_time S s s.current_time job.limit_time;
    nodes = job.num_nodes;
  }

  -- What both loops do for a job before its start event is processed.
  unfoldable pub launch : Simulation S.State → ℕ → Result (Simulation S.State)
  launch s job_idx = do
    let trace = (← insert_job s.trace job_idx s.current_time)
    let job = (← job_at trace.store job_idx)
    let q = record_appended_job_start (record s { trace = trace }) job_idx job
    ok (record q {
      running_jobs = assign job_idx (running_entry q job) q.running_jobs;
      jobs_started = q.jobs_started + 1;
    })

  -- The first loop drains the events at the current time.
  unfoldable pub start_first : ℕ → Simulation S.State → ℕ → Result (Simulation S.State)
  start_first fuel s job_idx = do
    let l = (← launch s job_idx)
    let trace = (← run_until_inclusive sample fuel l.trace l.current_time)
    ok (record l { trace = trace })

  -- The main loop processes one start event at the current time, if it is at the front.
  unfoldable pub process_start_event : Simulation S.State → EventQueue → Result (Simulation S.State)
  process_start_event s [] = ok s
  process_start_event s (e ∷ q) =
      let processed : Result (Simulation S.State) =
        process_event sample s.trace e q >>= λ trace. ok (record s { trace = trace }) in
      if not (e.time == s.current_time)
      then ok s
      else if not (is_arrival e)
      then ok s
      else processed

  unfoldable pub start_next : ℕ → Simulation S.State → ℕ → Result (Simulation S.State)
  start_next fuel s job_idx = do
    let l = (← launch s job_idx)
    process_start_event l l.trace.ctx.evtq

  abbrev pub Starter : Type 0
  Starter = ℕ → Simulation S.State → ℕ → Result (Simulation S.State)

  unfoldable pub start_jobs :
      Starter → ℕ → Simulation S.State → List ℕ → Result (Simulation S.State)
  start_jobs start fuel s [] = ok s
  start_jobs start fuel s (job ∷ jobs) = start fuel s job >>= λ s'. start_jobs start fuel s' jobs

  -- One call of the scheduler, and the jobs to run.
  unfoldable pub call_scheduler : Simulation S.State → Simulation S.State × List ℕ
  call_scheduler s =
      let p = publish_capacity_outlook S s in
      let (scheduler, jobs) =
        S.schedule p.scheduler (get_available_nodes S s) p.running_jobs p.current_time in
      (record p { scheduler = scheduler }, jobs)

  -- `while (true)`: call the scheduler until it starts nothing.
  unfoldable pub schedule_loop : Starter → ℕ → Simulation S.State → Result (Simulation S.State)
  schedule_loop start zero s = throw out_of_fuel
  schedule_loop start (suc fuel) s =
      let (called, jobs) = call_scheduler s in
      let rest = start_jobs start fuel called jobs >>= λ s'. schedule_loop start fuel s' in
      if length jobs == 0 then ok called else rest
