-- ===== src/Trace/Step.antt =====
-- How the trace (src/trace/trace.cpp) creates and processes resource events.
use dr_evt.Base.{
  ℕ, zero, suc, ◌+◌, max, Bool, true, false, not, ◌&&◌, [], ◌∷◌, ltb, leb, ◌==◌, if◌then◌else◌,
}
use dr_evt.Base.Results.{Result, ok, throw, logic_error, out_of_fuel, ◌>>=◌}
use dr_evt.Events.{
  DrEvent, EventQueue, arrival, departure, make_event, release, insert, is_arrival, is_departure,
  is_release,
}
use dr_evt.Trace.{
  JobRecord, JobStore, Trace, add_nodes, sub_nodes, job_at, set_job, set_begin_time,
  compute_end_time,
}
use dr_evt.Trace.Output.{
  record_resource_sample, drained_until, flush_completed_jobs, maybe_flush_completed_jobs,
  effective_job_flush_interval,
}

unfoldable pub with_duration : JobRecord → JobRecord
with_duration job =
    if job.actual_run_time == 0 then record job { actual_run_time = job.limit_time } else job

unfoldable pub insert_job : Trace → ℕ → ℕ → Result Trace
insert_job t job_idx start_time = do
  let job = with_duration (← job_at t.store job_idx)
  let starts = make_event job_idx start_time arrival
  let ends = make_event job_idx (start_time + job.actual_run_time) departure
  ok (record t {
    ctx = record t.ctx { evtq = insert ends (insert starts t.ctx.evtq) };
    store = set_job t.store job_idx (compute_end_time (set_begin_time job start_time));
    replay_jobs_enqueued = max t.replay_jobs_enqueued (job_idx + 1);
  })

unfoldable pub enqueue_replay_job : Trace → ℕ → Result Trace
enqueue_replay_job t job_idx = if not t.replay_mode then throw logic_error else do
  let job = (← job_at t.store job_idx)
  let starts = make_event job_idx job.begin_time arrival
  let ends = make_event job_idx job.end_time departure
  ok (record t {
    ctx = record t.ctx { evtq = insert ends (insert starts t.ctx.evtq) };
    replay_jobs_enqueued = max t.replay_jobs_enqueued (job_idx + 1);
  })

abbrev pub pop_front : Trace → EventQueue → Trace
pop_front t q = record t { ctx = record t.ctx { evtq = q } }

-- The periodic flush at the end of `process_single_event`.
unfoldable pub count_departure : JobStore → DrEvent → JobStore
count_departure s e =
    if is_departure e && s.output_open
    then if ltb s.departures_since_job_flush (effective_job_flush_interval s)
      then record s { departures_since_job_flush = s.departures_since_job_flush + 1 }
      else s
    else s

-- Nothing at the time of the event is left in the queue.
unfoldable pub flush_after : Trace → DrEvent → Result Trace
flush_after t e =
    let s = count_departure t.store e in
    let t' : Trace = record t { store = s } in
    if s.output_open
      && (drained_until t.ctx.evtq e.time
          && leb (effective_job_flush_interval s) s.departures_since_job_flush)
    then flush_completed_jobs t' e.time
    else ok t'

-- `sample` gives the delay of each draw for a number of nodes.
module _ (sample : ℕ → ℕ → ℕ) where
  -- The nodes leave the allocation and stay unavailable until a release event.
  unfoldable pub hold_nodes : Trace → ℕ → ℕ → ℕ → Trace
  hold_nodes t job_idx end_time nodes =
      let released = end_time + sample t.delay.drawn nodes in
      record t {
        ctx = record t.ctx {
          nodes_in_use = sub_nodes t.ctx.nodes_in_use nodes;
          nodes_releasing = add_nodes t.ctx.nodes_releasing nodes;
          evtq = insert (release job_idx released nodes) t.ctx.evtq;
        };
        delay = record t.delay {
          drawn = t.delay.drawn + 1;
          last_departure_delayed = true;
          last_release_time = released;
        };
      }

  unfoldable pub free_nodes : Trace → ℕ → Trace
  free_nodes t nodes = record t {
    ctx = record t.ctx { nodes_in_use = sub_nodes t.ctx.nodes_in_use nodes };
  }

  unfoldable pub finish_job_nodes : Trace → ℕ → ℕ → ℕ → Trace
  finish_job_nodes t job_idx end_time nodes =
      if t.delay.active
      then if leb t.delay.from_time end_time
        then hold_nodes t job_idx end_time nodes
        else free_nodes (record t { delay = record t.delay { last_departure_delayed = false } })
            nodes
      else free_nodes t nodes

  -- What both loops do for an event, which has left the queue.
  unfoldable pub apply_event : Trace → DrEvent → Result Trace
  apply_event t e =
      let released : Trace = record t {
        ctx = record t.ctx { nodes_releasing = sub_nodes t.ctx.nodes_releasing e.nodes };
      } in
      if is_release e
      then ok released
      else job_at t.store e.job_idx >>= λ job. ok (
          if is_arrival e
          then record t {
            ctx = record t.ctx { nodes_in_use = add_nodes t.ctx.nodes_in_use job.num_nodes };
          }
          else finish_job_nodes t e.job_idx e.time job.num_nodes)

  -- `process_single_event` on a queue that is not empty.
  unfoldable pub process_event : Trace → DrEvent → EventQueue → Result Trace
  process_event t e q = do
    let a = (← apply_event (pop_front t q) e)
    flush_after (record_resource_sample a e.time a.ctx.nodes_in_use) e

  unfoldable pub process_front : Trace → EventQueue → Result (Trace × Bool)
  process_front t [] = ok (t, false)
  process_front t (e ∷ q) = process_event t e q >>= λ t'. ok (t', true)

  unfoldable pub process_single_event : Trace → Result (Trace × Bool)
  process_single_event t = process_front t t.ctx.evtq

  -- The loop of `process_events_until`: the trace, and the departures processed. The source erases
  -- an event after applying it, and nothing in between reads the queue.
  unfoldable pub process_loop : ℕ → Trace → EventQueue → ℕ → ℕ → Result (Trace × ℕ)
  process_loop zero t q t_sub departures = throw out_of_fuel
  process_loop (suc fuel) t [] t_sub departures = ok (t, departures)
  process_loop (suc fuel) t (e ∷ q) t_sub departures =
      let rest = apply_event (pop_front t q) e >>= λ a.
      let r = record_resource_sample a e.time a.ctx.nodes_in_use in
      process_loop fuel r r.ctx.evtq t_sub
        (if is_departure e then suc departures else departures) in
      if ltb t_sub e.time then ok (t, departures) else rest

  unfoldable pub process_events_until : ℕ → Trace → ℕ → Result Trace
  process_events_until fuel t t_sub = do
    let (r, departures) = (← process_loop fuel t t.ctx.evtq t_sub 0)
    if departures == 0 then ok r else maybe_flush_completed_jobs r t_sub departures

  -- The loop of `run_until_inclusive`.
  unfoldable pub run_loop : ℕ → Trace → EventQueue → ℕ → Result Trace
  run_loop zero t q target_time = throw out_of_fuel
  run_loop (suc fuel) t [] target_time = ok t
  run_loop (suc fuel) t (e ∷ q) target_time =
      let rest =
        process_events_until fuel t e.time >>= λ r. run_loop fuel r r.ctx.evtq target_time in
      if ltb target_time e.time then ok t else rest

  unfoldable pub run_until_inclusive : ℕ → Trace → ℕ → Result Trace
  run_until_inclusive fuel t target_time = run_loop fuel t t.ctx.evtq target_time
