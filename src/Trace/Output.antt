-- ===== src/Trace/Output.antt =====
-- What the trace (src/trace/trace.cpp) writes and reclaims: the resource history and the front of
-- the job store.
use dr_evt.Base.{
  ℕ, suc, ◌+◌, ◌-◌, ◌*◌, max, min, Bool, true, false, not, ◌&&◌, List, [], ◌∷◌, ◌++◌, ltb, leb,
  ◌==◌, if◌then◌else◌, length, take, drop,
}
use dr_evt.Base.Int.{pos, ◌+ℤ◌}
use dr_evt.Base.Results.{Result, ok, throw, logic_error, ◌>>=◌}
use dr_evt.Events.{EventQueue}
use dr_evt.Trace.{
  JobRecord, ResourceSample, JobStore, Trace, unscheduled_sentinel, is_scheduled, get_wait_time,
}

unfoldable pub make_resource_sample : Trace → ℕ → ℕ → ResourceSample
make_resource_sample t time allocated = record {
  time = time;
  allocated = allocated;
  capacity = t.current_capacity;
  releasing = t.ctx.nodes_releasing;
}

unfoldable pub resolve_resource_history_capacity : Trace → Trace
resolve_resource_history_capacity t = if t.resource_history_resolved then t else record t {
  resource_history_capacity =
      if t.resource_history_capacity == 0
      then max (length t.store.records * 2) 4096
      else t.resource_history_capacity;
  resource_history_resolved = true;
}

-- The rows are dropped when no output is open.
unfoldable pub flush_resource_history : Trace → Trace
flush_resource_history t = record t {
  ctx = record t.ctx { resource_history = [] };
  resource_rows =
      if t.resource_output_open then t.resource_rows ++ t.ctx.resource_history else t.resource_rows;
}

unfoldable pub push_sample : Trace → ResourceSample → Trace
push_sample t sample = record t {
  ctx = record t.ctx { resource_history = t.ctx.resource_history ++ sample ∷ [] };
}

unfoldable pub record_resource_sample : Trace → ℕ → ℕ → Trace
record_resource_sample t time allocated =
    let r = resolve_resource_history_capacity t in
    let f =
      if length r.ctx.resource_history == r.resource_history_capacity
      then flush_resource_history r
      else r in
    push_sample f (make_resource_sample f time allocated)

unfoldable pub set_resource_capacity : Trace → ℕ → ℕ → Trace
set_resource_capacity t time capacity =
    let t' : Trace = record t { current_capacity = capacity } in
    record_resource_sample t' time t'.ctx.nodes_in_use

-- The earliest event, if any, is later.
unfoldable pub drained_until : EventQueue → ℕ → Bool
drained_until [] time = true
drained_until (e ∷ q) time = not (leb e.time time)

unfoldable pub is_job_reclaimable : Trace → ℕ → JobRecord → ℕ → Bool
is_job_reclaimable t job_id job current_time =
    if job.submit_time == unscheduled_sentinel
    then true
    else if t.replay_mode && leb t.replay_jobs_enqueued job_id
    then false
    else if drained_until t.ctx.evtq current_time
    then leb job.end_time current_time
    else false

unfoldable pub write_job_line : JobStore → JobRecord → JobStore
write_job_line s job =
    if is_scheduled job
    then record s {
      completed_count = s.completed_count + 1;
      wait_time_sum = s.wait_time_sum +ℤ get_wait_time job;
      turnaround_time_sum = s.turnaround_time_sum +ℤ (get_wait_time job +ℤ pos job.actual_run_time);
      makespan = max s.makespan (job.begin_time + job.actual_run_time);
      buffer = if s.output_open then s.buffer ++ job ∷ [] else s.buffer;
    }
    else s

-- The loop of `write_job_range`.
unfoldable pub write_lines : JobStore → ℕ → List JobRecord → JobStore
write_lines s through [] = s
write_lines s through (job ∷ jobs) =
    write_lines (if is_scheduled job && leb job.end_time through then write_job_line s job else s)
      through jobs

unfoldable pub write_job_range : JobStore → List JobRecord → ℕ → ℕ → Result JobStore
write_job_range s range first_job_id through =
    let skip = s.next_job_to_write - first_job_id in
    if ltb s.next_job_to_write first_job_id
    then throw logic_error
    else if leb (length range) skip
    then ok s
    else ok (record (write_lines s through (drop skip range)) {
      next_job_to_write = first_job_id + length range;
    })

unfoldable pub flush_simulated_trace_buffer : JobStore → JobStore
flush_simulated_trace_buffer s =
    if s.output_open then record s { written = s.written ++ s.buffer; buffer = [] } else s

-- Writes the first `count` records and removes them.
unfoldable pub reclaim : JobStore → ℕ → ℕ → Result JobStore
reclaim s count through = do
  let w =
      (← if count == 0
        then ok s
        else write_job_range s (take count s.records) s.num_reclaimed through)
  ok (record w { records = drop count w.records; num_reclaimed = w.num_reclaimed + count })

-- The scan of `flush_completed_jobs_impl`: how many records from the front on are reclaimable.
unfoldable pub reclaimable : Trace → ℕ → ℕ → List JobRecord → ℕ
reclaimable t current_time job_id [] = 0
reclaimable t current_time job_id (job ∷ jobs) =
    let rest = suc (reclaimable t current_time (suc job_id) jobs) in
    if is_job_reclaimable t job_id job current_time then rest else 0

unfoldable pub flush_completed_jobs : Trace → ℕ → Result Trace
flush_completed_jobs t current_time = do
  let count = reclaimable t current_time t.store.num_reclaimed t.store.records
  let s = (← reclaim t.store count current_time)
  ok (record t {
    store = record (flush_simulated_trace_buffer s) { departures_since_job_flush = 0 };
  })

unfoldable pub effective_job_flush_interval : JobStore → ℕ
effective_job_flush_interval s =
    if s.job_flush_interval == 0 then max s.capacity 1 else s.job_flush_interval

-- The counter of departures, which stops at the interval.
unfoldable pub count_departures : JobStore → ℕ → JobStore
count_departures s departures =
    let interval = effective_job_flush_interval s in
    record s {
      departures_since_job_flush =
          if leb (interval - min interval s.departures_since_job_flush) departures
          then interval
          else s.departures_since_job_flush + departures;
    }

unfoldable pub maybe_flush_completed_jobs : Trace → ℕ → ℕ → Result Trace
maybe_flush_completed_jobs t current_time departures =
    let s = count_departures t.store departures in
    if t.store.output_open
    then if leb (effective_job_flush_interval s) s.departures_since_job_flush
      then flush_completed_jobs (record t { store = s }) current_time
      else ok (record t { store = s })
    else ok t

-- `named`: a file name is given. Opening a file always succeeds here.
unfoldable pub write_simulated_trace : JobStore → Bool → ℕ → Result JobStore
write_simulated_trace s named through = if not named && not s.output_open then ok s else do
  let opened : JobStore = record s { output_open = true }
  let w = (← write_job_range opened opened.records opened.num_reclaimed through)
  ok (record (flush_simulated_trace_buffer w) { output_open = false })
